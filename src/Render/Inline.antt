-- ===== src/Render/Inline.antt =====
-- The functions of src/format/html/html.c for inline content write well-formed HTML.
use lowdown.Prelude.{
  ◌+◌, ◌*◌, ◌≤◌, ◌≡◌, refl, Bool, true, false, ◌||◌, List, [], ◌∷◌, ◌++◌, some, Bytes, length,
  codes, drop, length-drop, is_nil, if◌then◌else◌, isalnum, arith,
}
use lowdown.Tree.{HalinkType}
use lowdown.Buffer.{Buf, ◌>>◌, done, size, hbuf_put, hbuf_putb, hbuf_printf}
use lowdown.Render.{
  Html, flag, skip_html, html_escape, escape_html, escape_href, text_prefix, mail_scheme,
  rndr_autolink, rndr_codespan, rndr_strikethrough, rndr_double_emphasis, rndr_emphasis,
  rndr_highlight, rndr_linebreak, rndr_triple_emphasis, rndr_raw_html, rndr_superscript,
  rndr_normal_text, rndr_math,
}
use lowdown.Render.Scan.{Scan, scan, step, between, pop, name_byte, IsWellFormed}
use lowdown.Render.Emits.{
  Emits, Renders, Emits->>, Emits-le, Emits-done, Emits-put, Emits-printf, Emits-putb, Emits-if,
  Emits-wrapped,
}
use lowdown.Render.Pieces.{escape_html-Emits, escape_href-Emits, Emits-around}

-- The functions that put a content into elements.
module _ (k : List Bytes) (b : Buf) (w : IsWellFormed b.content) where
  pub rndr_strikethrough-Emits : Renders (size b + 64) k (rndr_strikethrough b)
  unfolding rndr_strikethrough scan step between pop name_byte isalnum
  rndr_strikethrough-Emits =
      Emits-around k (codes "del" ∷ []) (codes "<del>") (codes "</del>") b w refl refl (omega arith)

  pub rndr_double_emphasis-Emits : Renders (size b + 64) k (rndr_double_emphasis b)
  unfolding rndr_double_emphasis scan step between pop name_byte isalnum
  rndr_double_emphasis-Emits =
      Emits-around k (codes "strong" ∷ []) (codes "<strong>") (codes "</strong>") b w refl refl
        (omega arith)

  pub rndr_emphasis-Emits : Renders (size b + 64) k (rndr_emphasis b)
  unfolding rndr_emphasis scan step between pop name_byte isalnum
  rndr_emphasis-Emits =
      Emits-around k (codes "em" ∷ []) (codes "<em>") (codes "</em>") b w refl refl (omega arith)

  pub rndr_highlight-Emits : Renders (size b + 64) k (rndr_highlight b)
  unfolding rndr_highlight scan step between pop name_byte isalnum
  rndr_highlight-Emits =
      Emits-around k (codes "mark" ∷ []) (codes "<mark>") (codes "</mark>") b w refl refl
        (omega arith)

  pub rndr_triple_emphasis-Emits : Renders (size b + 64) k (rndr_triple_emphasis b)
  unfolding rndr_triple_emphasis scan step between pop name_byte isalnum
  rndr_triple_emphasis-Emits =
      Emits-around k (codes "em" ∷ codes "strong" ∷ []) (codes "<strong><em>")
        (codes "</em></strong>") b w refl refl (omega arith)

  printed-Emits :
      (names : List Bytes) (before after : Bytes)
      → scan (Scan.text k) before ≡ Scan.text (names ++ k)
      → scan (Scan.text (names ++ k)) after ≡ Scan.text k
      → length before + length after ≤ 62
      → Renders
          (size b + 64)
          k
          (hbuf_printf (some before) >> (hbuf_putb b >> hbuf_printf (some after)))
  printed-Emits names before after e f le =
      let inner = Scan.text (names ++ k) in
      let rest = hbuf_putb b >> hbuf_printf (some after) in
      Emits-le (length before + 1 + (size b + (length after + 1))) (size b + 64) (Scan.text k)
        (Scan.text k) (hbuf_printf (some before) >> rest) (omega (arith, le))
        (Emits->> (length before + 1) (size b + (length after + 1)) (Scan.text k) inner
          (Scan.text k) (hbuf_printf (some before)) rest
          (Emits-printf (length before + 1) (omega (arith, le)) (Scan.text k) inner before
            (omega arith) e)
          (Emits->> (size b) (length after + 1) inner inner (Scan.text k) (hbuf_putb b)
            (hbuf_printf (some after)) (Emits-putb (names ++ k) b w)
            (Emits-printf (length after + 1) (omega (arith, le)) inner (Scan.text k) after
              (omega arith) f)))

  pub rndr_superscript-Emits : (type : Bool) → Renders (size b + 64) k (rndr_superscript b type)
  unfolding rndr_superscript scan step between pop name_byte isalnum
  rndr_superscript-Emits true =
      printed-Emits (codes "sup" ∷ []) (codes "<sup>") (codes "</sup>") refl refl (omega arith)
  rndr_superscript-Emits false =
      printed-Emits (codes "sub" ∷ []) (codes "<sub>") (codes "</sub>") refl refl (omega arith)

pub rndr_linebreak-Emits : (k : List Bytes) → Renders 6 k rndr_linebreak
unfolding rndr_linebreak scan step between pop name_byte isalnum
rndr_linebreak-Emits k =
    Emits-put 6 (Scan.text k) (Scan.text k) (codes "<br/>\n") (omega arith) refl

-- The functions that write a text.
module _ (k : List Bytes) (d : Bytes) (st : Html) where
  text_around-Emits :
      (names : List Bytes) (before after : Bytes)
      → scan (Scan.text k) before ≡ Scan.text (names ++ k)
      → scan (Scan.text (names ++ k)) after ≡ Scan.text k
      → length before + length after ≤ 64
      → Renders (6 * length d + 64) k (hbuf_put before >> (escape_html d st >> hbuf_put after))
  text_around-Emits names before after e f le =
      let inner = Scan.text (names ++ k) in
      Emits-le (length before + (6 * length d + length after)) (6 * length d + 64) (Scan.text k)
        (Scan.text k) (hbuf_put before >> (escape_html d st >> hbuf_put after)) (omega (arith, le))
        (Emits-wrapped (6 * length d) (Scan.text k) inner inner (Scan.text k) before after
          (escape_html d st) e (escape_html-Emits (names ++ k) d st) f)

  pub rndr_codespan-Emits : Renders (6 * length d + 64) k (rndr_codespan d st)
  unfolding rndr_codespan scan step between pop name_byte isalnum
  rndr_codespan-Emits =
      text_around-Emits (codes "code" ∷ []) (codes "<code>") (codes "</code>") refl refl
        (omega arith)

  pub rndr_math-Emits :
      (blockmode : Bool) → Renders (6 * length d + 64) k (rndr_math d blockmode st)
  unfolding rndr_math scan step between pop name_byte isalnum
  rndr_math-Emits true = text_around-Emits [] (codes "\\[") (codes "\\]") refl refl (omega arith)
  rndr_math-Emits false = text_around-Emits [] (codes "\\(") (codes "\\)") refl refl (omega arith)

  pub rndr_normal_text-Emits : Renders (6 * length d) k (rndr_normal_text d st)
  unfolding rndr_normal_text
  rndr_normal_text-Emits = escape_html-Emits k d st

  -- Raw HTML is left out or escaped under the one flag or the other.
  pub rndr_raw_html-Emits :
      (flag st.flags skip_html || flag st.flags html_escape) ≡ true
      → Renders (6 * length d) k (rndr_raw_html d st)
  unfolding rndr_raw_html
  rndr_raw_html-Emits h =
      Emits-if (6 * length d) (Scan.text k) (Scan.text k) (flag st.flags skip_html) done _
        (λ t. Emits-done (6 * length d) (Scan.text k))
        (λ t.
          Emits-if (6 * length d) (Scan.text k) (Scan.text k) (flag st.flags html_escape)
            (escape_html d st) (hbuf_put d) (λ u. escape_html-Emits k d st)
            (λ u. absurd (ground arith)))

mail_scheme-Emits :
    (k : List Bytes) (n : Bytes) (type : HalinkType)
    → Emits 7 (Scan.value k n) (Scan.value k n) (mail_scheme type)
unfolding mail_scheme scan step
mail_scheme-Emits k n HalinkType.none = Emits-done 7 (Scan.value k n)
mail_scheme-Emits k n HalinkType.normal = Emits-done 7 (Scan.value k n)
mail_scheme-Emits k n HalinkType.email =
    Emits-put 7 (Scan.value k n) (Scan.value k n) (codes "mailto:") (omega arith) refl

-- The link in the attribute and as the content of the element.
pub rndr_autolink-Emits :
    (k : List Bytes) (link : Bytes) (type : HalinkType) (st : Html)
    → Renders (12 * length link + 64) k (rndr_autolink link type st)
unfolding rndr_autolink scan step between pop name_byte isalnum
rndr_autolink-Emits k link type st =
    let n = length link in
    let shown = if text_prefix link (codes "mailto:") then drop 7 link else link in
    let value = Scan.value k (codes "a") in
    let inner = Scan.text (codes "a" ∷ k) in
    let tail = hbuf_put (codes "\">") >> (escape_html shown st >> hbuf_put (codes "</a>")) in
    let le : length shown ≤ n = ground (arith, length-drop 7 link) in
    let tail-Emits : Emits (6 * n + 6) value (Scan.text k) tail =
      Emits-le (2 + (6 * length shown + 4)) (6 * n + 6) value (Scan.text k) tail (omega arith) (
        Emits-wrapped (6 * length shown) value inner inner (Scan.text k) (codes "\">")
          (codes "</a>") (escape_html shown st) refl (escape_html-Emits (codes "a" ∷ k) shown st)
          refl) in
    Emits-if (12 * n + 64) (Scan.text k) (Scan.text k) (is_nil link) done _
      (λ t. Emits-done (12 * n + 64) (Scan.text k))
      (λ t.
        Emits-le (9 + (7 + (6 * n + (6 * n + 6)))) (12 * n + 64) (Scan.text k) (Scan.text k) _
          (omega arith)
          (Emits->> 9 (7 + (6 * n + (6 * n + 6))) (Scan.text k) value (Scan.text k)
            (hbuf_put (codes "<a href=\"")) _
            (Emits-put 9 (Scan.text k) value (codes "<a href=\"") (omega arith) refl)
            (Emits->> 7 (6 * n + (6 * n + 6)) value value (Scan.text k) (mail_scheme type) _
              (mail_scheme-Emits k (codes "a") type)
              (Emits->> (6 * n) (6 * n + 6) value value (Scan.text k) (escape_href link st) tail
                (escape_href-Emits k link st (codes "a")) tail-Emits))))
