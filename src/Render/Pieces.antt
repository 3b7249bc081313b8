-- ===== src/Render/Pieces.antt =====
-- The escapes of src/format/html/html.c, and its trimming of a content, as pieces of HTML.
use lowdown.Prelude.{
  ℕ, zero, suc, ◌+◌, ◌*◌, ◌≤◌, ◌<◌, ◌≡◌, ◌≢◌, refl, sym, ap, ◌∙◌, Bool, true, false, List, [], ◌∷◌,
  ◌++◌, Bytes, length, All-map, take, take_all, length-take, get_or, inl, inr, Bool-cases, ltb,
  ◌==◌, isspace, skip_isspace, arith,
}
use lowdown.Buffer.{Buf, ◌>>◌, done, size, hbuf_put, hbuf_putb}
use lowdown.Format.Html.{lowdown_html_esc, lowdown_html_esc_attr, lowdown_html_esc_href}
use lowdown.Format.Html.Writes.{
  attr_text, href_text, esc_text, lowdown_html_esc-Writes, lowdown_html_esc_attr-Writes,
  lowdown_html_esc_href-Writes,
}
use lowdown.Format.Html.Sound.{
  NoMarkup, esc_text-NoMarkup, length-esc_text, attr_text-no_quote, length-attr_text,
}
use lowdown.Format.Html.Url.{href_text-UrlByte, length-href_text}
use lowdown.Render.{Html, escape_html, escape_literal, escape_href, escape_attr}
use lowdown.Render.Block.{trim_newlines, put_trimmed}
use lowdown.Render.Scan.{
  Scan, scan, step, scan-append, scan_plain, scan-value, step_space, IsWellFormed,
}
use lowdown.Render.Emits.{
  Emits, Emits-Writes, Emits-done, Emits-put, Emits-le, Emits-if, Emits-wrapped, Emits-putb,
}

NoMarkup-text : (secure : Bool) (c : ℕ) → NoMarkup secure c → (c ≢ b'<') × (c ≢ b'>')
NoMarkup-text true c (l, g, _, _) = (l, g)
NoMarkup-text false c h = h

module _ (k : List Bytes) (d : Bytes) where
  pub Emits-esc :
      (secure literal num : Bool)
      → Emits (6 * length d) (Scan.text k) (Scan.text k) (lowdown_html_esc d secure literal num)
  Emits-esc secure literal num =
      Emits-Writes (6 * length d) (Scan.text k) (Scan.text k) (esc_text secure literal num d)
        (lowdown_html_esc d secure literal num) (lowdown_html_esc-Writes d secure literal num)
        (length-esc_text d secure literal num)
        (scan_plain k (esc_text secure literal num d) (
          All-map (NoMarkup-text secure) (esc_text secure literal num d)
            (esc_text-NoMarkup d secure literal num)))

  pub Emits-esc_attr :
      (n : Bytes) → Emits (6 * length d) (Scan.value k n) (Scan.value k n) (lowdown_html_esc_attr d)
  Emits-esc_attr n =
      Emits-Writes (6 * length d) (Scan.value k n) (Scan.value k n) (attr_text d)
        (lowdown_html_esc_attr d) (lowdown_html_esc_attr-Writes d) (length-attr_text d)
        (scan-value k n (attr_text d) (attr_text-no_quote d))

  pub Emits-esc_href :
      (n : Bytes) → Emits (6 * length d) (Scan.value k n) (Scan.value k n) (lowdown_html_esc_href d)
  Emits-esc_href n =
      Emits-Writes (6 * length d) (Scan.value k n) (Scan.value k n) (href_text d)
        (lowdown_html_esc_href d) (lowdown_html_esc_href-Writes d) (length-href_text d)
        (scan-value k n (href_text d)
          (All-map (λ c h. ground arith) (href_text d) (href_text-UrlByte d)))

-- The same for the functions of the renderer.
module _ (k : List Bytes) (d : Bytes) (st : Html) where
  pub escape_html-Emits : Emits (6 * length d) (Scan.text k) (Scan.text k) (escape_html d st)
  unfolding escape_html
  escape_html-Emits = Emits-esc k d _ _ _

  pub escape_literal-Emits : Emits (6 * length d) (Scan.text k) (Scan.text k) (escape_literal d st)
  unfolding escape_literal
  escape_literal-Emits = Emits-esc k d _ _ _

  pub escape_href-Emits :
      (n : Bytes) → Emits (6 * length d) (Scan.value k n) (Scan.value k n) (escape_href d st)
  unfolding escape_href
  escape_href-Emits n = Emits-esc_href k d n

pub escape_attr-Emits :
    (k : List Bytes) (d n : Bytes)
    → Emits (6 * length d) (Scan.value k n) (Scan.value k n) (escape_attr d)
unfolding escape_attr
escape_attr-Emits k d n = Emits-esc_attr k d n

-- Cutting newlines off the end.
take-suc : (d : Bytes) (n : ℕ) → n < length d → take (suc n) d ≡ take n d ++ (get_or d n 0 ∷ [])
take-suc [] n h = elim h [ ]
take-suc (c ∷ cs) zero h = refl
take-suc (c ∷ cs) (suc n) h = ap (◌∷◌ c) (take-suc cs n (omega arith))

trim_newlines-scan :
    (p : Scan) (k : List Bytes) (d : Bytes) (n : ℕ)
    → n ≤ length d
    → scan p (take n d) ≡ Scan.text k
    → scan p (take (trim_newlines d n) d) ≡ Scan.text k
unfolding trim_newlines scan
trim_newlines-scan p k d zero h e = e
trim_newlines-scan p k d (suc n) h e = elim (Bool-cases (get_or d n 0 == b'\n')) [
  | inl t ↦ rw t (
      trim_newlines-scan p k d n (omega arith) (
        step_space (scan p (take n d)) (get_or d n 0) k (ground arith)
          (sym (scan-append p (take n d) (get_or d n 0 ∷ []))
            ∙ ap (scan p) (sym (take-suc d n (omega arith)))
            ∙ e)
          (ground arith)))
  | inr t ↦ rw t e
]

length-trim_newlines : (d : Bytes) (n : ℕ) → trim_newlines d n ≤ n
unfolding trim_newlines
length-trim_newlines d zero = omega arith
length-trim_newlines d (suc n) = ground (arith, length-trim_newlines d n)

pub put_trimmed-Emits :
    (k : List Bytes) (b : Buf)
    → IsWellFormed b.content
    → Emits (size b) (Scan.text k) (Scan.text k) (put_trimmed b)
unfolding put_trimmed IsWellFormed
put_trimmed-Emits k b w =
    Emits-if (size b) (Scan.text k) (Scan.text k) (ltb 0 (size b)) _ done
      (λ t.
        Emits-put (size b) (Scan.text k) (Scan.text k)
          (take (trim_newlines b.content (size b)) b.content)
          (omega (arith, length-take (trim_newlines b.content (size b)) b.content))
          (trim_newlines-scan (Scan.text k) k b.content (size b) (omega arith)
            (rw (take_all b.content) (w k))))
      (λ t. Emits-done (size b) (Scan.text k))

-- Cutting white space off the front, and newlines.
pub skip_isspace-scan :
    (k : List Bytes) (d : Bytes) → scan (Scan.text k) (skip_isspace d) ≡ scan (Scan.text k) d
unfolding skip_isspace isspace scan step
skip_isspace-scan k [] = refl
skip_isspace-scan k (c ∷ cs) = elim (Bool-cases (isspace c)) [
  | inl t ↦ rw (t, skip_isspace) (skip_isspace-scan k cs ∙ ap (λ p. scan p cs) (ground arith))
  | inr t ↦ rw (t, skip_isspace) refl
]

pub length-skip_isspace : (d : Bytes) → length (skip_isspace d) ≤ length d
unfolding skip_isspace
length-skip_isspace [] = omega arith
length-skip_isspace (c ∷ cs) = ground (arith, length-skip_isspace cs)

-- A content between two texts, of which the first opens the elements that the second one closes.
pub Emits-around :
    (k : List Bytes) (names : List Bytes) (before after : Bytes) (b : Buf)
    → IsWellFormed b.content
    → scan (Scan.text k) before ≡ Scan.text (names ++ k)
    → scan (Scan.text (names ++ k)) after ≡ Scan.text k
    → length before + length after ≤ 64
    → Emits
        (size b + 64)
        (Scan.text k)
        (Scan.text k)
        (hbuf_put before >> (hbuf_putb b >> hbuf_put after))
Emits-around k names before after b w e f le =
    let inner = Scan.text (names ++ k) in
    let m = hbuf_put before >> (hbuf_putb b >> hbuf_put after) in
    Emits-le (length before + (size b + length after)) (size b + 64) (Scan.text k) (Scan.text k) m
      (omega (arith, le))
      (Emits-wrapped (size b) (Scan.text k) inner inner (Scan.text k) before after (hbuf_putb b) e
        (Emits-putb (names ++ k) b w) f)
