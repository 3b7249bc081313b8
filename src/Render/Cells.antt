-- ===== src/Render/Cells.antt =====
-- The functions of src/format/html/html.c for code, quotes, lists, cells and raw HTML write well-formed HTML.
use lowdown.Prelude.{
  ℕ, ◌+◌, ◌*◌, ◌%◌, ◌≤◌, ◌≡◌, refl, true, not, ◌||◌, List, ◌∷◌, Bytes, length, codes, is_nil,
  if◌then◌else◌, isalnum, arith, ◌==◌, inl, inr, Bool-cases,
}
use lowdown.Buffer.{Buf, ◌>>◌, done, size, hbuf_put, hbuf_putb}
use lowdown.Render.{
  Html, flag, skip_html, html_escape, htbl_header, escape_html, escape_literal, escape_href,
}
use lowdown.Render.Block.{rndr_blockcode, rndr_raw_block}
use lowdown.Render.Table.{cell_style, rndr_tablecell}
use lowdown.Render.Blocks.{line-Emits}
use lowdown.Render.Scan.{Scan, scan, step, between, pop, name_byte, IsWellFormed}
use lowdown.Render.Emits.{
  Emits, Renders, Emits->>, Emits-le, Emits-done, Emits-put, Emits-putb, Emits-if, Emits-wrapped,
}
use lowdown.Render.Pieces.{escape_html-Emits, escape_literal-Emits, escape_href-Emits}

-- The language is a class in a start tag.
code_tag-Emits :
    (k : List Bytes) (lang : Bytes) (st : Html)
    → Emits (6 * length lang + 30) (Scan.text k) (Scan.text (codes "code" ∷ codes "pre" ∷ k)) (
        if not (is_nil lang)
        then hbuf_put (codes "<pre><code class=\"language-")
          >> (escape_href lang st >> hbuf_put (codes "\">"))
        else hbuf_put (codes "<pre><code>"))
unfolding scan step between pop name_byte isalnum
code_tag-Emits k lang st =
    let n = 6 * length lang in
    let value = Scan.value (codes "pre" ∷ k) (codes "code") in
    let inner = Scan.text (codes "code" ∷ codes "pre" ∷ k) in
    Emits-if (n + 30) (Scan.text k) inner (not (is_nil lang)) _ _
      (λ t. Emits-le (27 + (n + 2)) (n + 30) (Scan.text k) inner _ (omega arith) (
        Emits-wrapped n (Scan.text k) value value inner (codes "<pre><code class=\"language-")
          (codes "\">") (escape_href lang st) refl
          (escape_href-Emits (codes "pre" ∷ k) lang st (codes "code")) refl))
      (λ t. Emits-put (n + 30) (Scan.text k) inner (codes "<pre><code>") (omega arith) refl)

pub rndr_blockcode-Emits :
    (k : List Bytes) (text lang : Bytes) (st : Html)
    → Renders (6 * length text + 6 * length lang + 64) k (rndr_blockcode text lang st)
unfolding rndr_blockcode scan step between pop name_byte isalnum
rndr_blockcode-Emits k text lang st =
    let n = 6 * length lang in
    let m = 6 * length text in
    let inner = Scan.text (codes "code" ∷ codes "pre" ∷ k) in
    Emits-le (1 + ((n + 30) + (m + 14))) (m + n + 64) (Scan.text k) (Scan.text k)
      (rndr_blockcode text lang st) (omega arith)
      (line-Emits ((n + 30) + (m + 14)) k _ (
        Emits->> (n + 30) (m + 14) (Scan.text k) inner (Scan.text k) _ _ (code_tag-Emits k lang st)
          (Emits->> m 14 inner inner (Scan.text k) (escape_literal text st)
            (hbuf_put (codes "</code></pre>\n"))
            (escape_literal-Emits (codes "code" ∷ codes "pre" ∷ k) text st)
            (Emits-put 14 inner (Scan.text k) (codes "</code></pre>\n") (omega arith) refl))))

-- Raw HTML is left out or escaped under the one flag or the other.
pub rndr_raw_block-Emits :
    (k : List Bytes) (d : Bytes) (st : Html)
    → (flag st.flags skip_html || flag st.flags html_escape) ≡ true
    → Renders (6 * length d) k (rndr_raw_block d st)
unfolding rndr_raw_block
rndr_raw_block-Emits k d st h =
    Emits-if (6 * length d) (Scan.text k) (Scan.text k) (flag st.flags skip_html) done _
      (λ t. Emits-done (6 * length d) (Scan.text k))
      (λ t.
        Emits-if (6 * length d) (Scan.text k) (Scan.text k) (flag st.flags html_escape)
          (escape_html d st) _ (λ u. escape_html-Emits k d st) (λ u. absurd (ground arith)))

cell_style-scan :
    (k : List Bytes) (n : Bytes) (align : ℕ)
    → (scan (Scan.name k n) (cell_style align) ≡ Scan.text (n ∷ k))
      × (length (cell_style align) ≤ 29)
unfolding cell_style scan step between pop name_byte isalnum
cell_style-scan k n align = elim (Bool-cases (align == 3)) [
  | inl t ↦ rw t (refl, omega arith)
  | inr t ↦ elim (Bool-cases (align == 1)) [
    | inl u ↦ rw (t, u) (refl, omega arith)
    | inr u ↦ elim (Bool-cases (align == 2)) [
      | inl v ↦ rw (t, u, v) (refl, omega arith)
      | inr v ↦ rw (t, u, v) (refl, omega arith)
    ]
  ]
]

module _ (k : List Bytes) (b : Buf) (w : IsWellFormed b.content) (flags : ℕ) where
  cell-Emits :
      (n open' close' : Bytes)
      → scan (Scan.text k) open' ≡ Scan.name k n
      → scan (Scan.text (n ∷ k)) close' ≡ Scan.text k
      → length open' ≤ 3
      → length close' ≤ 6
      → Renders (size b + 64) k (
          hbuf_put open' >> (hbuf_put (cell_style (flags % 4)) >> (hbuf_putb b >> hbuf_put close')))
  cell-Emits n open' close' e f l m =
      let inner = Scan.text (n ∷ k) in
      let (style, le) = cell_style-scan k n (flags % 4) in
      Emits-le (3 + (29 + (size b + 6))) (size b + 64) (Scan.text k) (Scan.text k) _ (omega arith) (
        Emits->> 3 (29 + (size b + 6)) (Scan.text k) (Scan.name k n) (Scan.text k) (hbuf_put open')
          _ (Emits-put 3 (Scan.text k) (Scan.name k n) open' l e)
          (Emits->> 29 (size b + 6) (Scan.name k n) inner (Scan.text k)
            (hbuf_put (cell_style (flags % 4))) _
            (Emits-put 29 (Scan.name k n) inner (cell_style (flags % 4)) le style)
            (Emits->> (size b) 6 inner inner (Scan.text k) (hbuf_putb b) (hbuf_put close')
              (Emits-putb (n ∷ k) b w) (Emits-put 6 inner (Scan.text k) close' m f))))

  pub rndr_tablecell-Emits : Renders (size b + 64) k (rndr_tablecell b flags)
  unfolding rndr_tablecell scan step between pop name_byte isalnum
  rndr_tablecell-Emits = elim (Bool-cases (flag flags htbl_header)) [
    | inl t ↦ rw t (
        cell-Emits (codes "th") (codes "<th") (codes "</th>\n") refl refl (omega arith)
          (omega arith))
    | inr t ↦ rw t (
        cell-Emits (codes "td") (codes "<td") (codes "</td>\n") refl refl (omega arith)
          (omega arith))
  ]
