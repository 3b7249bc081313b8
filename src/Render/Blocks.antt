-- ===== src/Render/Blocks.antt =====
-- The functions of src/format/html/html.c for blocks write well-formed HTML.
use lowdown.Prelude.{
  ℕ, ◌+◌, ◌≤◌, ◌≡◌, refl, ◌∙◌, false, List, [], ◌∷◌, Bytes, length, codes, is_nil, isalnum, arith,
  ◌==◌, skip_isspace,
}
use lowdown.Buffer.{Buf, M, ◌>>◌, done, size, hbuf_put, hbuf_puts}
use lowdown.Render.{Html, flag, html_hard_wrap, newline}
use lowdown.Render.Block.{
  rndr_definition_data, rndr_definition_title, rndr_definition, put_trimmed, rndr_paragraph,
  rndr_hrule,
}
use lowdown.Render.Table.{rndr_table, rndr_table_header, rndr_table_body, rndr_table_row}
use lowdown.Render.Scan.{Scan, scan, step, between, pop, name_byte, IsWellFormed}
use lowdown.Render.Emits.{
  Renders, Emits->>, Emits-le, Emits-done, Emits-put, Emits-puts, Emits-if, Emits-wrapped,
  Emits-newline,
}
use lowdown.Render.Pieces.{Emits-around, put_trimmed-Emits, skip_isspace-scan, length-skip_isspace}

pub line-Emits :
    (n : ℕ) (k : List Bytes) (m : M (Unit {0})) → Renders n k m → Renders (1 + n) k (newline >> m)
line-Emits n k m h =
    Emits->> 1 n (Scan.text k) (Scan.text k) (Scan.text k) newline m (Emits-newline k) h

pub rndr_hrule-Emits : (k : List Bytes) → Renders 7 k rndr_hrule
unfolding rndr_hrule scan step between pop name_byte isalnum
rndr_hrule-Emits k =
    line-Emits 6 k (hbuf_puts (codes "<hr/>\n"))
      (Emits-puts 6 (Scan.text k) (Scan.text k) (codes "<hr/>\n") (omega arith) refl)

-- The blocks that put a content into elements.
module _ (k : List Bytes) (b : Buf) (w : IsWellFormed b.content) where
  pub rndr_definition_data-Emits : Renders (size b + 64) k (rndr_definition_data b)
  unfolding rndr_definition_data scan step between pop name_byte isalnum
  rndr_definition_data-Emits =
      Emits-around k (codes "dd" ∷ []) (codes "<dd>\n") (codes "\n</dd>\n") b w refl refl
        (omega arith)

  pub rndr_table_row-Emits : Renders (size b + 64) k (rndr_table_row b)
  unfolding rndr_table_row scan step between pop name_byte isalnum
  rndr_table_row-Emits =
      Emits-around k (codes "tr" ∷ []) (codes "<tr>\n") (codes "</tr>\n") b w refl refl
        (omega arith)

  pub rndr_definition-Emits : Renders (1 + (size b + 64)) k (rndr_definition b)
  unfolding rndr_definition scan step between pop name_byte isalnum
  rndr_definition-Emits = line-Emits (size b + 64) k _ (
      Emits-around k (codes "dl" ∷ []) (codes "<dl>\n") (codes "</dl>\n") b w refl refl
        (omega arith))

  pub rndr_table-Emits : Renders (1 + (size b + 64)) k (rndr_table b)
  unfolding rndr_table scan step between pop name_byte isalnum
  rndr_table-Emits = line-Emits (size b + 64) k _ (
      Emits-around k (codes "table" ∷ []) (codes "<table>\n") (codes "</table>\n") b w refl refl
        (omega arith))

  pub rndr_table_header-Emits : Renders (1 + (size b + 64)) k (rndr_table_header b)
  unfolding rndr_table_header scan step between pop name_byte isalnum
  rndr_table_header-Emits = line-Emits (size b + 64) k _ (
      Emits-around k (codes "thead" ∷ []) (codes "<thead>\n") (codes "</thead>\n") b w refl refl
        (omega arith))

  pub rndr_table_body-Emits : Renders (1 + (size b + 64)) k (rndr_table_body b)
  unfolding rndr_table_body scan step between pop name_byte isalnum
  rndr_table_body-Emits =
      Emits-if (1 + (size b + 64)) (Scan.text k) (Scan.text k) (size b == 0) done _
        (λ t. Emits-done (1 + (size b + 64)) (Scan.text k))
        (λ t. line-Emits (size b + 64) k _ (
          Emits-around k (codes "tbody" ∷ []) (codes "<tbody>\n") (codes "</tbody>\n") b w refl refl
            (omega arith)))

  pub rndr_definition_title-Emits : Renders (size b + 64) k (rndr_definition_title b)
  unfolding rndr_definition_title scan step between pop name_byte isalnum
  rndr_definition_title-Emits =
      let inner = Scan.text (codes "dt" ∷ k) in
      Emits-le (4 + (size b + 6)) (size b + 64) (Scan.text k) (Scan.text k)
        (rndr_definition_title b) (omega arith)
        (Emits-wrapped (size b) (Scan.text k) inner inner (Scan.text k) (codes "<dt>")
          (codes "</dt>\n") (put_trimmed b) refl (put_trimmed-Emits (codes "dt" ∷ k) b w) refl)

  -- Without hard line breaks.
  pub rndr_paragraph-Emits :
      (st : Html)
      → flag st.flags html_hard_wrap ≡ false
      → Renders (1 + (size b + 64)) k (rndr_paragraph b st)
  unfolding rndr_paragraph scan step between pop name_byte isalnum IsWellFormed
  rndr_paragraph-Emits st soft =
      let d = skip_isspace b.content in
      let inner = Scan.text (codes "p" ∷ k) in
      let le : length d ≤ size b = length-skip_isspace b.content in
      Emits-if (1 + (size b + 64)) (Scan.text k) (Scan.text k) (is_nil d) done _
        (λ t. Emits-done (1 + (size b + 64)) (Scan.text k))
        (λ t. line-Emits (size b + 64) k _ (
          rw soft (
            Emits-le (3 + (length d + 5)) (size b + 64) (Scan.text k) (Scan.text k) _ (omega arith)
              (Emits-wrapped (length d) (Scan.text k) inner inner (Scan.text k) (codes "<p>")
                (codes "</p>\n") (hbuf_put d) refl
                (Emits-put (length d) inner inner d (omega arith)
                  (skip_isspace-scan (codes "p" ∷ k) b.content ∙ w (codes "p" ∷ k)))
                refl))))
