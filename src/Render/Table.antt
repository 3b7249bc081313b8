-- ===== src/Render/Table.antt =====
-- The functions of src/format/html/html.c for tables.
use lowdown.Prelude.{ℕ, ◌%◌, Bytes, codes, ◌==◌, if◌then◌else◌}
use lowdown.Buffer.{Buf, M, ◌>>◌, done, size, hbuf_put, hbuf_putb}
use lowdown.Render.{flag, htbl_header, newline}

unfoldable pub rndr_table : Buf → M (Unit {0})
rndr_table content =
    newline
    >> (hbuf_put (codes "<table>\n") >> (hbuf_putb content >> hbuf_put (codes "</table>\n")))

unfoldable pub rndr_table_header : Buf → M (Unit {0})
rndr_table_header content =
    newline
    >> (hbuf_put (codes "<thead>\n") >> (hbuf_putb content >> hbuf_put (codes "</thead>\n")))

unfoldable pub rndr_table_body : Buf → M (Unit {0})
rndr_table_body content =
    if size content == 0
    then done
    else newline
      >> (hbuf_put (codes "<tbody>\n") >> (hbuf_putb content >> hbuf_put (codes "</tbody>\n")))

unfoldable pub rndr_table_row : Buf → M (Unit {0})
rndr_table_row content =
    hbuf_put (codes "<tr>\n") >> (hbuf_putb content >> hbuf_put (codes "</tr>\n"))

-- The flags under HTBL_FL_ALIGNMASK: 1 is left, 2 is right and 3 is the centre.
unfoldable pub cell_style : ℕ → Bytes
cell_style align =
    if align == 3
    then codes " style=\"text-align: center\">"
    else if align == 1
    then codes " style=\"text-align: left\">"
    else if align == 2
    then codes " style=\"text-align: right\">"
    else codes ">"

unfoldable pub rndr_tablecell : Buf → ℕ → M (Unit {0})
unfolding cell_style
rndr_tablecell content flags =
    (if flag flags htbl_header then hbuf_put (codes "<th") else hbuf_put (codes "<td"))
    >> (hbuf_put (cell_style (flags % 4))
        >> (hbuf_putb content
            >> (if flag flags htbl_header
                then hbuf_put (codes "</th>\n")
                else hbuf_put (codes "</td>\n"))))
