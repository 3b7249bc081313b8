-- ===== src/Render/Foot.antt =====
-- The footnotes of src/format/html/html.c: rndr_footnote_def, rndr_footnote_ref and
-- rndr_doc_footer.
use lowdown.Prelude.{
  ℕ, zero, suc, ◌+◌, false, not, ◌&&◌, ◌||◌, List, [], ◌∷◌, ◌++◌, Option, none, some, Bytes, codes,
  length, take, drop, get_or, ltb, ◌==◌, if◌then◌else◌,
}
use lowdown.Buffer.{
  Buf, Out, fault, M, ◌>>◌, done, size, granted, rest, hbuf_put, hbuf_putb, hbuf_printf,
}
use lowdown.Buffer.Copy.{made, broken, hbuf_dup}
use lowdown.Ident.{decimal}
use lowdown.Render.{Html, newline}
use lowdown.Render.State.{Rendered, rendered, lost, lift}

-- The position of the first end tag of a paragraph, with fuel; the test of the third byte reads
-- the fourth one for `P`.
unfoldable pub anchor : ℕ → Bytes → ℕ → Option ℕ
anchor zero d i = none
anchor (suc fuel) d i =
    let one = anchor fuel d (i + 1) in
    let two = anchor fuel d (i + 2) in
    let three = anchor fuel d (i + 3) in
    if not (ltb (i + 3) (length d))
    then none
    else if not (get_or d i 0 == b'<')
    then one
    else if not (get_or d (i + 1) 0 == b'/')
    then two
    else if (not (get_or d (i + 2) 0 == b'p') && not (get_or d (i + 3) 0 == b'P'))
        || not (get_or d (i + 3) 0 == b'>')
    then three
    else some i

unfoldable pub back_link : ℕ → M (Unit {0})
back_link num = hbuf_printf (
    some
      (codes "&#160;<a href=\"#fnref" ++ (decimal num ++ codes "\" rev=\"footnote\">&#8617;</a>")))

unfoldable pub put_with_link : Buf → ℕ → Option ℕ → M (Unit {0})
unfolding back_link
put_with_link content num none = hbuf_putb content
put_with_link content num (some i) =
    hbuf_put (take i content.content) >> (back_link num >> hbuf_put (drop i content.content))

unfoldable pub rndr_footnote_def : Buf → ℕ → M (Unit {0})
unfolding anchor put_with_link
rndr_footnote_def content num =
    hbuf_printf (some (codes "\n<li id=\"fn" ++ (decimal num ++ codes "\">\n")))
    >> (put_with_link content num (anchor (size content) content.content 0)
        >> hbuf_put (codes "</li>\n"))

unfoldable pub footnote_mark : ℕ → M (Unit {0})
footnote_mark num = hbuf_printf (
    some (
      codes "<sup id=\"fnref"
      ++ (decimal num
          ++ (codes "\"><a href=\"#fn"
              ++ (decimal num
                  ++ (codes "\" rel=\"footnote\">" ++ (decimal num ++ codes "</a></sup>")))))))

-- A place for the copy, and the copy.
unfoldable pub rndr_footnote_ref : Buf → Html → Out → Rendered
unfolding footnote_mark lift
rndr_footnote_ref content st s =
    if granted s.sched
    then (elim (hbuf_dup content (rest s.sched)) [
      | made (some b) m ↦
          lift (footnote_mark (length st.foots + 1))
            (record st { foots = st.foots ++ (some b ∷ []) }) (record s { sched = m })
      | made none m ↦
          rendered false (record st { foots = st.foots ++ (none ∷ []) }) (record s { sched = m })
      | broken ↦ lost
    ])
    else rendered false st (record s { sched = rest s.sched })

-- `for (i = 0; i < st->footsz; i++)`
unfoldable pub foot_loop : ℕ → List (Option Buf) → M (Unit {0})
unfolding rndr_footnote_def
foot_loop num [] = done
foot_loop num (none ∷ foots) = λ s. fault
foot_loop num (some b ∷ foots) = rndr_footnote_def b num >> foot_loop (num + 1) foots

unfoldable pub rndr_doc_footer : Html → M (Unit {0})
unfolding foot_loop
rndr_doc_footer st =
    if length st.foots == 0
    then done
    else newline
      >> (hbuf_put (codes "<div class=\"footnotes\">\n<hr/>\n<ol>\n")
          >> (foot_loop 1 st.foots >> hbuf_put (codes "\n</ol>\n</div>\n")))
