-- ===== src/Render/Block.antt =====
-- The functions of src/format/html/html.c for blocks.
use lowdown.Prelude.{
  ℕ, zero, suc, Bool, true, false, not, ◌&&◌, ◌||◌, List, [], ◌∷◌, ◌++◌, some, Bytes, codes, length,
  take, drop, is_nil, get_or, leb, ltb, ◌==◌, if◌then◌else◌, skip_isspace,
}
use lowdown.Tree.{Kind, BlockquoteType, AdmonitionType}
use lowdown.Buffer.{
  Buf, M, ok, failed, fault, ◌>>◌, done, size, hbuf_put, hbuf_putb, hbuf_putc, hbuf_puts,
  hbuf_printf,
}
use lowdown.Buffer.Copy.{hbuf_strprefix}
use lowdown.Ident.{decimal}
use lowdown.Render.{
  Html, flag, skip_html, html_escape, html_hard_wrap, html_callout_gfm, html_callout_mdn,
  hlist_ordered, hlist_block, hlist_def, hlist_checked, hlist_unchecked, escape_html,
  escape_literal, escape_href, newline, rndr_linebreak,
}

unfoldable pub rndr_blockcode : Bytes → Bytes → Html → M (Unit {0})
rndr_blockcode text lang st =
    newline
    >> ((if not (is_nil lang)
          then hbuf_put (codes "<pre><code class=\"language-")
            >> (escape_href lang st >> hbuf_put (codes "\">"))
          else hbuf_put (codes "<pre><code>"))
        >> (escape_literal text st >> hbuf_put (codes "</code></pre>\n")))

unfoldable pub rndr_definition_data : Buf → M (Unit {0})
rndr_definition_data content =
    hbuf_put (codes "<dd>\n") >> (hbuf_putb content >> hbuf_put (codes "\n</dd>\n"))

-- `while (sz && content->data[sz - 1] == '\n')`
unfoldable pub trim_newlines : Bytes → ℕ → ℕ
trim_newlines d zero = 0
trim_newlines d (suc sz) =
    let lower = trim_newlines d sz in if get_or d sz 0 == b'\n' then lower else suc sz

unfoldable pub put_trimmed : Buf → M (Unit {0})
unfolding trim_newlines
put_trimmed content =
    if ltb 0 (size content)
    then hbuf_put (take (trim_newlines content.content (size content)) content.content)
    else done

unfoldable pub rndr_definition_title : Buf → M (Unit {0})
unfolding put_trimmed
rndr_definition_title content =
    hbuf_put (codes "<dt>") >> (put_trimmed content >> hbuf_put (codes "</dt>\n"))

unfoldable pub rndr_definition : Buf → M (Unit {0})
rndr_definition content =
    newline >> (hbuf_put (codes "<dl>\n") >> (hbuf_putb content >> hbuf_put (codes "</dl>\n")))

unfoldable pub is_regular : BlockquoteType → Bool
is_regular BlockquoteType.regular = true
is_regular _ = false

unfoldable pub is_callout : AdmonitionType → Bool
is_callout AdmonitionType.callout = true
is_callout _ = false

unfoldable pub mdn_class : AdmonitionType → Bytes
mdn_class AdmonitionType.note = codes "notecard note"
mdn_class AdmonitionType.warning = codes "notecard warning"
mdn_class _ = codes "callout"

unfoldable pub gfm_class : AdmonitionType → Bytes
gfm_class AdmonitionType.note = codes "note"
gfm_class AdmonitionType.warning = codes "warning"
gfm_class _ = codes "callout"

-- `while (i < content->size && content->data[i] == ' ')`, from the bytes behind `i`.
unfoldable pub skip_spaces : Bytes → Bytes
skip_spaces [] = []
skip_spaces (c ∷ cs) = let later = skip_spaces cs in if c == b' ' then later else c ∷ cs

unfoldable pub put_quoted : AdmonitionType → Buf → M (Unit {0})
unfolding is_callout skip_spaces
put_quoted admonition content =
    if is_callout admonition && ltb 28 (size content)
    then hbuf_put (codes "<p>") >> hbuf_put (skip_spaces (drop 28 content.content))
    else hbuf_putb content

unfoldable pub callout_classes : Html → AdmonitionType → M (Unit {0})
unfolding mdn_class gfm_class
callout_classes st admonition =
    (if flag st.flags html_callout_mdn then hbuf_printf (some (mdn_class admonition)) else done)
    >> (if flag st.flags html_callout_gfm
        then hbuf_printf (
            some (
              (if flag st.flags html_callout_mdn then codes " " else [])
              ++ codes "markdown-alert "))
          >> hbuf_printf (some (codes "markdown-alert-" ++ gfm_class admonition))
        else done)

unfoldable pub rndr_blockquote : Html → BlockquoteType → AdmonitionType → Buf → M (Unit {0})
unfolding is_regular put_quoted callout_classes
rndr_blockquote st type admonition content =
    newline
    >> (if is_regular type || not (flag st.flags html_callout_gfm || flag st.flags html_callout_mdn)
        then hbuf_put (codes "<blockquote>\n")
          >> (hbuf_putb content >> hbuf_put (codes "</blockquote>\n"))
        else hbuf_put (codes "<div class=\"")
          >> (callout_classes st admonition
              >> (hbuf_put (codes "\">\n")
                  >> (put_quoted admonition content >> hbuf_put (codes "</div>\n")))))

unfoldable pub rndr_list : Buf → ℕ → ℕ → M (Unit {0})
rndr_list content flags start =
    newline
    >> ((if flag flags hlist_ordered
          then (if ltb 1 start
              then hbuf_printf (some (codes "<ol start=\"" ++ (decimal start ++ codes "\">\n")))
              else hbuf_put (codes "<ol>\n"))
          else hbuf_put (codes "<ul>\n"))
        >> (hbuf_putb content
            >> (if flag flags hlist_ordered
                then hbuf_put (codes "</ol>\n")
                else hbuf_put (codes "</ul>\n"))))

-- The parent and the grandparent of an item, nearest first, put it in block mode.
unfoldable pub in_block_definition : List Kind → Bool
in_block_definition (_ ∷ Kind.definition flags ∷ _) = flag flags hlist_block
in_block_definition _ = false

unfoldable pub in_block_list : List Kind → Bool
in_block_list (Kind.list flags _ ∷ _) = flag flags hlist_block
in_block_list _ = false

unfoldable pub begins_block : Buf → Bool
begins_block content =
    hbuf_strprefix content (codes "<ul")
    || hbuf_strprefix content (codes "<ol")
    || hbuf_strprefix content (codes "<dl")
    || hbuf_strprefix content (codes "<div")
    || hbuf_strprefix content (codes "<table")
    || hbuf_strprefix content (codes "<blockquote")
    || hbuf_strprefix content (codes "<pre>")
    || hbuf_strprefix content (codes "<h")
    || hbuf_strprefix content (codes "<p>")

unfoldable pub wants_paragraph : Buf → ℕ → List Kind → Bool
unfolding in_block_definition in_block_list begins_block
wants_paragraph content flags above =
    (flag flags hlist_def && in_block_definition above
      || not (flag flags hlist_def) && in_block_list above)
    && not (begins_block content)

-- A write whose result is not looked at.
unfoldable pub unchecked : M (Unit {0}) → M (Unit {0})
unchecked m s = elim (m s) [ ok _ t ↦ done t | failed t ↦ done t | fault ↦ fault ]

unfoldable pub check_box : ℕ → M (Unit {0})
unfolding unchecked
check_box flags =
    (if flag flags hlist_checked || flag flags hlist_unchecked
      then unchecked (hbuf_put (codes "<input type=\"checkbox\" "))
      else done)
    >> ((if flag flags hlist_checked
          then unchecked (hbuf_put (codes "checked=\"checked\" "))
          else done)
        >> (if flag flags hlist_checked || flag flags hlist_unchecked
            then unchecked (hbuf_put (codes "/>"))
            else done))

unfoldable pub rndr_listitem : Buf → ℕ → List Kind → M (Unit {0})
unfolding wants_paragraph check_box put_trimmed
rndr_listitem content flags above =
    let blk = wants_paragraph content flags above in
    (if not (flag flags hlist_def) then hbuf_put (codes "<li>") else done)
    >> ((if blk then hbuf_put (codes "<p>") else done)
        >> (check_box flags
            >> (put_trimmed content
                >> ((if blk then hbuf_put (codes "</p>") else done)
                    >> (if not (flag flags hlist_def) then hbuf_put (codes "</li>\n") else done)))))

-- The bytes in front of the first newline, and those from it on.
unfoldable pub line : Bytes → Bytes
line [] = []
line (c ∷ cs) = let more = c ∷ line cs in if c == b'\n' then [] else more

unfoldable pub from_newline : Bytes → Bytes
from_newline [] = []
from_newline (c ∷ cs) = let later = from_newline cs in if c == b'\n' then c ∷ cs else later

-- `for ( ; i < content->size; i++)`, from the bytes behind `i`.
unfoldable pub wrap_loop : ℕ → Bytes → M (Unit {0})
unfolding line from_newline rndr_linebreak
wrap_loop zero d s = fault
wrap_loop (suc fuel) d s =
    let again = wrap_loop fuel (drop 1 (from_newline d)) in
    ((if is_nil (line d) then done else hbuf_put (line d))
        >> (if leb (length (from_newline d)) 1 then done else rndr_linebreak >> again))
      s

unfoldable pub rndr_paragraph : Buf → Html → M (Unit {0})
unfolding wrap_loop
rndr_paragraph content st =
    let d = skip_isspace content.content in
    if is_nil d
    then done
    else newline
      >> (hbuf_put (codes "<p>")
          >> ((if flag st.flags html_hard_wrap then wrap_loop (length d) d else hbuf_put d)
              >> hbuf_put (codes "</p>\n")))

-- `while (org < sz && param->text.data[org] == '\n')`
unfoldable pub skip_newlines : Bytes → Bytes
skip_newlines [] = []
skip_newlines (c ∷ cs) = let later = skip_newlines cs in if c == b'\n' then later else c ∷ cs

unfoldable pub rndr_raw_block : Bytes → Html → M (Unit {0})
unfolding trim_newlines skip_newlines
rndr_raw_block text st =
    let d = skip_newlines (take (trim_newlines text (length text)) text) in
    if flag st.flags skip_html
    then done
    else if flag st.flags html_escape
    then escape_html text st
    else if is_nil d
    then done
    else newline >> (hbuf_put d >> hbuf_putc b'\n')

unfoldable pub rndr_hrule : M (Unit {0})
rndr_hrule = newline >> hbuf_puts (codes "<hr/>\n")
