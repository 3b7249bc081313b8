-- ===== src/Render.antt =====
-- The HTML renderer: src/format/html/html.c. This file has the state, the helpers and the functions
-- for inline content; the children have the other functions, the walk over the tree, and the proofs.
--
-- A function gets the rendered content of its node as a buffer and writes to another one. What
-- HBUF_PUTSL writes is `hbuf_put` of the literal. The state is passed on by the functions that
-- change it. The template of a document (`templ`) is NULL here.
pub mod Block
pub mod Table
pub mod Link
pub mod Meta
pub mod State
pub mod Foot
pub mod Walk
pub mod Change
pub mod Scan
pub mod Emits
pub mod Pieces
pub mod Tags
pub mod Attributes
pub mod Links
pub mod Images
pub mod Inline
pub mod Headings
pub mod Levels
pub mod Names
pub mod Started
pub mod Blocks
pub mod Moves
pub mod Kinds
pub mod Whole
pub mod Nodes
pub mod Document
pub mod Returns
pub mod Parts
pub mod Notes
pub mod Metas
pub mod Cells
pub mod Items
pub mod Quotes
use lowdown.Prelude.{
  ℕ, zero, suc, ◌+◌, ◌-◌, ◌/◌, ◌%◌, Bool, true, false, not, ◌&&◌, List, [], ◌∷◌, ◌++◌, Option, none,
  some, Bytes, codes, length, take, drop, last_or, is_nil, leb, ltb, ◌==◌, if◌then◌else◌,
}
use lowdown.Tree.{HalinkType}
use lowdown.Buffer.{Buf, M, ◌>>◌, done, size, hbuf_put, hbuf_putb, hbuf_putc, hbuf_printf}
use lowdown.Buffer.Copy.{memcmp_eq}
use lowdown.Format.Html.{lowdown_html_esc, lowdown_html_esc_attr, lowdown_html_esc_href}

-- The flags of src/lowdown.h.
abbrev pub skip_html : ℕ
skip_html = 1

abbrev pub html_escape : ℕ
html_escape = 2

abbrev pub html_hard_wrap : ℕ
html_hard_wrap = 4

abbrev pub html_head_ids : ℕ
html_head_ids = 256

abbrev pub html_owasp : ℕ
html_owasp = 2048

abbrev pub html_num_ent : ℕ
html_num_ent = 4096

abbrev pub html_custom_attrs : ℕ
html_custom_attrs = 262144

abbrev pub html_callout_gfm : ℕ
html_callout_gfm = 134217728

abbrev pub html_callout_mdn : ℕ
html_callout_mdn = 268435456

abbrev pub hlist_ordered : ℕ
hlist_ordered = 1

abbrev pub hlist_block : ℕ
hlist_block = 2

abbrev pub hlist_def : ℕ
hlist_def = 8

abbrev pub hlist_checked : ℕ
hlist_checked = 16

abbrev pub hlist_unchecked : ℕ
hlist_unchecked = 32

abbrev pub htbl_header : ℕ
htbl_header = 4

-- `flags & mask`, for a mask of one bit.
unfoldable pub flag : ℕ → ℕ → Bool
flag flags mask = flags / mask % 2 == 1

-- The integers, for the offset of the headings.
pub data ℤ : Type 0 where
  pos negsuc : ℕ → ℤ

abbrev pub standalone : ℕ
standalone = 512

abbrev pub html_titleblock : ℕ
html_titleblock = 67108864

-- struct html, and the queue of metadata that rndr passes on, as keys and values: a NULL key or
-- value is that of an entry whose copy was refused. `foots` has an entry for each footnote, NULL where the copy was refused.
pub record Html : Type 0 where
  pub headers_used : List Buf
  pub headers_offs : ℤ
  pub flags : ℕ
  pub foots : List (Option Buf)
  pub metaq : List (Option Bytes × Option Bytes)

unfoldable pub escape_html : Bytes → Html → M (Unit {0})
escape_html source st =
    lowdown_html_esc source (flag st.flags html_owasp) false (flag st.flags html_num_ent)

unfoldable pub escape_literal : Bytes → Html → M (Unit {0})
escape_literal data' st =
    lowdown_html_esc data' (flag st.flags html_owasp) true (flag st.flags html_num_ent)

unfoldable pub escape_href : Bytes → Html → M (Unit {0})
escape_href data' st = lowdown_html_esc_href data'

unfoldable pub escape_attr : Bytes → M (Unit {0})
escape_attr data' = lowdown_html_esc_attr data'

unfoldable pub newline : M (Unit {0})
newline s =
    if ltb 0 (size s.ob) && not (last_or s.ob.content 0 == b'\n') then hbuf_putc b'\n' s else done s

-- hbuf_strprefix of a text that is not a whole buffer here.
unfoldable pub text_prefix : Bytes → Bytes → Bool
text_prefix d prefix = leb (length prefix) (length d) && memcmp_eq d prefix (length prefix)

unfoldable pub mail_scheme : HalinkType → M (Unit {0})
mail_scheme HalinkType.email = hbuf_put (codes "mailto:")
mail_scheme _ = done

unfoldable pub rndr_autolink : Bytes → HalinkType → Html → M (Unit {0})
unfolding mail_scheme
rndr_autolink link type st =
    if is_nil link
    then done
    else hbuf_put (codes "<a href=\"")
      >> (mail_scheme type
          >> (escape_href link st
              >> (hbuf_put (codes "\">")
                  >> (escape_html (if text_prefix link (codes "mailto:") then drop 7 link else link)
                        st
                      >> hbuf_put (codes "</a>")))))

unfoldable pub rndr_codespan : Bytes → Html → M (Unit {0})
rndr_codespan text st =
    hbuf_put (codes "<code>") >> (escape_html text st >> hbuf_put (codes "</code>"))

unfoldable pub rndr_strikethrough : Buf → M (Unit {0})
rndr_strikethrough content =
    hbuf_put (codes "<del>") >> (hbuf_putb content >> hbuf_put (codes "</del>"))

unfoldable pub rndr_double_emphasis : Buf → M (Unit {0})
rndr_double_emphasis content =
    hbuf_put (codes "<strong>") >> (hbuf_putb content >> hbuf_put (codes "</strong>"))

unfoldable pub rndr_emphasis : Buf → M (Unit {0})
rndr_emphasis content = hbuf_put (codes "<em>") >> (hbuf_putb content >> hbuf_put (codes "</em>"))

unfoldable pub rndr_highlight : Buf → M (Unit {0})
rndr_highlight content =
    hbuf_put (codes "<mark>") >> (hbuf_putb content >> hbuf_put (codes "</mark>"))

unfoldable pub rndr_linebreak : M (Unit {0})
rndr_linebreak = hbuf_put (codes "<br/>\n")

unfoldable pub rndr_triple_emphasis : Buf → M (Unit {0})
rndr_triple_emphasis content =
    hbuf_put (codes "<strong><em>") >> (hbuf_putb content >> hbuf_put (codes "</em></strong>"))

unfoldable pub rndr_raw_html : Bytes → Html → M (Unit {0})
rndr_raw_html text st =
    if flag st.flags skip_html
    then done
    else if flag st.flags html_escape
    then escape_html text st
    else hbuf_put text

-- The flag says LOWDOWN_SUPERSCRIPT.
unfoldable pub rndr_superscript : Buf → Bool → M (Unit {0})
rndr_superscript content type =
    let elem' = if type then codes "sup" else codes "sub" in
    hbuf_printf (some (codes "<" ++ (elem' ++ codes ">")))
    >> (hbuf_putb content >> hbuf_printf (some (codes "</" ++ (elem' ++ codes ">"))))

unfoldable pub rndr_normal_text : Bytes → Html → M (Unit {0})
rndr_normal_text text st = escape_html text st

unfoldable pub rndr_math : Bytes → Bool → Html → M (Unit {0})
rndr_math text blockmode st =
    (if blockmode then hbuf_put (codes "\\[") else hbuf_put (codes "\\("))
    >> (escape_html text st
        >> (if blockmode then hbuf_put (codes "\\]") else hbuf_put (codes "\\)")))
