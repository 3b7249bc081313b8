-- ===== src/Format/Html.antt =====
-- Escaping for HTML and XML: src/format/html/html_escape.c.
pub mod Tables
pub mod Writes
pub mod Decode
pub mod Sound
pub mod Url
pub mod Escape
use lowdown.Prelude.{
  ℕ, ◌+◌, ◌/◌, ◌%◌, ◌≡◌, refl, Bool, true, false, not, ◌&&◌, ◌||◌, List, [], ◌∷◌, ◌++◌, Bytes,
  codes, get_or, is_nil, leb, ◌==◌, if◌then◌else◌,
}
use lowdown.Buffer.{M, ◌>>◌, done, hbuf_put, hbuf_putc, hbuf_puts}

-- The bytes that a URL keeps, and the class of each byte of a text (0 for a plain one).
abbrev pub href_tbl : List ℕ
href_tbl =
    0 ∷ 0 ∷ 0 ∷ 0 ∷ 0 ∷ 0 ∷ 0 ∷ 0 ∷ 0 ∷ 0 ∷ 0 ∷ 0 ∷ 0 ∷ 0 ∷ 0 ∷ 0 ∷ 0 ∷ 0 ∷ 0 ∷ 0 ∷ 0 ∷ 0 ∷ 0 ∷ 0
    ∷ 0 ∷ 0 ∷ 0 ∷ 0 ∷ 0 ∷ 0 ∷ 0 ∷ 0 ∷ 0 ∷ 1 ∷ 0 ∷ 1 ∷ 1 ∷ 1 ∷ 0 ∷ 0 ∷ 1 ∷ 1 ∷ 1 ∷ 1 ∷ 1 ∷ 1 ∷ 1 ∷ 1
    ∷ 1 ∷ 1 ∷ 1 ∷ 1 ∷ 1 ∷ 1 ∷ 1 ∷ 1 ∷ 1 ∷ 1 ∷ 1 ∷ 1 ∷ 0 ∷ 1 ∷ 0 ∷ 1 ∷ 1 ∷ 1 ∷ 1 ∷ 1 ∷ 1 ∷ 1 ∷ 1 ∷ 1
    ∷ 1 ∷ 1 ∷ 1 ∷ 1 ∷ 1 ∷ 1 ∷ 1 ∷ 1 ∷ 1 ∷ 1 ∷ 1 ∷ 1 ∷ 1 ∷ 1 ∷ 1 ∷ 1 ∷ 1 ∷ 1 ∷ 1 ∷ 0 ∷ 0 ∷ 0 ∷ 0 ∷ 1
    ∷ 0 ∷ 1 ∷ 1 ∷ 1 ∷ 1 ∷ 1 ∷ 1 ∷ 1 ∷ 1 ∷ 1 ∷ 1 ∷ 1 ∷ 1 ∷ 1 ∷ 1 ∷ 1 ∷ 1 ∷ 1 ∷ 1 ∷ 1 ∷ 1 ∷ 1 ∷ 1 ∷ 1
    ∷ 1 ∷ 1 ∷ 1 ∷ 0 ∷ 0 ∷ 0 ∷ 1 ∷ 0 ∷ 0 ∷ 0 ∷ 0 ∷ 0 ∷ 0 ∷ 0 ∷ 0 ∷ 0 ∷ 0 ∷ 0 ∷ 0 ∷ 0 ∷ 0 ∷ 0 ∷ 0 ∷ 0
    ∷ 0 ∷ 0 ∷ 0 ∷ 0 ∷ 0 ∷ 0 ∷ 0 ∷ 0 ∷ 0 ∷ 0 ∷ 0 ∷ 0 ∷ 0 ∷ 0 ∷ 0 ∷ 0 ∷ 0 ∷ 0 ∷ 0 ∷ 0 ∷ 0 ∷ 0 ∷ 0 ∷ 0
    ∷ 0 ∷ 0 ∷ 0 ∷ 0 ∷ 0 ∷ 0 ∷ 0 ∷ 0 ∷ 0 ∷ 0 ∷ 0 ∷ 0 ∷ 0 ∷ 0 ∷ 0 ∷ 0 ∷ 0 ∷ 0 ∷ 0 ∷ 0 ∷ 0 ∷ 0 ∷ 0 ∷ 0
    ∷ 0 ∷ 0 ∷ 0 ∷ 0 ∷ 0 ∷ 0 ∷ 0 ∷ 0 ∷ 0 ∷ 0 ∷ 0 ∷ 0 ∷ 0 ∷ 0 ∷ 0 ∷ 0 ∷ 0 ∷ 0 ∷ 0 ∷ 0 ∷ 0 ∷ 0 ∷ 0 ∷ 0
    ∷ 0 ∷ 0 ∷ 0 ∷ 0 ∷ 0 ∷ 0 ∷ 0 ∷ 0 ∷ 0 ∷ 0 ∷ 0 ∷ 0 ∷ 0 ∷ 0 ∷ 0 ∷ 0 ∷ 0 ∷ 0 ∷ 0 ∷ 0 ∷ 0 ∷ 0 ∷ 0 ∷ 0
    ∷ 0 ∷ 0 ∷ 0 ∷ 0 ∷ 0 ∷ 0 ∷ 0 ∷ 0 ∷ 0 ∷ 0 ∷ 0 ∷ 0 ∷ 0 ∷ 0 ∷ 0 ∷ 0 ∷ []

abbrev pub esc_tbl : List ℕ
esc_tbl =
    0 ∷ 0 ∷ 0 ∷ 0 ∷ 0 ∷ 0 ∷ 0 ∷ 0 ∷ 0 ∷ 0 ∷ 0 ∷ 0 ∷ 0 ∷ 0 ∷ 0 ∷ 0 ∷ 0 ∷ 0 ∷ 0 ∷ 0 ∷ 0 ∷ 0 ∷ 0 ∷ 0
    ∷ 0 ∷ 0 ∷ 0 ∷ 0 ∷ 0 ∷ 0 ∷ 0 ∷ 0 ∷ 0 ∷ 0 ∷ 0 ∷ 0 ∷ 0 ∷ 0 ∷ 6 ∷ 2 ∷ 0 ∷ 0 ∷ 0 ∷ 0 ∷ 0 ∷ 0 ∷ 0 ∷ 3
    ∷ 0 ∷ 0 ∷ 0 ∷ 0 ∷ 0 ∷ 0 ∷ 0 ∷ 0 ∷ 0 ∷ 0 ∷ 0 ∷ 0 ∷ 5 ∷ 0 ∷ 4 ∷ 0 ∷ 0 ∷ 0 ∷ 0 ∷ 0 ∷ 0 ∷ 0 ∷ 0 ∷ 0
    ∷ 0 ∷ 0 ∷ 0 ∷ 0 ∷ 0 ∷ 0 ∷ 0 ∷ 0 ∷ 0 ∷ 0 ∷ 0 ∷ 0 ∷ 0 ∷ 0 ∷ 0 ∷ 0 ∷ 0 ∷ 0 ∷ 0 ∷ 0 ∷ 0 ∷ 0 ∷ 0 ∷ 0
    ∷ 0 ∷ 0 ∷ 0 ∷ 0 ∷ 0 ∷ 0 ∷ 0 ∷ 0 ∷ 0 ∷ 0 ∷ 0 ∷ 0 ∷ 0 ∷ 0 ∷ 0 ∷ 0 ∷ 0 ∷ 0 ∷ 0 ∷ 0 ∷ 0 ∷ 0 ∷ 0 ∷ 0
    ∷ 0 ∷ 0 ∷ 0 ∷ 0 ∷ 0 ∷ 0 ∷ 0 ∷ 0 ∷ 0 ∷ 0 ∷ 0 ∷ 0 ∷ 0 ∷ 0 ∷ 0 ∷ 0 ∷ 0 ∷ 0 ∷ 0 ∷ 0 ∷ 0 ∷ 0 ∷ 0 ∷ 0
    ∷ 0 ∷ 0 ∷ 0 ∷ 0 ∷ 0 ∷ 0 ∷ 0 ∷ 0 ∷ 0 ∷ 0 ∷ 0 ∷ 0 ∷ 0 ∷ 0 ∷ 0 ∷ 0 ∷ 0 ∷ 0 ∷ 0 ∷ 0 ∷ 0 ∷ 0 ∷ 0 ∷ 0
    ∷ 0 ∷ 0 ∷ 0 ∷ 0 ∷ 0 ∷ 0 ∷ 0 ∷ 0 ∷ 0 ∷ 0 ∷ 0 ∷ 0 ∷ 0 ∷ 0 ∷ 0 ∷ 0 ∷ 0 ∷ 0 ∷ 0 ∷ 0 ∷ 0 ∷ 0 ∷ 0 ∷ 0
    ∷ 0 ∷ 0 ∷ 0 ∷ 0 ∷ 0 ∷ 0 ∷ 0 ∷ 0 ∷ 0 ∷ 0 ∷ 0 ∷ 0 ∷ 0 ∷ 0 ∷ 0 ∷ 0 ∷ 0 ∷ 0 ∷ 0 ∷ 0 ∷ 0 ∷ 0 ∷ 0 ∷ 0
    ∷ 0 ∷ 0 ∷ 0 ∷ 0 ∷ 0 ∷ 0 ∷ 0 ∷ 0 ∷ 0 ∷ 0 ∷ 0 ∷ 0 ∷ 0 ∷ 0 ∷ 0 ∷ 0 ∷ 0 ∷ 0 ∷ 0 ∷ 0 ∷ 0 ∷ 0 ∷ 0 ∷ 0
    ∷ 0 ∷ 0 ∷ 0 ∷ 0 ∷ 0 ∷ 0 ∷ 0 ∷ 0 ∷ 0 ∷ 0 ∷ 0 ∷ 0 ∷ 0 ∷ 0 ∷ 0 ∷ 0 ∷ []

abbrev esc_tbl_owasp_max : ℕ
esc_tbl_owasp_max = 3

abbrev esc_tbl_literal_max : ℕ
esc_tbl_literal_max = 3

abbrev pub esc_name : List Bytes
esc_name =
    [] ∷ [] ∷ codes "&#39;" ∷ codes "&#47;" ∷ codes "&gt;" ∷ codes "&lt;" ∷ codes "&amp;" ∷ []

abbrev pub esc_num : List Bytes
esc_num =
    [] ∷ [] ∷ codes "&#39;" ∷ codes "&#47;" ∷ codes "&#62;" ∷ codes "&#60;" ∷ codes "&#38;" ∷ []

-- The loop of all three functions. `run` is data[mark .. i): the plain bytes since the last one
-- that was escaped, which are written in one piece. Writing `run` at the end of the text is also
-- what the early return for a text with nothing to escape does.
put_run : Bytes → M (Unit {0})
put_run run = if is_nil run then done else hbuf_put run

esc_loop : (ℕ → Bool) → (ℕ → M (Unit {0})) → Bytes → Bytes → M (Unit {0})
unfolding put_run
esc_loop plain emit run [] = put_run run
esc_loop plain emit run (c ∷ cs) = elim (plain c) [
  | true ↦ esc_loop plain emit (run ++ c ∷ []) cs
  | false ↦ put_run run >> (emit c >> esc_loop plain emit [] cs)
]

attr_plain : ℕ → Bool
attr_plain c = not (c == b'"') && not (c == b'&')

attr_emit : ℕ → M (Unit {0})
attr_emit c =
    if c == b'"'
    then hbuf_put (codes "&quot;")
    else if c == b'&'
    then hbuf_put (codes "&amp;")
    else done

pub lowdown_html_esc_attr : Bytes → M (Unit {0})
unfolding esc_loop attr_plain attr_emit
lowdown_html_esc_attr data' = if is_nil data' then done else esc_loop attr_plain attr_emit [] data'

abbrev pub hex_chars : Bytes
hex_chars = codes "0123456789ABCDEF"

href_plain : ℕ → Bool
href_plain c = not (get_or href_tbl c 0 == 0)

href_emit : ℕ → M (Unit {0})
href_emit c =
    if c == b'&'
    then hbuf_put (codes "&amp;")
    else if c == b'\''
    then hbuf_put (codes "&#x27;")
    else hbuf_put (b'%' ∷ get_or hex_chars (c / 16 % 16) 0 ∷ get_or hex_chars (c % 16) 0 ∷ [])

pub lowdown_html_esc_href : Bytes → M (Unit {0})
unfolding esc_loop href_plain href_emit
lowdown_html_esc_href data' = if is_nil data' then done else esc_loop href_plain href_emit [] data'

-- The largest class that is left alone.
esc_max : Bool → Bool → ℕ
esc_max secure literal =
    if not literal && not secure
    then esc_tbl_owasp_max
    else if literal && not secure
    then esc_tbl_literal_max
    else 0

esc_plain : ℕ → Bool
esc_plain c = get_or esc_tbl c 0 == 0

esc_emit : ℕ → Bool → ℕ → M (Unit {0})
esc_emit most num c =
    if leb (get_or esc_tbl c 0) most
    then hbuf_putc c
    else hbuf_puts (
        if num
        then get_or esc_num (get_or esc_tbl c 0) []
        else get_or esc_name (get_or esc_tbl c 0) [])

pub lowdown_html_esc : Bytes → Bool → Bool → Bool → M (Unit {0})
unfolding esc_loop esc_max esc_plain esc_emit
lowdown_html_esc data' secure literal num =
    if is_nil data'
    then done
    else esc_loop esc_plain (esc_emit (esc_max secure literal) num) [] data'
