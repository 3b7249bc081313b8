-- ===== src/Buffer/Link.antt =====
-- The readers of links of src/buffer.c: hbuf_shortlink, hbuf_isrellink and hbuf_ismanpage. A result
-- `none` is undefined behaviour: a failed assert, or a read past the text.
pub mod Short
pub mod Kinds
use lowdown.Prelude.{
  ℕ, zero, suc, ◌+◌, ◌-◌, ◌≡◌, Bool, true, false, not, ◌&&◌, ◌||◌, [], ◌∷◌, ◌++◌, Option, none,
  some, Bytes, codes, length, take, drop, last_or, begins, ltb, leb, ◌==◌, if◌then◌else◌, isdigit,
  isalpha, memchr, memrchr,
}
use lowdown.Buffer.{Buf, M, ◌>>◌, done, fault, size, hbuf_put, hbuf_putb}

-- The length of the leading protocol, 0 for none.
pub shortlink_start : Bytes → ℕ
shortlink_start link =
    let size = length link in
    if ltb 7 size && begins (codes "http://") link
    then 7
    else if ltb 8 size && begins (codes "https://") link
    then 8
    else if ltb 7 size && begins (codes "file://") link
    then 7
    else if ltb 7 size && begins (codes "mailto:") link
    then 7
    else if ltb 6 size && begins (codes "ftp://") link
    then 6
    else 0

-- link[start .. sz), where `sz` leaves out a slash at the end.
pub shortlink_area : Bytes → ℕ → Bytes
shortlink_area link start =
    let sz = if last_or link 0 == b'/' then length link - 1 else length link in
    take (sz - start) (drop start link)

-- From the filename on: `cp` is the first slash, and `rcp` the last.
shortlink_file : Bytes → ℕ → Option ℕ → M (Unit {0})
shortlink_file area cp none = λ _. fault
shortlink_file area cp (some rcp) =
    if rcp == cp
    then hbuf_put (drop cp area)
    else hbuf_put (codes "/...") >> hbuf_put (drop rcp area)

shortlink_path : Bytes → Option ℕ → M (Unit {0})
unfolding shortlink_file
shortlink_path area none = hbuf_put area
shortlink_path area (some cp) =
    hbuf_put (take cp area) >> shortlink_file area cp (memrchr b'/' area)

pub hbuf_shortlink : Buf → M (Unit {0})
unfolding shortlink_path shortlink_start shortlink_area
hbuf_shortlink link =
    if shortlink_start link.content == 0
    then hbuf_putb link
    else (let area = shortlink_area link.content (shortlink_start link.content) in
        shortlink_path area (memchr b'/' area))

-- Whether a slash stands before the colon.
isrellink_slash : Option ℕ → Option Bool
isrellink_slash none = some false
isrellink_slash (some _) = some true

isrellink_at : Bytes → Option ℕ → Option Bool
unfolding isrellink_slash
isrellink_at data' none = some true
isrellink_at data' (some zero) = none
isrellink_at data' (some (suc i)) = isrellink_slash (memchr b'/' (take (suc i) data'))

-- `assert(colon > link->data)` fails where the colon comes first.
pub hbuf_isrellink : Buf → Option Bool
unfolding isrellink_at
hbuf_isrellink link = isrellink_at link.content (memchr b':' link.content)

-- The letters from `paren` on, up to a closing parenthesis; `n` is `paren - sv`.
manpage_letters : ℕ → Bytes → Option Bool
manpage_letters n [] = none
manpage_letters n (c ∷ cs) = elim (c == b')') [
  | true ↦ some (not (ltb 3 n))
  | false ↦ elim (isalpha c) [ true ↦ manpage_letters (n + 1) cs | false ↦ some false ]
]

-- What stands behind the opening parenthesis.
manpage_section : Bytes → Option Bool
unfolding manpage_letters
manpage_section [] = none
manpage_section (d ∷ cs) = if isdigit d then manpage_letters 0 cs else some false

manpage_at : Bytes → Option ℕ → Option Bool
unfolding manpage_section
manpage_at data' none = some false
manpage_at data' (some i) = manpage_section (drop (suc i) data')

pub hbuf_ismanpage : Buf → Option Bool
unfolding manpage_at
hbuf_ismanpage buf =
    if ltb (size buf) 4
    then some false
    else if not (last_or buf.content 0 == b')')
    then some false
    else manpage_at buf.content (memchr b'(' buf.content)
