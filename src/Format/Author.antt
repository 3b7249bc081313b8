-- ===== src/Format/Author.antt =====
-- The author of an RCS keyword: rcsauthor2str of src/format/util.c. A NULL pointer is `none`, and a
-- text has no NUL. The result stands in a static buffer of 1024 bytes.
use lowdown.Prelude.{
  ℕ, ◌+◌, ◌-◌, ◌<◌, ◌≡◌, refl, ap, Bool, true, false, not, ◌&&◌, [], ◌∷◌, ◌++◌, Option, none, some,
  Bytes, codes, length, length-append, last_or-append, take, take-append, drop, last_or, begins,
  ltb, leb, ◌==◌, ==_iff, if◌then◌else◌, arith, append_assoc,
}

-- `sz && buf[sz - 1] == c`
ends_with : ℕ → Bytes → Bool
ends_with c buf = ltb 0 (length buf) && last_or buf 0 == c

chop : Bytes → Bytes
chop buf = take (length buf - 1) buf

chop_if : ℕ → Bytes → Bytes
unfolding ends_with chop
chop_if c buf = if ends_with c buf then chop buf else buf

strip_end : Bytes → Bytes
unfolding chop_if
strip_end buf = if ends_with b'$' buf then chop_if b' ' (chop_if b'\\' (chop buf)) else buf

strip_latex : Bytes → Bytes
strip_latex [] = []
strip_latex (c ∷ cs) = if c == b'\\' then cs else c ∷ cs

-- From the keyword on.
author_of : Bytes → Option Bytes
unfolding strip_end
author_of v =
    if not (begins (codes "$Author: ") v)
    then none
    else if leb 1024 (length (drop 9 v))
    then none
    else some (strip_end (drop 9 v))

unfoldable pub rcsauthor2str : Option Bytes → Option Bytes
unfolding author_of strip_latex
rcsauthor2str none = none
rcsauthor2str (some v) = if ltb (length v) 12 then none else author_of (strip_latex v)

chop-append : (xs : Bytes) (c : ℕ) → chop (xs ++ (c ∷ [])) ≡ xs
unfolding chop
chop-append xs c =
    let e : length (xs ++ (c ∷ [])) - 1 ≡ length xs = omega (arith, length-append xs (c ∷ [])) in
    rw e (take-append xs (c ∷ []))

ends_with-append : (xs : Bytes) (c d : ℕ) → ends_with d (xs ++ (c ∷ [])) ≡ (c == d)
unfolding ends_with
ends_with-append xs c d = rw (last_or-append xs (c ∷ []) 0) (
    let t : ltb 0 (length (xs ++ (c ∷ []))) ≡ true = ground (arith, length-append xs (c ∷ [])) in
    rw t refl)

chop_if-append : (xs : Bytes) (c : ℕ) → chop_if c (xs ++ (c ∷ [])) ≡ xs
unfolding chop_if
chop_if-append xs c =
    rw (ends_with-append xs c c)
      (let t : (c == c) ≡ true = (==_iff c c).1 refl in rw t (chop-append xs c))

chop_if_other :
    (xs : Bytes) (c d : ℕ) → (c == d) ≡ false → chop_if d (xs ++ (c ∷ [])) ≡ xs ++ (c ∷ [])
unfolding chop_if
chop_if_other xs c d h = rw (ends_with-append xs c d, h) refl

-- How the keyword stands in a document, and how LaTeX escapes it.
abbrev pub keyword : Bool → Bytes → Bytes
keyword false name = codes "$Author: " ++ (name ++ codes " $")
keyword true name = codes "\\$Author: " ++ (name ++ codes " \\$")

strip_end-name : (name : Bytes) → strip_end (name ++ codes " $") ≡ name
unfolding strip_end
strip_end-name name = rw (← append_assoc name (codes " ") (codes "$")) (
    rw (ends_with-append (name ++ codes " ") b'$' b'$', chop-append (name ++ codes " ") b'$')
      (rw (chop_if_other name b' ' b'\\' refl) (chop_if-append name b' ')))

strip_end-latex : (name : Bytes) → strip_end (name ++ codes " \\$") ≡ name
unfolding strip_end
strip_end-latex name = rw (← append_assoc name (codes " \\") (codes "$")) (
    rw (ends_with-append (name ++ codes " \\") b'$' b'$', chop-append (name ++ codes " \\") b'$')
      (rw (← append_assoc name (codes " ") (codes "\\"))
        (rw (chop_if-append (name ++ codes " ") b'\\') (chop_if-append name b' '))))

-- rcsauthor2str finds the author of a keyword, with or without the escapes of LaTeX, where the name
-- is not empty and leaves room in the buffer for what follows it.
pub rcsauthor2str-keyword :
    (latex : Bool) (name : Bytes)
    → 0 < length name
    → length name + 3 < 1024
    → rcsauthor2str (some (keyword latex name)) ≡ some name
unfolding rcsauthor2str author_of strip_latex
rcsauthor2str-keyword false name h k =
    let long : ltb (length (keyword false name)) 12 ≡ false =
      ground (arith, length-append name (codes " $")) in
    let fits : leb 1024 (length (name ++ codes " $")) ≡ false =
      ground (arith, length-append name (codes " $")) in
    rw long (rw fits (ap some (strip_end-name name)))
rcsauthor2str-keyword true name h k =
    let long : ltb (length (keyword true name)) 12 ≡ false =
      ground (arith, length-append name (codes " \\$")) in
    let fits : leb 1024 (length (name ++ codes " \\$")) ≡ false =
      ground (arith, length-append name (codes " \\$")) in
    rw long (rw fits (ap some (strip_end-latex name)))
