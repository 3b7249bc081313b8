-- ===== src/Format/Entity.antt =====
-- The look-up of entities: src/format/entity.c. A result of -1 is `none`.
pub mod Entry
pub mod First
pub mod Second
pub mod Lookup
pub mod Names
pub mod Numbers
use lowdown.Prelude.{
  ℕ, zero, suc, ◌+◌, ◌-◌, ◌*◌, ◌%◌, ◌^◌, Bool, true, false, not, ◌&&◌, ◌||◌, List, [], ◌∷◌, ◌++◌,
  Option, none, some, Bytes, length, take, drop, get_or, last_or, is_nil, bytes_eq, ltb, leb, ◌==◌,
  if◌then◌else◌, c_string, skip_isspace,
}
use lowdown.Format.Entity.Entry.{Ent}
use lowdown.Format.Entity.First.{ents_first}
use lowdown.Format.Entity.Second.{ents_second}

abbrev pub ents : List Ent
ents = ents_first ++ ents_second

abbrev pub int32_max : ℕ
int32_max = 2147483647

-- strtoull: spaces, a sign, with base 16 a prefix, and digits; the value and what is left of the
-- text.
unfoldable pub digit_value : ℕ → ℕ → Option ℕ
digit_value base c =
    if leb b'0' c && leb c b'9' && ltb (c - b'0') base
    then some (c - b'0')
    else if leb b'a' c && leb c b'z' && ltb (c - b'a' + 10) base
    then some (c - b'a' + 10)
    else if leb b'A' c && leb c b'Z' && ltb (c - b'A' + 10) base
    then some (c - b'A' + 10)
    else none

unfoldable pub read_digits : ℕ → ℕ → Bytes → ℕ × Bytes
unfolding digit_value
read_digits base value [] = (value, [])
read_digits base value (c ∷ cs) = elim (digit_value base c) [
  | none ↦ (value, c ∷ cs)
  | some v ↦ read_digits base (value * base + v) cs
]

unfoldable pub is_digit : ℕ → ℕ → Bool
is_digit base c = elim (digit_value base c) [ none ↦ false | some _ ↦ true ]

unfoldable pub skip_prefix : ℕ → Bytes → Bytes
unfolding is_digit
skip_prefix base (z ∷ x ∷ c ∷ cs) =
    if base == 16 && z == b'0' && (x == b'x' || x == b'X') && is_digit 16 c
    then c ∷ cs
    else z ∷ x ∷ c ∷ cs
skip_prefix base s = s

unfoldable pub skip_sign : Bytes → Bool × Bytes
skip_sign [] = (false, [])
skip_sign (c ∷ cs) =
    if c == b'-' then (true, cs) else if c == b'+' then (false, cs) else (false, c ∷ cs)

unfoldable pub to_ullong : Bool → ℕ → ℕ
to_ullong neg v =
    if leb (2 ^ 64) v then 18446744073709551615 else if neg then (2 ^ 64 - v) % 2 ^ 64 else v

unfoldable pub strtoull_digits : ℕ → Bytes → Bool → Bytes → ℕ × Bytes
unfolding is_digit read_digits to_ullong
strtoull_digits base s neg [] = (0, s)
strtoull_digits base s neg (c ∷ cs) =
    if is_digit base c
    then (to_ullong neg ((read_digits base 0 (c ∷ cs)).0), (read_digits base 0 (c ∷ cs)).1)
    else (0, s)

unfoldable pub strtoull : ℕ → Bytes → ℕ × Bytes
unfolding skip_isspace skip_sign skip_prefix strtoull_digits
strtoull base s =
    let signed = skip_sign (skip_isspace s) in
    strtoull_digits base s (signed.0) (skip_prefix base (signed.1))

-- The conversion of the array `b`. A value that is out of range is above INT32_MAX.
unfoldable pub convert : ℕ → Bytes → Option ℕ
unfolding strtoull
convert base s =
    let r = strtoull base s in
    if is_nil s || not (is_nil (r.1))
    then none
    else if ltb int32_max (r.0)
    then none
    else some (r.0)

unfoldable pub entity_find_num : Bytes → Option ℕ
unfolding convert c_string
entity_find_num d =
    if ltb (length d) 4
    then none
    else if get_or d 2 0 == b'x' || get_or d 2 0 == b'X'
    then (if ltb (length d) 5
        then none
        else if ltb 31 (length d - 4)
        then none
        else convert 16 (c_string (take (length d - 4) (drop 3 d))))
    else if ltb 31 (length d - 3)
    then none
    else convert 10 (c_string (take (length d - 3) (drop 2 d)))

unfoldable pub find_name : Bytes → List Ent → Option Ent
find_name b [] = none
find_name b (e ∷ table) =
    let later = find_name b table in if bytes_eq b (e.iso) then some e else later

unfoldable pub entity_find_named : Bytes → Option Ent
unfolding c_string find_name
entity_find_named d =
    if ltb 31 (length d - 2)
    then none
    else find_name (c_string (take (length d - 2) (drop 1 d))) ents

unfoldable pub entity_sane : Bytes → Bool
entity_sane d = not (ltb (length d) 3) && get_or d 0 0 == b'&' && last_or d 0 == b';'

unfoldable pub iso_named : Option Ent → Option ℕ
iso_named none = none
iso_named (some e) = some (e.unicode)

unfoldable pub entity_find_iso : Bytes → Option ℕ
unfolding entity_sane entity_find_num entity_find_named iso_named
entity_find_iso d =
    if not (entity_sane d)
    then none
    else if get_or d 1 0 == b'#'
    then entity_find_num d
    else iso_named (entity_find_named d)

unfoldable pub find_unicode : ℕ → List Ent → Option Ent
find_unicode n [] = none
find_unicode n (e ∷ table) =
    let later = find_unicode n table in if e.unicode == n then some e else later

-- The texts for roff and for TeX behind a number, and behind a name.
unfoldable pub nroff_num : Option ℕ → Option Bytes × Option ℕ
unfolding find_unicode
nroff_num none = (none, none)
nroff_num (some n) = elim (find_unicode n ents) [
  | none ↦ (none, some n)
  | some e ↦ (e.nroff, some n)
]

unfoldable pub nroff_named : Option Ent → Option Bytes × Option ℕ
nroff_named none = (none, none)
nroff_named (some e) = (e.nroff, some (e.unicode))

unfoldable pub tex_named : Option Ent → Option Bytes × Option ℕ
tex_named none = (none, none)
tex_named (some e) = (e.tex, some (e.texflags))

unfoldable pub tex_num : Option ℕ → Option Bytes × Option ℕ
unfolding find_unicode tex_named
tex_num none = (none, none)
tex_num (some n) = tex_named (find_unicode n ents)

-- The text for roff, if any, and the number that is stored in `iso`.
unfoldable pub entity_find_nroff : Bytes → Option Bytes × Option ℕ
unfolding entity_sane entity_find_num entity_find_named nroff_num nroff_named
entity_find_nroff d =
    if not (entity_sane d)
    then (none, none)
    else if get_or d 1 0 == b'#'
    then nroff_num (entity_find_num d)
    else nroff_named (entity_find_named d)

-- The text for TeX, if any, and the flags where they are stored.
unfoldable pub entity_find_tex : Bytes → Option Bytes × Option ℕ
unfolding entity_sane entity_find_num entity_find_named tex_num tex_named
entity_find_tex d =
    if not (entity_sane d)
    then (none, none)
    else if get_or d 1 0 == b'#'
    then tex_num (entity_find_num d)
    else tex_named (entity_find_named d)
