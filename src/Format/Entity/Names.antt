-- ===== src/Format/Entity/Names.antt =====
-- The named entities of src/format/entity.c.
use lowdown.Prelude.{
  ℕ, zero, suc, ◌-◌, ◌≤◌, ◌≡◌, refl, sym, ◌∙◌, subst, Bool, true, false, not, ◌&&◌, List, [], ◌∷◌,
  ◌++◌, some, Bytes, length, length-append, take-append, get_elem?, get_or, last_or-append,
  bytes_eq, bytes_eq_refl, bytes_eq→eq, ltb, leb, ◌==◌, arith, c_string,
}
use lowdown.Format.Entity.Entry.{Ent}
use lowdown.Format.Entity.{
  ents, find_name, entity_find_named, entity_sane, entity_find_iso, entity_find_nroff,
  entity_find_tex, iso_named, nroff_named, tex_named,
}

-- No name of the table is `b`.
absent : Bytes → List Ent → Bool
absent b [] = true
absent b (e ∷ table) = not (bytes_eq (e.iso) b) && absent b table

-- The names of the table differ.
distinct : List Ent → Bool
distinct [] = true
distinct (e ∷ table) = absent (e.iso) table && distinct table

-- A name that fits in the array `b` and is read as a name.
named : Bytes → Bool
named n =
    ltb 0 (length n) && not (get_or n 0 0 == b'#') && leb (length n) 31 && bytes_eq (c_string n) n

all_named : List Ent → Bool
all_named [] = true
all_named (e ∷ table) = named (e.iso) && all_named table

absent_lem :
    (b : Bytes) (table : List Ent) (i : ℕ) (e : Ent)
    → absent b table ≡ true
    → get_elem? table i ≡ some e
    → bytes_eq (e.iso) b ≡ false
unfolding absent
absent_lem b [] i e h k = cc
absent_lem b (x ∷ table) zero e h k =
    let same : x ≡ e = cc in subst (λ (y : Ent). bytes_eq (y.iso) b ≡ false) same (ground arith)
absent_lem b (x ∷ table) (suc i) e h k = absent_lem b table i e (ground arith) k

all_named_lem :
    (table : List Ent) (i : ℕ) (e : Ent)
    → all_named table ≡ true
    → get_elem? table i ≡ some e
    → named (e.iso) ≡ true
unfolding all_named
all_named_lem [] i e h k = cc
all_named_lem (x ∷ table) zero e h k =
    let same : x ≡ e = cc in subst (λ (y : Ent). named (y.iso) ≡ true) same (ground arith)
all_named_lem (x ∷ table) (suc i) e h k = all_named_lem table i e (ground arith) k

find_name-get :
    (table : List Ent) (i : ℕ) (e : Ent)
    → distinct table ≡ true
    → get_elem? table i ≡ some e
    → find_name (e.iso) table ≡ some e
unfolding find_name distinct
find_name-get [] i e h k = cc
find_name-get (x ∷ table) zero e h k =
    let same : x ≡ e = cc in rw (sym same, bytes_eq_refl (x.iso)) refl
find_name-get (x ∷ table) (suc i) e h k =
    rw (absent_lem (x.iso) table i e (ground arith) k) (find_name-get table i e (ground arith) k)

-- The text of a reference to a name.
pub reference : Bytes → Bytes
reference n = b'&' ∷ (n ++ (b';' ∷ []))

reference-sane : (n : Bytes) → named n ≡ true → entity_sane (reference n) ≡ true
unfolding reference entity_sane named
reference-sane n h = rw (last_or-append n (b';' ∷ []) b'&') (
    let long : ltb (length (b'&' ∷ (n ++ (b';' ∷ [])))) 3 ≡ false =
      ground (arith, length-append n (b';' ∷ [])) in
    rw long refl)

c_string-named : (n : Bytes) → named n ≡ true → c_string n ≡ n
unfolding named
c_string-named n h = bytes_eq→eq (c_string n) n (ground arith)

short-named : (n : Bytes) → named n ≡ true → length n ≤ 31
unfolding named
short-named n h = ground arith

entity_find_named-reference :
    (n : Bytes) → named n ≡ true → entity_find_named (reference n) ≡ find_name n ents
unfolding reference entity_find_named
entity_find_named-reference n h =
    let size : length (reference n) - 2 ≡ length n = omega (arith, length-append n (b';' ∷ [])) in
    let fits : ltb 31 (length n) ≡ false = ground (arith, short-named n h) in
    rw (size, fits, take-append n (b';' ∷ []), c_string-named n h) refl

distinct-ents : distinct ents ≡ true
unfolding distinct absent
distinct-ents = refl

all_named-ents : all_named ents ≡ true
unfolding all_named named c_string
all_named-ents = refl

reference-mark : (n : Bytes) → named n ≡ true → (get_or (reference n) 1 0 == b'#') ≡ false
unfolding reference named
reference-mark [] h = cc
reference-mark (c ∷ cs) h = ground arith

-- Each row of the table ents is found by its name between an ampersand and a semicolon, by all
-- three look-ups: its number, its text for roff and its text for TeX with the flags.
pub find-ents :
    (i : ℕ) (e : Ent)
    → get_elem? ents i ≡ some e
    → (entity_find_iso (reference (e.iso)) ≡ some (e.unicode))
      × (entity_find_nroff (reference (e.iso)) ≡ (e.nroff, some (e.unicode)))
      × (entity_find_tex (reference (e.iso)) ≡ (e.tex, some (e.texflags)))
unfolding entity_find_iso entity_find_nroff entity_find_tex iso_named nroff_named tex_named
find-ents i e k =
    let n : named (e.iso) ≡ true = all_named_lem ents i e all_named-ents k in
    let sane = reference-sane (e.iso) n in
    let mark = reference-mark (e.iso) n in
    let row = entity_find_named-reference (e.iso) n ∙ find_name-get ents i e distinct-ents k in
    rw (sane, mark, row) (refl, refl, refl)
