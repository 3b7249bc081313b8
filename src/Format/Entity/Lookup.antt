-- ===== src/Format/Entity/Lookup.antt =====
-- What the look-up of entities of src/format/entity.c gives.
use lowdown.Prelude.{
  ℕ, zero, suc, ◌-◌, ◌≤◌, ◌≡◌, ◌≢◌, ◌⊎◌, refl, subst, ==_iff, get_elem?, Bool, true, false, not,
  ◌&&◌, ◌||◌, List, [], ◌∷◌, Option, none, some, Bytes, length, take, drop, get_or, is_nil,
  bytes_eq, ltb, leb, ◌==◌, if◌then◌else◌, arith, inl, inr, Bool-cases, c_string,
}
use lowdown.Format.Entity.Entry.{Ent}
use lowdown.Format.Entity.{
  ents, int32_max, convert, strtoull, entity_find_num, find_name, entity_find_named, entity_sane,
  entity_find_iso, find_unicode, entity_find_nroff, entity_find_tex, iso_named, nroff_num,
  nroff_named, tex_num, tex_named,
}

-- A number that is found is one of int32_t.
unfoldable pub Small : Option ℕ → Type 0
Small none = Unit
Small (some n) = n ≤ int32_max

Small-if : (b : Bool) (x y : Option ℕ) → Small x → Small y → Small (if b then x else y)
Small-if true x y s t = s
Small-if false x y s t = t

Small-guard : (v : ℕ) → Small (if ltb int32_max v then none else some v)
unfolding Small
Small-guard v = elim (Bool-cases (ltb int32_max v)) [
  | inl h ↦ rw h tt
  | inr h ↦ let le : v ≤ int32_max = ground arith in rw h le
]

convert-Small : (base : ℕ) (s : Bytes) → Small (convert base s)
unfolding convert Small
convert-Small base s =
    Small-if (is_nil s || not (is_nil ((strtoull base s).1))) none
      (if ltb int32_max ((strtoull base s).0) then none else some ((strtoull base s).0)) tt
      (Small-guard ((strtoull base s).0))

-- What a table has for a number: one row with it, which gives the text for roff, and the text and
-- the flags for TeX; or no row, and nothing is given.
unfoldable pub Given : List Ent → ℕ → Option Bytes → Option Bytes × Option ℕ → Type 0
Given table n nroff tex =
    ((i : ℕ) × (e : Ent) × (get_elem? table i ≡ some e)
      × (e.unicode ≡ n)
      × (nroff ≡ e.nroff)
      × (tex ≡ (e.tex, some (e.texflags))))
    ⊎ (((i : ℕ) (e : Ent) → get_elem? table i ≡ some e → e.unicode ≢ n)
        × (nroff ≡ none)
        × (tex ≡ (none, none)))

-- The outcomes for roff, for TeX and for the number belong together.
pub Agrees : Option Bytes × Option ℕ → Option Bytes × Option ℕ → Option ℕ → Type 0
Agrees nroff tex iso =
    (nroff.1 ≡ iso)
    × Small iso
    × (iso ≡ none → (nroff.0 ≡ none) × (tex.0 ≡ none) × (tex.1 ≡ none))
    × ((n : ℕ) → iso ≡ some n → Given ents n (nroff.0) tex)

other_row :
    (e : Ent) (table : List Ent) (n : ℕ)
    → (e.unicode == n) ≡ false
    → ((i : ℕ) (f : Ent) → get_elem? table i ≡ some f → f.unicode ≢ n)
    → (i : ℕ) (f : Ent) → get_elem? (e ∷ table) i ≡ some f
    → f.unicode ≢ n
other_row e table n h g zero f k =
    let same : e ≡ f = cc in
    subst (λ (x : Ent). x.unicode ≢ n) same (λ q. cc ((==_iff (e.unicode) n).1 q))
other_row e table n h g (suc i) f k = g i f k

Given-behind :
    (e : Ent) (table : List Ent) (n : ℕ) (x : Option Bytes) (y : Option Bytes × Option ℕ)
    → (e.unicode == n) ≡ false
    → Given table n x y
    → Given (e ∷ table) n x y
unfolding Given
Given-behind e table n x y h (inl (i, f, a, b, c, k)) = inl (suc i, f, a, b, c, k)
Given-behind e table n x y h (inr (g, k, l)) = inr (other_row e table n h g, k, l)

-- The search by number ends at a row with it, or there is none.
Given-unicode :
    (table : List Ent) (n : ℕ)
    → Given table n
        ((elim (find_unicode n table) as (λ x. Option Bytes × Option ℕ) [
          | none ↦ (none, some n)
          | some e ↦ (e.nroff, some n)
        ]).0)
        (tex_named (find_unicode n table))
unfolding Given find_unicode tex_named
Given-unicode [] n = inr ((λ i e h. cc), refl, refl)
Given-unicode (e ∷ table) n = elim (Bool-cases (e.unicode == n)) [
  | inl h ↦ rw h (inl (0, e, refl, (==_iff (e.unicode) n).0 h, refl, refl))
  | inr h ↦ rw h (Given-behind e table n _ _ h (Given-unicode table n))
]

none-Agrees : Agrees (none, none) (none, none) none
unfolding Agrees Small
none-Agrees = (refl, tt, (λ e. (refl, refl, refl)), λ n e. cc)

num-Agrees : (o : Option ℕ) → Small o → Agrees (nroff_num o) (tex_num o) o
unfolding Agrees nroff_num tex_num tex_named
num-Agrees none s = (refl, s, (λ e. (refl, refl, refl)), λ n e. cc)
num-Agrees (some n) s = (
  stored (find_unicode n ents),
  s,
  (λ e. cc),
  λ m e.
      let same : n ≡ m = cc in
      subst (λ z. Given ents z ((nroff_num (some n)).0) (tex_num (some n))) same
        (Given-unicode ents n),
)
  where
    stored :
        (o : Option Ent)
        → (elim o as (λ x. Option Bytes × Option ℕ) [
          | none ↦ (none, some n)
          | some e ↦ (e.nroff, some n)
        ]).1
          ≡ some n
    stored none = refl
    stored (some e) = refl

-- Every number of the table is one of int32_t.
small_table : List Ent → Bool
small_table [] = true
small_table (e ∷ table) = leb (e.unicode) int32_max && small_table table

find_name-Small :
    (b : Bytes) (table : List Ent)
    → small_table table ≡ true
    → Small (iso_named (find_name b table))
unfolding find_name iso_named small_table Small
find_name-Small b [] h = tt
find_name-Small b (e ∷ table) h = elim (Bool-cases (bytes_eq b (e.iso))) [
  | inl k ↦ rw k (ground arith)
  | inr k ↦ rw k (find_name-Small b table (ground arith))
]

-- What the search by name finds stands in the table.
InTable : List Ent → Option Ent → Type 0
InTable table none = Unit
InTable table (some e) = (i : ℕ) × (get_elem? table i ≡ some e)

InTable-behind :
    (e : Ent) (table : List Ent) (o : Option Ent) → InTable table o → InTable (e ∷ table) o
unfolding InTable
InTable-behind e table none h = tt
InTable-behind e table (some f) (i, h) = (suc i, h)

find_name-InTable : (b : Bytes) (table : List Ent) → InTable table (find_name b table)
unfolding find_name InTable
find_name-InTable b [] = tt
find_name-InTable b (e ∷ table) = elim (Bool-cases (bytes_eq b (e.iso))) [
  | inl h ↦ rw h (0, refl)
  | inr h ↦ rw h (InTable-behind e table _ (find_name-InTable b table))
]

named-Agrees :
    (o : Option Ent)
    → InTable ents o
    → Small (iso_named o)
    → Agrees (nroff_named o) (tex_named o) (iso_named o)
unfolding Agrees nroff_named tex_named iso_named InTable Given
named-Agrees none t s = (refl, s, (λ e. (refl, refl, refl)), λ n e. cc)
named-Agrees (some e) (i, t) s =
    (refl, s, (λ h. cc), λ n h. let same : e.unicode ≡ n = cc in inl (i, e, t, same, refl, refl))

entity_find_named-InTable : (d : Bytes) → InTable ents (entity_find_named d)
unfolding entity_find_named InTable
entity_find_named-InTable d = elim (Bool-cases (ltb 31 (length d - 2))) [
  | inl h ↦ rw h tt
  | inr h ↦ rw h (find_name-InTable (c_string (take (length d - 2) (drop 1 d))) ents)
]

entity_find_num-Small : (d : Bytes) → Small (entity_find_num d)
unfolding entity_find_num Small
entity_find_num-Small d =
    let hex = c_string (take (length d - 4) (drop 3 d)) in
    let dec = c_string (take (length d - 3) (drop 2 d)) in
    Small-if (ltb (length d) 4) none _ tt (
      Small-if (get_or d 2 0 == b'x' || get_or d 2 0 == b'X') _ _
        (Small-if (ltb (length d) 5) none _ tt
          (Small-if (ltb 31 (length d - 4)) none (convert 16 hex) tt (convert-Small 16 hex)))
        (Small-if (ltb 31 (length d - 3)) none (convert 10 dec) tt (convert-Small 10 dec)))

none-Small : Small (iso_named none)
unfolding iso_named Small
none-Small = tt

entity_find_named-Small : (d : Bytes) → Small (iso_named (entity_find_named d))
unfolding entity_find_named small_table
entity_find_named-Small d = elim (Bool-cases (ltb 31 (length d - 2))) [
  | inl h ↦ rw h none-Small
  | inr h ↦ rw h (find_name-Small (c_string (take (length d - 2) (drop 1 d))) ents refl)
]

-- The three look-ups agree on every text: entity_find_nroff stores in `iso` what entity_find_iso
-- returns, which fits in int32_t. Where that is -1 neither it nor entity_find_tex returns a text, and
-- no flags are stored. Otherwise either one row of the table has that number, and the two return its
-- texts, with its flags for TeX; or no row has it, and they return no text and store no flags.
pub entity_find_nroff-iso :
    (d : Bytes) → Agrees (entity_find_nroff d) (entity_find_tex d) (entity_find_iso d)
unfolding entity_find_nroff entity_find_iso entity_find_tex
entity_find_nroff-iso d = elim (Bool-cases (not (entity_sane d))) [
  | inl h ↦ rw h none-Agrees
  | inr h ↦ rw h (by_mark (get_or d 1 0 == b'#'))
]
  where
    by_mark :
        (b : Bool)
        → Agrees
            (if b then nroff_num (entity_find_num d) else nroff_named (entity_find_named d))
            (if b then tex_num (entity_find_num d) else tex_named (entity_find_named d))
            (if b then entity_find_num d else iso_named (entity_find_named d))
    by_mark true = num-Agrees (entity_find_num d) (entity_find_num-Small d)
    by_mark false =
        named-Agrees (entity_find_named d) (entity_find_named-InTable d) (entity_find_named-Small d)

pub entity_find_iso-Small : (d : Bytes) → Small (entity_find_iso d)
unfolding Agrees
entity_find_iso-Small d = let (_, small, _, _) = entity_find_nroff-iso d in small
