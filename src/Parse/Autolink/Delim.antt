-- ===== src/Parse/Autolink/Delim.antt =====
-- autolink_delim and check_domain of src/parse/autolink.c stay inside the text.

use lowdown.Prelude.{
  ℕ, zero, suc, ◌+◌, ◌-◌, ◌≤◌, ◌<◌, ◌≡◌, ◌≢◌, refl, ap, subst, ◌∙◌, true, false, ◌&&◌, [], ◌∷◌,
  Option, some, Bytes, codes, length, take, get_elem?, ltb, ◌==◌, ==_iff, isalpha, arith, inl, inr,
  Bool-cases, All,
}
use lowdown.Buffer.{size_mod}
use lowdown.Parse.Autolink.{
  strchr, cut_tag, entity_start, less_two, entity_end, trim_byte, trim, balance, autolink_delim,
  domain_loop, check_domain, to_space,
}

pub get_elem?-some : (xs : Bytes) (i : ℕ) → i < length xs → (c : ℕ) × (get_elem? xs i ≡ some c)
get_elem?-some [] i h = elim h [ ]
get_elem?-some (x ∷ xs) zero h = (x, refl)
get_elem?-some (x ∷ xs) (suc i) h = get_elem?-some xs i (omega arith)

-- A value that is defined, and at most `n`.
AtMost : ℕ → Option ℕ → Type 0
AtMost n o = (r : ℕ) × (o ≡ some r) × (r ≤ n)

entity_start-AtMost : (d : Bytes) (n : ℕ) → n < length d → AtMost n (entity_start d n)
unfolding entity_start AtMost
entity_start-AtMost d zero h = (0, refl, omega arith)
entity_start-AtMost d (suc n) h =
    let (c, e) = get_elem?-some d (suc n) h in
    let (r, q, l) = entity_start-AtMost d n (omega arith) in
    elim (Bool-cases (isalpha c)) [
      | inl t ↦ (r, rw e (rw t q), omega arith)
      | inr t ↦ (suc n, rw e (rw t refl), omega arith)
    ]

less_two_lem : (e : ℕ) → 2 ≤ e → e < size_mod → less_two e ≡ e - 2
unfolding less_two
less_two_lem e h k = omega arith

entity_end-AtMost :
    (d : Bytes) (e : ℕ) → 2 ≤ e → e ≤ length d → e < size_mod → AtMost (e - 1) (entity_end d e)
unfolding entity_end AtMost
entity_end-AtMost d e h k m =
    let (n, q, l) = entity_start-AtMost d (e - 2) (omega arith) in
    let (c, g) = get_elem?-some d n (omega arith) in
    rw (less_two_lem e h m) (
      rw q (
        rw g (elim (Bool-cases (ltb n (e - 2) && c == b'&')) [
          | inl t ↦ (n, rw t refl, omega arith)
          | inr t ↦ (e - 1, rw t refl, omega arith)
        ])))

-- The text does not begin with a semicolon.
abbrev pub NoSemicolon : Bytes → Type 0
NoSemicolon d = get_elem? d 0 ≢ some b';'

-- A semicolon at the end of a text that does not begin with one is not its first byte.
two_of :
    (d : Bytes) (e c : ℕ)
    → NoSemicolon d
    → get_elem? d (e - 1) ≡ some c
    → (c == b';') ≡ true
    → (e == 0) ≡ false
    → 2 ≤ e
two_of d e c n g w t = elim (Bool-cases (e == 1)) [
  | inl one ↦ absurd (
      n (
        subst (λ i. get_elem? d (i - 1) ≡ some b';') ((==_iff e 1).0 one)
          (g ∙ ap some ((==_iff c b';').0 w))))
  | inr other ↦ ground arith
]

trim_byte-AtMost :
    (again : ℕ → Option ℕ) (d : Bytes) (e c : ℕ)
    → NoSemicolon d
    → get_elem? d (e - 1) ≡ some c
    → (e == 0) ≡ false
    → e ≤ length d
    → e < size_mod
    → ((x : ℕ) → x < e → AtMost x (again x))
    → AtMost e (trim_byte again d e c)
unfolding trim_byte AtMost
trim_byte-AtMost again d e c n g z k m ih = elim (Bool-cases (strchr (codes "?!.,:") c)) [
  | inl u ↦ let (r, q, l) = ih (e - 1) (ground arith) in (r, rw u q, omega arith)
  | inr u ↦ elim (Bool-cases (c == b';')) [
    | inl w ↦
        let two = two_of d e c n g w z in
        let (x, p, b) = entity_end-AtMost d e two k m in
        let (r, q, l) = ih x (omega arith) in (r, rw (u, w) (rw p q), omega arith)
    | inr w ↦ (e, rw (u, w) refl, omega arith)
  ]
]

trim-AtMost :
    (fuel : ℕ) (d : Bytes) (e : ℕ)
    → NoSemicolon d
    → e < fuel
    → e ≤ length d
    → e < size_mod
    → AtMost e (trim fuel d e)
unfolding trim
trim-AtMost zero d e n h k m = elim h [ ]
trim-AtMost (suc fuel) d e n h k m = elim (Bool-cases (e == 0)) [
  | inl t ↦ rw (t, trim) (unfold AtMost in (0, refl, omega arith))
  | inr t ↦
      let (c, g) = get_elem?-some d (e - 1) (ground arith) in
      rw (t, trim)
        (rw g (
          trim_byte-AtMost (trim fuel d) d e c n g t k m
            (λ x l. trim-AtMost fuel d x n (omega arith) (omega arith) (omega arith))))
]

cut_tag-le : (d : Bytes) (n i : ℕ) → cut_tag d n i ≤ i + n
unfolding cut_tag
cut_tag-le [] n i = omega arith
cut_tag-le (c ∷ cs) zero i = omega arith
cut_tag-le (c ∷ cs) (suc n) i = ground (arith, cut_tag-le cs n (i + 1))

le-cut_tag : (d : Bytes) (n i : ℕ) → i ≤ cut_tag d n i
unfolding cut_tag
le-cut_tag [] n i = omega arith
le-cut_tag (c ∷ cs) zero i = omega arith
le-cut_tag (c ∷ cs) (suc n) i = ground (arith, le-cut_tag cs n (i + 1))

-- No `<`.
abbrev pub NoTag : Bytes → Type 0
NoTag = All (λ c. c ≢ b'<')

cut_tag-NoTag : (d : Bytes) (n i r : ℕ) → i + r ≤ cut_tag d n i → NoTag (take r d)
unfolding cut_tag
cut_tag-NoTag d n i zero h = tt
cut_tag-NoTag [] n i (suc r) h = tt
cut_tag-NoTag (c ∷ cs) zero i (suc r) h = absurd (omega arith)
cut_tag-NoTag (c ∷ cs) (suc n) i (suc r) h = elim (Bool-cases (c == b'<')) [
  | inl t ↦ let h' = rw t at h in absurd (omega (arith, h'))
  | inr t ↦ let h' = rw t at h in (ground arith, cut_tag-NoTag cs n (i + 1) r (omega (arith, h')))
]

balance-le : (d : Bytes) (e c : ℕ) → balance d e c ≤ e
unfolding balance
balance-le d e c = ground arith

-- In a text that does not begin with a semicolon and is shorter than size_t, with `link_end` inside
-- it, autolink_delim ends and reads no byte outside the text; it returns a number that is at most
-- `link_end`, and leaves no `<` before it.
pub autolink_delim-le :
    (d : Bytes) (link_end : ℕ)
    → NoSemicolon d
    → link_end ≤ length d
    → length d < size_mod
    → (r : ℕ) × (autolink_delim d link_end ≡ some r) × (r ≤ link_end) × NoTag (take r d)
unfolding autolink_delim AtMost
autolink_delim-le d link_end n h m =
    let cut = cut_tag d link_end 0 in
    let le = cut_tag-le d link_end 0 in
    let (e, q, l) = trim-AtMost (cut + 1) d cut n (omega arith) (omega arith) (omega arith) in
    elim (Bool-cases (e == 0)) [
      | inl t ↦ (0, rw q (rw t refl), omega arith, tt)
      | inr t ↦
          let (c, g) = get_elem?-some d (e - 1) (ground arith) in
          let b = balance-le d e c in
          (
            balance d e c,
            rw q (rw t (rw g refl)),
            omega arith,
            cut_tag-NoTag d link_end 0 (balance d e c) (omega arith),
          )
    ]

domain_loop-le : (i np : ℕ) (d : Bytes) → domain_loop i np d ≤ i + length d
unfolding domain_loop
domain_loop-le i np [] = ground arith
domain_loop-le i np (c ∷ []) = ground arith
domain_loop-le i np (c ∷ x ∷ ds) =
    ground (arith, domain_loop-le (i + 1) (np + 1) (x ∷ ds), domain_loop-le (i + 1) np (x ∷ ds))

pub check_domain-le :
    (d : Bytes) → 0 < length d → (r : ℕ) × (check_domain d ≡ some r) × (r ≤ length d)
unfolding check_domain
check_domain-le [] h = elim h [ ]
check_domain-le (c ∷ cs) h = (_, refl, ground (arith, domain_loop-le 1 0 cs))

pub to_space-le : (e : ℕ) (d : Bytes) → to_space e d ≤ e + length d
unfolding to_space
to_space-le e [] = omega arith
to_space-le e (c ∷ cs) = ground (arith, to_space-le (e + 1) cs)
