-- ===== src/Parse/Lines/Prefixes.antt =====
-- What prefix_dli and prefix_code of src/parse/document.c accept, and what the prefixes of list
-- items share.
use lowdown.Prelude.{
  ◌↔◌, ==_iff, subst, ℕ, suc, ◌+◌, ◌≤◌, ◌<◌, ◌≡◌, ◌⊎◌, refl, Bool, true, false, not, ◌||◌, [], ◌∷◌,
  ◌++◌, some, Bytes, codes, length, drop, replicate, leb, ◌==◌, arith, inl, inr, Bool-cases,
  length-drop,
}
use lowdown.Parse.Lines.{
  prefix_code, spaces_loop, countspaces, line_end, is_headerline, is_next_headerline, unless_header,
  dli_at, prefix_dli,
}
use lowdown.Parse.Lines.Spaces.{Indents, countspaces-Indents}

-- The first `r` bytes are at most three spaces and a marker.
abbrev pub Marked : (Bytes → Type 0) → Bytes → ℕ → Type 0
Marked P d r =
    (n : ℕ) × (p : Bytes) × (u : Bytes) × (d ≡ replicate n b' ' ++ (p ++ u))
    × (n ≤ 3)
    × (r ≡ n + length p)
    × P p

is_headerline-some : (d : Bytes) → 0 < length d → (h : ℕ) × (is_headerline d ≡ some h)
unfolding is_headerline
is_headerline-some [] l = elim l [ ]
is_headerline-some (c ∷ cs) l = (_, refl)

-- is_next_headerline reads no byte outside its text.
pub is_next_headerline-some : (d : Bytes) → (h : ℕ) × (is_next_headerline d ≡ some h)
unfolding is_next_headerline
is_next_headerline-some d = elim (Bool-cases (leb (length d) (suc (line_end d)))) [
  | inl t ↦ (0, rw t refl)
  | inr t ↦
      let (h, e) =
        is_headerline-some (drop (suc (line_end d)) d)
          (let q = length-drop (suc (line_end d)) d in ground arith) in
      (h, rw t e)
]

pub unless_header-some :
    (d : Bytes) (n : ℕ) → (r : ℕ) × (unless_header d n ≡ some r) × ((r ≡ 0) ⊎ (r ≡ n))
unfolding unless_header
unless_header-some d n =
    let (h, e) = is_next_headerline-some d in
    elim (Bool-cases (h == 0)) [
      | inl t ↦ (n, rw e (rw t refl), inr refl)
      | inr t ↦ (0, rw e (rw t refl), inl refl)
    ]

-- What follows the indentation of a text.
abbrev pub Rest : Bytes → ℕ → Bytes → Type 0
Rest d n rest = (d ≡ replicate n b' ' ++ rest) × (n ≤ 3)

pub countspaces-Rest : (d : Bytes) → Rest d (countspaces d 0 3) (drop (countspaces d 0 3) d)
countspaces-Rest d = let i = countspaces-Indents d 3 in (i.spells, i.limited refl)

-- A colon and a space.
abbrev pub Definition : Bytes → Type 0
Definition p = p ≡ codes ": "

dli_at-Marked :
    (d : Bytes) (n : ℕ) (rest : Bytes)
    → Rest d n rest
    → (r : ℕ) × (dli_at n rest ≡ some r) × ((r ≡ 0) ⊎ Marked Definition d r)
unfolding dli_at
dli_at-Marked d n [] h = (0, refl, inl refl)
dli_at-Marked d n (c ∷ []) h = (0, refl, inl refl)
dli_at-Marked d n (c ∷ x ∷ xs) (e, l) = elim (Bool-cases (not (c == b':') || not (x == b' '))) [
  | inl t ↦ (0, rw t refl, inl refl)
  | inr t ↦
      let (r, q, z) = unless_header-some (c ∷ x ∷ xs) (n + 2) in
      (r, rw t q, elim z [ inl w ↦ inl w | inr w ↦ inr (n, c ∷ x ∷ [], xs, e, l, w, ground arith) ])
]

-- prefix_dli reads no byte outside its text, and a prefix that it finds is at most three spaces, a
-- colon and a space.
pub prefix_dli-Marked :
    (deflist : Bool) (d : Bytes)
    → (r : ℕ) × (prefix_dli deflist d ≡ some r) × ((r ≡ 0) ⊎ Marked Definition d r)
unfolding prefix_dli
prefix_dli-Marked false d = (0, refl, inl refl)
prefix_dli-Marked true d =
    dli_at-Marked d (countspaces d 0 3) (drop (countspaces d 0 3) d) (countspaces-Rest d)

four_spaces : (u : Bytes) → countspaces (codes "    " ++ u) 0 4 ≡ 4
unfolding countspaces spaces_loop
four_spaces [] = refl
four_spaces (c ∷ cs) = refl

-- prefix_code returns 4 exactly for a text that begins with four spaces, and 0 for any other.
pub prefix_code_iff :
    (d : Bytes)
    → ((prefix_code d ≡ 4) ↔ ((u : Bytes) × (d ≡ codes "    " ++ u)))
      × ((prefix_code d ≡ 4) ⊎ (prefix_code d ≡ 0))
unfolding prefix_code
prefix_code_iff d = elim (Bool-cases (countspaces d 0 4 == 4)) [
  | inl t ↦
      let n = (==_iff (countspaces d 0 4) 4).0 t in
      let i = subst (Indents 4 d) n (countspaces-Indents d 4) in
      rw t (((λ _. (drop 4 d, i.spells)), λ _. refl), inl refl)
  | inr t ↦ rw t (
    (
      (λ e. absurd (omega (arith, e))),
      λ (u, e). let f = rw (e, four_spaces u) at t in absurd (cc f),
    ),
    inr refl,
  )
]
