-- ===== src/Prelude/Memchr.antt =====
-- memchr and memrchr: the place of the first and of the last byte of a kind.
use Prim.Native.Nat.{ℕ, suc, ◌≤◌, ◌<◌}
use mathlib.Core.Path.{◌≡◌, refl, ap, subst}
use mathlib.Core.Logic.{◌≢◌, inl, inr}
use mathlib.Core.List.{[], ◌∷◌, ◌++◌}
use mathlib.Core.Option
use mathlib.Core.Option.{Option, none, some}
use native.Mathlib.Omega.{arith}
use lowdown.Prelude.Tests.{◌==◌, ==_iff, if◌then◌else◌, Bool-cases, Option-cases}
use lowdown.Prelude.Lists.{Bytes, length, take, drop, All}

unfoldable pub memchr : ℕ → Bytes → Option ℕ
memchr c [] = none
memchr c (x ∷ xs) = if x == c then some 0 else Option.map suc (memchr c xs)

unfoldable pub memrchr : ℕ → Bytes → Option ℕ
memrchr c [] = none
memrchr c (x ∷ xs) = elim (memrchr c xs) [
  | some i ↦ some (suc i)
  | none ↦ if x == c then some 0 else none
]

-- The byte `c` stands at `i`, and nowhere before it.
abbrev pub FirstAt : ℕ → Bytes → ℕ → Type 0
FirstAt c xs i =
    (xs ≡ take i xs ++ (c ∷ drop (suc i) xs)) × All (λ x. x ≢ c) (take i xs) × (i < length xs)

-- The byte `c` stands at `i`, and nowhere behind it.
abbrev pub LastAt : ℕ → Bytes → ℕ → Type 0
LastAt c xs i =
    (xs ≡ take i xs ++ (c ∷ drop (suc i) xs)) × All (λ x. x ≢ c) (drop (suc i) xs) × (i < length xs)

pub memchr-none : (c : ℕ) (xs : Bytes) → memchr c xs ≡ none → All (λ x. x ≢ c) xs
unfolding memchr
memchr-none c [] h = tt
memchr-none c (x ∷ xs) h = ground (arith, memchr-none c xs)

FirstAt-suc : (c x : ℕ) (xs : Bytes) (j : ℕ) → x ≢ c → FirstAt c xs j → FirstAt c (x ∷ xs) (suc j)
FirstAt-suc c x xs j n (e, a, l) = (ap (◌∷◌ x) e, (n, a), omega arith)

memchr-FirstAt_of : (c : ℕ) (xs : Bytes) (i : ℕ) → memchr c xs ≡ some i → FirstAt c xs i
unfolding memchr
memchr-FirstAt_of c [] i h = cc
memchr-FirstAt_of c (x ∷ xs) i h = elim (Bool-cases (x == c)) [
  | inl t ↦
      let e : 0 ≡ i = (let g = rw t at h in cc g) in
      subst (FirstAt c (x ∷ xs)) e (ap (λ y. y ∷ xs) ((==_iff x c).0 t), tt, omega arith)
  | inr t ↦ elim (Option-cases (memchr c xs)) [
    | inl n ↦ let g = rw (t, n) at h in cc g
    | inr (j, m) ↦
        let e : suc j ≡ i = (let g = rw (t, m) at h in cc g) in
        subst (FirstAt c (x ∷ xs)) e
          (FirstAt-suc c x xs j (ground arith) (memchr-FirstAt_of c xs j m))
  ]
]

pub memchr-FirstAt : (c : ℕ) (xs : Bytes) {i : ℕ} → memchr c xs ≡ some i → FirstAt c xs i
memchr-FirstAt c xs {i} h = memchr-FirstAt_of c xs i h

memrchr-none : (c : ℕ) (xs : Bytes) → memrchr c xs ≡ none → All (λ x. x ≢ c) xs
unfolding memrchr
memrchr-none c [] h = tt
memrchr-none c (x ∷ xs) h = elim (Option-cases (memrchr c xs)) [
  | inl n ↦ elim (Bool-cases (x == c)) [
    | inl t ↦ let g = rw (n, memrchr) at h in let g' = rw t at g in cc g'
    | inr t ↦ (ground arith, memrchr-none c xs n)
  ]
  | inr (j, m) ↦ let g = rw (m, memrchr) at h in cc g
]

memrchr-LastAt_of : (c : ℕ) (xs : Bytes) (i : ℕ) → memrchr c xs ≡ some i → LastAt c xs i
unfolding memrchr
memrchr-LastAt_of c [] i h = cc
memrchr-LastAt_of c (x ∷ xs) i h = elim (Option-cases (memrchr c xs)) [
  | inl n ↦ elim (Bool-cases (x == c)) [
    | inl t ↦
        let g = rw (n, memrchr) at h in
        let e : 0 ≡ i = (let g' = rw t at g in cc g') in
        subst (LastAt c (x ∷ xs)) e
          (ap (λ y. y ∷ xs) ((==_iff x c).0 t), memrchr-none c xs n, omega arith)
    | inr t ↦ let g = rw (n, memrchr) at h in let g' = rw t at g in cc g'
  ]
  | inr (j, m) ↦
      let e : suc j ≡ i = (let g = rw (m, memrchr) at h in cc g) in
      let (p, a, l) = memrchr-LastAt_of c xs j m in
      subst (LastAt c (x ∷ xs)) e (ap (◌∷◌ x) p, a, omega arith)
]

pub memrchr-LastAt : (c : ℕ) (xs : Bytes) {i : ℕ} → memrchr c xs ≡ some i → LastAt c xs i
memrchr-LastAt c xs {i} h = memrchr-LastAt_of c xs i h

-- What the first place says of the last: it exists, and does not stand before it.
pub memrchr_of_memchr :
    (c : ℕ) (xs : Bytes) (i : ℕ)
    → memchr c xs ≡ some i
    → (j : ℕ) × (memrchr c xs ≡ some j) × (i ≤ j)
unfolding memchr memrchr
memrchr_of_memchr c [] i h = cc
memrchr_of_memchr c (x ∷ xs) i h = elim (Bool-cases (x == c)) [
  | inl t ↦
      let e : 0 ≡ i = (let g = rw t at h in cc g) in
      elim (Option-cases (memrchr c xs)) [
        | inl n ↦ (0, rw (n, memrchr) (rw t refl), omega arith)
        | inr (j, m) ↦ (suc j, rw (m, memrchr) refl, omega arith)
      ]
  | inr t ↦ elim (Option-cases (memchr c xs)) [
    | inl n ↦ let g = rw (t, n) at h in cc g
    | inr (k, m) ↦
        let e : suc k ≡ i = (let g = rw (t, m) at h in cc g) in
        let (j, q, l) = memrchr_of_memchr c xs k m in (suc j, rw (q, memrchr) refl, omega arith)
  ]
]
