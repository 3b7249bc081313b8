-- ===== src/Parse/Attrs/Arrays.antt =====
-- Arrays written at a place and made longer.

use lowdown.Prelude.{
  ℕ, zero, suc, ◌≤◌, ◌<◌, ◌≡◌, refl, ◌∙◌, false, List, [], ◌∷◌, ◌++◌, some, length, drop, get_elem?,
  set, ◌==◌, if◌then◌else◌, arith,
}

module _ {ℓ} {A : Type ℓ} where
  pub length-set : (l : List A) (i : ℕ) (v : A) → length (set l i v) ≡ length l
  length-set [] i v = refl
  length-set (x ∷ l) zero v = refl
  length-set (x ∷ l) (suc i) v = omega (arith, length-set l i v)

  pub get_elem?-set :
      (l : List A) (i j : ℕ) (v : A)
      → i < length l
      → get_elem? (set l i v) j ≡ (if j == i then some v else get_elem? l j)
  get_elem?-set [] i j v lt = absurd (omega arith)
  get_elem?-set (x ∷ l) zero zero v lt = refl
  get_elem?-set (x ∷ l) zero (suc j) v lt = let d : (suc j == 0) ≡ false = ground arith in rw d refl
  get_elem?-set (x ∷ l) (suc i) zero v lt = let d : (0 == suc i) ≡ false = ground arith in rw d refl
  get_elem?-set (x ∷ l) (suc i) (suc j) v lt =
      let same : (suc j == suc i) ≡ (j == i) = ground arith in
      get_elem?-set l i j v (omega arith) ∙ rw same refl

  pub drop-set : (l : List A) (i n : ℕ) (v : A) → i < n → drop n (set l i v) ≡ drop n l
  drop-set l i zero v lt = absurd (omega arith)
  drop-set [] i (suc n) v lt = refl
  drop-set (x ∷ l) zero (suc n) v lt = refl
  drop-set (x ∷ l) (suc i) (suc n) v lt = drop-set l i n v (omega arith)

  pub get_elem?-append :
      (l r : List A) (i : ℕ) → i < length l → get_elem? (l ++ r) i ≡ get_elem? l i
  get_elem?-append [] r i lt = absurd (omega arith)
  get_elem?-append (x ∷ l) r zero lt = refl
  get_elem?-append (x ∷ l) r (suc i) lt = get_elem?-append l r i (omega arith)

  pub get_elem?-lt : (l : List A) (i : ℕ) → i < length l → (a : A) × (get_elem? l i ≡ some a)
  get_elem?-lt [] i lt = absurd (omega arith)
  get_elem?-lt (x ∷ l) zero lt = (x, refl)
  get_elem?-lt (x ∷ l) (suc i) lt = get_elem?-lt l i (omega arith)

  pub drop-append_le : (n : ℕ) (l r : List A) → n ≤ length l → drop n (l ++ r) ≡ drop n l ++ r
  drop-append_le zero l r le = refl
  drop-append_le (suc n) [] r le = absurd (omega arith)
  drop-append_le (suc n) (x ∷ l) r le = drop-append_le n l r (omega arith)
