-- ===== src/Render/Levels.antt =====
-- The level of a heading of src/format/html/html.c, and its tags.
use lowdown.Prelude.{
  ℕ, suc, ◌+◌, ◌-◌, ◌≤◌, ◌≡◌, refl, sym, ap, ◌∙◌, ◌<◌, ◌^◌, ltb, Bool-cases, inl, inr, true, false,
  List, [], ◌∷◌, ◌++◌, Bytes, codes, append_assoc, append-nil, bytes_eq_refl, All, isalnum, arith,
}
use lowdown.Render.{ℤ, pos, negsuc}
use lowdown.Render.Scan.{Scan, scan, step, scan-append, pop, name_byte}
use lowdown.Ident.{decimal}
use lowdown.Ident.Decimal.{decimal-All}
use lowdown.Render.State.{clamp, header_level, overflows}

name-scan :
    (k : List Bytes) (n d : Bytes)
    → All (λ c. name_byte c ≡ true) d
    → scan (Scan.name k n) d ≡ Scan.name k (n ++ d)
unfolding scan step
name-scan k n [] a = ap (Scan.name k) (sym (append-nil n))
name-scan k n (c ∷ cs) (a, b) =
    rw a (name-scan k (n ++ c ∷ []) cs b ∙ ap (Scan.name k) (append_assoc n (c ∷ []) cs))

close-scan :
    (k : List Bytes) (n d : Bytes)
    → All (λ c. name_byte c ≡ true) d
    → scan (Scan.close k n) d ≡ Scan.close k (n ++ d)
unfolding scan step
close-scan k n [] a = ap (Scan.close k) (sym (append-nil n))
close-scan k n (c ∷ cs) (a, b) =
    rw a (close-scan k (n ++ c ∷ []) cs b ∙ ap (Scan.close k) (append_assoc n (c ∷ []) cs))

pub decimal-name_byte : (n : ℕ) → All (λ c. name_byte c ≡ true) (decimal n)
unfolding name_byte isalnum
decimal-name_byte n = decimal-All (λ c. name_byte c ≡ true) (λ d h. ground arith) n

clamp_le : (n : ℕ) → clamp n ≤ 6
unfolding clamp
clamp_le n = ground arith

pub header_level_le : (n : ℕ) (o : ℤ) → header_level n o ≤ 6
unfolding header_level
header_level_le n (pos o) = clamp_le (n + o)
header_level_le n (negsuc o) = clamp_le (n - suc o)

-- The start tag up to its name, and the end tag.
pub start_tag-scan :
    (k : List Bytes) (d : Bytes)
    → All (λ c. name_byte c ≡ true) d
    → scan (Scan.text k) (codes "<h" ++ d) ≡ Scan.name k (codes "h" ++ d)
unfolding scan step name_byte isalnum
start_tag-scan k d a = name-scan k (codes "h") d a

pub end_tag-scan :
    (k : List Bytes) (d : Bytes)
    → All (λ c. name_byte c ≡ true) d
    → scan (Scan.text ((codes "h" ++ d) ∷ k)) (codes "</h" ++ (d ++ codes ">\n")) ≡ Scan.text k
unfolding scan step pop name_byte isalnum
end_tag-scan k d a =
    let j = (codes "h" ++ d) ∷ k in
    scan-append (Scan.close j (codes "h")) d (codes ">\n")
    ∙ ap (λ p. scan p (codes ">\n")) (close-scan j (codes "h") d a)
    ∙ rw (bytes_eq_refl (codes "h" ++ d)) refl

-- The sum of a level and an offset, where it is not negative.
unfoldable pub IsSum : ℕ → ℤ → ℕ → Type 0
IsSum level (pos o) v = v ≡ level + o
IsSum level (negsuc o) v = v + suc o ≡ level

-- The number of the element: the sum where it is one from 1 to 6, and else the nearer of the two.
unfoldable pub IsLevel : ℕ → ℤ → ℕ → Type 0
unfolding IsSum
IsLevel level offs l =
    (1 ≤ l)
    × (l ≤ 6)
    × ((v : ℕ) → IsSum level offs v → (v < 1 → l ≡ 1) × (1 ≤ v → v ≤ 6 → l ≡ v) × (6 < v → l ≡ 6))
    × (((v : ℕ) → ¬ IsSum level offs v) → l ≡ 1)

clamp_cases :
    (n : ℕ) → (n < 1 → clamp n ≡ 1) × (1 ≤ n → n ≤ 6 → clamp n ≡ n) × (6 < n → clamp n ≡ 6)
unfolding clamp
clamp_cases n = ((λ h. ground arith), (λ h k. ground arith), λ h. ground arith)

one_clamp : (n : ℕ) → 1 ≤ clamp n
unfolding clamp
one_clamp n = ground arith

pub header_level-IsLevel : (level : ℕ) (offs : ℤ) → IsLevel level offs (header_level level offs)
unfolding IsLevel IsSum header_level
header_level-IsLevel level (pos o) = (
  one_clamp (level + o),
  clamp_le (level + o),
  (λ v e. rw e (clamp_cases (level + o))),
  λ f. absurd (f (level + o) refl),
)
header_level-IsLevel level (negsuc o) = (
  one_clamp (level - suc o),
  clamp_le (level - suc o),
  (λ v e. let same : v ≡ level - suc o = omega (arith, e) in rw same (clamp_cases (level - suc o))),
  λ f. elim (Bool-cases (ltb level (suc o))) [
    | inl h ↦ let z : level - suc o ≡ 0 = ground arith in rw z ((clamp_cases 0).0 (omega arith))
    | inr h ↦ absurd (f (level - suc o) (ground arith))
  ],
)

-- An offset far inside ssize_t.
unfoldable pub IsNear : ℤ → Type 0
IsNear (pos o) = o ≤ 2 ^ 62
IsNear (negsuc o) = Unit

pub near-overflows :
    (level : ℕ) (offs : ℤ) → level < 2 ^ 62 → IsNear offs → overflows level offs ≡ false
unfolding IsNear overflows
near-overflows level (pos o) lt le = ground arith
near-overflows level (negsuc o) lt le = ground arith
