-- ===== src/Ident/Decimal.antt =====
-- Different numbers are printed differently.
use lowdown.Prelude.{
  ℕ, zero, suc, ◌+◌, ◌-◌, ◌*◌, ◌/◌, ◌%◌, ◌^◌, ◌≤◌, ◌<◌, ◌≡◌, sym, ap, subst, ◌∙◌, [], ◌∷◌, Bytes,
  length, All, ltb, lt→ltb, arith, inl, inr, Bool-cases,
}
use native.Mathlib.Nat.{pow-suc}
use lowdown.Ident.{digits_loop, decimal}

-- The number that the digits spell, behind those already read.
read : ℕ → Bytes → ℕ
read n [] = n
read n (c ∷ cs) = read (n * 10 + (c - b'0')) cs

read-digits_loop :
    (fuel n : ℕ) (acc : Bytes) → n < fuel → read 0 (digits_loop fuel n acc) ≡ read n acc
unfolding digits_loop read
read-digits_loop zero n acc h = elim h [ ]
read-digits_loop (suc fuel) n acc h = elim (Bool-cases (ltb n 10)) [
  | inl t ↦ rw t (ap (λ k. read k acc) (ground arith))
  | inr t ↦ rw t (
      read-digits_loop fuel (n / 10) ((b'0' + n % 10) ∷ acc) (ground arith)
      ∙ ap (λ k. read k acc) (omega arith))
]

read-decimal : (n : ℕ) → read 0 (decimal n) ≡ n
unfolding decimal read
read-decimal n = read-digits_loop (n + 1) n [] (omega arith)

pub decimal_inj : (a b : ℕ) → decimal a ≡ decimal b → a ≡ b
decimal_inj a b e = sym (read-decimal a) ∙ ap (read 0) e ∙ read-decimal b

length-digits_loop :
    (fuel n : ℕ) (acc : Bytes) → length (digits_loop fuel n acc) ≤ length acc + n + 1
unfolding digits_loop
length-digits_loop zero n acc = omega arith
length-digits_loop (suc fuel) n acc =
    ground (arith, length-digits_loop fuel (n / 10) ((b'0' + n % 10) ∷ acc))

pub length-decimal : (n : ℕ) → length (decimal n) ≤ n + 1
unfolding decimal
length-decimal n = omega (arith, length-digits_loop (n + 1) n [])

below_div : (p n : ℕ) → n < p * 10 → n / 10 < p
below_div p n h = omega arith

-- A number below a power of ten has no more digits than its exponent.
digits_loop_short :
    (fuel n k : ℕ) (acc : Bytes)
    → n < 10 ^ suc k
    → length (digits_loop fuel n acc) ≤ length acc + suc k
unfolding digits_loop
digits_loop_short zero n k acc h = omega arith
digits_loop_short (suc fuel) n zero acc h = rw (lt→ltb n 10 (omega (arith, h))) (omega arith)
digits_loop_short (suc fuel) n (suc k) acc h = elim (Bool-cases (ltb n 10)) [
  | inl t ↦ rw t (omega arith)
  | inr t ↦ rw t (
      omega (
        arith,
        digits_loop_short fuel (n / 10) k ((b'0' + n % 10) ∷ acc)
            (below_div (10 ^ suc k) n (subst (λ m. n < m) (pow-suc 10 (suc k)) h)),
      ))
]

pub decimal_short : (n k : ℕ) → n < 10 ^ suc k → length (decimal n) ≤ suc k
unfolding decimal
decimal_short n k h = omega (arith, digits_loop_short (n + 1) n k [] h)

-- What holds of the ten digits holds of every byte.
module _ (P : ℕ → Type 0) (digit : (d : ℕ) → d < 10 → P (b'0' + d)) where
  digits_loop-All : (fuel n : ℕ) (acc : Bytes) → All P acc → All P (digits_loop fuel n acc)
  unfolding digits_loop
  digits_loop-All zero n acc a = a
  digits_loop-All (suc fuel) n acc a =
      let d = digit (n % 10) (omega arith) in
      elim (Bool-cases (ltb n 10)) [
        | inl t ↦ rw t (d, a)
        | inr t ↦ rw t (digits_loop-All fuel (n / 10) ((b'0' + n % 10) ∷ acc) (d, a))
      ]

  pub decimal-All : (n : ℕ) → All P (decimal n)
  unfolding decimal
  decimal-All n = digits_loop-All (n + 1) n [] tt
