-- ===== src/Format/Entity/Numbers.antt =====
-- The numeric entities of src/format/entity.c.
use lowdown.Prelude.{
  ℕ, zero, suc, ◌+◌, ◌-◌, ◌*◌, ◌/◌, ◌%◌, ◌≤◌, ◌<◌, ◌≡◌, ◌≢◌, refl, ap, ◌∙◌, Bool, true, false, ◌&&◌,
  ◌||◌, [], ◌∷◌, ◌++◌, Option, none, some, Bytes, length, length-append, take, take-append, drop,
  last_or-append, ltb, leb, ◌==◌, arith, inl, inr, Bool-cases, All, isspace, skip_isspace, c_string,
}
use lowdown.Ident.{digits_loop, decimal}
use lowdown.Format.Entity.{
  int32_max, digit_value, read_digits, is_digit, skip_prefix, skip_sign, to_ullong, strtoull_digits,
  strtoull, convert, entity_find_num, entity_sane, entity_find_iso,
}

abbrev IsDigit : ℕ → Type 0
IsDigit c = (b'0' ≤ c) × (c ≤ b'9')

digit_value-digit : (c : ℕ) → IsDigit c → digit_value 10 c ≡ some (c - b'0')
unfolding digit_value
digit_value-digit c h =
    let test : (leb b'0' c && leb c b'9' && ltb (c - b'0') 10) ≡ true = ground arith in rw test refl

is_digit-digit : (c : ℕ) → IsDigit c → is_digit 10 c ≡ true
unfolding is_digit
is_digit-digit c h =
    ap (λ (o : Option ℕ). elim o as (λ x. Bool) [ none ↦ false | some _ ↦ true ])
      (digit_value-digit c h)

read_digits-cons :
    (v c : ℕ) (cs : Bytes)
    → IsDigit c
    → read_digits 10 v (c ∷ cs) ≡ read_digits 10 (v * 10 + (c - b'0')) cs
unfolding read_digits
read_digits-cons v c cs h =
    ap
      (λ (o : Option ℕ). elim o as (λ x. ℕ × Bytes) [
        | none ↦ (v, c ∷ cs)
        | some w ↦ read_digits 10 (v * 10 + w) cs
      ])
      (digit_value-digit c h)

-- The digits that are printed of a number are read as the number.
read-digits_loop :
    (fuel n : ℕ) (acc : Bytes)
    → n < fuel
    → read_digits 10 0 (digits_loop fuel n acc) ≡ read_digits 10 n acc
unfolding digits_loop
read-digits_loop zero n acc h = absurd (omega arith)
read-digits_loop (suc fuel) n acc h = elim (Bool-cases (ltb n 10)) [
  | inl t ↦ rw t (
      read_digits-cons 0 (b'0' + n % 10) acc (ground arith)
      ∙ ap (λ k. read_digits 10 k acc) (ground arith))
  | inr t ↦ rw t (
      read-digits_loop fuel (n / 10) ((b'0' + n % 10) ∷ acc) (ground arith)
      ∙ read_digits-cons (n / 10) (b'0' + n % 10) acc (ground arith)
      ∙ ap (λ k. read_digits 10 k acc) (omega arith))
]

digits_loop-All :
    (fuel n : ℕ) (acc : Bytes) → All IsDigit acc → All IsDigit (digits_loop fuel n acc)
unfolding digits_loop
digits_loop-All zero n acc a = a
digits_loop-All (suc fuel) n acc a =
    let d : IsDigit (b'0' + n % 10) = ground arith in
    elim (Bool-cases (ltb n 10)) [
      | inl t ↦ rw t (d, a)
      | inr t ↦ rw t (digits_loop-All fuel (n / 10) ((b'0' + n % 10) ∷ acc) (d, a))
    ]

-- Powers of ten.
pow10 : ℕ → ℕ
pow10 zero = 1
pow10 (suc k) = 10 * pow10 k

length-digits_loop :
    (fuel n k : ℕ) (acc : Bytes)
    → n < pow10 (suc k)
    → length (digits_loop fuel n acc) ≤ length acc + suc k
unfolding digits_loop pow10
length-digits_loop zero n k acc h = omega arith
length-digits_loop (suc fuel) n zero acc h =
    let one : ltb n 10 ≡ true = ground arith in rw one (omega arith)
length-digits_loop (suc fuel) n (suc k) acc h = elim (Bool-cases (ltb n 10)) [
  | inl t ↦ rw t (omega arith)
  | inr t ↦
      rw t (
        omega
          (arith, length-digits_loop fuel (n / 10) k ((b'0' + n % 10) ∷ acc) (omega (arith, h))))
]

-- Digits as strtoull and the copy of a string read them.
c_string-digits : (s : Bytes) → All IsDigit s → c_string s ≡ s
unfolding c_string
c_string-digits [] a = refl
c_string-digits (c ∷ cs) (d, a) =
    let plain : (c == 0) ≡ false = ground arith in rw (plain, c_string-digits cs a) refl

skip_isspace-digit : (c : ℕ) (cs : Bytes) → IsDigit c → skip_isspace (c ∷ cs) ≡ c ∷ cs
unfolding skip_isspace isspace
skip_isspace-digit c cs d =
    let plain : (c == b' ' || (leb 9 c && leb c 13)) ≡ false = ground arith in rw plain refl

skip_sign-digit : (c : ℕ) (cs : Bytes) → IsDigit c → skip_sign (c ∷ cs) ≡ (false, c ∷ cs)
unfolding skip_sign
skip_sign-digit c cs d =
    let minus : (c == b'-') ≡ false = ground arith in
    let plus : (c == b'+') ≡ false = ground arith in rw (minus, plus) refl

skip_prefix-ten : (s : Bytes) → skip_prefix 10 s ≡ s
unfolding skip_prefix
skip_prefix-ten [] = refl
skip_prefix-ten (z ∷ []) = refl
skip_prefix-ten (z ∷ x ∷ []) = refl
skip_prefix-ten (z ∷ x ∷ c ∷ cs) = refl

strtoull-digits :
    (c : ℕ) (cs : Bytes) (n : ℕ)
    → IsDigit c
    → read_digits 10 0 (c ∷ cs) ≡ (n, [])
    → n ≤ int32_max
    → strtoull 10 (c ∷ cs) ≡ (n, [])
unfolding strtoull strtoull_digits to_ullong
strtoull-digits c cs n d e le =
    let room : leb 18446744073709551616 n ≡ false = ground arith in
    rw
      (
        skip_isspace-digit c cs d,
        skip_sign-digit c cs d,
        skip_prefix-ten (c ∷ cs),
        is_digit-digit c d,
        e,
        room,
      )
      refl

convert-digits :
    (s : Bytes) (n : ℕ)
    → All IsDigit s
    → s ≢ []
    → read_digits 10 0 s ≡ (n, [])
    → n ≤ int32_max
    → convert 10 (c_string s) ≡ some n
unfolding convert
convert-digits [] n a ne e le = absurd (ne refl)
convert-digits (c ∷ cs) n (d, a) ne e le =
    let room : ltb int32_max n ≡ false = ground arith in
    rw (c_string-digits (c ∷ cs) (d, a), strtoull-digits c cs n d e le, room) refl

length-digits_loop_ge : (fuel n : ℕ) (acc : Bytes) → length acc ≤ length (digits_loop fuel n acc)
unfolding digits_loop
length-digits_loop_ge zero n acc = omega arith
length-digits_loop_ge (suc fuel) n acc = elim (Bool-cases (ltb n 10)) [
  | inl t ↦ rw t (omega arith)
  | inr t ↦ rw t (omega (arith, length-digits_loop_ge fuel (n / 10) ((b'0' + n % 10) ∷ acc)))
]

digits_loop-ne-nil : (fuel n : ℕ) → 0 < fuel → digits_loop fuel n [] ≢ []
unfolding digits_loop
digits_loop-ne-nil zero n h = absurd (omega arith)
digits_loop-ne-nil (suc fuel) n h = elim (Bool-cases (ltb n 10)) [
  | inl t ↦ rw t (λ e. cc)
  | inr t ↦ rw t (λ e.
      absurd
        (omega (arith, ap length e, length-digits_loop_ge fuel (n / 10) ((b'0' + n % 10) ∷ []))))
]

-- A number sign and digits that are not too many.
entity_find_num-digits :
    (c : ℕ) (cs : Bytes) (n : ℕ)
    → All IsDigit (c ∷ cs)
    → length (c ∷ cs) ≤ 31
    → read_digits 10 0 (c ∷ cs) ≡ (n, [])
    → n ≤ int32_max
    → entity_find_num (b'&' ∷ b'#' ∷ ((c ∷ cs) ++ (b';' ∷ []))) ≡ some n
unfolding entity_find_num
entity_find_num-digits c cs n a short e le =
    let d = b'&' ∷ b'#' ∷ ((c ∷ cs) ++ (b';' ∷ [])) in
    let len : length d ≡ length (c ∷ cs) + 3 = omega (arith, length-append (c ∷ cs) (b';' ∷ [])) in
    let four : ltb (length d) 4 ≡ false = ground (arith, len) in
    let hex : (c == b'x' || c == b'X') ≡ false = ground (arith, a.0) in
    let left : length d - 3 ≡ length (c ∷ cs) = omega (arith, len) in
    let fits : ltb 31 (length (c ∷ cs)) ≡ false = ground arith in
    let body : take (length (c ∷ cs)) (drop 2 d) ≡ c ∷ cs = take-append (c ∷ cs) (b';' ∷ []) in
    rw (four, hex, left, fits)
      (ap (λ z. convert 10 (c_string z)) body ∙ convert-digits (c ∷ cs) n a (λ e. cc) e le)

entity_sane-mark : (s : Bytes) → entity_sane (b'&' ∷ b'#' ∷ (s ++ (b';' ∷ []))) ≡ true
unfolding entity_sane
entity_sane-mark s =
    let long : ltb (length (b'&' ∷ b'#' ∷ (s ++ (b';' ∷ [])))) 3 ≡ false =
      ground (arith, length-append s (b';' ∷ [])) in
    rw (long, last_or-append s (b';' ∷ []) b'#') refl

entity_find_iso-digits :
    (s : Bytes) (n : ℕ)
    → All IsDigit s
    → s ≢ []
    → length s ≤ 31
    → read_digits 10 0 s ≡ (n, [])
    → n ≤ int32_max
    → entity_find_iso (b'&' ∷ b'#' ∷ (s ++ (b';' ∷ []))) ≡ some n
unfolding entity_find_iso
entity_find_iso-digits [] n a ne short e le = absurd (ne refl)
entity_find_iso-digits (c ∷ cs) n a ne short e le =
    rw (entity_sane-mark (c ∷ cs)) (entity_find_num-digits c cs n a short e le)

-- A number of int32_t in decimal digits, between an ampersand with a number sign and a semicolon,
-- is found as that number.
pub entity_find_iso-decimal :
    (n : ℕ) → n ≤ int32_max → entity_find_iso (b'&' ∷ b'#' ∷ (decimal n ++ (b';' ∷ []))) ≡ some n
unfolding decimal pow10 read_digits
entity_find_iso-decimal n le =
    entity_find_iso-digits (decimal n) n (digits_loop-All (n + 1) n [] tt)
      (digits_loop-ne-nil (n + 1) n (omega arith))
      (omega (arith, length-digits_loop (n + 1) n 9 [] (omega arith)))
      (read-digits_loop (n + 1) n [] (omega arith)) le
