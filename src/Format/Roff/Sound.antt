-- ===== src/Format/Roff/Sound.antt =====
-- What lowdown_roff_esc of src/format/roff/roff_escape.c writes invokes no roff request and is read
-- by roff as its argument, spaces at the start of a line left out.
use lowdown.Prelude.{
  ℕ, zero, suc, ◌+◌, ◌*◌, ◌≤◌, ◌≡◌, ◌≢◌, refl, ◌∙◌, ap, Bool, true, false, not, ◌&&◌, ◌||◌, [], ◌∷◌,
  ◌++◌, Bytes, codes, last_or, length, length-append, begins, inl, inr, ◌==◌, if◌then◌else◌,
  Bool-cases, arith, Option, none, some, subst,
}
use mathlib.Core.Option
use lowdown.Buffer.{Out, size, size_mod}
use lowdown.Buffer.Writes.{IsValid, Appends, Writes-done}
use lowdown.Format.Roff.{Oneline, is_neg, is_pos, space, lowdown_roff_esc}
use lowdown.Format.Roff.Text.{
  last_of, guarded, roff_rep, roff_text, roff_loop-Appends, ends_in_newline,
}

-- Behind a newline stands neither a single quote nor a full stop. `prev` is the byte before the
-- text.
abbrev pub SafeLines : ℕ → Bytes → Type 0
SafeLines prev [] = Unit
SafeLines prev (c ∷ cs) = (prev ≡ b'\n' → (c ≢ b'\'') × (c ≢ b'.')) × SafeLines c cs

SafeLines-append :
    (g h : Bytes) (prev : ℕ)
    → SafeLines prev g
    → SafeLines (last_or g prev) h
    → SafeLines prev (g ++ h)
SafeLines-append [] h prev p q = q
SafeLines-append (c ∷ cs) h prev p q = (p.0, SafeLines-append cs h c p.1 q)

-- A newline is written only where lines are kept.
Kept : Oneline → ℕ → Type 0
Kept oneline prev = is_pos oneline ≡ true → prev ≢ b'\n'

roff_rep-SafeLines :
    (oneline : Oneline) (first : Bool) (prev c : ℕ)
    → Kept oneline prev
    → SafeLines prev (roff_rep oneline first prev c)
      × Kept oneline (last_or (roff_rep oneline first prev c) prev)
unfolding roff_rep guarded Kept
roff_rep-SafeLines oneline first prev c h = ground arith

roff_text-SafeLines :
    (oneline : Oneline) (literal first skipping : Bool) (prev : ℕ) (d : Bytes)
    → Kept oneline prev
    → SafeLines prev (roff_text oneline literal first skipping prev d)
unfolding roff_text
roff_text-SafeLines oneline literal first skipping prev [] h = tt
roff_text-SafeLines oneline literal first skipping prev (c ∷ cs) h =
    elim (Bool-cases (skipping && space c)) [
      | inl t ↦ rw (t, roff_text) (roff_text-SafeLines oneline literal false true prev cs h)
      | inr t ↦
          let g = roff_rep oneline first prev c in
          let (p, q) = roff_rep-SafeLines oneline first prev c h in
          rw (t, roff_text)
            (SafeLines-append g _ prev p (
              roff_text-SafeLines oneline literal false (c == b'\n' && not literal) (last_or g prev)
                cs q))
    ]

-- A reader of roff text: what an escape stands for, and its length behind the backslash.
escape : Bytes → Option (Bytes × ℕ)
escape s =
    if begins (codes "e") s
    then some (b'\\' ∷ [], 1)
    else if begins (codes "&") s
    then some ([], 1)
    else if begins (codes "(ha") s
    then some (b'^' ∷ [], 3)
    else if begins (codes "(ti") s
    then some (b'~' ∷ [], 3)
    else if begins (codes "(ga") s
    then some (b'`' ∷ [], 3)
    else if begins (codes "(dq") s
    then some (b'"' ∷ [], 3)
    else none

-- The bytes that roff prints as other characters, or that end a quoted argument.
abbrev special : ℕ → Bool
special c = c == b'^' || c == b'~' || c == b'`' || c == b'"'

-- The text that roff reads, or `none` where an unescaped special byte or another escape stands.
read_from : ℕ → Bytes → Option Bytes
unfolding escape
read_from skip [] = some []
read_from (suc skip) (c ∷ cs) = read_from skip cs
read_from zero (c ∷ cs) = elim (c == b'\\') [
  | true ↦ elim (escape cs) [ none ↦ none | some (x, n) ↦ Option.map (◌++◌ x) (read_from n cs) ]
  | false ↦ if special c then none else Option.map (◌∷◌ c) (read_from zero cs)
]

pub roff_read : Bytes → Option Bytes
unfolding read_from
roff_read = read_from 0

-- The argument with the spaces and newlines at the start of its lines left out, if it is not
-- literal, and its newlines joined by spaces for a single line.
pub squeeze : Oneline → Bool → Bool → Bytes → Bytes
squeeze oneline literal skipping [] = []
squeeze oneline literal skipping (c ∷ cs) = elim (skipping && space c) [
  | true ↦ squeeze oneline literal true cs
  | false ↦
      (if is_pos oneline && c == b'\n' then b' ' else c)
      ∷ squeeze oneline literal (c == b'\n' && not literal) cs
]

roff_read-rep :
    (oneline : Oneline) (first : Bool) (prev c : ℕ) (r : Bytes)
    → read_from 0 (roff_rep oneline first prev c ++ r)
      ≡ Option.map (◌∷◌ (if is_pos oneline && c == b'\n' then b' ' else c)) (read_from 0 r)
unfolding roff_rep guarded read_from
roff_read-rep oneline first prev c r = ground arith

roff_read-text :
    (oneline : Oneline) (literal first skipping : Bool) (prev : ℕ) (d : Bytes)
    → roff_read (roff_text oneline literal first skipping prev d)
      ≡ some (squeeze oneline literal skipping d)
unfolding roff_read roff_text squeeze
roff_read-text oneline literal first skipping prev [] = refl
roff_read-text oneline literal first skipping prev (c ∷ cs) =
    elim (Bool-cases (skipping && space c)) [
      | inl t ↦ rw (t, roff_text, squeeze) (roff_read-text oneline literal false true prev cs)
      | inr t ↦
          let g = roff_rep oneline first prev c in
          let k = c == b'\n' && not literal in
          rw (t, roff_text, squeeze)
            (roff_read-rep oneline first prev c
                (roff_text oneline literal false k (last_or g prev) cs)
              ∙ ap (Option.map (◌∷◌ (if is_pos oneline && c == b'\n' then b' ' else c)))
                  (roff_read-text oneline literal false k (last_or g prev) cs))
    ]

length-roff_rep :
    (oneline : Oneline) (first : Bool) (prev c : ℕ) → length (roff_rep oneline first prev c) ≤ 4
unfolding roff_rep guarded
length-roff_rep oneline first prev c = ground arith

length-roff_text :
    (oneline : Oneline) (literal first skipping : Bool) (prev : ℕ) (d : Bytes)
    → length (roff_text oneline literal first skipping prev d) ≤ 4 * length d
unfolding roff_text
length-roff_text oneline literal first skipping prev [] = omega arith
length-roff_text oneline literal first skipping prev (c ∷ cs) =
    elim (Bool-cases (skipping && space c)) [
      | inl t ↦
          rw (t, roff_text) (omega (arith, length-roff_text oneline literal false true prev cs))
      | inr t ↦
          let g = roff_rep oneline first prev c in
          let k = c == b'\n' && not literal in
          let l = last_or g prev in
          rw (t, roff_text)
            (omega (
              arith,
              length-append g (roff_text oneline literal false k l cs),
              length-roff_rep oneline first prev c,
              length-roff_text oneline literal false k l cs,
            ))
    ]

roff_rep_first : (prev c : ℕ) → SafeLines b'\n' (roff_rep Oneline.negative true prev c)
unfolding roff_rep guarded
roff_rep_first prev c = ground arith

Kept-keeps : (oneline : Oneline) (prev : ℕ) → is_pos oneline ≡ false → Kept oneline prev
unfolding Kept
Kept-keeps oneline prev h t = cc

last-roff_rep :
    (oneline : Oneline) (first : Bool) (prev x c : ℕ)
    → last_or (roff_rep oneline first prev c) x ≡ last_or (roff_rep oneline first prev c) prev
unfolding roff_rep guarded
last-roff_rep oneline first prev x c = ground arith

roff_text_first :
    (literal : Bool) (prev : ℕ) (d : Bytes)
    → SafeLines b'\n'
        (roff_text Oneline.negative literal true (not literal && prev == b'\n') prev d)
unfolding roff_text
roff_text_first literal prev [] = tt
roff_text_first literal prev (c ∷ cs) =
    let oneline = Oneline.negative in
    elim (Bool-cases ((not literal && prev == b'\n') && space c)) [
      | inl t ↦
          let e : prev ≡ b'\n' = ground arith in
          let p =
            roff_text-SafeLines oneline literal false true prev cs (Kept-keeps oneline prev refl) in
          rw (t, roff_text)
            (subst (λ x. SafeLines x (roff_text oneline literal false true prev cs)) e p)
      | inr t ↦
          let g = roff_rep oneline true prev c in
          let k = c == b'\n' && not literal in
          rw (t, roff_text)
            (SafeLines-append g _ b'\n' (roff_rep_first prev c) (
              rw (last-roff_rep oneline true prev b'\n' c) (
                roff_text-SafeLines oneline literal false k (last_or g prev) cs
                  (Kept-keeps oneline (last_or g prev) refl))))
    ]

-- The text that lowdown_roff_esc appends to `s`.
written : Out → Bytes → Oneline → Bool → Bytes
written s d oneline literal =
    roff_text oneline literal true (not literal && last_of s == b'\n') (last_of s) d

first-SafeLines :
    (s : Out) (d : Bytes) (oneline : Oneline) (literal : Bool)
    → is_neg oneline ≡ true
    → SafeLines b'\n' (written s d oneline literal)
unfolding written
first-SafeLines s d Oneline.negative literal h = roff_text_first literal (last_of s) d
first-SafeLines s d Oneline.zero literal h = cc
first-SafeLines s d Oneline.positive literal h = cc

lowdown_roff_esc-Appends :
    (d : Bytes) (oneline : Oneline) (literal : Bool) (s : Out)
    → IsValid s.ob
    → size s.ob + 4 * length d + s.ob.unit ≤ size_mod
    → Appends s (written s d oneline literal) (lowdown_roff_esc d oneline literal s)
unfolding lowdown_roff_esc written
lowdown_roff_esc-Appends [] oneline literal s v room =
    unfold roff_text in Writes-done s v (omega arith)
lowdown_roff_esc-Appends (c ∷ cs) oneline literal s v room = rw (ends_in_newline s) (
    roff_loop-Appends oneline literal true (not literal && last_of s == b'\n') (c ∷ cs) s v (
      omega (
        arith,
        length-roff_text oneline literal true (not literal && last_of s == b'\n') (last_of s)
            (c ∷ cs),
      )))

module _ (d : Bytes) (literal : Bool) (s : Out) (v : IsValid s.ob)
    (room : size s.ob + 4 * length d + s.ob.unit ≤ size_mod) where
  -- On a valid buffer with room in size_t for four bytes to each byte of the text, and where lines
  -- are kept or the output does not end in a newline, lowdown_roff_esc appends a text that roff
  -- reads as its argument, squeezed where it is not literal. No line behind a newline, of the output
  -- before or of its own text, begins with a full stop or a single quote that it writes; with a
  -- negative `oneline` neither does its text, wherever it stands. At the start of an empty output
  -- there is no such guard otherwise. It stops early only after a refused allocation, with a part
  -- written.
  pub lowdown_roff_esc_sound :
      (oneline : Oneline)
      → (is_pos oneline ≡ true → last_of s ≢ b'\n')
      → (g : Bytes) × Appends s g (lowdown_roff_esc d oneline literal s)
        × SafeLines (last_of s) g
        × (is_neg oneline ≡ true → SafeLines b'\n' g)
        × (roff_read g ≡ some (squeeze oneline literal (not literal && last_of s == b'\n') d))
  unfolding written Kept
  lowdown_roff_esc_sound oneline kept = (
    written s d oneline literal,
    lowdown_roff_esc-Appends d oneline literal s v room,
    roff_text-SafeLines oneline literal true (not literal && last_of s == b'\n') (last_of s) d kept,
    first-SafeLines s d oneline literal,
    roff_read-text oneline literal true (not literal && last_of s == b'\n') (last_of s) d,
  )

  -- With a negative `oneline` the text that lowdown_roff_esc appends, to a valid buffer with room
  -- in size_t for four bytes to each byte of the argument, may also be put at the start of a line:
  -- it does not begin with a full stop or a single quote.
  pub lowdown_roff_esc_first :
      (g : Bytes) × Appends s g (lowdown_roff_esc d Oneline.negative literal s) × SafeLines b'\n' g
  unfolding written
  lowdown_roff_esc_first = (
    written s d Oneline.negative literal,
    lowdown_roff_esc-Appends d Oneline.negative literal s v room,
    roff_text_first literal (last_of s) d,
  )
