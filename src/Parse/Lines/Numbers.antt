-- ===== src/Parse/Lines/Numbers.antt =====
-- What prefix_oli of src/parse/document.c accepts.
use lowdown.Prelude.{
  ℕ, ◌+◌, ◌≤◌, ◌≡◌, ◌≢◌, ◌⊎◌, refl, sym, ap, subst, ◌∙◌, Bool, true, not, ◌&&◌, ◌||◌, [], ◌∷◌, ◌++◌,
  some, Bytes, length, take, drop, replicate, ltb, ◌==◌, ==_iff, if◌then◌else◌, isdigit, arith, inl,
  inr, Bool-cases, All, take-append-drop, length-take, length-append, append_assoc,
}
use lowdown.Parse.Lines.{countspaces, digits, oli_delim, oli_at, prefix_oli}
use lowdown.Parse.Lines.Prefixes.{Marked, unless_header-some, Rest, countspaces-Rest}

-- Digits, at most nine of them in CommonMark, a full stop (in CommonMark a closing parenthesis too)
-- and a space; the value is the digits in CommonMark, and empty otherwise.
abbrev pub Number : Bool → Bytes → Bytes → Type 0
Number commonmark value p =
    (v : Bytes) × (c : ℕ) × (p ≡ v ++ (c ∷ b' ' ∷ []))
    × (v ≢ [])
    × All (λ x. isdigit x ≡ true) v
    × ((c == b'.' || (commonmark && c == b')')) ≡ true)
    × (commonmark ≡ true → length v ≤ 9)
    × (value ≡ (if commonmark then v else []))

take-digits : (d : Bytes) → All (λ x. isdigit x ≡ true) (take (digits d) d) × (digits d ≤ length d)
unfolding digits
take-digits [] = (tt, omega arith)
take-digits (c ∷ cs) = elim (Bool-cases (isdigit c)) [
  | inl t ↦ let (a, l) = take-digits cs in (rw t (t, a), rw t (omega arith))
  | inr t ↦ rw t (tt, omega arith)
]

oli_at-Marked :
    (commonmark : Bool) (d : Bytes) (n : ℕ) (v rest : Bytes)
    → Rest d n (v ++ rest)
    → v ≢ []
    → All (λ x. isdigit x ≡ true) v
    → (commonmark ≡ true → length v ≤ 9)
    → (r : ℕ) × (value : Bytes) × (oli_at commonmark (n + length v) v rest ≡ some (r, value))
      × ((r ≡ 0) ⊎ Marked (Number commonmark value) d r)
unfolding oli_at oli_delim
oli_at-Marked commonmark d n v [] h ne a m = (0, [], refl, inl refl)
oli_at-Marked commonmark d n v (c ∷ []) h ne a m = (0, [], refl, inl refl)
oli_at-Marked commonmark d n v (c ∷ x ∷ xs) (e, l) ne a m =
    elim (Bool-cases (not (c == b'.' || (commonmark && c == b')')) || not (x == b' '))) [
      | inl t ↦ (0, [], rw t refl, inl refl)
      | inr t ↦
          let (r, q, z) = unless_header-some (c ∷ x ∷ xs) (n + length v + 2) in
          elim (Bool-cases (r == 0)) [
            | inl w ↦ (r, [], rw t (rw q (rw w refl)), inl ((==_iff r 0).0 w))
            | inr w ↦ (
              r,
              (if commonmark then v else []),
              rw t (rw q (rw w refl)),
              inr (
                n,
                v ++ (c ∷ x ∷ []),
                xs,
                e ∙ ap (λ y. replicate n b' ' ++ y) (sym (append_assoc v (c ∷ x ∷ []) xs)),
                l,
                (elim z [
                  | inl y ↦ absurd (ground arith)
                  | inr y ↦ omega (arith, y, length-append v (c ∷ x ∷ []))
                ]),
                (v, c, ap (λ y. v ++ (c ∷ y ∷ [])) (ground arith), ne, a, ground arith, m, refl),
              ),
            )
          ]
    ]

-- prefix_oli reads no byte outside its text, and a prefix that it finds is at most three spaces,
-- digits, a delimiter and a space, of which it returns the value.
pub prefix_oli-Marked :
    (commonmark : Bool) (d : Bytes)
    → (r : ℕ) × (value : Bytes) × (prefix_oli commonmark d ≡ some (r, value))
      × ((r ≡ 0) ⊎ Marked (Number commonmark value) d r)
unfolding prefix_oli
prefix_oli-Marked commonmark d =
    let n = countspaces d 0 3 in
    let rest = drop n d in
    let (a, l) = take-digits rest in
    let (e, m) = countspaces-Rest d in
    let lt = length-take (digits rest) rest in
    let size : length (take (digits rest) rest) ≡ digits rest = omega arith in
    elim (Bool-cases (digits rest == 0)) [
      | inl t ↦ (0, [], rw t refl, inl refl)
      | inr t ↦ elim (Bool-cases (commonmark && ltb 9 (digits rest))) [
        | inl u ↦ (0, [], rw (t, u) refl, inl refl)
        | inr u ↦
            let (r, v, q, z) =
              oli_at-Marked commonmark d n (take (digits rest) rest) (drop (digits rest) rest)
                (e ∙ ap (λ y. replicate n b' ' ++ y) (sym (take-append-drop (digits rest) rest)), m)
                (λ k. let z = ap length k in ground (arith, size)) a
                (λ k. let u2 = rw k at u in ground (arith, size)) in
            (
              r,
              v,
              rw (t, u)
                  (subst
                    (λ y.
                      oli_at commonmark (n + y) (take (digits rest) rest) (drop (digits rest) rest)
                      ≡ some (r, v))
                    size q),
              z,
            )
      ]
    ]
