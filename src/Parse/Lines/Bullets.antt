-- ===== src/Parse/Lines/Bullets.antt =====
-- What prefix_uli of src/parse/document.c accepts.
use lowdown.Prelude.{
  ℕ, ◌+◌, ◌≡◌, ◌⊎◌, refl, ap, ◌∙◌, Bool, true, false, not, ◌&&◌, ◌||◌, [], ◌∷◌, ◌++◌, Option, none,
  some, Bytes, length, drop, replicate, ◌==◌, arith, inl, inr, Bool-cases,
}
use lowdown.Parse.Lines.{countspaces, unless_header, uli_box, uli_at, prefix_uli}
use lowdown.Parse.Lines.Prefixes.{Marked, unless_header-some, Rest, countspaces-Rest}

-- What a checkbox is, and whether it is set.
abbrev pub Box : Bytes → Option Bool → Type 0
Box b none = b ≡ []
Box b (some checked) =
    (m : ℕ) × (b ≡ b'[' ∷ m ∷ b']' ∷ b' ' ∷ [])
    × ((m == b' ' || m == b'x' || m == b'X') ≡ true)
    × (checked ≡ not (m == b' '))

-- An asterisk, a plus or a minus, a space, and a checkbox, if tasks are on.
abbrev pub Bullet : Bool → Option Bool → Bytes → Type 0
Bullet tasklist checked p =
    (c : ℕ) × (b : Bytes) × (p ≡ c ∷ b' ' ∷ b)
    × ((c == b'*' || c == b'+' || c == b'-') ≡ true)
    × Box b checked
    × (tasklist ≡ false → checked ≡ none)

-- The text behind the bullet begins with the box that is found.
uli_box-Box :
    (i : ℕ) (xs : Bytes)
    → (b : Bytes) × (u : Bytes) × (xs ≡ b ++ u)
      × ((uli_box i xs).0 ≡ i + 2 + length b)
      × Box b (uli_box i xs).1
unfolding uli_box
uli_box-Box i [] = ([], [], refl, omega arith, refl)
uli_box-Box i (a ∷ []) = ([], a ∷ [], refl, omega arith, refl)
uli_box-Box i (a ∷ b ∷ []) = ([], a ∷ b ∷ [], refl, omega arith, refl)
uli_box-Box i (a ∷ b ∷ c ∷ []) = ([], a ∷ b ∷ c ∷ [], refl, omega arith, refl)
uli_box-Box i (a ∷ b ∷ c ∷ x ∷ xs) =
    elim (Bool-cases
      (a == b'[' && (b == b' ' || b == b'x' || b == b'X') && c == b']' && x == b' ')) [
        | inl t ↦ (
          a ∷ b ∷ c ∷ x ∷ [],
          xs,
          refl,
          rw t (omega arith),
          rw t (b, ground arith, ground arith, refl),
        )
        | inr t ↦ ([], a ∷ b ∷ c ∷ x ∷ xs, refl, rw t (omega arith), rw t refl)
      ]

bullet_tests :
    (c x : ℕ)
    → (not (c == b'*' || c == b'+' || c == b'-') || not (x == b' ')) ≡ false
    → ((c == b'*' || c == b'+' || c == b'-') ≡ true) × (x ≡ b' ')
bullet_tests c x t = ground arith

uli_at-Marked :
    (tasklist : Bool) (d : Bytes) (n : ℕ) (rest : Bytes)
    → Rest d n rest
    → (r : ℕ) × (k : Option Bool) × (uli_at tasklist n rest ≡ some (r, k))
      × ((r ≡ 0) ⊎ Marked (Bullet tasklist k) d r)
unfolding uli_at
uli_at-Marked tasklist d n [] h = (0, none, refl, inl refl)
uli_at-Marked tasklist d n (c ∷ []) h = (0, none, refl, inl refl)
uli_at-Marked tasklist d n (c ∷ x ∷ xs) (e, l) =
    elim (Bool-cases (not (c == b'*' || c == b'+' || c == b'-') || not (x == b' '))) [
      | inl t ↦ (0, none, rw t refl, inl refl)
      | inr t ↦
          let (r, q, z) = unless_header-some (c ∷ x ∷ xs) (n + 2) in
          elim (Bool-cases (r == 0)) [
            | inl w ↦ (0, none, rw t (rw q (rw w refl)), inl refl)
            | inr w ↦ by_task tasklist t r q w
          ]
    ]
  where
    by_task :
        (task : Bool)
        → (not (c == b'*' || c == b'+' || c == b'-') || not (x == b' ')) ≡ false
        → (r : ℕ) → unless_header (c ∷ x ∷ xs) (n + 2) ≡ some r
        → (r == 0) ≡ false
        → (r : ℕ) × (k : Option Bool) × (uli_at task n (c ∷ x ∷ xs) ≡ some (r, k))
          × ((r ≡ 0) ⊎ Marked (Bullet task k) d r)
    by_task false t r q w =
        let (f, g) = bullet_tests c x t in
        (
          n + 2,
          none,
          unfold uli_at in rw t (rw q (rw w refl)),
          inr (n, c ∷ x ∷ [], xs, e, l, refl, (c, [], ap (λ y. c ∷ y ∷ []) g, f, refl, λ _. refl)),
        )
    by_task true t r q w =
        let (f, g) = bullet_tests c x t in
        let (b, u, s, m, y) = uli_box-Box n xs in
        (
          (uli_box n xs).0,
          (uli_box n xs).1,
          unfold uli_at in rw t (rw q (rw w refl)),
          inr (
            n,
            c ∷ x ∷ b,
            u,
            e ∙ ap (λ y. replicate n b' ' ++ (c ∷ x ∷ y)) s,
            l,
            omega (arith, m),
            (c, b, ap (λ y. c ∷ y ∷ b) g, f, y, λ z. cc),
          ),
        )

-- prefix_uli reads no byte outside its text, and a prefix that it finds is at most three spaces, a
-- bullet, a space and, only if tasks are on, a checkbox, of which it says whether it is set.
pub prefix_uli-Marked :
    (tasklist : Bool) (d : Bytes)
    → (r : ℕ) × (k : Option Bool) × (prefix_uli tasklist d ≡ some (r, k))
      × ((r ≡ 0) ⊎ Marked (Bullet tasklist k) d r)
unfolding prefix_uli
prefix_uli-Marked tasklist d =
    uli_at-Marked tasklist d (countspaces d 0 3) (drop (countspaces d 0 3) d) (countspaces-Rest d)
