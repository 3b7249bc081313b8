-- ===== src/Parse/Lines/Spaces.antt =====
-- countspaces, is_empty and is_hrule of src/parse/document.c.
use lowdown.Prelude.{
  ℕ, zero, suc, ◌+◌, ◌-◌, ◌≤◌, ◌≡◌, ◌≢◌, refl, ◌⊎◌, ap, subst, ◌∙◌, true, ◌&&◌, [], ◌∷◌, ◌++◌, some,
  Bytes, length, drop, replicate, get_elem?, ltb, ◌==◌, ==_iff, arith, inl, inr, Bool-cases,
}
use lowdown.Parse.Lines.{spaces_loop, countspaces}

-- A text that does not begin with a space.
abbrev pub NoSpace : Bytes → Type 0
NoSpace d = get_elem? d 0 ≢ some b' '

-- The first `n` bytes are spaces, at most `maxlen` of them if that is not 0, and where they are
-- fewer no space follows.
pub record Indents (maxlen : ℕ) (d : Bytes) (n : ℕ) : Type 0 where
  pub inside : n ≤ length d
  pub spells : d ≡ replicate n b' ' ++ drop n d
  pub limited : ltb 0 maxlen ≡ true → n ≤ maxlen
  pub stops : NoSpace (drop n d) ⊎ (n ≡ maxlen)

spaces_loop_lem :
    (offset maxlen i : ℕ) (d : Bytes)
    → offset ≤ i
    → (ltb 0 maxlen ≡ true → i - offset ≤ maxlen)
    → (n : ℕ) × (spaces_loop offset maxlen i d ≡ i + n)
      × (n ≤ length d)
      × (d ≡ replicate n b' ' ++ drop n d)
      × (ltb 0 maxlen ≡ true → i - offset + n ≤ maxlen)
      × (NoSpace (drop n d) ⊎ (i - offset + n ≡ maxlen))
unfolding spaces_loop
spaces_loop_lem offset maxlen i [] h k =
    (0, omega arith, omega arith, refl, (λ t. omega (arith, k t)), inl (λ e. cc))
spaces_loop_lem offset maxlen i (c ∷ cs) h k =
    elim (Bool-cases (ltb 0 maxlen && i - offset == maxlen)) [
      | inl t ↦
          (0, rw t (omega arith), omega arith, refl, (λ u. omega (arith, k u)), inr (ground arith))
      | inr t ↦ elim (Bool-cases (c == b' ')) [
        | inr u ↦ (
          0,
          rw (t, u) (omega arith),
          omega arith,
          refl,
          (λ w. omega (arith, k w)),
          inl (λ e. let e' : some c ≡ some b' ' = e in ground arith),
        )
        | inl u ↦
            let (n, q, l, e, m, z) =
              spaces_loop_lem offset maxlen (i + 1) cs (omega arith)
                (λ w. let k' = k w in ground arith) in
            (
              suc n,
              rw (t, u) (omega (arith, q)),
              omega arith,
              ap (λ x. x ∷ cs) ((==_iff c b' ').0 u) ∙ ap (◌∷◌ b' ') e,
              (λ w. let m' = m w in omega arith),
              elim z [ inl w ↦ inl w | inr w ↦ inr (omega arith) ],
            )
      ]
    ]

-- countspaces from the start of a text counts its spaces, up to the limit.
pub countspaces-Indents : (d : Bytes) (maxlen : ℕ) → Indents maxlen d (countspaces d 0 maxlen)
unfolding countspaces
countspaces-Indents d maxlen =
    let (n, q, l, e, m, z) = spaces_loop_lem 0 maxlen 0 d (omega arith) (λ t. omega arith) in
    subst (Indents maxlen d) (let q' : n ≡ spaces_loop 0 maxlen 0 d = omega (arith, q) in q')
      (record {
        inside = l;
        spells = e;
        limited = λ t. omega (arith, m t);
        stops = elim z [ inl w ↦ inl w | inr w ↦ inr (omega arith) ];
      })

pub length-replicate : (n c : ℕ) → length (replicate n c) ≡ n
length-replicate zero c = refl
length-replicate (suc n) c = ap suc (length-replicate n c)

pub drop-replicate : (n : ℕ) (u : Bytes) → drop n (replicate n b' ' ++ u) ≡ u
drop-replicate zero u = refl
drop-replicate (suc n) u = drop-replicate n u

spaces_loop_at :
    (i n : ℕ) (u : Bytes)
    → i + n ≤ 3
    → NoSpace u
    → spaces_loop 0 3 i (replicate n b' ' ++ u) ≡ i + n
unfolding spaces_loop
spaces_loop_at i zero [] l h = omega arith
spaces_loop_at i zero (c ∷ cs) l h = elim (Bool-cases (c == b' ')) [
  | inl t ↦ absurd (h (ap some ((==_iff c b' ').0 t)))
  | inr t ↦ rw t (ground arith)
]
spaces_loop_at i (suc n) u l h = ground (arith, spaces_loop_at (i + 1) n u (omega arith) h)

-- A text that begins with at most three spaces, and no more.
pub countspaces_at :
    (n : ℕ) (u : Bytes) → n ≤ 3 → NoSpace u → countspaces (replicate n b' ' ++ u) 0 3 ≡ n
unfolding countspaces
countspaces_at n u l h = omega (arith, spaces_loop_at 0 n u (omega arith) h)
