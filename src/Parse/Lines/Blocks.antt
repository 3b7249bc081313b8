-- ===== src/Parse/Lines/Blocks.antt =====
-- What is_empty and is_hrule of src/parse/document.c accept.
use lowdown.Prelude.{
  ℕ, ◌+◌, ◌≤◌, ◌≡◌, ◌⊎◌, ◌↔◌, refl, ap, subst, true, false, ◌||◌, [], ◌∷◌, ◌++◌, some, Bytes,
  length, take, drop, replicate, get_elem?, ltb, ◌==◌, ==_iff, arith, inl, inr, Bool-cases, All,
  length-append,
}
use lowdown.Parse.Autolink.{count}
use lowdown.Parse.Lines.{
  countspaces, line_end, empty_loop, is_empty, hrule_loop, hrule_at, is_hrule,
}
use lowdown.Parse.Lines.Spaces.{NoSpace, countspaces_at, drop-replicate, countspaces-Indents}

-- The first line, without its newline.
abbrev pub line : Bytes → Bytes
line d = take (line_end d) d

abbrev pub IsBlank : Bytes → Type 0
IsBlank = All (λ c. c ≡ b' ')

empty_loop_lem :
    (i : ℕ) (d : Bytes)
    → (IsBlank (line d) × (empty_loop i d ≡ i + line_end d + 1))
      ⊎ ((IsBlank (line d) → ⊥) × (empty_loop i d ≡ 0))
unfolding empty_loop line_end
empty_loop_lem i [] = inl (tt, omega arith)
empty_loop_lem i (c ∷ cs) = elim (Bool-cases (c == b'\n')) [
  | inl t ↦ rw t (inl (tt, omega arith))
  | inr t ↦ elim (Bool-cases (c == b' ')) [
    | inl u ↦
        rw (t, u)
          (elim (empty_loop_lem (i + 1) cs) [
            | inl (a, e) ↦ inl (((==_iff c b' ').0 u, a), omega (arith, e))
            | inr (n, e) ↦ inr ((λ a. n a.1), e)
          ])
    | inr u ↦ rw (t, u) (inr ((λ a. let z = a.0 in ground arith), refl))
  ]
]

-- is_empty returns the length of the first line with its newline if the line has only spaces, and 0
-- otherwise.
pub is_empty_lem :
    (d : Bytes)
    → (IsBlank (line d) × (is_empty d ≡ line_end d + 1))
      ⊎ ((IsBlank (line d) → ⊥) × (is_empty d ≡ 0))
unfolding is_empty
is_empty_lem d = elim (empty_loop_lem 0 d) [
  | inl (a, e) ↦ inl (a, omega (arith, e))
  | inr (n, e) ↦ inr (n, e)
]

-- At most three spaces, and a line of one mark and of spaces in which the mark stands three times.
pub record IsRule (d : Bytes) : Type 0 where
  pub indent : ℕ
  pub mark : ℕ
  pub later : Bytes
  pub spells : d ≡ replicate indent b' ' ++ later
  pub starts : get_elem? later 0 ≡ some mark
  pub at_most_three : indent ≤ 3
  pub is_mark : (mark == b'*' || mark == b'-' || mark == b'_') ≡ true
  pub only_marks : All (λ x. (x == mark || x == b' ') ≡ true) (line later)
  pub enough : 3 ≤ count mark (line later)

hrule_loop_lem :
    (c n : ℕ) (d : Bytes)
    → hrule_loop c n d ≡ true
    → All (λ x. (x == c || x == b' ') ≡ true) (line d) × (3 ≤ n + count c (line d))
unfolding hrule_loop line_end count
hrule_loop_lem c n [] h = (tt, ground arith)
hrule_loop_lem c n (x ∷ xs) h = elim (Bool-cases (x == b'\n')) [
  | inl t ↦ let h' = rw (t, hrule_loop) at h in rw t (tt, ground arith)
  | inr t ↦ elim (Bool-cases (x == c)) [
    | inl u ↦
        let g = rw (t, hrule_loop) at h in
        let g' = rw u at g in
        let (a, k) = hrule_loop_lem c (n + 1) xs g' in rw t (rw u ((refl, a), omega arith))
    | inr u ↦ elim (Bool-cases (x == b' ')) [
      | inl w ↦
          let g = rw (t, hrule_loop) at h in
          let g' = rw (u, w) at g in
          let (a, k) = hrule_loop_lem c n xs g' in rw t (rw (u, w) ((refl, a), omega arith))
      | inr w ↦ let g = rw (t, hrule_loop) at h in let g' = rw (u, w) at g in cc g'
    ]
  ]
]

hrule_at-IsRule :
    (d : Bytes) (n : ℕ) (later : Bytes)
    → d ≡ replicate n b' ' ++ later
    → n ≤ 3
    → hrule_at later ≡ true
    → IsRule d
unfolding hrule_at
hrule_at-IsRule d n [] e l h = cc
hrule_at-IsRule d n (c ∷ []) e l h = cc
hrule_at-IsRule d n (c ∷ x ∷ []) e l h = cc
hrule_at-IsRule d n (c ∷ x ∷ y ∷ ys) e l h =
    elim (Bool-cases (c == b'*' || c == b'-' || c == b'_')) [
      | inl t ↦
          let (a, k) = hrule_loop_lem c 0 (c ∷ x ∷ y ∷ ys) (rw t at h) in
          record {
            indent = n;
            mark = c;
            later = c ∷ x ∷ y ∷ ys;
            spells = e;
            starts = refl;
            at_most_three = l;
            is_mark = t;
            only_marks = a;
            enough = omega (arith, k);
          }
      | inr t ↦ let h' = rw t at h in cc h'
    ]

is_hrule-IsRule : (d : Bytes) → is_hrule d ≡ true → IsRule d
unfolding is_hrule
is_hrule-IsRule d h = elim (Bool-cases (ltb (length d) 3)) [
  | inl t ↦ let h' = rw t at h in cc h'
  | inr t ↦
      let i = countspaces-Indents d 3 in
      hrule_at-IsRule d (countspaces d 0 3) (drop (countspaces d 0 3) d) i.spells (i.limited refl)
        (rw t at h)
]

hrule_loop-All :
    (c n : ℕ) (d : Bytes)
    → All (λ x. (x == c || x == b' ') ≡ true) (line d)
    → 3 ≤ n + count c (line d)
    → (c == b'*' || c == b'-' || c == b'_') ≡ true
    → hrule_loop c n d ≡ true
unfolding hrule_loop line_end count
hrule_loop-All c n [] a k m = ground arith
hrule_loop-All c n (x ∷ xs) a k m = elim (Bool-cases (x == b'\n')) [
  | inl t ↦ let k' = rw t at k in rw (t, hrule_loop) (ground arith)
  | inr t ↦
      let (h, a') = rw t at a in
      let k' = rw t at k in
      elim (Bool-cases (x == c)) [
        | inl u ↦
            let g = rw u at k' in
            rw (t, hrule_loop) (rw u (hrule_loop-All c (n + 1) xs a' (omega (arith, g)) m))
        | inr u ↦
            let g = rw u at k' in
            let w : (x == b' ') ≡ true = ground arith in
            rw (t, hrule_loop) (rw (u, w) (hrule_loop-All c n xs a' (omega (arith, g)) m))
      ]
]

count-line : (c : ℕ) (d : Bytes) → count c (line d) ≤ length d
unfolding count line_end
count-line c [] = omega arith
count-line c (x ∷ xs) = ground (arith, count-line c xs)

hrule_at-All :
    (c : ℕ) (d : Bytes)
    → get_elem? d 0 ≡ some c
    → All (λ x. (x == c || x == b' ') ≡ true) (line d)
    → 3 ≤ count c (line d)
    → (c == b'*' || c == b'-' || c == b'_') ≡ true
    → (hrule_at d ≡ true) × NoSpace d
unfolding hrule_at
hrule_at-All c [] g a k m = absurd (cc)
hrule_at-All c (x ∷ []) g a k m = absurd (omega (arith, count-line c (x ∷ [])))
hrule_at-All c (x ∷ y ∷ []) g a k m = absurd (omega (arith, count-line c (x ∷ y ∷ [])))
hrule_at-All c (x ∷ y ∷ z ∷ zs) g a k m =
    let e : x ≡ c = cc g in
    (
      rw e (
          rw m (
            subst (λ w. hrule_loop c 0 (w ∷ y ∷ z ∷ zs) ≡ true) e
              (hrule_loop-All c 0 (x ∷ y ∷ z ∷ zs) a (omega (arith, k)) m))),
      λ s. let s' : some x ≡ some b' ' = s in ground arith,
    )

-- is_hrule accepts exactly the texts that begin with at most three spaces and a line of one mark,
-- which stands first in it and at least three times, and of spaces.
pub is_hrule_iff : (d : Bytes) → (is_hrule d ≡ true) ↔ IsRule d
unfolding is_hrule
is_hrule_iff d = (
  is_hrule-IsRule d,
  λ f.
      let (h, n) = hrule_at-All f.mark f.later f.starts f.only_marks f.enough f.is_mark in
      let long : ltb (length d) 3 ≡ false = ground (
        arith,
        ap length f.spells,
        length-append (replicate f.indent b' ') f.later,
        count-line f.mark f.later,
        f.enough,
      ) in
      rw long (
        rw f.spells (
          rw (countspaces_at f.indent f.later f.at_most_three n)
            (rw (drop-replicate f.indent f.later) h))),
)
