-- ===== src/Parse/Lines/Fences.antt =====
-- What is_fencedcode of src/parse/document.c accepts.
use lowdown.Prelude.{
  ℕ, zero, suc, ◌+◌, ◌≤◌, ◌≡◌, ◌≢◌, refl, ap, ◌∙◌, Bool, true, false, not, ◌||◌, [], ◌∷◌, ◌++◌,
  Option, none, some, Bytes, codes, length, drop, replicate, get_elem?, ltb, ◌==◌, ==_iff, arith,
  inl, inr, Bool-cases, length-append,
}
use lowdown.Parse.Lines.{countspaces, run_of, fence_at, is_fencedcode}
use lowdown.Parse.Lines.Spaces.{
  NoSpace, countspaces_at, drop-replicate, length-replicate, countspaces-Indents,
}

-- At most three spaces, and a run of at least three tildes or of three backticks that ends at
-- `pos`.
pub record IsFence (d : Bytes) (pos width chr : ℕ) : Type 0 where
  pub indent : ℕ
  pub later : Bytes
  pub spells : d ≡ replicate indent b' ' ++ (replicate width chr ++ later)
  pub at_most_three : indent ≤ 3
  pub ends : pos ≡ indent + width
  pub wide : 3 ≤ width
  pub is_chr : (chr == b'~' || chr == b'`') ≡ true
  pub maximal : get_elem? later 0 ≢ some chr

run_of_lem :
    (c : ℕ) (d : Bytes)
    → (u : Bytes) × (d ≡ replicate (run_of c d) c ++ u) × (get_elem? u 0 ≢ some c)
unfolding run_of
run_of_lem c [] = ([], refl, λ e. cc)
run_of_lem c (x ∷ xs) = elim (Bool-cases (x == c)) [
  | inl t ↦
      let (u, e, n) = run_of_lem c xs in
      (u, rw t (ap (λ y. y ∷ xs) ((==_iff x c).0 t) ∙ ap (◌∷◌ c) e), n)
  | inr t ↦ (x ∷ xs, rw t refl, λ e. let e' : some x ≡ some c = e in ground arith)
]

-- What the test of a fence says of a text.
abbrev pub Fenced : Bytes → Option (Option (ℕ × ℕ × ℕ)) → Type 0
Fenced d none = d ≡ codes "   "
Fenced d (some none) = Unit
Fenced d (some (some (pos, width, chr))) = IsFence d pos width chr

three_of :
    (n : ℕ)
    → n ≤ 3
    → 3 ≤ length {A = ℕ} (replicate n b' ' ++ [])
    → replicate n b' ' ++ [] ≡ codes "   "
three_of zero l h = absurd (omega arith)
three_of (suc zero) l h = absurd (omega arith)
three_of (suc (suc zero)) l h = absurd (omega arith)
three_of (suc (suc (suc zero))) l h = refl
three_of (suc (suc (suc (suc n)))) l h = absurd (omega arith)

fence_at-Fenced :
    (d : Bytes) (n : ℕ) (later : Bytes)
    → d ≡ replicate n b' ' ++ later
    → n ≤ 3
    → 3 ≤ length d
    → Fenced d (fence_at n later)
unfolding fence_at
fence_at-Fenced d n [] e l s = e ∙ three_of n l (omega (arith, ap length e))
fence_at-Fenced d n (c ∷ cs) e l s =
    elim (Bool-cases (ltb (length cs) 2 || not (c == b'~' || c == b'`'))) [
      | inl t ↦ rw t tt
      | inr t ↦ elim (Bool-cases (ltb (suc (run_of c cs)) 3)) [
        | inl u ↦ rw (t, u) tt
        | inr u ↦
            let (v, g, m) = run_of_lem c cs in
            rw (t, u)
              (record {
                indent = n;
                later = v;
                spells = e ∙ ap (λ y. replicate n b' ' ++ (c ∷ y)) g;
                at_most_three = l;
                ends = refl;
                wide = ground arith;
                is_chr = ground arith;
                maximal = m;
              })
      ]
    ]

-- is_fencedcode reads outside its text only where that is three spaces, and a fence that it finds
-- is at most three spaces and a whole run of at least three tildes or backticks, of which it
-- returns the end, the width and the byte.
pub is_fencedcode-Fenced : (fenced : Bool) (d : Bytes) → Fenced d (is_fencedcode fenced d)
unfolding is_fencedcode
is_fencedcode-Fenced false d = tt
is_fencedcode-Fenced true d = elim (Bool-cases (ltb (length d) 3)) [
  | inl t ↦ rw t tt
  | inr t ↦
      let i = countspaces-Indents d 3 in
      rw t (
        fence_at-Fenced d (countspaces d 0 3) (drop (countspaces d 0 3) d) i.spells (i.limited refl)
          (ground arith))
]

run_of-replicate :
    (c n : ℕ) (u : Bytes) → get_elem? u 0 ≢ some c → run_of c (replicate n c ++ u) ≡ n
unfolding run_of
run_of-replicate c zero [] h = refl
run_of-replicate c zero (x ∷ xs) h = elim (Bool-cases (x == c)) [
  | inl t ↦ absurd (h (ap some ((==_iff x c).0 t)))
  | inr t ↦ rw t refl
]
run_of-replicate c (suc n) u h = ground (arith, run_of-replicate c n u h)

fence_at_run :
    (k w c : ℕ) (u : Bytes)
    → 3 ≤ w
    → (c == b'~' || c == b'`') ≡ true
    → get_elem? u 0 ≢ some c
    → fence_at k (replicate w c ++ u) ≡ some (some (k + w, w, c))
unfolding fence_at
fence_at_run k zero c u h m n = absurd (omega arith)
fence_at_run k (suc w) c u h m n =
    let long : ltb (length (replicate w c ++ u)) 2 ≡ false =
      ground (arith, length-append (replicate w c) u, length-replicate w c) in
    let wide : ltb (suc w) 3 ≡ false = ground arith in
    rw (long, m) (rw (run_of-replicate c w u n) (rw wide refl))

-- With fences on, is_fencedcode finds each fence: at most three spaces and a whole run of at least
-- three tildes or backticks.
pub is_fencedcode_complete :
    (d : Bytes) (pos width chr : ℕ)
    → IsFence d pos width chr
    → is_fencedcode true d ≡ some (some (pos, width, chr))
unfolding is_fencedcode
is_fencedcode_complete d pos width chr f =
    let u = replicate width chr ++ f.later in
    let at =
      countspaces_at f.indent u f.at_most_three (no_space width chr f.later f.wide f.is_chr) in
    let long : ltb (length d) 3 ≡ false = ground (
      arith,
      ap length f.spells,
      length-append (replicate f.indent b' ') u,
      length-append (replicate width chr) f.later,
      length-replicate width chr,
      f.wide,
    ) in
    rw long (
      rw f.spells (
        rw at (
          rw (drop-replicate f.indent u, f.ends)
            (fence_at_run f.indent width chr f.later f.wide f.is_chr f.maximal))))
  where
    no_space :
        (w c : ℕ) (v : Bytes)
        → 3 ≤ w
        → (c == b'~' || c == b'`') ≡ true
        → NoSpace (replicate w c ++ v)
    no_space zero c v h m = absurd (omega arith)
    no_space (suc w) c v h m = λ e. let e' : some c ≡ some b' ' = e in ground arith
