-- ===== src/Smarty/Post.antt =====
-- What a function of src/library/smartypants.c leaves, by its three outcomes.
use lowdown.Prelude.{
  ℕ, ◌+◌, ◌%◌, ◌^◌, ◌<◌, arith, ◌≡◌, refl, sym, subst, [], ◌∷◌, Option, none, some, Bytes, drop,
  inl, inr, Bool-cases,
}
use lowdown.Buffer.{Sched, granted, AllGranted}
use lowdown.Buffer.Writes.{AllGranted-granted, AllGranted-rest}
use lowdown.Smarty.{
  Outcome, return, new_id, ◌>>◌, done, failed, undefined, S, ◌>>=◌, alloc, remainder, smarty_entity,
}

-- The outcome satisfies `P`, or an allocation has been refused.
unfoldable pub Post : {A : Type 0} → Sched → (A → ℕ → Type 0) → Outcome A → Type 0
Post s P (done a k t) = P a k × (AllGranted s → AllGranted t)
Post s P failed = AllGranted s → ⊥
Post s P undefined = ⊥

pub Post->>= :
    {A B : Type 0} (P : A → ℕ → Type 0) (Q : B → ℕ → Type 0) (m : S A) (f : A → S B) (maxn : ℕ)
    (s : Sched)
    → Post s P (m maxn s)
    → ((a : A) (k : ℕ) (t : Sched) → P a k → Post t Q (f a k t))
    → Post s Q ((m >>= f) maxn s)
unfolding Post
Post->>= P Q m f maxn s p q = after (m maxn s) p
  where
    weaken : (o : Outcome _) (t : Sched) → (AllGranted s → AllGranted t) → Post t Q o → Post s Q o
    weaken (done b k u) t g (r, h) = (r, λ a. h (g a))
    weaken failed t g h = λ a. h (g a)
    weaken undefined t g h = h

    after :
        (o : Outcome _)
        → Post s P o
        → Post s Q (elim o [ done a k t ↦ f a k t | failed ↦ failed | undefined ↦ undefined ])
    after (done a k t) (r, g) = weaken (f a k t) t g (q a k t r)
    after failed h = h
    after undefined h = h

pub Post-return :
    {A : Type 0} (P : A → ℕ → Type 0) (a : A) (maxn : ℕ) (s : Sched)
    → P a maxn
    → Post s P (done a maxn s)
unfolding Post
Post-return P a maxn s p = (p, λ g. g)

pub alloc-Post : (maxn : ℕ) (s : Sched) → Post s (λ _ k. k ≡ maxn) (alloc maxn s)
unfolding Post alloc
alloc-Post maxn s = elim (Bool-cases (granted s)) [
  | inl t ↦ rw t (refl, AllGranted-rest s)
  | inr t ↦ rw t (λ a. cc (AllGranted-granted s a))
]

pub Post-alloc :
    {B : Type 0} (Q : B → ℕ → Type 0) (f : Unit {0} → S B) (maxn : ℕ) (s : Sched)
    → ((t : Sched) → Post t Q (f tt maxn t))
    → Post s Q ((alloc >>= f) maxn s)
Post-alloc Q f maxn s h =
    Post->>= (λ _ k. k ≡ maxn) Q alloc f maxn s (alloc-Post maxn s)
      (λ _ j t p. subst (λ k. Post t Q (f tt k t)) (sym p) (h t))

-- The next identifier, which is one more where there is room in size_t.
abbrev pub next : ℕ → ℕ
next maxn = (maxn + 1) % 2 ^ 64

pub next_lem : (maxn : ℕ) → maxn + 1 < 2 ^ 64 → next maxn ≡ maxn + 1
next_lem maxn lt = omega (arith, lt)

-- The identifiers of the new nodes follow each other, and the second text is what was left.
unfoldable pub Parted : Bytes → ℕ → ℕ × Option (ℕ × Bytes) → ℕ → Type 0
Parted left maxn (nent, none) k = (nent ≡ maxn) × (left ≡ []) × (k ≡ next maxn)
Parted left maxn (nent, some (id, d)) k =
    (nent ≡ maxn) × (d ≡ left) × (id ≡ next maxn) × (k ≡ next (next maxn))

remainder-Post :
    (d : Bytes) (maxn : ℕ) (s : Sched)
    → Post s (λ nn. Parted d maxn (maxn, nn)) (remainder d (next maxn) s)
unfolding Parted remainder new_id Post
remainder-Post [] maxn s = ((refl, refl, refl), λ g. g)
remainder-Post (c ∷ cs) maxn s =
    Post-alloc (λ nn. Parted (c ∷ cs) maxn (maxn, nn))
      (λ _. do id ← new_id; alloc; return (some (id, c ∷ cs))) (next maxn) s
      (λ t.
        Post-alloc (λ nn. Parted (c ∷ cs) maxn (maxn, nn)) (λ _. return (some (next maxn, c ∷ cs)))
          (next (next maxn)) t (λ u. ((refl, refl, refl, refl), λ g. g)))

pub smarty_entity-Post :
    (d : Bytes) (end maxn : ℕ) (s : Sched)
    → Post s (Parted (drop end d) maxn) (smarty_entity d end maxn s)
unfolding smarty_entity new_id
smarty_entity-Post d end maxn s =
    Post-alloc P (λ _. do nent ← new_id; alloc; nn ← remainder left; return (nent, nn)) maxn s
      (λ t.
        Post-alloc P (λ _. do nn ← remainder left; return (maxn, nn)) (next maxn) t
          (λ u.
            Post->>= (λ nn. P (maxn, nn)) P (remainder left) (λ nn. return (maxn, nn)) (next maxn) u
              (remainder-Post left maxn u) (λ nn k v p. Post-return P (maxn, nn) k v p)))
  where
    left : Bytes
    left = drop end d

    P : ℕ × Option (ℕ × Bytes) → ℕ → Type 0
    P = Parted left maxn
