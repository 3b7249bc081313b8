-- ===== src/Buffer/Writes.antt =====
-- What every writer of src/buffer.c and src/format promises of its output buffer: it appends a
-- given text, or stops with a part of it written after a refused allocation, and is never
-- undefined. Rules to compose writers, and the promise for each hbuf_put* function.
use native.Mathlib.Nat.{div-add-mod, mod-lt, mod-eq_of_lt, le_refl}
use lowdown.Prelude.{
  ℕ, ◌+◌, ◌*◌, ◌/◌, ◌%◌, ◌≤◌, ◌<◌, ◌≡◌, refl, sym, ap, subst, ◌∙◌, true, false, [], ◌∷◌, ◌++◌,
  append_assoc, append-nil, inl, inr, Bool-cases, Bytes, length, length-append, ltb, leb, leb→le,
  ◌==◌, if◌then◌else◌, arith,
}
use lowdown.Buffer.{
  Buf, Out, Sched, Res, ok, failed, fault, M, ◌>>◌, done, size, size_mod, granted, rest, AllGranted,
  round_up, hbuf_grow,
}

pub record IsValid (b : Buf) : Type 0 where
  pub unit_pos : 0 < b.unit
  pub size_le : size b ≤ b.maxsize
  pub backed : b.maxsize ≡ b.alloc

-- The text can be appended with no overflow of size_t.
abbrev pub Fits : Buf → Bytes → Type 0
Fits b g = size b + length g + b.unit ≤ size_mod

-- What an outcome that starts from `s` says, for a writer of the text `g`.
abbrev pub Appends : Out → Bytes → Res (Unit {0}) → Type 0
Appends s g (ok _ t) =
    IsValid t.ob
    × (t.ob.content ≡ s.ob.content ++ g)
    × (t.ob.unit ≡ s.ob.unit)
    × (AllGranted s.sched → AllGranted t.sched)
Appends s g (failed t) =
    IsValid t.ob
    × ((unwritten : Bytes) × (t.ob.content ++ unwritten ≡ s.ob.content ++ g))
    × (t.ob.unit ≡ s.ob.unit)
    × (AllGranted s.sched → ⊥)
Appends s g fault = ⊥

-- A writer of a fixed text.
abbrev pub Writes : M (Unit {0}) → Bytes → Type 0
Writes m g = (s : Out) → IsValid s.ob → Fits s.ob g → Appends s g (m s)

-- A writer that goes on from `t`, where `g` has been written since `s`.
Appends-after :
    (s t : Out) (g h : Bytes) (r : Res (Unit {0}))
    → t.ob.content ≡ s.ob.content ++ g
    → t.ob.unit ≡ s.ob.unit
    → (AllGranted s.sched → AllGranted t.sched)
    → Appends t h r
    → Appends s (g ++ h) r
Appends-after s t g h (ok _ u) c e a (v, cu, eu, au) =
    (v, cu ∙ ap (λ (x : Bytes). x ++ h) c ∙ append_assoc s.ob.content g h, eu ∙ e, λ x. au (a x))
Appends-after s t g h (failed u) c e a (v, (w, cu), eu, au) = (
  v,
  (w, cu ∙ ap (λ (x : Bytes). x ++ h) c ∙ append_assoc s.ob.content g h),
  eu ∙ e,
  λ x. au (a x),
)
Appends-after s t g h fault c e a f = f

pub Writes_then :
    (s : Out) (r : Res (Unit {0})) (k : M (Unit {0})) (g h : Bytes)
    → Appends s g r
    → ((t : Out)
        → IsValid t.ob
        → t.ob.content ≡ s.ob.content ++ g
        → t.ob.unit ≡ s.ob.unit
        → Appends t h (k t))
    → Appends s (g ++ h) (((λ _. r) >> k) s)
Writes_then s (ok _ t) k g h (v, c, e, a) q = Appends-after s t g h (k t) c e a (q t v c e)
Writes_then s (failed t) k g h (v, (w, c), e, a) q = (
  v,
  (
    w ++ h,
    sym (append_assoc t.ob.content w h)
        ∙ ap (λ (x : Bytes). x ++ h) c
        ∙ append_assoc s.ob.content g h,
  ),
  e,
  a,
)
Writes_then s fault k g h f q = f

-- The room for the later part is still there after the earlier one.
pub Fits-after :
    (s t : Out) (g h : Bytes)
    → t.ob.content ≡ s.ob.content ++ g
    → t.ob.unit ≡ s.ob.unit
    → Fits s.ob (g ++ h)
    → Fits t.ob h
Fits-after s t g h c e f =
    omega (arith, ap length c, e, length-append s.ob.content g, length-append g h)

pub Fits-before : (s : Out) (g h : Bytes) → Fits s.ob (g ++ h) → Fits s.ob g
Fits-before s g h f = omega (arith, length-append g h)

pub Writes-done : Writes done []
Writes-done s v f = (v, sym (append-nil s.ob.content), refl, λ a. a)

pub Writes->> :
    (m k : M (Unit {0})) (g h : Bytes) → Writes m g → Writes k h → Writes (m >> k) (g ++ h)
Writes->> m k g h p q s v f =
    Writes_then s (m s) k g h (p s v (Fits-before s g h f))
      (λ t vt c e. q t vt (Fits-after s t g h c e f))

pub Writes-cong : (m : M (Unit {0})) {g h : Bytes} → g ≡ h → Writes m g → Writes m h
Writes-cong m e p = subst (Writes m) e p

ceil_bounds :
    (q r u n : ℕ)
    → u * q + r ≡ n
    → r < u
    → (n ≤ (q + (if ltb 0 r then 1 else 0)) * u) × ((q + (if ltb 0 r then 1 else 0)) * u < n + u)
ceil_bounds q r u n e h = elim (Bool-cases (ltb 0 r)) [
  | inl t ↦ rw t (grind arith, grind arith)
  | inr t ↦ rw t (ground arith, ground arith)
]

-- The new size is enough for the request, and less than one unit more, if nothing wraps.
pub round_up_bounds :
    (n u : ℕ) → 0 < u → n + u ≤ size_mod → (n ≤ round_up n u) × (round_up n u < n + u)
unfolding round_up
round_up_bounds n u p q =
    let (lo, hi) = ceil_bounds (n / u) (n % u) u n (div-add-mod n u) (mod-lt n p) in
    let m = (n / u + (if ltb 0 (n % u) then 1 else 0)) * u in
    let small : m < size_mod = omega arith in rw (mod-eq_of_lt small) (lo, hi)

-- What hbuf_grow leaves: enough room behind the same content, or the buffer as it was.
abbrev pub Grows : Out → ℕ → Res (Unit {0}) → Type 0
Grows s n (ok _ t) =
    IsValid t.ob
    × (t.ob.content ≡ s.ob.content)
    × (t.ob.unit ≡ s.ob.unit)
    × (AllGranted s.sched → AllGranted t.sched)
    × (n ≤ t.ob.maxsize)
    × (s.ob.maxsize ≤ t.ob.maxsize)
Grows s n (failed t) = (t.ob ≡ s.ob) × (AllGranted s.sched → ⊥)
Grows s n fault = ⊥

pub AllGranted-rest : (bs : Sched) → AllGranted bs → AllGranted (rest bs)
AllGranted-rest [] a = a
AllGranted-rest (b ∷ bs) a = a.1

pub AllGranted-granted : (bs : Sched) → AllGranted bs → granted bs ≡ true
AllGranted-granted [] a = refl
AllGranted-granted (b ∷ bs) a = a.0

-- On a valid buffer, and for a size that leaves room in size_t for one unit, hbuf_grow leaves a
-- valid buffer with the same content and at least that size allocated, and never less than before;
-- after a refused allocation it leaves the buffer as it was. It is never undefined.
pub hbuf_grow-Grows :
    (n : ℕ) (s : Out) → IsValid s.ob → n + s.ob.unit ≤ size_mod → Grows s n (hbuf_grow n s)
unfolding hbuf_grow
hbuf_grow-Grows n s v f = elim (Bool-cases (leb n s.ob.maxsize)) [
  | inl t ↦ rw t (v, refl, refl, (λ a. a), leb→le _ _ t, le_refl _)
  | inr t ↦
      let z : (s.ob.unit == 0) ≡ false = ground (arith, v.unit_pos) in
      let (lo, hi) = round_up_bounds n s.ob.unit v.unit_pos f in
      elim (Bool-cases (granted s.sched)) [
        | inl g ↦
            rw (t, z, g)
              (
                record {
                  unit_pos = v.unit_pos;
                  size_le = ground (arith, v.size_le, lo);
                  backed = refl;
                },
                refl,
                refl,
                AllGranted-rest s.sched,
                lo,
                ground (arith, lo),
              )
        | inr g ↦ rw (t, z, g) (refl, λ a. cc (AllGranted-granted s.sched a))
      ]
]
