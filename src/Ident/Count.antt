-- ===== src/Ident/Count.antt =====
-- The counter of hbuf_id of src/buffer.c ends at a number that makes the identifier new.
use lowdown.Prelude.{
  ℕ, zero, suc, ◌+◌, ◌≤◌, ◌<◌, ◌≡◌, ◌≢◌, refl, sym, ap, subst, ◌∙◌, true, false, List, [], ◌∷◌,
  ◌++◌, ◌^◌, length-append, none, some, Bytes, length, drop, drop-append, arith, inl, inr,
  Bool-cases, All, All-append,
}
use lowdown.Buffer.{
  Buf, Sched, Out, Res, ok, failed, fault, size, size_mod, granted, AllGranted, hbuf_truncate,
  hbuf_putb, hbuf_printf,
}
use lowdown.Buffer.Writes.{IsValid, Appends, Writes_then, AllGranted-granted, AllGranted-rest}
use lowdown.Buffer.Put.{hbuf_putb-Writes}
use lowdown.Buffer.Print.{hbuf_printf-Appends}
use lowdown.Buffer.Copy.{hbuf_new}
use lowdown.Buffer.Name.Sound.{IsIdByte}
use lowdown.Ident.{
  decimal, seen, Ident, ident, undefined, insert_tail, numbered, count_loop, with_count,
}
use lowdown.Ident.Decimal.{decimal_inj, length-decimal, decimal_short, decimal-All}
use lowdown.Ident.Seen.{texts, has_text, seen-has_text, without, length-without, has_text-without}

-- A new identifier of at most `n` bytes behind the queue, or the queue as it was after a refused
-- allocation.
abbrev pub Fresh : ℕ → List Buf → Sched → Ident → Type 0
Fresh n q m (ident (some b) q' m') =
    (q' ≡ q ++ b ∷ [])
    × (has_text (texts q) b.content ≡ false)
    × IsValid b
    × All IsIdByte b.content
    × (b.content ≢ [])
    × (length b.content ≤ n)
    × (AllGranted m → AllGranted m')
Fresh n q m (ident none q' _) = (q' ≡ q) × (AllGranted m → ⊥)
Fresh n q m undefined = ⊥

pub insert_tail-Fresh :
    (n : ℕ) (q : List Buf) (b : Buf) (m0 m : Sched)
    → (AllGranted m0 → AllGranted m)
    → has_text (texts q) b.content ≡ false
    → IsValid b
    → All IsIdByte b.content
    → b.content ≢ []
    → length b.content ≤ n
    → Fresh n q m0 (insert_tail q b m)
unfolding insert_tail
insert_tail-Fresh n q b m0 m a h v i ne l = elim (Bool-cases (granted m)) [
  | inl t ↦ rw t (refl, h, v, i, ne, l, λ x. AllGranted-rest m (a x))
  | inr t ↦ rw t (refl, λ x. cc (AllGranted-granted m (a x)))
]

-- The base with a number.
name : Bytes → ℕ → Bytes
name base k = base ++ (b'-' ∷ decimal k)

name_inj : (base : Bytes) (j k : ℕ) → name base j ≡ name base k → j ≡ k
unfolding name
name_inj base j k e = decimal_inj j k (
    ap (drop 1) (
      sym (drop-append base (b'-' ∷ decimal j))
      ∙ ap (drop (length base)) e
      ∙ drop-append base (b'-' ∷ decimal k)))

pub decimal-IsIdByte : (n : ℕ) → All IsIdByte (decimal n)
decimal-IsIdByte n = decimal-All IsIdByte (λ d h. ground arith) n

name-IsIdByte : (base : Bytes) (k : ℕ) → All IsIdByte base → All IsIdByte (name base k)
unfolding name
name-IsIdByte base k a = All-append IsIdByte base (b'-' ∷ decimal k) a (refl, decimal-IsIdByte k)

length-name : (base : Bytes) (k : ℕ) → k < 10 ^ 20 → length (name base k) ≤ length base + 21
unfolding name
length-name base k lt =
    omega (arith, length-append base (b'-' ∷ decimal k), decimal_short k 19 (omega (arith, lt)))

name-ne-nil : (base : Bytes) (k : ℕ) → name base k ≢ []
unfolding name
name-ne-nil [] k e = cc
name-ne-nil (x ∷ base) k e = cc

cleared : Out → Out
cleared s = record s { ob = hbuf_truncate s.ob }

numbered-Appends :
    (buf : Buf) (k : ℕ) (s : Out)
    → IsValid s.ob
    → size buf + k + 3 + s.ob.unit ≤ size_mod
    → Appends (cleared s) (name buf.content k) (numbered buf k s)
unfolding numbered cleared hbuf_truncate name
numbered-Appends buf k s v room =
    let s0 : Out = record s { ob = record s.ob { content = [] } } in
    let v0 : IsValid s0.ob = record {
      unit_pos = v.unit_pos;
      size_le = omega arith;
      backed = v.backed;
    } in
    let text = b'-' ∷ decimal k in
    let l = length-decimal k in
    Writes_then s0 (hbuf_putb buf s0) (hbuf_printf (some text)) buf.content text
      (hbuf_putb-Writes buf s0 v0 (omega arith))
      (λ t vt c u.
        hbuf_printf-Appends text t vt (omega (arith, ap length c, u))
          (omega (arith, decimal_short k 19 (omega (arith, room)))))

-- The identifiers from `count` on that the queue holds stand in `left`, which is shorter than the
-- fuel.
Covers : List Buf → Bytes → ℕ → List Bytes → Type 0
Covers q base count left =
    (k : ℕ)
    → count ≤ k
    → has_text (texts q) (name base k) ≡ true
    → has_text left (name base k) ≡ true

-- What follows a try whose outcome is `r`.
after_try : (Out → Ident) → List Buf → Res (Unit {0}) → Ident
after_try again q (ok _ t) = elim (seen q t.ob) [
  | true ↦ again t
  | false ↦ insert_tail q t.ob t.sched
]
after_try again q (failed t) = ident none q t.sched
after_try again q fault = undefined

after_try-Fresh :
    (n : ℕ) (again : Out → Ident) (q : List Buf) (m0 : Sched) (s : Out) (g : Bytes)
    (r : Res (Unit {0}))
    → (AllGranted m0 → AllGranted s.sched)
    → s.ob.content ≡ []
    → Appends s g r
    → All IsIdByte g
    → g ≢ []
    → length g ≤ n
    → (has_text (texts q) g ≡ true
        → (t : Out) → IsValid t.ob
        → t.ob.unit ≡ s.ob.unit
        → (AllGranted m0 → AllGranted t.sched)
        → Fresh n q m0 (again t))
    → Fresh n q m0 (after_try again q r)
unfolding after_try
after_try-Fresh n again q m0 s g (ok _ t) a e (v, c, u, k) i ne l next =
    let same : t.ob.content ≡ g = c ∙ ap (λ (x : Bytes). x ++ g) e in
    let held = seen-has_text q t.ob in
    elim (Bool-cases (seen q t.ob)) [
      | inl h ↦
          rw (h, after_try)
            (next (ap (has_text (texts q)) (sym same) ∙ sym held ∙ h) t v u (λ x. k (a x)))
      | inr h ↦
          rw (h, after_try)
            (insert_tail-Fresh n q t.ob m0 t.sched (λ x. k (a x)) (sym held ∙ h) v
              (subst (All IsIdByte) (sym same) i) (λ z. ne (sym same ∙ z))
              (omega (arith, ap length same, l)))
    ]
after_try-Fresh n again q m0 s g (failed t) a e (v, c, u, k) i ne l next = (refl, λ x. k (a x))
after_try-Fresh n again q m0 s g fault a e f i ne l next = f

module _ (n : ℕ) (buf : Buf) (q : List Buf) (m0 : Sched) (small : size buf + 40 ≤ size_mod)
    (id_bytes : All IsIdByte buf.content) (short : size buf + 21 ≤ n) where
  count_loop-Fresh :
      (fuel count : ℕ) (left : List Bytes) (s : Out)
      → length left < fuel
      → Covers q buf.content count left
      → size buf + count + fuel + 40 ≤ size_mod
      → IsValid s.ob
      → s.ob.unit ≡ 32
      → (AllGranted m0 → AllGranted s.sched)
      → Fresh n q m0 (count_loop fuel count buf q s)
  unfolding count_loop after_try Covers cleared hbuf_truncate
  count_loop-Fresh zero count left s l c room v u a = elim l [ ]
  count_loop-Fresh (suc fuel) count left s l c room v u a =
      let x = name buf.content count in
      after_try-Fresh n (count_loop fuel (count + 1) buf q) q m0 (cleared s) x
        (numbered buf count s) a refl (numbered-Appends buf count s v (omega arith))
        (name-IsIdByte buf.content count id_bytes) (name-ne-nil buf.content count)
        (omega (arith, short, length-name buf.content count (omega arith)))
        (λ h t vt ut at.
          count_loop-Fresh fuel (count + 1) (without x left) t
            (let z = length-without x left (c count (omega arith) h) in omega arith)
            (λ k lk hk.
              has_text-without x (name buf.content k) left
                (λ e. absurd (let j = name_inj buf.content count k e in omega arith))
                (c k (omega arith) hk))
            (omega arith) vt (ut ∙ u) at)

length-texts : (q : List Buf) → length (texts q) ≡ length q
length-texts [] = refl
length-texts (b ∷ q) = ap suc (length-texts q)

pub with_count-Fresh :
    (n : ℕ) (b : Buf) (q : List Buf) (m0 m : Sched)
    → (AllGranted m0 → AllGranted m)
    → All IsIdByte b.content
    → size b + length q + 50 ≤ size_mod
    → size b + 21 ≤ n
    → Fresh n q m0 (with_count b q (hbuf_new 32 m))
unfolding with_count hbuf_new Covers
with_count-Fresh n b q m0 m a i room short = elim (Bool-cases (granted m)) [
  | inl t ↦ rw t (
      count_loop-Fresh n b q m0 (omega arith) i short (length q + 1) 1 (texts q) _
        (omega (arith, length-texts q)) (λ k _ h. h) (omega arith)
        (record { unit_pos = omega arith; size_le = omega arith; backed = refl }) refl
        (λ x. AllGranted-rest m (a x)))
  | inr t ↦ rw t (refl, λ x. cc (AllGranted-granted m (a x)))
]
