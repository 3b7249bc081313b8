-- ===== src/Buffer/Put.antt =====
-- hbuf_put, hbuf_putb, hbuf_puts, hbuf_putc and hbuf_printf of src/buffer.c append their text.
use native.Mathlib.Nat.{mod-eq_of_lt, le_refl}
use lowdown.Prelude.{
  ℕ, ◌+◌, ◌≤◌, ◌<◌, ◌≡◌, refl, sym, ap, subst, ◌∙◌, true, false, [], ◌∷◌, ◌++◌, append-nil, inl,
  inr, Bool-cases, Bytes, length, length-append, ltb, leb, ◌==◌, arith,
}
use lowdown.Buffer.{
  Buf, Out, Res, ok, failed, fault, M, ◌>>◌, size, size_mod, AllGranted, hbuf_store, hbuf_reserve,
  hbuf_put, hbuf_puts, hbuf_putb, hbuf_room, hbuf_putc,
}
use lowdown.Buffer.Writes.{IsValid, Fits, Appends, Writes, Grows, hbuf_grow-Grows}

pub hbuf_store-Appends :
    (d : Bytes) (s : Out)
    → IsValid s.ob
    → size s.ob + length d ≤ s.ob.maxsize
    → Appends s d (hbuf_store d s)
unfolding hbuf_store
hbuf_store-Appends d s v f =
    let t : leb (size s.ob + length d) s.ob.alloc ≡ true = ground (arith, v.backed) in
    rw t (
      record {
        unit_pos = v.unit_pos;
        size_le = omega (arith, length-append s.ob.content d);
        backed = v.backed;
      },
      refl,
      refl,
      λ a. a,
    )

-- An outcome that is counted from `s`, where the content and the unit of `t` are those of `s`.
pub Appends-from :
    (s t : Out) (g : Bytes) (r : Res (Unit {0}))
    → t.ob.content ≡ s.ob.content
    → t.ob.unit ≡ s.ob.unit
    → (AllGranted s.sched → AllGranted t.sched)
    → Appends t g r
    → Appends s g r
Appends-from s t g (ok _ u) c e a (v, cu, eu, au) =
    (v, cu ∙ ap (λ (x : Bytes). x ++ g) c, eu ∙ e, λ x. au (a x))
Appends-from s t g (failed u) c e a (v, (w, cu), eu, au) =
    (v, (w, cu ∙ ap (λ (x : Bytes). x ++ g) c), eu ∙ e, λ x. au (a x))
Appends-from s t g fault c e a f = f

-- Growing, and then writing to a buffer that has grown.
pub Grows-then :
    (g : Bytes) (n : ℕ) (s : Out) (r : Res (Unit {0})) (k : M (Unit {0}))
    → IsValid s.ob
    → Grows s n r
    → ((t : Out)
        → IsValid t.ob
        → t.ob.content ≡ s.ob.content
        → t.ob.unit ≡ s.ob.unit
        → n ≤ t.ob.maxsize
        → Appends t g (k t))
    → Appends s g (((λ _. r) >> k) s)
Grows-then g n s (ok _ t) k v (vt, c, u, a, m, _) q = Appends-from s t g (k t) c u a (q t vt c u m)
Grows-then g n s (failed t) k v (e, a) q = (
  subst IsValid (sym e) v,
  (g, ap (λ (b : Buf). b.content ++ g) e),
  ap (λ (b : Buf). b.unit) e,
  a,
)
Grows-then g n s fault k v f q = f

hbuf_reserve-Grows :
    (n : ℕ) (s : Out)
    → IsValid s.ob
    → size s.ob + n + s.ob.unit ≤ size_mod
    → Grows s (size s.ob + n) (hbuf_reserve n s)
unfolding hbuf_reserve
hbuf_reserve-Grows n s v f =
    rw (mod-eq_of_lt (let p : size s.ob + n < size_mod = omega (arith, v.unit_pos) in p))
      (elim (Bool-cases (ltb s.ob.maxsize (size s.ob + n))) [
        | inl t ↦ rw t (hbuf_grow-Grows (size s.ob + n) s v f)
        | inr t ↦ rw t (v, refl, refl, (λ a. a), ground arith, le_refl _)
      ])

pub hbuf_room-Grows :
    (s : Out)
    → IsValid s.ob
    → size s.ob + 1 + s.ob.unit ≤ size_mod
    → Grows s (size s.ob + 1) (hbuf_room s)
unfolding hbuf_room
hbuf_room-Grows s v f =
    rw (mod-eq_of_lt (let p : size s.ob + 1 < size_mod = omega (arith, v.unit_pos) in p))
      (elim (Bool-cases (leb s.ob.maxsize (size s.ob))) [
        | inl t ↦ rw t (hbuf_grow-Grows (size s.ob + 1) s v f)
        | inr t ↦ rw t (v, refl, refl, (λ a. a), ground arith, le_refl _)
      ])

pub unit_test : (s : Out) → IsValid s.ob → (s.ob.unit == 0) ≡ false
unit_test s v = ground (arith, v.unit_pos)

-- On a valid buffer with room in size_t for the bytes and one unit, hbuf_put appends its bytes and
-- leaves a valid buffer; it stops only after a refused allocation, with the content as it was or a
-- part more, and is never undefined.
pub hbuf_put-Writes :
    (d : Bytes) (s : Out) → IsValid s.ob → Fits s.ob d → Appends s d (hbuf_put d s)
unfolding hbuf_put
hbuf_put-Writes [] s v f = rw (unit_test s v) (v, sym (append-nil s.ob.content), refl, λ a. a)
hbuf_put-Writes (x ∷ xs) s v f = rw (unit_test s v) (
    Grows-then (x ∷ xs) (size s.ob + length (x ∷ xs)) s (hbuf_reserve (length (x ∷ xs)) s)
      (hbuf_store (x ∷ xs)) v (hbuf_reserve-Grows (length (x ∷ xs)) s v f)
      (λ t vt c u m. hbuf_store-Appends (x ∷ xs) t vt (omega (arith, ap length c))))

pub hbuf_puts-Writes : (d : Bytes) → Writes (hbuf_puts d) d
unfolding hbuf_puts
hbuf_puts-Writes d = hbuf_put-Writes d

pub hbuf_putb-Writes : (b : Buf) → Writes (hbuf_putb b) b.content
unfolding hbuf_putb
hbuf_putb-Writes b = hbuf_put-Writes b.content

-- On a valid buffer with room in size_t for a byte and one unit, hbuf_putc appends its byte and
-- leaves a valid buffer; it stops only after a refused allocation, and is never undefined.
pub hbuf_putc-Writes :
    (c : ℕ) (s : Out) → IsValid s.ob → Fits s.ob (c ∷ []) → Appends s (c ∷ []) (hbuf_putc c s)
unfolding hbuf_putc
hbuf_putc-Writes x s v f = rw (unit_test s v) (
    Grows-then (x ∷ []) (size s.ob + 1) s (hbuf_room s) (hbuf_store (x ∷ [])) v
      (hbuf_room-Grows s v (omega arith))
      (λ t vt c u m. hbuf_store-Appends (x ∷ []) t vt (omega (arith, ap length c))))
