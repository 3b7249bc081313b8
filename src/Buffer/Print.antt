-- ===== src/Buffer/Print.antt =====
-- hbuf_printf and hbuf_putf of src/buffer.c.
use native.Mathlib.Nat.{mod-eq_of_lt}
use lowdown.Prelude.{
  ℕ, zero, suc, ◌+◌, ◌-◌, ◌^◌, ◌≤◌, ◌<◌, ◌≡◌, refl, sym, ap, subst, Bool, true, false, [], ◌∷◌,
  append-nil, inl, inr, Bool-cases, some, Bytes, length, length-append, take, drop,
  take-append-drop, length-take, length-drop, ltb, leb, if◌then◌else◌, arith,
}
use lowdown.Buffer.{
  Out, Res, ok, failed, fault, M, ◌>>◌, ◌>>=◌, done, size, size_mod, hbuf_grow, hbuf_store,
  hbuf_room, hbuf_vsnprintf, hbuf_reprint, hbuf_printf, File, hbuf_putf_loop, hbuf_putf,
}
use lowdown.Buffer.Writes.{IsValid, Appends, Writes_then, Writes-done, hbuf_grow-Grows}
use lowdown.Buffer.Put.{hbuf_store-Appends, Grows-then, hbuf_room-Grows, unit_test}

-- The print into a valid buffer stays inside the allocation, and says whether the text fits.
vsnprintf_lem :
    (d : Bytes) (s : Out)
    → IsValid s.ob
    → hbuf_vsnprintf d s ≡ ok (ltb (length d) (s.ob.maxsize - size s.ob)) s
unfolding hbuf_vsnprintf
vsnprintf_lem d s v =
    let inside : leb
          (size s.ob
            + (if ltb (length d) (s.ob.maxsize - size s.ob)
                then length d + 1
                else s.ob.maxsize - size s.ob))
          s.ob.alloc
        ≡ true =
      ground (arith, v.size_le, v.backed) in
    rw inside refl

-- A print whose outcome is known, and what follows it.
after_vsnprintf :
    (d : Bytes) (s : Out) (k : Bool → M (Unit {0}))
    → IsValid s.ob
    → Appends s d (k (ltb (length d) (s.ob.maxsize - size s.ob)) s)
    → Appends s d ((hbuf_vsnprintf d >>= k) s)
after_vsnprintf d s k v h =
    subst (λ (r : Res Bool). Appends s d (((λ _. r) >>= k) s)) (sym (vsnprintf_lem d s v)) h

reprint-Appends :
    (d : Bytes) (s : Out)
    → IsValid s.ob
    → size s.ob + length d + 1 + s.ob.unit ≤ size_mod
    → (b : Bool) → ltb (length d) (s.ob.maxsize - size s.ob) ≡ b
    → Appends s d (hbuf_reprint d b s)
unfolding hbuf_reprint
reprint-Appends d s v f true e = hbuf_store-Appends d s v (ground (arith, v.size_le))
reprint-Appends d s v f false e =
    let n = size s.ob + length d + 1 in
    let small : n < size_mod = omega (arith, v.unit_pos) in
    let k : Bool → M (Unit {0}) = λ fits. if fits then hbuf_store d else (λ _. fault) in
    subst (λ x. Appends s d (((λ _. hbuf_grow x s) >> (hbuf_vsnprintf d >>= k)) s))
      (sym (mod-eq_of_lt small))
      (Grows-then d n s (hbuf_grow n s) (hbuf_vsnprintf d >>= k) v (hbuf_grow-Grows n s v f)
        (λ t vt c u m.
          let fits : ltb (length d) (t.ob.maxsize - size t.ob) ≡ true =
            ground (arith, ap length c) in
          after_vsnprintf d t k vt
            (rw fits (hbuf_store-Appends d t vt (omega (arith, ap length c))))))

-- On a valid buffer with room in size_t for the text and a NUL, and for a text whose length is an
-- int, hbuf_printf appends the formatted text, printed once or twice; it stops only after a refused
-- allocation.
pub hbuf_printf-Appends :
    (d : Bytes) (s : Out)
    → IsValid s.ob
    → size s.ob + length d + 1 + s.ob.unit ≤ size_mod
    → length d < 2 ^ 31
    → Appends s d (hbuf_printf (some d) s)
unfolding hbuf_printf
hbuf_printf-Appends d s v f lt =
    let short : leb (2 ^ 31) (length d) ≡ false = ground (arith, lt) in
    let k : Bool → M (Unit {0}) = λ fits. hbuf_reprint d fits in
    rw (unit_test s v, short)
      (Grows-then d (size s.ob + 1) s (hbuf_room s) (hbuf_vsnprintf d >>= k) v
        (hbuf_room-Grows s v (omega arith))
        (λ t vt c u m.
          after_vsnprintf d t k vt (reprint-Appends d t vt (omega (arith, ap length c, u)) _ refl)))

nil_of_length : (xs : Bytes) → length xs ≡ 0 → xs ≡ []
nil_of_length [] h = refl
nil_of_length (x ∷ xs) h = absurd (omega arith)

-- The loop with fuel for one round more than the stream has bytes.
putf_loop-Appends :
    (fuel : ℕ) (bytes : Bytes) (s : Out)
    → IsValid s.ob
    → length bytes < fuel
    → size s.ob + length bytes + s.ob.unit + s.ob.unit ≤ size_mod
    → Appends s bytes (hbuf_putf_loop fuel bytes s)
unfolding hbuf_putf_loop
putf_loop-Appends zero bytes s v h f = elim h [ ]
putf_loop-Appends (suc fuel) bytes s v h f =
    let u = s.ob.unit in
    let chunk = take u bytes in
    let later = drop u bytes in
    let again : M (Unit {0}) = hbuf_putf_loop fuel later in
    let k : M (Unit {0}) = if ltb (length chunk) u then done else again in
    let small : size s.ob + u < size_mod = omega (arith, v.unit_pos) in
    let lc = length-take u bytes in
    let ld = length-drop u bytes in
    subst (λ x. Appends s bytes (((λ _. hbuf_grow x s) >> (hbuf_store chunk >> k)) s))
      (sym (mod-eq_of_lt small))
      (Grows-then bytes (size s.ob + u) s (hbuf_grow (size s.ob + u) s) (hbuf_store chunk >> k) v
        (hbuf_grow-Grows (size s.ob + u) s v (omega arith))
        (λ t vt c e m.
          subst (λ y. Appends t y ((hbuf_store chunk >> k) t)) (take-append-drop u bytes)
            (Writes_then t (hbuf_store chunk t) k chunk later
              (hbuf_store-Appends chunk t vt (omega (arith, ap length c)))
              (λ w vw cw ew. elim (Bool-cases (ltb (length chunk) u)) [
                | inl short ↦ rw short (
                    subst (λ y. Appends w y (done w)) (sym (nil_of_length later (ground arith)))
                      (Writes-done w vw (
                        omega
                          (arith, ap length c, ap length cw, length-append t.ob.content chunk))))
                | inr full ↦ rw full (
                    putf_loop-Appends fuel later w vw (ground arith)
                      (ground (arith, ap length c, ap length cw, length-append t.ob.content chunk)))
              ]))))

-- hbuf_putf on a valid buffer with room for the stream and two units more ends, and appends all of
-- a stream that does not end by an error; it stops only after a refused allocation.
pub hbuf_putf-Appends :
    (s : Out) (file : File)
    → IsValid s.ob
    → size s.ob + length file.bytes + s.ob.unit + s.ob.unit ≤ size_mod
    → file.error ≡ false
    → Appends s file.bytes (hbuf_putf file s)
unfolding hbuf_putf
hbuf_putf-Appends s file v f e =
    let k : M (Unit {0}) = λ t. if file.error then failed t else ok tt t in
    let r = hbuf_putf_loop (length file.bytes + 1) file.bytes s in
    rw (unit_test s v) (
      subst (λ y. Appends s y (((λ _. r) >> k) s)) (append-nil file.bytes)
        (Writes_then s r k file.bytes []
          (putf_loop-Appends (length file.bytes + 1) file.bytes s v (omega arith) f)
          (λ t vt c u. rw e (
            Writes-done t vt (omega (arith, ap length c, length-append s.ob.content file.bytes))))))
