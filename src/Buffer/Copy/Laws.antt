-- ===== src/Buffer/Copy/Laws.antt =====
-- What the copies and comparisons of src/buffer.c give.
use native.Mathlib.Nat.{mod-eq_of_lt}
use lowdown.Prelude.{
  take_all, take-append, ℕ, ◌+◌, ◌≤◌, ◌<◌, ◌≡◌, ◌≢◌, ◌↔◌, refl, sym, ap, ◌∙◌, Bool, true, false,
  ◌&&◌, [], ◌∷◌, ◌++◌, none, some, Bytes, length, take, drop, is_nil, bytes_eq_refl, bytes_eq→eq,
  take-append-drop, leb, ltb, ◌==◌, ==_iff, arith, inl, inr, Bool-cases, length-append,
}
use lowdown.Buffer.{
  Buf, Sched, Out, Res, M, ok, failed, fault, granted, rest, size, size_mod, AllGranted, hbuf_init,
  ◌>>◌, hbuf_put, hbuf_store, hbuf_reserve,
}
use lowdown.Buffer.Writes.{IsValid, Fits, Appends}
use lowdown.Buffer.Put.{hbuf_put-Writes}
use lowdown.Buffer.Copy.{
  Made, made, broken, filled, hbuf_new, run_new, hbuf_strndup, hbuf_clone, hbuf_streq,
  hbuf_strprefix, hbuf_eq, memcmp_eq,
}

-- The result is a valid buffer that holds `d`, or NULL where an allocation was refused.
abbrev pub Holds : Bytes → Sched → Made → Type 0
Holds d m (made (some b) m') = IsValid b × (b.content ≡ d) × (AllGranted m → AllGranted m')
Holds d m (made none m') = AllGranted m → ⊥
Holds d m broken = ⊥

filled-Holds :
    (d : Bytes) (m : Sched) (s : Out) (r : Res (Unit {0}))
    → (AllGranted m → AllGranted s.sched)
    → s.ob.content ≡ []
    → Appends s d r
    → Holds d m (filled r)
filled-Holds d m s (ok _ t) a e (v, c, _, g) = (v, c ∙ ap (λ (x : Bytes). x ++ d) e, λ x. g (a x))
filled-Holds d m s (failed t) a e (_, _, _, g) = λ x. g (a x)
filled-Holds d m s fault a e f = f

-- A writer of `d` to an empty buffer.
abbrev pub WritesNew : M (Unit {0}) → Bytes → Type 0
WritesNew k d = (s : Out) → IsValid s.ob → s.ob.content ≡ [] → Fits s.ob d → Appends s d (k s)

-- Such a writer that is run on a new buffer of 32 bytes.
pub run_new-Holds :
    (k : M (Unit {0})) (d : Bytes) (m : Sched)
    → WritesNew k d
    → length d + 32 ≤ size_mod
    → Holds d m (run_new k (hbuf_new 32 m))
unfolding run_new hbuf_new
run_new-Holds k d [] w h =
    let s : Out = record { ob = hbuf_init 32 true; sched = [] } in
    let v : IsValid s.ob = record {
      unit_pos = omega arith;
      size_le = omega arith;
      backed = refl;
    } in
    filled-Holds d [] s (k s) (λ a. a) refl (w s v refl (omega arith))
run_new-Holds k d (true ∷ m) w h =
    let s : Out = record { ob = hbuf_init 32 true; sched = m } in
    let v : IsValid s.ob = record {
      unit_pos = omega arith;
      size_le = omega arith;
      backed = refl;
    } in
    filled-Holds d (true ∷ m) s (k s) (λ a. a.1) refl (w s v refl (omega arith))
run_new-Holds k d (false ∷ m) w h = λ a. cc

-- hbuf_strndup gives a valid buffer that holds its argument, which leaves room in size_t for one
-- unit more, or NULL after a refused allocation.
pub hbuf_strndup-Holds :
    (d : Bytes) (m : Sched) → length d + 32 ≤ size_mod → Holds d m (hbuf_strndup d m)
unfolding hbuf_strndup
hbuf_strndup-Holds d m h = run_new-Holds (hbuf_put d) d m (λ s v e f. hbuf_put-Writes d s v f) h

&&-true : (a b : Bool) → (a && b) ≡ true → (a ≡ true) × (b ≡ true)
&&-true a b h = ground arith

same_size : (x y : Bytes) → (length x == length y) ≡ true → take (length y) x ≡ x
same_size x y h = rw (← (==_iff (length x) (length y)).0 h) (take_all x)

streq_iff : (x y : Bytes) → ((length x == length y && memcmp_eq x y (length y)) ≡ true) ↔ (x ≡ y)
streq_iff x y = (
  (λ h.
      let (l, e) = &&-true (length x == length y) (memcmp_eq x y (length y)) h in
      sym (same_size x y l) ∙ bytes_eq→eq _ _ e ∙ take_all y),
  (λ e. rw e (rw (bytes_eq_refl (take (length y) y)) (ground arith))),
)

memcmp_eq-size :
    (x y : Bytes)
    → (length x == length y && memcmp_eq x y (length x))
      ≡ (length x == length y && memcmp_eq x y (length y))
memcmp_eq-size x y = elim (Bool-cases (length x == length y)) [
  | inl h ↦ rw ((==_iff (length x) (length y)).0 h) refl
  | inr h ↦ rw h refl
]

strprefix_iff :
    (x t : Bytes)
    → ((leb (length t) (length x) && memcmp_eq x t (length t)) ≡ true)
      ↔ ((u : Bytes) × (x ≡ t ++ u))
strprefix_iff x t = (
  (λ h.
      let (_, e) = &&-true (leb (length t) (length x)) (memcmp_eq x t (length t)) h in
      (
        drop (length t) x,
        sym (take-append-drop (length t) x)
            ∙ ap (λ (y : Bytes). y ++ drop (length t) x) (bytes_eq→eq _ _ e ∙ take_all t),
      )),
  (λ (u, e).
      rw (e, take-append t u, take_all t, bytes_eq_refl t) (ground (arith, length-append t u))),
)

-- hbuf_streq and hbuf_eq decide whether the contents are equal, and hbuf_strprefix whether the text
-- begins the content.
pub comparisons :
    (a b : Buf) (t : Bytes)
    → ((hbuf_streq a t ≡ true) ↔ (a.content ≡ t))
      × ((hbuf_eq a b ≡ true) ↔ (a.content ≡ b.content))
      × ((hbuf_strprefix a t ≡ true) ↔ ((u : Bytes) × (a.content ≡ t ++ u)))
unfolding hbuf_streq hbuf_eq hbuf_strprefix
comparisons a b t = (
  streq_iff a.content t,
  rw (memcmp_eq-size a.content b.content) (streq_iff a.content b.content),
  strprefix_iff a.content t,
)

-- The buffer that a clone leaves: all of the struct, over an allocation of the size alone.
clone_of : Buf → Buf
clone_of b = record b { alloc = size b }

empty_clone : (b : Buf) → is_nil b.content ≡ true → record b { alloc = 0 } ≡ clone_of b
unfolding clone_of
empty_clone b e = ap (λ n. record b { alloc = n }) (nil_size b.content e)
  where
    nil_size : (xs : Bytes) → is_nil xs ≡ true → ◌≡◌ {A = ℕ} 0 (length xs)
    nil_size [] h = refl
    nil_size (x ∷ xs) h = cc

hbuf_clone-made : (b v : Buf) (m m' : Sched) → hbuf_clone b m ≡ made (some v) m' → v ≡ clone_of b
unfolding hbuf_clone clone_of
hbuf_clone-made b v m m' h = elim (Bool-cases (is_nil b.content)) [
  | inl e ↦ let h' = rw e at h in (cc h') ∙ empty_clone b e
  | inr e ↦ elim (Bool-cases (granted m)) [
    | inl g ↦ let h' = rw (e, g) at h in (cc h')
    | inr g ↦ let h' = rw (e, g) at h in (cc h')
  ]
]

hbuf_clone-granted :
    (b : Buf) (m : Sched)
    → AllGranted m
    → (m' : Sched) × (hbuf_clone b m ≡ made (some (clone_of b)) m')
unfolding hbuf_clone
hbuf_clone-granted b m a = elim (Bool-cases (is_nil b.content)) [
  | inl e ↦ (m, rw (e, empty_clone b e) refl)
  | inr e ↦ (rest m, rw (e, granted_all m a) (unfold clone_of in refl))
]
  where
    granted_all : (m : Sched) → AllGranted m → granted m ≡ true
    granted_all [] a = refl
    granted_all (x ∷ xs) a = a.0

-- If no allocation is refused, the clone of a valid buffer holds the same text, but is valid only
-- where the buffer was full: `maxsize` is copied, and only `size` bytes are allocated.
pub hbuf_clone-IsValid_iff :
    (b : Buf) (m : Sched)
    → IsValid b
    → AllGranted m
    → (v : Buf) × (m' : Sched) × (hbuf_clone b m ≡ made (some v) m')
      × (v.content ≡ b.content)
      × (IsValid v → size b ≡ b.maxsize)
      × (size b ≡ b.maxsize → IsValid v)
unfolding clone_of
hbuf_clone-IsValid_iff b m h g =
    let (m', e) = hbuf_clone-granted b m g in
    (
      record b { alloc = size b },
      m',
      e,
      refl,
      (λ w. sym w.backed),
      (λ q. record { unit_pos = h.unit_pos; size_le = h.size_le; backed = sym q }),
    )

-- Appending a text to the clone of a valid buffer that has room for it writes past the allocation.
pub hbuf_clone-put :
    (b v : Buf) (m m' n : Sched) (d : Bytes)
    → IsValid b
    → hbuf_clone b m ≡ made (some v) m'
    → d ≢ []
    → size b + length d ≤ b.maxsize
    → b.maxsize < size_mod
    → hbuf_put d (record { ob = v; sched = n }) ≡ fault
unfolding hbuf_put hbuf_reserve hbuf_store clone_of
hbuf_clone-put b v m m' n [] h e ne room small = absurd (ne refl)
hbuf_clone-put b v m m' n (x ∷ xs) h e ne room small = rw (hbuf_clone-made b v m m' e) (
    let s : Out = record { ob = record b { alloc = size b }; sched = n } in
    let fits : size b + length (x ∷ xs) < size_mod = omega arith in
    let kept : hbuf_reserve (length (x ∷ xs)) s ≡ ok tt s =
      rw (mod-eq_of_lt fits)
        (let w : ltb b.maxsize (size b + length (x ∷ xs)) ≡ false = ground arith in rw w refl) in
    let past : hbuf_store (x ∷ xs) s ≡ fault =
      (let z : leb (size b + length (x ∷ xs)) (size b) ≡ false = ground arith in rw z refl) in
    let u : (b.unit == 0) ≡ false = ground (arith, h.unit_pos) in
    rw u (ap (λ (r : Res (Unit {0})). ((λ _. r) >> hbuf_store (x ∷ xs)) s) kept ∙ past))
