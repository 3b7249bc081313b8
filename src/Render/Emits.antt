-- ===== src/Render/Emits.antt =====
-- What a function of src/format/html/html.c writes moves the scanner from one state to another, and
-- is no longer than a bound. Rules to compose such writers, where every allocation is granted.
use lowdown.Prelude.{
  ℕ, ◌^◌, ◌+◌, ◌≤◌, ◌≡◌, refl, ap, ◌∙◌, Bool, true, false, List, [], ◌∷◌, ◌++◌, some, Bytes, length,
  length-append, append_assoc, if◌then◌else◌, inl, inr, Bool-cases, ltb, ◌==◌, not, ◌&&◌, last_or,
  arith,
}
use lowdown.Buffer.{
  Buf, Out, Res, ok, failed, fault, M, ◌>>◌, done, size, size_mod, AllGranted, hbuf_put, hbuf_putb,
  hbuf_putc, hbuf_puts, hbuf_printf,
}
use lowdown.Buffer.Writes.{IsValid, Appends, Writes, Writes-done}
use lowdown.Buffer.Put.{hbuf_put-Writes, hbuf_putb-Writes, hbuf_putc-Writes, hbuf_puts-Writes}
use lowdown.Buffer.Print.{hbuf_printf-Appends}
use lowdown.Render.{newline}
use lowdown.Render.Scan.{Scan, scan, step, scan-append, IsWellFormed}

-- A valid buffer with room in size_t for `n` bytes, and no refused allocation to come.
pub record IsReady (n : ℕ) (s : Out) : Type 0 where
  pub valid : IsValid s.ob
  pub grants : AllGranted s.sched
  pub room : size s.ob + n + s.ob.unit ≤ size_mod

-- What has been written between two states.
pub record Written (n : ℕ) (p q : Scan) (s t : Out) : Type 0 where
  pub bytes : Bytes
  pub content : t.ob.content ≡ s.ob.content ++ bytes
  pub short : length bytes ≤ n
  pub scanned : scan p bytes ≡ q
  pub unit : t.ob.unit ≡ s.ob.unit
  pub valid : IsValid t.ob
  pub grants : AllGranted t.sched

unfoldable pub After : ℕ → Scan → Scan → Out → Res (Unit {0}) → Type 0
After n p q s (ok _ t) = Written n p q s t
After n p q s (failed t) = ⊥
After n p q s fault = ⊥

-- A writer of at most `n` bytes, which the scanner reads from `p` to `q`.
unfoldable pub Emits : ℕ → Scan → Scan → M (Unit {0}) → Type 0
unfolding After
Emits n p q m = (s : Out) → IsReady n s → After n p q s (m s)

-- A writer that leaves the open elements as they were.
abbrev pub Renders : ℕ → List Bytes → M (Unit {0}) → Type 0
Renders n k m = Emits n (Scan.text k) (Scan.text k) m

pub After-of :
    (n : ℕ) (p q : Scan) (s : Out) (g : Bytes) (r : Res (Unit {0}))
    → AllGranted s.sched
    → Appends s g r
    → length g ≤ n
    → scan p g ≡ q
    → After n p q s r
unfolding After
After-of n p q s g (ok _ t) a (v, c, u, x) l e = record {
  bytes = g;
  content = c;
  short = l;
  scanned = e;
  unit = u;
  valid = v;
  grants = x a;
}
After-of n p q s g (failed t) a (_, _, _, x) l e = x a
After-of n p q s g fault a f l e = f

pub Emits-Writes :
    (n : ℕ) (p q : Scan) (g : Bytes) (m : M (Unit {0}))
    → Writes m g
    → length g ≤ n
    → scan p g ≡ q
    → Emits n p q m
unfolding Emits
Emits-Writes n p q g m w l e s r =
    After-of n p q s g (m s) r.grants (w s r.valid (omega (arith, r.room))) l e

pub Written-trans :
    (n k : ℕ) (p q r : Scan) (s t u : Out)
    → Written n p q s t
    → Written k q r t u
    → Written (n + k) p r s u
Written-trans n k p q r s t u a b = record {
  bytes = a.bytes ++ b.bytes;
  content =
      b.content
      ∙ ap (λ (x : Bytes). x ++ b.bytes) a.content
      ∙ append_assoc s.ob.content a.bytes b.bytes;
  short = omega (arith, length-append a.bytes b.bytes, a.short, b.short);
  scanned = scan-append p a.bytes b.bytes ∙ ap (λ x. scan x b.bytes) a.scanned ∙ b.scanned;
  unit = b.unit ∙ a.unit;
  valid = b.valid;
  grants = b.grants;
}

pub IsReady-after :
    (n k : ℕ) (p q : Scan) (s t : Out) → Written n p q s t → IsReady (n + k) s → IsReady k t
IsReady-after n k p q s t w r = record {
  valid = w.valid;
  grants = w.grants;
  room =
      omega
        (arith, r.room, ap length w.content, length-append s.ob.content w.bytes, w.short, w.unit);
}

pub IsReady-le : (n k : ℕ) (s : Out) → n ≤ k → IsReady k s → IsReady n s
IsReady-le n k s le r = record { valid = r.valid; grants = r.grants; room = omega (arith, r.room) }

pub After-trans :
    (n k : ℕ) (p q r : Scan) (s t : Out) (o : Res (Unit {0}))
    → Written n p q s t
    → After k q r t o
    → After (n + k) p r s o
unfolding After
After-trans n k p q r s t (ok _ u) w a = Written-trans n k p q r s t u w a
After-trans n k p q r s t (failed u) w f = f
After-trans n k p q r s t fault w f = f

After->> :
    (n k : ℕ) (p q r : Scan) (s : Out) (o : Res (Unit {0})) (m : M (Unit {0}))
    → After n p q s o
    → Emits k q r m
    → IsReady (n + k) s
    → After (n + k) p r s (((λ _. o) >> m) s)
unfolding After Emits
After->> n k p q r s (ok _ t) m a h y =
    After-trans n k p q r s t (m t) a (h t (IsReady-after n k p q s t a y))
After->> n k p q r s (failed t) m f h y = f
After->> n k p q r s fault m f h y = f

module _ (n k : ℕ) (p q r : Scan) (m l : M (Unit {0})) where
  pub Emits->> : Emits n p q m → Emits k q r l → Emits (n + k) p r (m >> l)
  unfolding Emits
  Emits->> a b s y = After->> n k p q r s (m s) l (a s (IsReady-le n (n + k) s (omega arith) y)) b y

pub Written-le : (n k : ℕ) (p q : Scan) (s t : Out) → n ≤ k → Written n p q s t → Written k p q s t
Written-le n k p q s t le w = record {
  bytes = w.bytes;
  content = w.content;
  short = omega (arith, w.short);
  scanned = w.scanned;
  unit = w.unit;
  valid = w.valid;
  grants = w.grants;
}

pub After-le :
    (n k : ℕ) (p q : Scan) (s : Out) (o : Res (Unit {0}))
    → n ≤ k
    → After n p q s o
    → After k p q s o
unfolding After
After-le n k p q s (ok _ t) le w = Written-le n k p q s t le w
After-le n k p q s (failed t) le f = f
After-le n k p q s fault le f = f

pub Emits-le : (n k : ℕ) (p q : Scan) (m : M (Unit {0})) → n ≤ k → Emits n p q m → Emits k p q m
unfolding Emits
Emits-le n k p q m le e s y = After-le n k p q s (m s) le (e s (IsReady-le n k s le y))

-- A writer that is done before it begins, and the writers of a given text.
pub Emits-done : (n : ℕ) (p : Scan) → Emits n p p done
unfolding scan
Emits-done n p = Emits-Writes n p p [] done Writes-done (omega arith) refl

module _ (n : ℕ) (p q : Scan) (d : Bytes) (le : length d ≤ n) (e : scan p d ≡ q) where
  pub Emits-put : Emits n p q (hbuf_put d)
  Emits-put = Emits-Writes n p q d (hbuf_put d) (hbuf_put-Writes d) le e

  pub Emits-puts : Emits n p q (hbuf_puts d)
  Emits-puts = Emits-Writes n p q d (hbuf_puts d) (hbuf_puts-Writes d) le e

-- vsnprintf needs room for a NUL.
pub Emits-printf :
    (n : ℕ)
    → n ≤ 2 ^ 31
    → (p q : Scan) (d : Bytes) → length d + 1 ≤ n
    → scan p d ≡ q
    → Emits n p q (hbuf_printf (some d))
unfolding Emits
Emits-printf n small p q d le e s r =
    After-of n p q s d (hbuf_printf (some d) s) r.grants
      (hbuf_printf-Appends d s r.valid (omega (arith, r.room)) (omega (arith, le, small)))
      (omega arith) e

pub Emits-putb :
    (k : List Bytes) (b : Buf)
    → IsWellFormed b.content
    → Emits (size b) (Scan.text k) (Scan.text k) (hbuf_putb b)
unfolding IsWellFormed
Emits-putb k b w =
    Emits-Writes (size b) (Scan.text k) (Scan.text k) b.content (hbuf_putb b) (hbuf_putb-Writes b)
      (omega arith) (w k)

pub Emits-if :
    (n : ℕ) (p q : Scan) (b : Bool) (m l : M (Unit {0}))
    → (b ≡ true → Emits n p q m)
    → (b ≡ false → Emits n p q l)
    → Emits n p q (if b then m else l)
Emits-if n p q true m l h i = h refl
Emits-if n p q false m l h i = i refl

pub Emits-newline : (k : List Bytes) → Emits 1 (Scan.text k) (Scan.text k) newline
unfolding Emits newline scan step
Emits-newline k s r =
    elim (Bool-cases (ltb 0 (size s.ob) && not (last_or s.ob.content 0 == b'\n'))) [
      | inl t ↦ rw t (
          Emits-Writes 1 (Scan.text k) (Scan.text k) (b'\n' ∷ []) (hbuf_putc b'\n')
            (hbuf_putc-Writes b'\n') (omega arith) refl s r)
      | inr t ↦ rw t (Emits-done 1 (Scan.text k) s r)
    ]

-- A start tag, what stands behind it, and an end tag.
module _ (n : ℕ) (p q r t : Scan) (before after : Bytes) (m : M (Unit {0})) where
  pub Emits-wrapped :
      scan p before ≡ q
      → Emits n q r m
      → scan r after ≡ t
      → Emits (length before + (n + length after)) p t (hbuf_put before >> (m >> hbuf_put after))
  Emits-wrapped e h f =
      Emits->> (length before) (n + length after) p q t (hbuf_put before) (m >> hbuf_put after)
        (Emits-put (length before) p q before (omega arith) e)
        (Emits->> n (length after) q r t m (hbuf_put after) h
          (Emits-put (length after) r t after (omega arith) f))
