-- ===== src/Render/Tags.antt =====
-- The extended attributes that src/format/html/html.c prints keep a start tag well formed.
use lowdown.Prelude.{
  ℕ, ◌+◌, ◌≤◌, ◌≡◌, refl, Bool, true, false, List, ◌∷◌, Bytes, if◌then◌else◌, arith,
}
use lowdown.Buffer.{Out, Res, ok, failed, fault, M, ◌>>◌, done}
use lowdown.Render.Scan.{Scan, step}
use lowdown.Render.Emits.{
  IsReady, IsReady-le, IsReady-after, After, After-trans, After-le, Emits, Emits-done,
}

-- A state in a start tag at which an attribute or the end of the tag can follow.
unfoldable pub InTag : List Bytes → Bytes → Scan → Type 0
InTag k n p = (step p b' ' ≡ Scan.gap k n) × (step p b'>' ≡ Scan.text (n ∷ k))

-- A writer of attributes.
unfoldable pub Attributes : ℕ → List Bytes → Bytes → M (Unit {0}) → Type 0
Attributes w k n m =
    (p : Scan)
    → InTag k n p
    → (s : Out) → IsReady w s
    → (q : Scan) × InTag k n q × After w p q s (m s)

module _ (k : List Bytes) (n : Bytes) where
  pub Attributes-done : (w : ℕ) → Attributes w k n done
  unfolding Attributes Emits
  Attributes-done w p i s r = (p, i, Emits-done w p s r)

  pub Attributes-le : (w x : ℕ) (m : M (Unit {0})) → w ≤ x → Attributes w k n m → Attributes x k n m
  unfolding Attributes
  Attributes-le w x m le h p i s r =
      let (q, j, a) = h p i s (IsReady-le w x s le r) in (q, j, After-le w x p q s (m s) le a)

  pub Attributes-of :
      (w : ℕ) (m : M (Unit {0})) (q : Scan)
      → InTag k n q
      → ((p : Scan) → InTag k n p → Emits w p q m)
      → Attributes w k n m
  unfolding Attributes Emits
  Attributes-of w m q j h p i s r = (q, j, h p i s r)

  -- What follows the attributes is written from any state in the tag.
  Attributes-After :
      (w x : ℕ) (m : M (Unit {0})) (p q r : Scan) (s : Out) (o : Res (Unit {0}))
      → InTag k n q
      → ((q : Scan) → InTag k n q → Emits x q r m)
      → IsReady (w + x) s
      → After w p q s o
      → After (w + x) p r s (((λ _. o) >> m) s)
  unfolding After Emits
  Attributes-After w x m p q r s (ok _ t) j h y a =
      After-trans w x p q r s t (m t) a (h q j t (IsReady-after w x p q s t a y))
  Attributes-After w x m p q r s (failed t) j h y f = f
  Attributes-After w x m p q r s fault j h y f = f

  pub Attributes-Emits :
      (w x : ℕ) (m l : M (Unit {0})) (p r : Scan)
      → InTag k n p
      → Attributes w k n m
      → ((q : Scan) → InTag k n q → Emits x q r l)
      → Emits (w + x) p r (m >> l)
  unfolding Attributes Emits
  Attributes-Emits w x m l p r i h g s y =
      let (q, j, a) = h p i s (IsReady-le w (w + x) s (omega arith) y) in
      Attributes-After w x l p q r s (m s) j g y a

  later-Attributes :
      (w x : ℕ) (l : M (Unit {0})) (p q : Scan) (s : Out) (o : Res (Unit {0}))
      → InTag k n q
      → Attributes x k n l
      → IsReady (w + x) s
      → After w p q s o
      → (r : Scan) × InTag k n r × After (w + x) p r s (((λ _. o) >> l) s)
  unfolding After Attributes
  later-Attributes w x l p q s (ok _ t) j h y a =
      let (r, i, b) = h q j t (IsReady-after w x p q s t a y) in
      (r, i, After-trans w x p q r s t (l t) a b)
  later-Attributes w x l p q s (failed t) j h y f = absurd f
  later-Attributes w x l p q s fault j h y f = absurd f

  pub Attributes->> :
      (w x : ℕ) (m l : M (Unit {0}))
      → Attributes w k n m
      → Attributes x k n l
      → Attributes (w + x) k n (m >> l)
  unfolding Attributes
  Attributes->> w x m l h g p i s y =
      let (q, j, a) = h p i s (IsReady-le w (w + x) s (omega arith) y) in
      later-Attributes w x l p q s (m s) j g y a

  pub Attributes-if :
      (w : ℕ) (c : Bool) (m l : M (Unit {0}))
      → (c ≡ true → Attributes w k n m)
      → (c ≡ false → Attributes w k n l)
      → Attributes w k n (if c then m else l)
  Attributes-if w true m l h g = h refl
  Attributes-if w false m l h g = g refl
