-- ===== src/Render/Links.antt =====
-- The links, the images and the loops over extended attributes of src/format/html/html.c write well-formed HTML.
use lowdown.Prelude.{
  ℕ, zero, suc, ◌+◌, ◌-◌, ◌*◌, ◌≤◌, ◌<◌, ◌≡◌, refl, sym, ap, subst, ◌∙◌, Bool, true, List, [], ◌∷◌,
  Option, none, some, Bytes, codes, length, get_elem?, All, All-map, ltb→lt, ltb, if◌then◌else◌,
  isalnum, arith,
}
use lowdown.Buffer.{Buf, M, ◌>>◌, done, size, hbuf_put, hbuf_putb}
use lowdown.Parse.Attrs.{Attr, Attrs, attr_custom}
use lowdown.Render.{Html, escape_href}
use lowdown.Render.Link.{
  put_value, with_slot, with_array, with_attr, put_known, put_standard, numbers, put_custom,
  put_title, link_attrs, rndr_link,
}
use lowdown.Render.Scan.{Scan, scan, step, between, pop, name_byte, IsWellFormed}
use lowdown.Render.Emits.{Emits, Emits->>, Emits-le, Emits-put, Renders, Emits-putb, Emits-wrapped}
use lowdown.Render.Pieces.{escape_href-Emits}
use lowdown.Render.Tags.{
  InTag, Attributes, Attributes-done, Attributes-Emits, Attributes->>, Attributes-if,
}
use lowdown.Render.Attributes.{
  IsNamed, NamedArray, AreNamed, slot_cost, known_cost, entries, quoted-InTag, put_value-Attributes,
  put_title-Attributes,
}

-- An element of an array of attributes.
pub found-Named :
    (l : List Attr) (i : ℕ)
    → All (λ v. IsNamed v.key v.value) l
    → i < length l
    → (v : Attr) × (get_elem? l i ≡ some v) × IsNamed v.key v.value
found-Named [] i a h = absurd (omega arith)
found-Named (v ∷ l) zero (a, _) h = (v, refl, a)
found-Named (v ∷ l) (suc i) (_, a) h = found-Named l i a (omega arith)

AllBelow : ℕ → List ℕ → Type 0
AllBelow n is = All (λ i. i < n) is

numbers-below : (i n : ℕ) → AllBelow (i + n) (numbers i n)
unfolding numbers AllBelow
numbers-below i zero = tt
numbers-below i (suc n) = (
  omega arith,
  subst (λ b. All (λ j. j < b) (numbers (suc i) n)) (omega arith) (numbers-below (suc i) n),
)

pub with_attr_found :
    (a : Attrs) (l : List Attr) (i : ℕ) (v : Attr) (f : Attr → M (Unit {0}))
    → a.array ≡ some l
    → get_elem? l i ≡ some v
    → with_attr a i f ≡ f v
unfolding with_attr with_array with_slot
with_attr_found a l i v f e g = ap (λ o. with_array o i f) e ∙ ap (λ o. with_slot o f) g

module _ (k : List Bytes) (n : Bytes) where
  -- Reads inside of the array.
  put_known-Attributes :
      (a : Attrs) (l : List Attr)
      → a.array ≡ some l
      → All (λ v. IsNamed v.key v.value) l
      → (is : List ℕ) → AllBelow (length l) is
      → Attributes (known_cost l is) k n (put_known a is)
  unfolding put_known known_cost slot_cost AllBelow
  put_known-Attributes a l e h [] b = Attributes-done k n 0
  put_known-Attributes a l e h (i ∷ is) (lt, b) =
      let (v, f, d) = found-Named l i h lt in
      let first =
        subst (Attributes (slot_cost (get_elem? l i)) k n)
          (sym (with_attr_found a l i v (λ v. put_value v v.value) e f))
          (subst (λ o. Attributes (slot_cost o) k n (put_value v v.value)) (sym f)
            (put_value-Attributes k n v v.key v.value refl d)) in
      Attributes->> k n (slot_cost (get_elem? l i)) (known_cost l is)
        (with_attr a i (λ v. put_value v v.value)) (put_known a is) first
        (put_known-Attributes a l e h is b)

  -- The loop is not run where there is no array.
  guarded-Attributes :
      (a : Attrs) (o : Option (List Attr)) (c : Bool) (is : List ℕ)
      → a.array ≡ o
      → NamedArray o a.attrsz
      → (c ≡ true → 0 < a.attrsz)
      → (c ≡ true → attr_custom ≤ a.attrsz → AllBelow a.attrsz is)
      → Attributes (known_cost (entries o) is) k n (if c then put_known a is else done)
  unfolding NamedArray entries
  guarded-Attributes a none c is e h pos b =
      Attributes-if k n (known_cost [] is) c (put_known a is) done
        (λ t. absurd (omega (arith, pos t))) (λ t. Attributes-done k n (known_cost [] is))
  guarded-Attributes a (some l) c is e (len, le, d) pos b =
      Attributes-if k n (known_cost l is) c (put_known a is) done
        (λ t. put_known-Attributes a l e d is (subst (λ x. AllBelow x is) (sym len) (b t le)))
        (λ t. Attributes-done k n (known_cost l is))

  -- The known attributes that the renderer names, which stand below LOWDOWN_ATTR_CUSTOM.
  pub put_standard-Attributes :
      (a : Attrs)
      → AreNamed a
      → (is : List ℕ) → All (λ i. i < attr_custom) is
      → Attributes (known_cost (entries a.array) is) k n (put_standard a is)
  unfolding put_standard AreNamed AllBelow
  put_standard-Attributes a h is b =
      guarded-Attributes a a.array (ltb 0 a.attrsz) is refl h (λ t. ltb→lt 0 a.attrsz t)
        (λ t le. All-map (λ i lt. omega arith) is b)

  pub put_custom-Attributes :
      (a : Attrs) (st : Html)
      → AreNamed a
      → Attributes
          (known_cost (entries a.array) (numbers attr_custom (a.attrsz - attr_custom)))
          k
          n
          (put_custom a st)
  unfolding put_custom AreNamed
  put_custom-Attributes a st h =
      guarded-Attributes a a.array _ (numbers attr_custom (a.attrsz - attr_custom)) refl h
        (λ t. ground arith)
        (λ t le.
          subst (λ x. AllBelow x (numbers attr_custom (a.attrsz - attr_custom))) (omega (arith, le))
            (numbers-below attr_custom (a.attrsz - attr_custom)))

-- How much is written of the attributes of a link.
unfoldable pub attrs_cost : Attrs → List ℕ → ℕ
unfolding known_cost numbers entries
attrs_cost a is =
    known_cost (entries a.array) is
    + known_cost (entries a.array) (numbers attr_custom (a.attrsz - attr_custom))

pub rndr_link-Emits :
    (k : List Bytes) (b : Buf) (link title : Bytes) (a : Attrs) (st : Html)
    → IsWellFormed b.content
    → AreNamed a
    → Renders
        (6 * length link + 6 * length title + attrs_cost a link_attrs + size b + 64)
        k
        (rndr_link b link title a st)
unfolding rndr_link attrs_cost scan step between pop name_byte isalnum InTag
rndr_link-Emits k b link title a st w h =
    let p = Scan.text k in
    let n = codes "a" in
    let value = Scan.value k n in
    let inner = Scan.text (n ∷ k) in
    let t = 6 * length title + 9 in
    let u = 6 * length link in
    let x = known_cost (entries a.array) link_attrs in
    let y = known_cost (entries a.array) (numbers attr_custom (a.attrsz - attr_custom)) in
    let tail = hbuf_put (codes ">") >> (hbuf_putb b >> hbuf_put (codes "</a>")) in
    let tail-Emits : (q : Scan) → InTag k n q → Emits (1 + (size b + 4)) q p tail = λ q i.
      Emits-wrapped (size b) q inner inner p (codes ">") (codes "</a>") (hbuf_putb b) (i.1)
        (Emits-putb (n ∷ k) b w) refl in
    Emits-le (9 + (u + (1 + (t + (x + (y + (1 + (size b + 4)))))))) _ p p _ (omega arith) (
      Emits->> 9 (u + (1 + (t + (x + (y + (1 + (size b + 4))))))) p value p _ _
        (Emits-put 9 p value (codes "<a href=\"") (omega arith) refl)
        (Emits->> u (1 + (t + (x + (y + (1 + (size b + 4)))))) value value p (escape_href link st) _
          (escape_href-Emits k link st n)
          (Emits->> 1 (t + (x + (y + (1 + (size b + 4))))) value (Scan.quoted k n) p _ _
            (Emits-put 1 value (Scan.quoted k n) (codes "\"") (omega arith) refl)
            (Attributes-Emits k n t (x + (y + (1 + (size b + 4)))) (put_title title) _
              (Scan.quoted k n) p (quoted-InTag k n) (put_title-Attributes k n title)
              (λ q i.
                Attributes-Emits k n x (y + (1 + (size b + 4))) (put_standard a link_attrs) _ q p i
                  (put_standard-Attributes k n a h link_attrs (omega arith))
                  (λ r j.
                    Attributes-Emits k n y (1 + (size b + 4)) (put_custom a st) tail r p j
                      (put_custom-Attributes k n a st h) tail-Emits))))))
