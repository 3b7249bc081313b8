-- ===== src/Render/Headings.antt =====
-- The headings of src/format/html/html.c are well-formed HTML, where their identifiers are given.
use lowdown.Prelude.{
  ℕ, ◌+◌, ◌-◌, ◌*◌, ◌≤◌, ◌≡◌, refl, sym, ap, subst, ◌∙◌, true, false, List, ◌∷◌, ◌++◌, Option, none,
  some, Bytes, codes, length, length-append, get_elem?, ltb, isalnum, arith, inl, inr, Bool-cases,
}
use lowdown.Buffer.{
  Buf, Out, Res, ok, failed, fault, M, ◌>>◌, done, size, hbuf_put, hbuf_putb, hbuf_printf,
}
use lowdown.Parse.Attrs.{Attr, Attrs, attr_custom}
use lowdown.Render.{Html, flag, html_head_ids, escape_attr, newline}
use lowdown.Render.Link.{put_custom, numbers, slot_value}
use lowdown.Render.Scan.{Scan, scan, step, between, name_byte, IsWellFormed}
use lowdown.Render.Emits.{
  Emits, Emits->>, Emits-le, Emits-put, Emits-printf, Emits-newline, Renders, Emits-putb,
}
use lowdown.Render.Pieces.{escape_attr-Emits}
use lowdown.Tree.{Node}
use lowdown.Ident.{decimal}
use lowdown.Ident.Decimal.{decimal_short}
use lowdown.Render.State.{
  Rendered, lift, on_success, header_level, overflows, put_named, found_value, array_value, id_slot,
  id_or_new, put_id, put_class, head_start, head_end, rndr_header,
}
use lowdown.Render.Tags.{
  InTag, Attributes, Attributes-done, Attributes-of, Attributes-Emits, Attributes-if,
}
use lowdown.Render.Attributes.{AreNamed, NamedArray, entries, known_cost, quoted-InTag}
use lowdown.Render.Links.{found-Named, with_attr_found, put_custom-Attributes}
use lowdown.Render.Levels.{decimal-name_byte, header_level_le, start_tag-scan, end_tag-scan}

-- A writer and a step that is one are a writer.
lift->>_of :
    (r : Res (Unit {0})) (l : M (Unit {0})) (f : Html → Out → Rendered) (st : Html) (s : Out)
    → ((t : Out) → f st t ≡ lift l st t)
    → on_success (lift (λ _. r) st s) f ≡ lift ((λ _. r) >> l) st s
unfolding lift on_success
lift->>_of (ok _ t) l f st s h = h t
lift->>_of (failed t) l f st s h = refl
lift->>_of fault l f st s h = refl

pub lift->> :
    (m l : M (Unit {0})) (f : Html → Out → Rendered) (st : Html) (s : Out)
    → ((t : Out) → f st t ≡ lift l st t)
    → on_success (lift m st s) f ≡ lift (m >> l) st s
unfolding lift
lift->> m l f st s h = lift->>_of (m s) l f st s h

unfoldable pub named_cost : Option Buf → ℕ
named_cost none = 0
named_cost (some b) = 6 * size b + 9

pub put_named-Attributes :
    (k : List Bytes) (n before : Bytes) (o : Option Buf)
    → length before ≤ 8
    → ((p : Scan) → InTag k n p → scan p before ≡ Scan.value k n)
    → Attributes (named_cost o) k n (put_named before o)
unfolding put_named named_cost scan step
put_named-Attributes k n before none le e = Attributes-done k n 0
put_named-Attributes k n before (some b) le e =
    let value = Scan.value k n in
    let m = 6 * size b in
    Attributes-of k n (m + 9) _ (Scan.quoted k n) (quoted-InTag k n) (λ p i.
      Emits-le (8 + (m + 1)) (m + 9) p (Scan.quoted k n) _ (omega arith) (
        Emits->> 8 (m + 1) p value (Scan.quoted k n) (hbuf_put before) _
          (Emits-put 8 p value before le (e p i))
          (Emits->> m 1 value value (Scan.quoted k n) (escape_attr b.content)
            (hbuf_put (codes "\"")) (escape_attr-Emits k b.content n)
            (Emits-put 1 value (Scan.quoted k n) (codes "\"") (omega arith) refl))))

-- The identifier in the attributes.
unfoldable pub own_id : Attrs → Option Buf
unfolding slot_value entries
own_id a = slot_value (get_elem? (entries a.array) 0)

put_id-found :
    (n : Node) (a : Attrs) (o : Option (List Attr)) (st : Html) (s : Out)
    → a.array ≡ o
    → NamedArray o a.attrsz
    → put_id n a st s ≡ id_or_new n (slot_value (get_elem? (entries o) 0)) st s
unfolding put_id id_slot NamedArray array_value found_value slot_value entries
put_id-found n a none st s e h = let z : ltb 0 a.attrsz ≡ false = ground arith in rw z refl
put_id-found n a (some l) st s e (len, le, d) =
    let (v, f, _) = found-Named l 0 d (omega (arith, len, le)) in
    let z : ltb 0 a.attrsz ≡ true = ground arith in
    let at : array_value a.array 0 ≡ some v.value =
      ap (λ o. array_value o 0) e ∙ ap found_value f in
    rw z (ap (λ o. id_slot n o st s) at ∙ ap (λ o. id_or_new n o st s) (sym (ap slot_value f)))

-- It is taken from the attributes where they have one.
pub put_id_lem :
    (n : Node) (a : Attrs) (st : Html) (s : Out)
    → AreNamed a
    → put_id n a st s ≡ id_or_new n (own_id a) st s
unfolding AreNamed own_id
put_id_lem n a st s h = put_id-found n a a.array st s refl h

-- Whether an identifier has to be made.
abbrev pub MakesId : Attrs → Html → Type 0
MakesId a st = (own_id a ≡ none) × (flag st.flags html_head_ids ≡ true)

-- If none has to be made, put_id is a writer.
pub id_or_new-lift :
    (n : Node) (o : Option Buf) (st : Html) (s : Out)
    → ((o ≡ none) × (flag st.flags html_head_ids ≡ true) → ⊥)
    → id_or_new n o st s ≡ lift (put_named (codes " id=\"") o) st s
unfolding id_or_new put_named
id_or_new-lift n none st s h = elim (Bool-cases (flag st.flags html_head_ids)) [
  | inl t ↦ absurd (h (refl, t))
  | inr t ↦ rw t refl
]
id_or_new-lift n (some b) st s h = refl

-- The class, behind a test that there are attributes.
put_class-Attributes :
    (k : List Bytes) (n : Bytes) (a : Attrs) (o : Option (List Attr))
    → a.array ≡ o
    → NamedArray o a.attrsz
    → Attributes (named_cost (slot_value (get_elem? (entries o) 1))) k n (put_class a)
unfolding put_class NamedArray slot_value entries named_cost InTag scan step name_byte isalnum
put_class-Attributes k n a none e h =
    Attributes-if k n 0 (ltb 0 a.attrsz) _ done (λ t. absurd (ground arith))
      (λ t. Attributes-done k n 0)
put_class-Attributes k n a (some l) e (len, le, d) =
    let (v, f, _) = found-Named l 1 d (omega (arith, len, le)) in
    let w = named_cost (slot_value (get_elem? l 1)) in
    Attributes-if k n w (ltb 0 a.attrsz) _ done
      (λ t.
        subst (Attributes w k n)
          (sym (with_attr_found a l 1 v (λ v. put_named (codes " class=\"") v.value) e f))
          (subst
            (λ o.
              Attributes (named_cost (slot_value o)) k n (put_named (codes " class=\"") v.value))
            (sym f)
            (put_named-Attributes k n (codes " class=\"") v.value (omega arith)
              (λ p i. rw (i.0) refl))))
      (λ t. Attributes-done k n w)

-- The writer that rndr_header is, where no identifier is made.
unfoldable pub head_writer : Buf → ℕ → Attrs → Html → M (Unit {0})
unfolding put_named header_level head_start head_end own_id
head_writer b level a st =
    let digit = decimal (header_level level st.headers_offs) in
    head_start digit >> (put_named (codes " id=\"") (own_id a) >> head_end b digit a st)

pub rndr_header-lift :
    (b : Buf) (n : Node) (level : ℕ) (a : Attrs) (st : Html) (s : Out)
    → AreNamed a
    → ¬ MakesId a st
    → overflows level st.headers_offs ≡ false
    → rndr_header b n level a st s ≡ lift (head_writer b level a st) st s
unfolding rndr_header head_writer
rndr_header-lift b n level a st s h ids small =
    let digit = decimal (header_level level st.headers_offs) in
    let id = put_named (codes " id=\"") (own_id a) in
    let f : Html → Out → Rendered = λ st t. lift (head_end b digit a st) st t in
    rw small (
      lift->> (head_start digit) (id >> head_end b digit a st)
        (λ st t. on_success (put_id n a st t) f) st s
        (λ t.
          ap (λ r. on_success r f) (put_id_lem n a st t h ∙ id_or_new-lift n (own_id a) st t ids)
          ∙ lift->> id (head_end b digit a st) f st t (λ u. refl)))

-- How much is written of the attributes of a header: with its identifier, and without it.
unfoldable pub end_cost : Attrs → ℕ
unfolding named_cost slot_value entries known_cost numbers
end_cost a =
    named_cost (slot_value (get_elem? (entries a.array) 1))
    + known_cost (entries a.array) (numbers attr_custom (a.attrsz - attr_custom))

unfoldable pub head_cost : Attrs → ℕ
unfolding named_cost own_id end_cost
head_cost a = named_cost (own_id a) + end_cost a

-- The start tag up to the attributes, and what follows the identifier, in an element of a name.
module _ (k : List Bytes) (level : ℕ) (st : Html) where
  abbrev pub digit : Bytes
  digit = decimal (header_level level st.headers_offs)

  abbrev pub head_name : Bytes
  head_name = codes "h" ++ digit

  length-digit : length digit ≤ 2
  length-digit =
      decimal_short (header_level level st.headers_offs) 1
        (omega (arith, header_level_le level st.headers_offs))

  pub head_start-Emits : Emits 6 (Scan.text k) (Scan.name k head_name) (head_start digit)
  unfolding head_start
  head_start-Emits =
      let p = Scan.text k in
      Emits->> 1 5 p p (Scan.name k head_name) newline _ (Emits-newline k) (
        Emits-printf 5 (omega arith) p (Scan.name k head_name) (codes "<h" ++ digit)
          (omega (arith, length-digit))
          (start_tag-scan k digit (decimal-name_byte (header_level level st.headers_offs))))

  tail-Emits :
      (b : Buf) (q : Scan)
      → IsWellFormed b.content
      → InTag k head_name q
      → Emits (1 + (size b + 8)) q (Scan.text k) (
          hbuf_put (codes ">")
          >> (hbuf_putb b >> hbuf_printf (some (codes "</h" ++ (digit ++ codes ">\n")))))
  unfolding InTag scan step
  tail-Emits b q w i =
      let p = Scan.text k in
      let inner = Scan.text (head_name ∷ k) in
      Emits->> 1 (size b + 8) q inner p _ _ (Emits-put 1 q inner (codes ">") (omega arith) (i.1)) (
        Emits->> (size b) 8 inner inner p (hbuf_putb b) _ (Emits-putb (head_name ∷ k) b w) (
          Emits-printf 8 (omega arith) inner p (codes "</h" ++ (digit ++ codes ">\n"))
            (omega (arith, length-digit, length-append digit (codes ">\n")))
            (end_tag-scan k digit (decimal-name_byte (header_level level st.headers_offs)))))

  pub head_end-Emits :
      (b : Buf) (a : Attrs) (ids : Html) (q : Scan)
      → IsWellFormed b.content
      → AreNamed a
      → InTag k head_name q
      → Emits (end_cost a + (size b + 9)) q (Scan.text k) (head_end b digit a ids)
  unfolding head_end end_cost AreNamed
  head_end-Emits b a ids q w h i =
      let y = named_cost (slot_value (get_elem? (entries a.array) 1)) in
      let z = known_cost (entries a.array) (numbers attr_custom (a.attrsz - attr_custom)) in
      let p = Scan.text k in
      Emits-le (y + (z + (1 + (size b + 8)))) _ q p _ (omega arith) (
        Attributes-Emits k head_name y (z + (1 + (size b + 8))) (put_class a) _ q p i
          (put_class-Attributes k head_name a a.array refl h)
          (λ r j.
            Attributes-Emits k head_name z (1 + (size b + 8)) (put_custom a ids) _ r p j
              (put_custom-Attributes k head_name a ids h) (λ q i. tail-Emits b q w i)))

  pub name-InTag : InTag k head_name (Scan.name k head_name)
  unfolding InTag step between name_byte isalnum
  name-InTag = (refl, refl)

pub head_writer-Emits :
    (k : List Bytes) (b : Buf) (level : ℕ) (a : Attrs) (st : Html)
    → IsWellFormed b.content
    → AreNamed a
    → Renders (size b + head_cost a + 64) k (head_writer b level a st)
unfolding head_writer head_cost InTag scan step
head_writer-Emits k b level a st w h =
    let n = head_name k level st in
    let p = Scan.text k in
    let x = named_cost (own_id a) in
    let y = end_cost a + (size b + 9) in
    Emits-le (6 + (x + y)) _ p p _ (omega arith) (
      Emits->> 6 (x + y) p (Scan.name k n) p _ _ (head_start-Emits k level st) (
        Attributes-Emits k n x y _ _ (Scan.name k n) p (name-InTag k level st)
          (put_named-Attributes k n (codes " id=\"") _ (omega arith) (λ q i. rw (i.0) refl))
          (λ q i. head_end-Emits k level st b a st q w h i)))
