-- ===== src/Parse/Attrs/Add.antt =====
-- What lowdown_attrs_add of src/parse/ext_attrs.c leaves.

use lowdown.Prelude.{
  ℕ, zero, suc, ◌+◌, ◌≤◌, ◌≡◌, refl, sym, ◌∙◌, subst, Bool, true, false, List, [], ◌∷◌, Option,
  none, some, Bytes, codes, length, get_elem?, replicate, ◌==◌, ==_iff, if◌then◌else◌, bytes_eq,
  All, arith, inl, inr, Bool-cases, c_string,
}
use lowdown.Buffer.{Sched, granted, rest, size_mod}
use lowdown.Buffer.Writes.{AllGranted-granted, AllGranted-rest}
use lowdown.Parse.Attrs.{
  attr_class, attr_custom, Attr, Attrs, unset, Added, added, undefined, init_attrs,
  lowdown_attrs_add, lowdown_attrs_free, free_loop, type_and_key, attr_type, strattrs, attr_id,
  strip_quotes,
}
use lowdown.Parse.Attrs.Wf.{
  text, slot, text_at, customs, Sound, WfArray, IsWf, entries, Stores, RoomFor, Left, Room,
}
use lowdown.Parse.Attrs.Keys.{KeyOf, Unquoted, KeyOf-type_and_key, Unquoted-strip_quotes}
use lowdown.Parse.Attrs.Store.{store_attr-Left}

text_at-replicate : (n i : ℕ) → text_at i (replicate n unset) ≡ none
unfolding text_at slot text
text_at-replicate zero i = refl
text_at-replicate (suc n) zero = refl
text_at-replicate (suc n) (suc i) = text_at-replicate n i

replicate-Room :
    (val : Bytes) (n i : ℕ) (a : Attr)
    → length val + 32 ≤ size_mod
    → get_elem? (replicate n unset) i ≡ some a
    → RoomFor val (a.value)
unfolding RoomFor
replicate-Room val zero i a room e = cc
replicate-Room val (suc n) zero a room e =
    let same : unset ≡ a = cc in subst (λ (y : Attr). RoomFor val (y.value)) same room
replicate-Room val (suc n) (suc i) a room e = replicate-Room val n i a room e

Left-rest :
    (type : ℕ) (key val : Bytes) (l : List Attr) (n : ℕ) (m : Sched) (x : Added)
    → Left type key val l n (rest m) x
    → Left type key val l n m x
unfolding Left
Left-rest type key val l n m (added true a t) (w, s, g) = (w, s, λ x. g (AllGranted-rest m x))
Left-rest type key val l n m (added false a t) (f, w) = (λ x. f (AllGranted-rest m x), w)
Left-rest type key val l n m undefined f = f

refused-Left :
    (type : ℕ) (key val : Bytes) (a : Attrs) (m : Sched)
    → granted m ≡ false
    → IsWf a
    → Left type key val (entries a) (a.attrsz) m (added false a (rest m))
unfolding Left
refused-Left type key val a m e w = (λ g. cc (AllGranted-granted m g), inl w)

-- The array behind calloc is seen as no array.
Left-new :
    (type : ℕ) (key val : Bytes) (n : ℕ) (m : Sched) (x : Added)
    → n ≡ 0
    → Left type key val (replicate attr_custom unset) attr_custom (rest m) x
    → Left type key val [] n m x
unfolding Left Stores text_at slot customs
Left-new type key val n m (added true a t) z (w, (f, c), g) =
    (w, (λ i h. f i h ∙ rw (text_at-replicate attr_custom i) refl, c), λ x. g (AllGranted-rest m x))
Left-new type key val n m (added false a t) z (f, inl w) = (λ x. f (AllGranted-rest m x), inl w)
Left-new type key val n m (added false a t) z (f, inr (e, _)) = absurd (omega (arith, e))
Left-new type key val n m undefined z f = f

All-unset : (n : ℕ) → All (λ a. Sound (a.value)) (replicate n unset)
unfolding Sound
All-unset zero = tt
All-unset (suc n) = (tt, All-unset n)

init_attrs-Left :
    (type : ℕ) (key val : Bytes) (o : Option (List Attr)) (n : ℕ) (m : Sched)
    → type ≤ attr_custom
    → WfArray o n
    → Room val (entries (record { array = o; attrsz = n }))
    → length val + 32 ≤ size_mod
    → Left type key val
        (entries (record { array = o; attrsz = n }))
        n
        m
        (init_attrs type key val (record { array = o; attrsz = n }) m)
unfolding init_attrs entries WfArray Left Room
init_attrs-Left type key val none n m le w r room =
    let empty : (n == 0) ≡ true = (==_iff n 0).1 w in
    elim (Bool-cases (granted m)) [
      | inl h ↦
          rw (empty, h)
            (Left-new type key val n m _ w (
              store_attr-Left type key val (replicate attr_custom unset) attr_custom (rest m) le
                (refl, omega arith, All-unset attr_custom)
                (λ i a e. replicate-Room val attr_custom i a room e) room))
      | inr h ↦ rw (empty, h) (λ g. cc (AllGranted-granted m g), inr (w, refl))
    ]
init_attrs-Left type key val (some l) n m le (len, big, s) r room =
    let full : (n == 0) ≡ false = ground (arith, big) in
    rw full (store_attr-Left type key val l n m le (len, big, s) r room)

attr_type-le : (names : List Bytes) (key : Bytes) → attr_type names key ≤ length names
unfolding attr_type
attr_type-le [] key = omega arith
attr_type-le (name ∷ names) key = elim (Bool-cases (bytes_eq key name)) [
  | inl h ↦ rw h (omega arith)
  | inr h ↦ rw h (omega (arith, attr_type-le names key))
]

tests-le :
    (type t : ℕ) (key x y : Bytes) (b c : Bool)
    → (b ≡ true → type ≤ attr_custom)
    → (c ≡ true → type ≤ attr_custom)
    → if◌then◌else◌ {A = Option (ℕ × Bytes)} b
        (some (type, x))
        (if◌then◌else◌ {A = Option (ℕ × Bytes)} c (some (type, y)) none)
      ≡ some (t, key)
    → t ≤ attr_custom
tests-le type t key x y true c p q e =
    let same : type ≡ t = cc in subst (λ z. z ≤ attr_custom) same (p refl)
tests-le type t key x y false true p q e =
    let same : type ≡ t = cc in subst (λ z. z ≤ attr_custom) same (q refl)
tests-le type t key x y false false p q e = cc

type_and_key-le :
    (type : ℕ) (typestr : Option Bytes) (t : ℕ) (key : Bytes)
    → type_and_key type typestr ≡ some (t, key)
    → t ≤ attr_custom
unfolding type_and_key
type_and_key-le type (some typestr) t key e =
    let same : attr_type strattrs (c_string typestr) ≡ t = cc in
    subst (λ z. z ≤ attr_custom) same (attr_type-le strattrs (c_string typestr))
type_and_key-le type none t key e =
    tests-le type t key (codes "id") (codes "class") (type == attr_id) (type == attr_class)
      (λ h. ground arith) (λ h. ground arith) e

-- The same for what strip_quotes leaves, and for the type and key that are found.
lowdown_attrs_add-found :
    (type : ℕ) (typestr : Option Bytes) (val : Bytes) (a : Attrs) (m : Sched) (t : ℕ) (key : Bytes)
    → type_and_key type typestr ≡ some (t, key)
    → IsWf a
    → Room (strip_quotes val) (entries a)
    → length (strip_quotes val) + 32 ≤ size_mod
    → Left t key
        (strip_quotes val)
        (entries a)
        (a.attrsz)
        m
        (lowdown_attrs_add type typestr val a m)
unfolding lowdown_attrs_add IsWf
lowdown_attrs_add-found type typestr val a m t key e w r room =
    subst (λ o. Left t key (strip_quotes val) (entries a) (a.attrsz) m (resume o)) (sym e)
      (by_grant (granted m) refl (
        init_attrs-Left t key (strip_quotes val) (a.array) (a.attrsz) (rest m)
          (type_and_key-le type typestr t key e) w r room))
  where
    resume : Option (ℕ × Bytes) → Added
    resume none = undefined
    resume (some (t, key)) =
        if granted m then init_attrs t key (strip_quotes val) a (rest m) else added false a (rest m)

    by_grant :
        (b : Bool)
        → granted m ≡ b
        → Left t key
            (strip_quotes val)
            (entries a)
            (a.attrsz)
            (rest m)
            (init_attrs t key (strip_quotes val) a (rest m))
        → Left t key
            (strip_quotes val)
            (entries a)
            (a.attrsz)
            m
            (if b then init_attrs t key (strip_quotes val) a (rest m) else added false a (rest m))
    by_grant true e p =
        Left-rest t key (strip_quotes val) (entries a) (a.attrsz) m
          (init_attrs t key (strip_quotes val) a (rest m)) p
    by_grant false e p = refused-Left t key (strip_quotes val) a m e w

-- For attributes that are well-formed, a text for the value that is, or has between double quotes, a
-- value with room in size_t beside each value that is there, and a key, or one of the two types
-- without one, lowdown_attrs_add ends. Where it returns true the attributes are well-formed, so of
-- size 0 or LOWDOWN_ATTR_CUSTOM at least; of the known attributes only the one that the key names, or
-- that has the type, has changed, to the value, which for a class stands behind the old one and a
-- space; and a key that names none of them is added behind the others with the value. Where it
-- returns false an allocation has been refused, and the attributes are well-formed, unless they were
-- empty and calloc has left NULL with a size.
pub lowdown_attrs_add-Left :
    (type : ℕ) (typestr : Option Bytes) (val : Bytes) (a : Attrs) (m : Sched) (t : ℕ)
    (key inner : Bytes)
    → KeyOf type typestr t key
    → Unquoted val inner
    → IsWf a
    → Room inner (entries a)
    → length inner + 32 ≤ size_mod
    → Left t key inner (entries a) (a.attrsz) m (lowdown_attrs_add type typestr val a m)
lowdown_attrs_add-Left type typestr val a m t key inner k u w r room =
    let e : strip_quotes val ≡ inner = Unquoted-strip_quotes val inner u in
    subst (λ z. Left t key z (entries a) (a.attrsz) m (lowdown_attrs_add type typestr val a m)) e
      (lowdown_attrs_add-found type typestr val a m t key (KeyOf-type_and_key type typestr t key k)
        w (subst (λ z. Room z (entries a)) (sym e) r)
        (subst (λ (z : Bytes). length z + 32 ≤ size_mod) (sym e) room))

full-free : (l : List Attr) → free_loop (length l) l ≡ true
unfolding free_loop
full-free [] = refl
full-free (a ∷ l) = full-free l

-- lowdown_attrs_free reads inside the array of well-formed attributes.
pub lowdown_attrs_free_lem : (a : Attrs) → IsWf a → lowdown_attrs_free a ≡ true
unfolding lowdown_attrs_free IsWf WfArray free_loop
lowdown_attrs_free_lem a w = by_array (a.array) (a.attrsz) w
  where
    by_array :
        (o : Option (List Attr)) (n : ℕ)
        → WfArray o n
        → elim o [ none ↦ free_loop n [] | some l ↦ free_loop n l ] ≡ true
    by_array none n w = rw w refl
    by_array (some l) n (len, _, _) = rw (sym len) (full-free l)

-- Where the first attribute finds the memory for its key and is refused the array,
-- lowdown_attrs_add returns false and leaves attributes that lowdown_attrs_free cannot free: it
-- reads through NULL.
pub lowdown_attrs_add-free :
    (typestr val : Bytes) (a : Attrs) (m : Sched)
    → a.attrsz ≡ 0
    → (b : Attrs) × (lowdown_attrs_add 0 (some typestr) val a (true ∷ false ∷ m) ≡ added false b m)
      × (lowdown_attrs_free b ≡ false)
unfolding lowdown_attrs_add init_attrs type_and_key lowdown_attrs_free free_loop
lowdown_attrs_add-free typestr val a m e =
    (record { array = none; attrsz = attr_custom }, rw ((==_iff (a.attrsz) 0).1 e) refl, refl)
