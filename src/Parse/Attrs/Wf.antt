-- ===== src/Parse/Attrs/Wf.antt =====
-- What is kept of the attributes of src/parse/ext_attrs.c, and what is seen of them.

use lowdown.Prelude.{
  ℕ, zero, suc, ◌+◌, ◌≤◌, ◌<◌, ◌≡◌, subst, true, false, List, [], ◌∷◌, ◌++◌, map, Option, none,
  some, Bytes, codes, length, drop, get_elem?, set, ◌==◌, if◌then◌else◌, All, ◌⊎◌,
}
use lowdown.Buffer.{Buf, Sched, size, size_mod, AllGranted}
use lowdown.Buffer.Writes.{IsValid}
use lowdown.Parse.Attrs.{
  attr_class, attr_custom, Attr, Attrs, Added, added, undefined, Valued, valued, broken_value,
}

-- The text of a value, and what is seen of an attribute.
unfoldable pub text : Option Buf → Option Bytes
text none = none
text (some b) = some (b.content)

unfoldable pub slot : Option Attr → Option Bytes
slot none = none
slot (some a) = text (a.value)

unfoldable pub text_at : ℕ → List Attr → Option Bytes
text_at i l = slot (get_elem? l i)

unfoldable pub customs : List Attr → List (Option Bytes × Option Bytes)
customs l = map (λ a. (a.key, text (a.value))) (drop attr_custom l)

unfoldable pub Sound : Option Buf → Type 0
Sound none = Unit
Sound (some b) = IsValid b

-- An array has the size that is kept beside it, room for the known attributes and valid values;
-- NULL has size 0.
unfoldable pub WfArray : Option (List Attr) → ℕ → Type 0
WfArray none n = n ≡ 0
WfArray (some l) n = (length l ≡ n) × (attr_custom ≤ n) × All (λ a. Sound (a.value)) l

unfoldable pub IsWf : Attrs → Type 0
IsWf a = WfArray (a.array) (a.attrsz)

unfoldable pub entries : Attrs → List Attr
entries a = elim (a.array) [ none ↦ [] | some l ↦ l ]

-- The text that a known attribute has afterwards.
unfoldable pub joined : ℕ → Option Bytes → Bytes → Bytes
joined type none val = val
joined type (some old) val = if type == attr_class then old ++ (codes " " ++ val) else val

-- The attributes behind the addition of one, from those before it.
unfoldable pub Stores : ℕ → Bytes → Bytes → List Attr → List Attr → Type 0
Stores type key val l l' =
    ((i : ℕ)
      → i < attr_custom
      → text_at i l' ≡ (if i == type then some (joined i (text_at i l) val) else text_at i l))
    × (customs l' ≡ customs l ++ (if type == attr_custom then (some key, some val) ∷ [] else []))

-- There is room in size_t for a value and what it is appended to.
unfoldable pub RoomFor : Bytes → Option Buf → Type 0
RoomFor val none = length val + 32 ≤ size_mod
RoomFor val (some b) =
    (size b + (1 + length val) + b.unit ≤ size_mod) × (length val + 32 ≤ size_mod)

unfoldable pub Value : ℕ → Option Buf → Bytes → Sched → Valued → Type 0
Value type old val m (valued true (some b) t) =
    IsValid b × (b.content ≡ joined type (text old) val) × (AllGranted m → AllGranted t)
Value type old val m (valued true none t) = ⊥
Value type old val m (valued false v t) = Sound v × (AllGranted m → ⊥)
Value type old val m broken_value = ⊥

-- The value is stored, or a refused allocation is why not; and NULL with a size is left only by
-- calloc.
unfoldable pub Left : ℕ → Bytes → Bytes → List Attr → ℕ → Sched → Added → Type 0
Left type key val l n m (added true a t) =
    IsWf a × Stores type key val l (entries a) × (AllGranted m → AllGranted t)
Left type key val l n m (added false a t) =
    (AllGranted m → ⊥) × (IsWf a ⊎ ((n ≡ 0) × (a ≡ record { array = none; attrsz = attr_custom })))
Left type key val l n m undefined = ⊥

unfoldable pub Room : Bytes → List Attr → Type 0
Room val l = (i : ℕ) (a : Attr) → get_elem? l i ≡ some a → RoomFor val (a.value)

pub All-get :
    (l : List Attr) (i : ℕ) (a : Attr)
    → All (λ a. Sound (a.value)) l
    → get_elem? l i ≡ some a
    → Sound (a.value)
All-get [] i a s e = cc
All-get (x ∷ l) zero a (s, _) e =
    let same : x ≡ a = cc in subst (λ (y : Attr). Sound (y.value)) same s
All-get (x ∷ l) (suc i) a (_, s) e = All-get l i a s e

pub All-set :
    (l : List Attr) (i : ℕ) (a : Attr)
    → All (λ a. Sound (a.value)) l
    → Sound (a.value)
    → All (λ a. Sound (a.value)) (set l i a)
All-set [] i a s h = tt
All-set (x ∷ l) zero a (_, s) h = (h, s)
All-set (x ∷ l) (suc i) a (x', s) h = (x', All-set l i a s h)
