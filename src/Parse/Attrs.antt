-- ===== src/Parse/Attrs.antt =====
-- Extended attributes: src/parse/ext_attrs.c.
--
-- The array and its size are two variables, as in the code. A read or a write outside the array is
-- undefined. What free() gives back is not modelled: `lowdown_attrs_free` says whether it reads
-- inside the array only.
pub mod Arrays
pub mod Wf
pub mod Store
pub mod Keys
pub mod Add
pub mod Block
use lowdown.Prelude.{
  ℕ, zero, suc, ◌+◌, ◌-◌, Bool, true, false, not, ◌&&◌, List, [], ◌∷◌, ◌++◌, Option, none, some,
  Bytes, codes, length, c_string, take, drop, get_elem?, last_or, set, replicate, begins, bytes_eq,
  ltb, ◌==◌, if◌then◌else◌,
}
use lowdown.Buffer.{Buf, Sched, Out, Res, ok, failed, fault, M, ◌>>◌, granted, rest, hbuf_put}
use lowdown.Buffer.Copy.{Made, made, broken, hbuf_strndup}

-- enum lowdown_attr_type, by its numbers.
abbrev pub attr_id : ℕ
attr_id = 0

abbrev pub attr_class : ℕ
attr_class = 1

abbrev pub attr_custom : ℕ
attr_custom = 15

abbrev pub strattrs : List Bytes
strattrs =
    codes "id"
    ∷ codes "class"
    ∷ codes "crossorigin"
    ∷ codes "referrerpolicy"
    ∷ codes "ismap"
    ∷ codes "usemap"
    ∷ codes "sizes"
    ∷ codes "srcset"
    ∷ codes "width"
    ∷ codes "height"
    ∷ codes "rel"
    ∷ codes "target"
    ∷ codes "download"
    ∷ codes "loading"
    ∷ codes "ping"
    ∷ []

pub record Attr : Type 0 where
  pub key : Option Bytes
  pub value : Option Buf

-- What calloc leaves of an attribute.
abbrev pub unset : Attr
unset = record { key = none; value = none }

-- The variables `attrs`, NULL or an array, and `attrsz`.
pub record Attrs : Type 0 where
  pub array : Option (List Attr)
  pub attrsz : ℕ

unfoldable pub free_loop : ℕ → List Attr → Bool
free_loop zero l = true
free_loop (suc n) [] = false
free_loop (suc n) (a ∷ l) = free_loop n l

unfoldable pub lowdown_attrs_free : Attrs → Bool
unfolding free_loop
lowdown_attrs_free a = elim (a.array) [
  | none ↦ free_loop (a.attrsz) []
  | some l ↦ free_loop (a.attrsz) l
]

-- The returned truth value, the variables and the schedule; or a fault.
pub data Added : Type 0 where
  added : Bool → Attrs → Sched → Added
  undefined : Added

unfoldable pub strip_quotes : Bytes → Bytes
strip_quotes val =
    if ltb 2 (length val) && begins (b'"' ∷ []) val && last_or val 0 == b'"'
    then take (length val - 2) (drop 1 val)
    else val

-- `for (type = 0; type != LOWDOWN_ATTR_CUSTOM; type++)`
unfoldable pub attr_type : List Bytes → Bytes → ℕ
attr_type [] key = 0
attr_type (name ∷ names) key =
    let later = attr_type names key in if bytes_eq key name then 0 else 1 + later

-- The type and the key; a failed assert has none.
unfoldable pub type_and_key : ℕ → Option Bytes → Option (ℕ × Bytes)
unfolding attr_type
type_and_key type (some typestr) = let key = c_string typestr in some (attr_type strattrs key, key)
type_and_key type none =
    if type == attr_id
    then some (type, codes "id")
    else if type == attr_class
    then some (type, codes "class")
    else none

-- recallocarray, and the new attribute at the end.
unfoldable pub append_attr : Bytes → Bytes → Attrs → Sched → Added
append_attr key val a m =
    if granted m
    then (elim (hbuf_strndup val (rest m)) [
      | made v t ↦
          added (elim v [ some _ ↦ true | none ↦ false ])
            (record {
              array = some (
                  elim (a.array) [ none ↦ replicate (a.attrsz) unset | some l ↦ l ]
                  ++ record { key = some key; value = v } ∷ []);
              attrsz = a.attrsz + 1;
            })
            t
      | broken ↦ undefined
    ])
    else added false a (rest m)

-- The new value of a known attribute.
pub data Valued : Type 0 where
  valued : Bool → Option Buf → Sched → Valued
  broken_value : Valued

unfoldable pub replaced : Made → Valued
replaced (made (some v) t) = valued true (some v) t
replaced (made none t) = valued false none t
replaced broken = broken_value

unfoldable pub extended : Res (Unit {0}) → Valued
extended (ok _ t) = valued true (some (t.ob)) (t.sched)
extended (failed t) = valued false (some (t.ob)) (t.sched)
extended fault = broken_value

unfoldable pub new_value : ℕ → Option Buf → Bytes → Sched → Valued
unfolding replaced extended
new_value type none val m = replaced (hbuf_strndup val m)
new_value type (some b) val m =
    if type == attr_class
    then extended ((hbuf_put (codes " ") >> hbuf_put val) (record { ob = b; sched = m }))
    else replaced (hbuf_strndup val m)

unfoldable pub set_attr : ℕ → Bytes → Bytes → Attrs → Sched → Added
unfolding new_value
set_attr type key val a m = elim (a.array) [
  | none ↦ undefined
  | some l ↦ elim (get_elem? l type) [
    | none ↦ undefined
    | some old ↦ elim (new_value type (old.value) val m) [
      | valued r v t ↦
          added r (record a { array = some (set l type (record { key = some key; value = v })) }) t
      | broken_value ↦ undefined
    ]
  ]
]

unfoldable pub store_attr : ℕ → Bytes → Bytes → Attrs → Sched → Added
unfolding append_attr set_attr
store_attr type key val a m =
    if type == attr_custom then append_attr key val a m else set_attr type key val a m

-- The size is set in front of the test of calloc.
unfoldable pub init_attrs : ℕ → Bytes → Bytes → Attrs → Sched → Added
unfolding store_attr
init_attrs type key val a m =
    if a.attrsz == 0
    then (if granted m
        then store_attr type key val
            (record { array = some (replicate attr_custom unset); attrsz = attr_custom }) (rest m)
        else added false (record { array = none; attrsz = attr_custom }) (rest m))
    else store_attr type key val a m

-- The arguments are `type`, `typestr` and `val`.
unfoldable pub lowdown_attrs_add : ℕ → Option Bytes → Bytes → Attrs → Sched → Added
unfolding type_and_key init_attrs strip_quotes
lowdown_attrs_add type typestr val a m = elim (type_and_key type typestr) [
  | none ↦ undefined
  | some (t, key) ↦
      if granted m then init_attrs t key (strip_quotes val) a (rest m) else added false a (rest m)
]
