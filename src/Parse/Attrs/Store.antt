-- ===== src/Parse/Attrs/Store.antt =====
-- How lowdown_attrs_add of src/parse/ext_attrs.c stores a value.
use mathlib.Core.List.{map-append}
use lowdown.Prelude.{
  ℕ, ◌+◌, ◌≤◌, ◌<◌, ◌≡◌, refl, sym, ap, ◌∙◌, true, false, List, [], ◌∷◌, ◌++◌, append-nil, map,
  Option, none, some, Bytes, codes, length, length-append, drop, get_elem?, set, ◌==◌, ==_iff,
  if◌then◌else◌, All-append, arith, inl, inr, Bool-cases,
}
use lowdown.Buffer.{Buf, Sched, Res, ok, failed, fault, ◌>>◌, granted, rest, hbuf_put, size_mod}
use lowdown.Buffer.Writes.{Appends, Writes->>, AllGranted-granted, AllGranted-rest}
use lowdown.Buffer.Put.{hbuf_put-Writes}
use lowdown.Buffer.Copy.{Made, made, broken, hbuf_strndup}
use lowdown.Buffer.Copy.Laws.{Holds, hbuf_strndup-Holds}
use lowdown.Parse.Attrs.{
  attr_class, attr_custom, Attr, added, undefined, Valued, valued, broken_value, new_value,
  replaced, extended, set_attr, append_attr, store_attr,
}
use lowdown.Parse.Attrs.Arrays.{
  length-set, get_elem?-set, drop-set, get_elem?-append, get_elem?-lt, drop-append_le,
}
use lowdown.Parse.Attrs.Wf.{
  text, slot, text_at, customs, Sound, WfArray, IsWf, entries, joined, Stores, RoomFor, Value, Left,
  Room, All-get, All-set,
}

replaced-Value :
    (type : ℕ) (old : Option Buf) (val : Bytes) (m : Sched) (r : Made)
    → joined type (text old) val ≡ val
    → Holds val m r
    → Value type old val m (replaced r)
unfolding replaced Value Sound
replaced-Value type old val m (made (some b) t) e (v, c, a) = (v, c ∙ sym e, a)
replaced-Value type old val m (made none t) e a = (tt, a)
replaced-Value type old val m broken e f = f

extended-Value :
    (type : ℕ) (b : Buf) (val : Bytes) (m : Sched) (r : Res (Unit {0}))
    → joined type (some (b.content)) val ≡ b.content ++ (codes " " ++ val)
    → Appends (record { ob = b; sched = m }) (codes " " ++ val) r
    → Value type (some b) val m (extended r)
unfolding extended Value Sound text
extended-Value type b val m (ok _ t) e (v, c, u, a) = (v, c ∙ sym e, a)
extended-Value type b val m (failed t) e (v, c, u, a) = (v, a)
extended-Value type b val m fault e f = f

new_value-Value :
    (type : ℕ) (old : Option Buf) (val : Bytes) (m : Sched)
    → Sound old
    → RoomFor val old
    → Value type old val m (new_value type old val m)
unfolding new_value Sound RoomFor joined text
new_value-Value type none val m s r =
    replaced-Value type none val m (hbuf_strndup val m) refl (hbuf_strndup-Holds val m r)
new_value-Value type (some b) val m s (r, n) = elim (Bool-cases (type == attr_class)) [
  | inl h ↦ rw h (
      extended-Value type b val m
        ((hbuf_put (codes " ") >> hbuf_put val) (record { ob = b; sched = m })) (rw h refl)
        (Writes->> (hbuf_put (codes " ")) (hbuf_put val) (codes " ") val
          (hbuf_put-Writes (codes " ")) (hbuf_put-Writes val) (record { ob = b; sched = m }) s
          (omega (arith, r))))
  | inr h ↦ rw h (
      replaced-Value type (some b) val m (hbuf_strndup val m) (rw h refl)
        (hbuf_strndup-Holds val m n))
]

set-Stores :
    (l : List Attr) (type : ℕ) (key val : Bytes) (old : Attr) (b : Buf)
    → type < attr_custom
    → type < length l
    → get_elem? l type ≡ some old
    → b.content ≡ joined type (text (old.value)) val
    → Stores type key val l (set l type (record { key = some key; value = some b }))
unfolding Stores text_at customs slot text
set-Stores l type key val old b lt ll e c =
    let v : Attr = record { key = some key; value = some b } in
    let known : (type == attr_custom) ≡ false = ground arith in
    (
      λ i h. ap slot (get_elem?-set l type i v ll) ∙ by_place i,
      ap (map (λ (a : Attr). (a.key, text (a.value)))) (drop-set l type attr_custom v lt)
          ∙ rw known (sym (append-nil (customs l))),
    )
  where
    by_place :
        (i : ℕ)
        → slot
            (if i == type then some (record { key = some key; value = some b }) else get_elem? l i)
          ≡ (if i == type then some (joined i (text_at i l) val) else text_at i l)
    by_place i = elim (Bool-cases (i == type)) [
      | inl h ↦ let same : i ≡ type = (==_iff i type).0 h in rw (h, same, e) (ap some c)
      | inr h ↦ rw h refl
    ]

set_attr-Left :
    (type : ℕ) (key val : Bytes) (l : List Attr) (n : ℕ) (m : Sched)
    → type < attr_custom
    → WfArray (some l) n
    → Room val l
    → Left type key val l n m (set_attr type key val (record { array = some l; attrsz = n }) m)
unfolding set_attr Left IsWf WfArray entries Value Sound Room
set_attr-Left type key val l n m lt (len, le, s) r = by_slot (get_elem? l type) refl
  where
    by_value :
        (old : Attr)
        → get_elem? l type ≡ some old
        → (x : Valued) → Value type (old.value) val m x
        → Left type key val l n m (elim x [
          | valued r v t ↦
              added r
                (record {
                  array = some (set l type (record { key = some key; value = v }));
                  attrsz = n;
                })
                t
          | broken_value ↦ undefined
        ])
    by_value old e (valued true (some b) t) (v, c, a) =
        let now : Attr = record { key = some key; value = some b } in
        (
          (length-set l type now ∙ len, le, All-set l type now s v),
          set-Stores l type key val old b lt (omega arith) e c,
          a,
        )
    by_value old e (valued true none t) f = absurd f
    by_value old e (valued false v t) (h, a) =
        let now : Attr = record { key = some key; value = v } in
        (a, inl (length-set l type now ∙ len, le, All-set l type now s h))
    by_value old e broken_value f = f

    by_slot :
        (o : Option Attr)
        → get_elem? l type ≡ o
        → Left type key val l n m (elim o [
          | none ↦ undefined
          | some old ↦ elim (new_value type (old.value) val m) [
            | valued r v t ↦
                added r
                  (record {
                    array = some (set l type (record { key = some key; value = v }));
                    attrsz = n;
                  })
                  t
            | broken_value ↦ undefined
          ]
        ])
    by_slot none e = let (old, f) = get_elem?-lt l type (omega arith) in absurd cc
    by_slot (some old) e =
        by_value old e (new_value type (old.value) val m)
          (new_value-Value type (old.value) val m (All-get l type old s e) (r type old e))

append-Stores :
    (l : List Attr) (key val : Bytes) (b : Buf)
    → attr_custom ≤ length l
    → b.content ≡ val
    → Stores attr_custom key val l (l ++ (record { key = some key; value = some b } ∷ []))
unfolding Stores text_at customs slot text
append-Stores l key val b le c =
    let now : List Attr = record { key = some key; value = some b } ∷ [] in
    (
      λ i h.
          let known : (i == attr_custom) ≡ false = ground arith in
          rw known (ap slot (get_elem?-append l now i (omega (arith, h, le)))),
      ap (map (λ (a : Attr). (a.key, text (a.value)))) (drop-append_le attr_custom l now le)
          ∙ map-append (λ (a : Attr). (a.key, text (a.value))) (drop attr_custom l) now
          ∙ ap (λ (x : Bytes). customs l ++ ((some key, some x) ∷ [])) c,
    )

append_attr-Left :
    (key val : Bytes) (l : List Attr) (n : ℕ) (m : Sched)
    → WfArray (some l) n
    → length val + 32 ≤ size_mod
    → Left attr_custom key val l n m (append_attr key val (record { array = some l; attrsz = n }) m)
unfolding append_attr Left IsWf WfArray entries Sound
append_attr-Left key val l n m (len, le, s) room = elim (Bool-cases (granted m)) [
  | inl h ↦ rw h (by_copy (hbuf_strndup val (rest m)) (hbuf_strndup-Holds val (rest m) room))
  | inr h ↦ rw h (λ a. cc (AllGranted-granted m a), inl (len, le, s))
]
  where
    longer :
        (v : Option Buf)
        → Sound v
        → WfArray (some (l ++ (record { key = some key; value = v } ∷ []))) (n + 1)
    longer v h = (
      length-append l (record { key = some key; value = v } ∷ []) ∙ omega (arith, len),
      omega (arith, le),
      All-append (λ a. Sound (a.value)) l (record { key = some key; value = v } ∷ []) s (h, tt),
    )

    by_copy :
        (x : Made)
        → Holds val (rest m) x
        → Left attr_custom key val l n m (elim x [
          | made v t ↦
              added
                (elim v [ some _ ↦ true | none ↦ false ])
                (record {
                  array = some (l ++ (record { key = some key; value = v } ∷ []));
                  attrsz = n + 1;
                })
                t
          | broken ↦ undefined
        ])
    by_copy (made (some b) t) (v, c, a) = (
      longer (some b) v,
      append-Stores l key val b (omega (arith, le, len)) c,
      λ g. a (AllGranted-rest m g),
    )
    by_copy (made none t) f = (λ g. f (AllGranted-rest m g), inl (longer none tt))
    by_copy broken f = f

pub store_attr-Left :
    (type : ℕ) (key val : Bytes) (l : List Attr) (n : ℕ) (m : Sched)
    → type ≤ attr_custom
    → WfArray (some l) n
    → Room val l
    → length val + 32 ≤ size_mod
    → Left type key val l n m (store_attr type key val (record { array = some l; attrsz = n }) m)
unfolding store_attr
store_attr-Left type key val l n m le w r room = elim (Bool-cases (type == attr_custom)) [
  | inl h ↦
      let same : type ≡ attr_custom = (==_iff type attr_custom).0 h in
      rw same (append_attr-Left key val l n m w room)
  | inr h ↦ rw h (set_attr-Left type key val l n m (ground arith) w r)
]
