-- ===== src/Tests/Attributes.antt =====
-- Extended attributes on a first class and a second one.
use lowdown.Prelude.{◌≡◌, refl, true, false, [], ◌∷◌, none, some, codes, arith, c_string, inl}
use lowdown.Parse.Attrs.{Attrs, added, lowdown_attrs_add, lowdown_attrs_free}
use lowdown.Parse.Attrs.Keys.{KeyOf, Names, Unquoted}
use lowdown.Parse.Attrs.Wf.{IsWf, WfArray, Room, Left, entries}
use lowdown.Parse.Attrs.Add.{lowdown_attrs_add-Left, lowdown_attrs_add-free}

-- No attributes.
abbrev bare : Attrs
bare = record { array = none; attrsz = 0 }

bare-IsWf : IsWf bare
unfolding IsWf WfArray
bare-IsWf = refl

bare-Room : Room (codes "b") (entries bare)
unfolding Room entries
bare-Room = λ i a e. cc

class_KeyOf : KeyOf 0 (some (codes "class")) 1 (codes "class")
unfolding KeyOf Names c_string
class_KeyOf = (refl, inl (1, refl))

b_Unquoted : Unquoted (codes "\"b\"") (codes "b")
unfolding Unquoted
b_Unquoted = inl ((λ e. cc), refl)

lowdown_attrs_add-Left_example :
    Left 1
      (codes "class")
      (codes "b")
      (entries bare)
      0
      []
      (lowdown_attrs_add 0 (some (codes "class")) (codes "\"b\"") bare [])
lowdown_attrs_add-Left_example =
    lowdown_attrs_add-Left 0 (some (codes "class")) (codes "\"b\"") bare [] 1 (codes "class")
      (codes "b") class_KeyOf b_Unquoted bare-IsWf bare-Room (omega arith)

lowdown_attrs_add-free_example :
    (b : Attrs) × (lowdown_attrs_add 0 (some (codes "id")) (codes "x") bare (true ∷ false ∷ [])
      ≡ added false b [])
    × (lowdown_attrs_free b ≡ false)
lowdown_attrs_add-free_example = lowdown_attrs_add-free (codes "id") (codes "x") bare [] refl
