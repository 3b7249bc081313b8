-- ===== src/Parse/Attrs/Block/Run.antt =====
-- lowdown_attrs_parse of src/parse/ext_attrs.c against its list of attributes.
use lowdown.Prelude.{ℕ, ◌+◌, ◌≤◌, ◌≡◌, true, false, [], ◌∷◌, Bytes, length}
use lowdown.Parse.Attrs.{Attrs, Added, added, undefined}
use lowdown.Parse.Attrs.Block.{Parsed, parsed, lost}

-- The outcome of the parser for the outcome of the calls: a position from `low` to `high` where all
-- have returned true, and 0 where one has failed.
unfoldable pub Returns : ℕ → ℕ → Added → Parsed → Type 0
Returns low high (added true a t) p = (r : ℕ) × (p ≡ parsed r a t) × (low ≤ r) × (r ≤ high)
Returns low high (added false a t) p = p ≡ parsed 0 a t
Returns low high undefined p = p ≡ lost

-- The highest position that is returned from `pos`: one behind the end of the text.
top : ℕ → Bytes → ℕ
top pos [] = pos
top pos (c ∷ cs) = pos + length (c ∷ cs) + 1
