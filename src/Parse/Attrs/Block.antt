-- ===== src/Parse/Attrs/Block.antt =====
-- lowdown_attrs_parse of src/parse/ext_attrs.c: a block of attributes, word by word.
pub mod Items
pub mod Run
use lowdown.Prelude.{
  ℕ, zero, suc, ◌+◌, ◌-◌, Bool, true, false, not, ◌&&◌, [], ◌∷◌, ◌++◌, Option, none, some, Bytes,
  length, take, drop, begins, ltb, ◌==◌, if◌then◌else◌,
}
use lowdown.Buffer.{Sched}
use lowdown.Parse.Attrs.{Attrs, Added, added, undefined, attr_id, attr_class, lowdown_attrs_add}

unfoldable pub skip_spaces : Bytes → Bytes
skip_spaces [] = []
skip_spaces (c ∷ cs) = let later = skip_spaces cs in if c == b' ' then later else c ∷ cs

unfoldable pub flip : Bool → ℕ → Bool
flip in_quot c = if c == b'"' then not in_quot else in_quot

-- The length of the word that begins the text.
unfoldable pub word_length : Bool → Bytes → ℕ
unfolding flip
word_length in_quot [] = 0
word_length in_quot (c ∷ cs) =
    let later = word_length (flip in_quot c) cs in
    if not (flip in_quot c) && c == b' ' then 0 else 1 + later

-- `if (... && !lowdown_attrs_add(...)) return 0;` and what follows it.
unfoldable pub and_then : Added → (Attrs → Sched → Added) → Added
and_then (added true a m) k = k a m
and_then (added false a m) k = added false a m
and_then undefined k = undefined

unfoldable pub add_hash : Bytes → Attrs → Sched → Added
add_hash word a m =
    if ltb 1 (length word) && begins (b'#' ∷ []) word
    then lowdown_attrs_add attr_id none (drop 1 word) a m
    else added true a m

unfoldable pub add_dot : Bytes → Attrs → Sched → Added
add_dot word a m =
    if ltb 1 (length word) && begins (b'.' ∷ []) word
    then lowdown_attrs_add attr_class none (drop 1 word) a m
    else added true a m

-- The loop over a word, with the part of it that is passed and the part that is left.
unfoldable pub add_equals : Bytes → Bytes → Attrs → Sched → Added
unfolding and_then
add_equals before [] a m = added true a m
add_equals before (c ∷ cs) a m =
    let later : Attrs → Sched → Added = λ b t. add_equals (before ++ c ∷ []) cs b t in
    if c == b'=' then and_then (lowdown_attrs_add 0 (some before) cs a m) later else later a m

unfoldable pub add_word : Bytes → Attrs → Sched → Added
unfolding add_hash add_dot add_equals
add_word word a m =
    and_then (add_hash word a m) (λ b t. and_then (add_dot word b t) (add_equals [] word))

-- The returned position, the attributes and the schedule.
pub data Parsed : Type 0 where
  parsed : ℕ → Attrs → Sched → Parsed
  lost : Parsed

unfoldable pub words_loop : ℕ → ℕ → Bytes → Attrs → Sched → Parsed
unfolding skip_spaces word_length add_word
words_loop zero word_b data' a m = lost
words_loop (suc fuel) word_b [] a m = parsed word_b a m
words_loop (suc fuel) word_b (c ∷ cs) a m =
    let d = skip_spaces (c ∷ cs) in
    let n = word_length false d in
    elim (add_word (take n d) a m) [
      | added true b t ↦
          words_loop fuel (word_b + (length (c ∷ cs) - length d) + n + 1) (drop (n + 1) d) b t
      | added false b t ↦ parsed 0 b t
      | undefined ↦ lost
    ]

unfoldable pub lowdown_attrs_parse : Bytes → Attrs → Sched → Parsed
unfolding words_loop
lowdown_attrs_parse data' a m = words_loop (length data' + 1) 0 data' a m
