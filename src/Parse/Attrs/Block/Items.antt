-- ===== src/Parse/Attrs/Block/Items.antt =====
-- The attributes of a block, in one pass over its bytes.
use lowdown.Prelude.{
  ℕ, suc, ◌+◌, ◌≤◌, ◌≡◌, refl, sym, ap, ◌∙◌, Bool, true, false, not, ◌&&◌, List, [], ◌∷◌, ◌++◌,
  append_assoc, append-nil, Option, none, some, Bytes, length, take, drop, begins, ltb, ◌==◌,
  if◌then◌else◌, arith, inl, inr, Bool-cases,
}
use lowdown.Buffer.{Sched}
use lowdown.Parse.Attrs.{Attrs, Added, added, undefined, attr_id, attr_class, lowdown_attrs_add}
use lowdown.Parse.Attrs.Block.{
  skip_spaces, flip, word_length, and_then, add_hash, add_dot, add_equals, add_word,
}

-- The type, the key and the value of one attribute.
abbrev pub Item : Type 0
Item = ℕ × Option Bytes × Bytes

-- Each equals sign of a word ends a key, which is the word before it, and begins a value, which is
-- the word behind it.
pub equals_items : Bytes → Bytes → List Item
equals_items before [] = []
equals_items before (c ∷ cs) =
    let later = equals_items (before ++ c ∷ []) cs in
    if c == b'=' then (0, some before, cs) ∷ later else later

pub mark_items : ℕ → ℕ → Bytes → List Item
mark_items mark type (c ∷ d ∷ cs) = if c == mark then (type, none, d ∷ cs) ∷ [] else []
mark_items mark type _ = []

pub word_items : Bytes → List Item
word_items word =
    mark_items b'#' attr_id word ++ (mark_items b'.' attr_class word ++ equals_items [] word)

-- A space outside quotes ends a word.
pub block_items : Bool → Bytes → Bytes → List Item
block_items in_quot word [] = word_items word
block_items in_quot word (c ∷ cs) =
    let next = block_items false [] cs in
    let more = block_items (flip in_quot c) (word ++ c ∷ []) cs in
    if not (flip in_quot c) && c == b' ' then word_items word ++ next else more

-- One call of lowdown_attrs_add after the other, until one fails.
unfoldable pub run_items : List Item → Attrs → Sched → Added
run_items [] a m = added true a m
run_items ((type, typestr, val) ∷ items) a m =
    and_then (lowdown_attrs_add type typestr val a m) (run_items items)

and_then_assoc :
    (x : Added) (f g : Attrs → Sched → Added)
    → and_then (and_then x f) g ≡ and_then x (λ a m. and_then (f a m) g)
unfolding and_then
and_then_assoc (added true a m) f g = refl
and_then_assoc (added false a m) f g = refl
and_then_assoc undefined f g = refl

pub run_items-append :
    (xs ys : List Item) (a : Attrs) (m : Sched)
    → run_items (xs ++ ys) a m ≡ and_then (run_items xs a m) (run_items ys)
unfolding run_items and_then
run_items-append [] ys a m = refl
run_items-append ((type, typestr, val) ∷ xs) ys a m =
    ap (and_then (lowdown_attrs_add type typestr val a m)) (λ i b t. run_items-append xs ys b t i)
    ∙ sym (and_then_assoc (lowdown_attrs_add type typestr val a m) (run_items xs) (run_items ys))

add_equals-run :
    (before word : Bytes) (a : Attrs) (m : Sched)
    → add_equals before word a m ≡ run_items (equals_items before word) a m
unfolding add_equals run_items equals_items
add_equals-run before [] a m = refl
add_equals-run before (c ∷ cs) a m = elim (Bool-cases (c == b'=')) [
  | inl h ↦ rw h (
      ap (and_then (lowdown_attrs_add 0 (some before) cs a m))
        (λ i b t. add_equals-run (before ++ c ∷ []) cs b t i))
  | inr h ↦ rw h (add_equals-run (before ++ c ∷ []) cs a m)
]

and_then-true : (x : Added) → and_then x (λ a m. added true a m) ≡ x
unfolding and_then
and_then-true (added true a m) = refl
and_then-true (added false a m) = refl
and_then-true undefined = refl

mark_items-hash :
    (word : Bytes) (a : Attrs) (m : Sched)
    → add_hash word a m ≡ run_items (mark_items b'#' attr_id word) a m
unfolding add_hash mark_items run_items
mark_items-hash [] a m = refl
mark_items-hash (c ∷ []) a m = refl
mark_items-hash (c ∷ d ∷ cs) a m =
    let test : (ltb 1 (length (c ∷ d ∷ cs)) && begins (b'#' ∷ []) (c ∷ d ∷ cs)) ≡ (c == b'#') =
      ground arith in
    elim (Bool-cases (c == b'#')) [
      | inl h ↦ rw (test, h) (sym (and_then-true (lowdown_attrs_add attr_id none (d ∷ cs) a m)))
      | inr h ↦ rw (test, h) refl
    ]

mark_items-dot :
    (word : Bytes) (a : Attrs) (m : Sched)
    → add_dot word a m ≡ run_items (mark_items b'.' attr_class word) a m
unfolding add_dot mark_items run_items
mark_items-dot [] a m = refl
mark_items-dot (c ∷ []) a m = refl
mark_items-dot (c ∷ d ∷ cs) a m =
    let test : (ltb 1 (length (c ∷ d ∷ cs)) && begins (b'.' ∷ []) (c ∷ d ∷ cs)) ≡ (c == b'.') =
      ground arith in
    elim (Bool-cases (c == b'.')) [
      | inl h ↦ rw (test, h) (sym (and_then-true (lowdown_attrs_add attr_class none (d ∷ cs) a m)))
      | inr h ↦ rw (test, h) refl
    ]

pub add_word-run :
    (word : Bytes) (a : Attrs) (m : Sched) → add_word word a m ≡ run_items (word_items word) a m
unfolding add_word word_items
add_word-run word a m =
    ap (λ x. and_then x (λ b t. and_then (add_dot word b t) (add_equals [] word)))
      (mark_items-hash word a m)
    ∙ ap (and_then (run_items (mark_items b'#' attr_id word) a m)) (λ i b t. marked b t i)
    ∙ sym (
        run_items-append (mark_items b'#' attr_id word)
          (mark_items b'.' attr_class word ++ equals_items [] word) a m)
  where
    marked :
        (b : Attrs) (t : Sched)
        → and_then (add_dot word b t) (add_equals [] word)
          ≡ run_items (mark_items b'.' attr_class word ++ equals_items [] word) b t
    marked b t =
        ap (λ x. and_then x (add_equals [] word)) (mark_items-dot word b t)
        ∙ ap (and_then (run_items (mark_items b'.' attr_class word) b t))
            (λ i c u. add_equals-run [] word c u i)
        ∙ sym (run_items-append (mark_items b'.' attr_class word) (equals_items [] word) b t)

skip_spaces-other : (c : ℕ) (cs : Bytes) → (c == b' ') ≡ false → skip_spaces (c ∷ cs) ≡ c ∷ cs
unfolding skip_spaces
skip_spaces-other c cs h = rw h refl

-- Spaces in front of a word end empty words only.
pub block_items-skip_spaces :
    (d : Bytes) → block_items false [] (skip_spaces d) ≡ block_items false [] d
unfolding block_items skip_spaces word_items mark_items equals_items flip
block_items-skip_spaces [] = refl
block_items-skip_spaces (c ∷ cs) = elim (Bool-cases (c == b' ')) [
  | inl h ↦
      let plain : (c == b'"') ≡ false = ground arith in rw (h, plain) (block_items-skip_spaces cs)
  | inr h ↦ ap (block_items false []) (skip_spaces-other c cs h)
]

pub block_items-nil : block_items false [] [] ≡ []
unfolding block_items word_items mark_items equals_items
block_items-nil = refl

-- The first word, and the block behind it.
pub block_items-word :
    (q : Bool) (word d : Bytes)
    → block_items q word d
      ≡ word_items (word ++ take (word_length q d) d)
        ++ block_items false [] (drop (suc (word_length q d)) d)
unfolding block_items word_length word_items mark_items equals_items
block_items-word q word [] = rw (append-nil word) (sym (append-nil (word_items word)))
block_items-word q word (c ∷ cs) = elim (Bool-cases (not (flip q c) && c == b' ')) [
  | inl h ↦ rw (h, append-nil word) refl
  | inr h ↦
      let n = word_length (flip q c) cs in
      let next : 1 + n ≡ suc n = omega arith in
      rw (h, next)
        (block_items-word (flip q c) (word ++ c ∷ []) cs
          ∙ rw (append_assoc word (c ∷ []) (take n cs)) refl)
]

pub word_length-le : (q : Bool) (d : Bytes) → word_length q d ≤ length d
unfolding word_length
word_length-le q [] = omega arith
word_length-le q (c ∷ cs) = elim (Bool-cases (not (flip q c) && c == b' ')) [
  | inl h ↦ rw h (omega arith)
  | inr h ↦ rw h (omega (arith, word_length-le (flip q c) cs))
]

pub length-skip_spaces : (d : Bytes) → length (skip_spaces d) ≤ length d
unfolding skip_spaces
length-skip_spaces [] = omega arith
length-skip_spaces (c ∷ cs) = elim (Bool-cases (c == b' ')) [
  | inl h ↦ rw h (omega (arith, length-skip_spaces cs))
  | inr h ↦ rw h (omega arith)
]
