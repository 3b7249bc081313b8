-- ===== src/Smarty.antt =====
-- Smart typography: src/library/smartypants.c.
--
-- A loop over the children of a node returns the children that it leaves. The state is the next
-- identifier (`maxn`) and the schedule of allocations. What a failed call leaves of the tree is not
-- modelled, and a failed assert, an abort() and a loop with no fuel are `undefined`.
pub mod Post
pub mod Scanned
pub mod Pieces
pub mod Expands
pub mod Whole
pub mod Right
use lowdown.Prelude.{
  ℕ, zero, suc, ◌+◌, ◌%◌, ◌^◌, Bool, true, false, ◌&&◌, ◌||◌, List, [], ◌∷◌, Option, none, some,
  Bytes, codes, length, take, drop, is_nil, begins, ◌==◌, if◌then◌else◌, isspace, ispunct,
}
use lowdown.Buffer.{Sched, granted, rest}
use lowdown.Tree.{Kind, Node, Nodes, node, nil, cons}

-- enum entity and the table ents.
pub data Entity : Type 0 where
  copy reg tmark smark ellip mdash ndash ldquo rdquo lsquo rsquo frac14 frac12 frac34 : Entity

unfoldable pub ents : Entity → Bytes
ents Entity.copy = codes "&copy;"
ents Entity.reg = codes "&reg;"
ents Entity.tmark = codes "&trade;"
ents Entity.smark = codes "&#8480;"
ents Entity.ellip = codes "&hellip;"
ents Entity.mdash = codes "&mdash;"
ents Entity.ndash = codes "&ndash;"
ents Entity.ldquo = codes "&ldquo;"
ents Entity.rdquo = codes "&rdquo;"
ents Entity.lsquo = codes "&lsquo;"
ents Entity.rsquo = codes "&rsquo;"
ents Entity.frac14 = codes "&frac14;"
ents Entity.frac12 = codes "&frac12;"
ents Entity.frac34 = codes "&frac34;"

abbrev pub syms : List (Bytes × Entity)
syms =
    (codes "(c)", Entity.copy)
    ∷ (codes "(C)", Entity.copy)
    ∷ (codes "(r)", Entity.reg)
    ∷ (codes "(R)", Entity.reg)
    ∷ (codes "(tm)", Entity.tmark)
    ∷ (codes "(TM)", Entity.tmark)
    ∷ (codes "(sm)", Entity.smark)
    ∷ (codes "(SM)", Entity.smark)
    ∷ (codes "...", Entity.ellip)
    ∷ (codes ". . .", Entity.ellip)
    ∷ (codes "---", Entity.mdash)
    ∷ (codes "--", Entity.ndash)
    ∷ []

abbrev pub syms2 : List (Bytes × Entity)
syms2 =
    (codes "1/4th", Entity.frac14)
    ∷ (codes "1/4", Entity.frac14)
    ∷ (codes "3/4ths", Entity.frac34)
    ∷ (codes "3/4th", Entity.frac34)
    ∷ (codes "3/4", Entity.frac34)
    ∷ (codes "1/2", Entity.frac12)
    ∷ []

-- enum type and the table types.
pub data Class : Type 0 where
  root block span opaque text : Class

pub types : Kind → Class
types Kind.root = Class.root
types (Kind.blockcode _ _) = Class.opaque
types (Kind.blockhtml _) = Class.opaque
types (Kind.link_auto _ _) = Class.opaque
types (Kind.codespan _) = Class.opaque
types (Kind.math_block _ _) = Class.opaque
types (Kind.raw_html _) = Class.opaque
types (Kind.entity _) = Class.opaque
types (Kind.meta _) = Class.opaque
types Kind.double_emphasis = Class.span
types Kind.emphasis = Class.span
types Kind.highlight = Class.span
types (Kind.image _ _ _ _ _) = Class.span
types (Kind.link _ _ _) = Class.span
types Kind.triple_emphasis = Class.span
types Kind.strikethrough = Class.span
types Kind.subscript = Class.span
types Kind.superscript = Class.span
types Kind.linebreak = Class.text
types (Kind.normal_text _ _) = Class.text
types _ = Class.block

-- The state and the outcome of a function.
pub data Outcome (A : Type 0) : Type 0 where
  done : A → ℕ → Sched → Outcome A
  failed : Outcome A
  undefined : Outcome A

abbrev pub S : Type 0 → Type 0
S A = ℕ → Sched → Outcome A

infixl 5 ◌>>=◌ ◌>>◌
abbrev pub ◌>>=◌ : {A B : Type 0} → S A → (A → S B) → S B
◌>>=◌ m f maxn s = elim (m maxn s) [
  | done a k t ↦ f a k t
  | failed ↦ failed
  | undefined ↦ undefined
]

abbrev pub ◌>>◌ : {B : Type 0} → S (Unit {0}) → S B → S B
m >> k = m >>= λ _. k

abbrev pub return : {A : Type 0} → A → S A
return a maxn s = done a maxn s

unfoldable pub alloc : S (Unit {0})
alloc maxn s = if granted s then done tt maxn (rest s) else failed

-- `(*maxn)++` on size_t.
unfoldable pub new_id : S ℕ
new_id maxn s = done maxn ((maxn + 1) % 2 ^ 64) s

-- The node of the text behind an entity, if there is any.
unfoldable pub remainder : Bytes → S (Option (ℕ × Bytes))
unfolding alloc new_id
remainder d =
    if is_nil d then return none else (do alloc; id ← new_id; alloc; return (some (id, d)))

-- The identifier of the new entity, and the identifier and the text of what follows it.
unfoldable pub smarty_entity : Bytes → ℕ → S (ℕ × Option (ℕ × Bytes))
unfolding alloc new_id remainder
smarty_entity d end = do alloc; nent ← new_id; alloc; nn ← remainder (drop end d); return (nent, nn)

pub smarty_is_wb_l : ℕ → Bool
smarty_is_wb_l c = isspace c || c == b'(' || c == b'['

smarty_is_wb_r : ℕ → Bool
smarty_is_wb_r c = isspace c || ispunct c

-- What a node says of a word that ends before it, if it says anything.
unfoldable pub own_wb : Class → Kind → Option Bool
unfolding smarty_is_wb_r
own_wb Class.block _ = some true
own_wb Class.opaque _ = some false
own_wb Class.text (Kind.normal_text _ (c ∷ cs)) = some (smarty_is_wb_r c)
own_wb Class.text Kind.linebreak = some true
own_wb _ _ = none

-- The walk goes down to the children first, and then to the siblings and back up: `up` is what the
-- nodes behind the parent say, and true behind the last one.
unfoldable mutual
  unfolding own_wb types

  pub smarty_right_wb_r : Node → Bool → Bool
  smarty_right_wb_r (node id kind children) up =
      let below = right_wb_nodes children up in
      elim (own_wb (types kind) kind) [ some b ↦ b | none ↦ below ]

  pub right_wb_nodes : Nodes → Bool → Bool
  right_wb_nodes nil up = up
  right_wb_nodes (cons n ns) up = smarty_right_wb_r n (right_wb_nodes ns up)

-- The character behind the word, or `next` at the end of the text.
pub smarty_right_wb : Bytes → Bool → Bool
unfolding smarty_is_wb_r
smarty_right_wb [] next = next
smarty_right_wb (c ∷ cs) next = smarty_is_wb_r c

-- The first symbol of a table that begins the text and passes a test of what follows it.
unfoldable pub find_sym : (Bytes → Bool) → List (Bytes × Entity) → Bytes → Option (Bytes × Entity)
find_sym test [] d = none
find_sym test ((key, ent) ∷ table) d =
    if begins key d && test (drop (length key) d) then some (key, ent) else find_sym test table d

unfoldable pub plain : Option (Bytes × Entity) → Option (Bytes × Entity × Bool)
plain none = none
plain (some (key, ent)) = some (key, ent, false)

-- The switch on one byte: the symbol that begins here, its entity, and whether it is a left quote.
unfoldable pub symbol : Bool → Bool → ℕ → Bytes → Option (Bytes × Entity × Bool)
unfolding smarty_right_wb find_sym plain
symbol left_wb next c cs =
    if c == b'.' || c == b'(' || c == b'-'
    then plain (find_sym (λ _. true) syms (c ∷ cs))
    else if c == b'"'
    then (if left_wb
        then some (c ∷ [], Entity.ldquo, true)
        else if smarty_right_wb cs next
        then some (c ∷ [], Entity.rdquo, false)
        else none)
    else if c == b'\''
    then (if left_wb then some (c ∷ [], Entity.lsquo, true) else some (c ∷ [], Entity.rsquo, false))
    else if c == b'1' || c == b'3'
    then (if left_wb then plain (find_sym (λ d. smarty_right_wb d next) syms2 (c ∷ cs)) else none)
    else none

-- What the scan of a text finds: the wordbreak on its left at the end; or a symbol, with its place,
-- its text, its entity, whether it is a left quote, and the wordbreak there.
pub data Scan : Type 0 where
  clean : Bool → Scan
  cut : ℕ → Bytes → Entity → Bool → Bool → Scan

unfoldable pub smarty_scan : Bool → Bool → ℕ → Bytes → Scan
unfolding symbol smarty_is_wb_l
smarty_scan left_wb next i [] = clean left_wb
smarty_scan left_wb next i (c ∷ cs) = elim (symbol left_wb next c cs) [
  | some (key, ent, skip) ↦ cut i key ent skip left_wb
  | none ↦ smarty_scan (smarty_is_wb_l c) next (i + 1) cs
]

-- A text that was escaped is passed over.
smarty_text : Bool → Bool → Bool → Bytes → Scan
unfolding smarty_scan
smarty_text escaped left_wb next d =
    let found = smarty_scan left_wb next 0 d in if escaped then clean left_wb else found

infixr 65 ◌+++◌
abbrev pub ◌+++◌ : Nodes → Nodes → Nodes
nil +++ q = q
cons n p +++ q = cons n (p +++ q)

-- The node of the text behind an entity takes the loop over the children further.
pub split_rest :
    (ℕ → Bool → Bytes → S (Nodes × Bool)) → Bool → Option (ℕ × Bytes) → S (Nodes × Bool)
split_rest further left_wb none = return (nil, left_wb)
split_rest further left_wb (some (id, d)) = further id left_wb d

-- A text node and the nodes that take its place, as the loop over the children goes on to them: the
-- text before the symbol, the entity, which the loop passes over after a left quote and otherwise
-- takes as opaque, and the text behind it.
pub split_text : ℕ → ℕ → Bool → Nodes → Bool → Bool → Bytes → S (Nodes × Bool)
unfolding smarty_text smarty_entity ents split_rest
split_text zero id escaped children next left_wb d = λ maxn s. undefined
split_text (suc fuel) id escaped children next left_wb d =
    elim (smarty_text escaped left_wb (right_wb_nodes children next) d) [
      | clean left ↦ return (cons (node id (Kind.normal_text escaped d) children) nil, left)
      | cut i key ent skip left ↦ (do
        (nent, nn) ← smarty_entity d (i + length key)
        (later, after) ←
            split_rest (λ id left d. split_text fuel id false nil next left d) (skip && left) nn
        return (
          cons (node id (Kind.normal_text escaped (take i d)) children)
              (cons (node nent (Kind.entity (ents ent)) nil) later),
          after,
        ))
    ]

text_node : ℕ → Kind → Nodes → Bool → Bool → S (Nodes × Bool)
unfolding split_text
text_node id (Kind.normal_text escaped d) children next left_wb =
    split_text (length d + 1) id escaped children next left_wb d
text_node id kind children next left_wb = return (cons (node id kind children) nil, true)

-- smarty_span for `in_span`, where the root aborts, and otherwise smarty_block, behind its first
-- assignment. `up` is what stands behind the parent.
pub smarty_nodes : Bool → Bool → Bool → Nodes → S (Nodes × Bool)
unfolding text_node types
smarty_nodes in_span up left_wb nil = return (nil, left_wb)
smarty_nodes in_span up left_wb (cons (node id kind children) ns) =
    let next = right_wb_nodes ns up in
    let as_block = (do
      (below, _) ← smarty_nodes false next true children
      (later, after) ← smarty_nodes in_span up left_wb ns
      return (cons (node id kind below) later, after)) in
    elim (types kind) [
      | Class.root ↦ if in_span then (λ maxn s. undefined) else as_block
      | Class.block ↦ as_block
      | Class.span ↦ (do
        (below, left) ← smarty_nodes true next left_wb children
        (later, after) ← smarty_nodes in_span up left ns
        return (cons (node id kind below) later, after))
      | Class.opaque ↦ (do
        (later, after) ← smarty_nodes in_span up false ns
        return (cons (node id kind children) later, after))
      | Class.text ↦ (do
        (pieces, left) ← text_node id kind children next left_wb
        (later, after) ← smarty_nodes in_span up left ns
        return (pieces +++ later, after))
    ]

-- The tree that has no node is left alone.
unfoldable pub smarty : Option Node → S (Option Node)
unfolding smarty_nodes types
smarty none = return none
smarty (some (node id kind children)) = elim (types kind) [
  | Class.root ↦ (do
    (below, _) ← smarty_nodes false true true children
    return (some (node id kind below)))
  | _ ↦ λ maxn s. undefined
]
