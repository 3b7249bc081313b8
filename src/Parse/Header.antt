-- ===== src/Parse/Header.antt =====
-- The extended attributes of a header: parse_header_ext_attrs of src/parse/document.c.
pub mod Braces
pub mod Cut
use lowdown.Prelude.{
  ℕ, zero, suc, ◌+◌, ◌-◌, Bool, true, false, not, ◌&&◌, Option, none, some, Bytes, length, take,
  drop, get_or, last_or, is_nil, ◌==◌, if◌then◌else◌,
}
use lowdown.Tree.{Kind, Node, Nodes, node, nil, cons}
use lowdown.Buffer.{Sched}
use lowdown.Parse.Attrs.{Attrs}
use lowdown.Parse.Attrs.Block.{Parsed, parsed, lost, lowdown_attrs_parse}

-- The returned truth value, the children of the header, its attributes and the schedule.
pub data Headed : Type 0 where
  headed : Bool → Nodes → Attrs → Sched → Headed
  undefined : Headed

unfoldable pub last_node : Nodes → Option Node
last_node nil = none
last_node (cons n nil) = some n
last_node (cons n (cons k ns)) = last_node (cons k ns)

unfoldable pub map_last : (Node → Nodes) → Nodes → Nodes
map_last f nil = nil
map_last f (cons n nil) = f n
map_last f (cons n (cons k ns)) = cons n (map_last f (cons k ns))

-- The text of the last child, if it is a text that ends with a brace.
unfoldable pub braced_text : Option Node → Option Bytes
braced_text (some (node id (Kind.normal_text escaped d) children)) =
    if not (is_nil d) && last_or d 0 == b'}' then some d else none
braced_text _ = none

-- `for (i = b->size - 1; i > 0; i--)`
unfoldable pub open_brace : Bytes → ℕ → ℕ
open_brace d zero = 0
open_brace d (suc i) =
    let lower = open_brace d i in if get_or d (suc i) 0 == b'{' then suc i else lower

-- `while (b->size && b->data[b->size - 1] == ' ')`
unfoldable pub rtrim : Bytes → ℕ → ℕ
rtrim d zero = 0
rtrim d (suc n) = let lower = rtrim d n in if get_or d n 0 == b' ' then lower else suc n

-- The last child with what is left of its text, or no child where nothing is left.
unfoldable pub cut_text : Bytes → Node → Nodes
cut_text left (node id (Kind.normal_text escaped d) children) =
    if is_nil left then nil else cons (node id (Kind.normal_text escaped left) children) nil
cut_text left n = cons n nil

unfoldable pub after_attrs : Bytes → ℕ → Nodes → Parsed → Headed
unfolding map_last cut_text rtrim
after_attrs d i children (parsed zero a m) = headed false children a m
after_attrs d i children (parsed (suc r) a m) =
    headed true (map_last (cut_text (take (rtrim d i) d)) children) a m
after_attrs d i children lost = undefined

unfoldable pub with_brace : Bytes → ℕ → Nodes → Attrs → Sched → Headed
unfolding after_attrs
with_brace d i children a m =
    if get_or d i 0 == b'{'
    then after_attrs d i children
        (lowdown_attrs_parse (take (length d - i - 2) (drop (i + 1) d)) a m)
    else headed true children a m

unfoldable pub parse_header_ext_attrs : Nodes → Attrs → Sched → Headed
unfolding last_node braced_text with_brace open_brace
parse_header_ext_attrs children a m = elim (braced_text (last_node children)) [
  | none ↦ headed true children a m
  | some d ↦ with_brace d (open_brace d (length d - 1)) children a m
]
