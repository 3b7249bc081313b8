-- ===== src/Smarty/Right.antt =====
-- smarty_right_wb_r of src/library/smartypants.c: which node ends the word.
use lowdown.Prelude.{◌≡◌, refl, sym, ap, ◌∙◌, Bool, List, [], ◌∷◌, ◌++◌, none, some}
use lowdown.Tree.{Kind, Node, Nodes, node, nil, cons}
use lowdown.Smarty.{own_wb, types, smarty_right_wb_r, right_wb_nodes}

-- The kinds of a tree in the order of the document, a parent before its children.
mutual
  pub node_kinds : Node → List Kind
  node_kinds (node id kind children) = kind ∷ kinds children

  pub kinds : Nodes → List Kind
  kinds nil = []
  kinds (cons n ns) = node_kinds n ++ kinds ns

-- What the first kind that decides says, or `end` if none does.
pub decide : List Kind → Bool → Bool
decide [] end = end
decide (kind ∷ ks) end =
    let later = decide ks end in elim (own_wb (types kind) kind) [ some b ↦ b | none ↦ later ]

decide-append : (xs ys : List Kind) (end : Bool) → decide (xs ++ ys) end ≡ decide xs (decide ys end)
unfolding decide
decide-append [] ys end = refl
decide-append (kind ∷ xs) ys end =
    ap (λ z. elim (own_wb (types kind) kind) [ some b ↦ b | none ↦ z ]) (decide-append xs ys end)

mutual
  unfolding smarty_right_wb_r right_wb_nodes decide kinds node_kinds

  node-decide : (n : Node) (up : Bool) → smarty_right_wb_r n up ≡ decide (node_kinds n) up
  node-decide (node id kind children) up =
      ap (λ z. elim (own_wb (types kind) kind) [ some b ↦ b | none ↦ z ]) (nodes-decide children up)

  nodes-decide : (ns : Nodes) (up : Bool) → right_wb_nodes ns up ≡ decide (kinds ns) up
  nodes-decide nil up = refl
  nodes-decide (cons n ns) up =
      ap (smarty_right_wb_r n) (nodes-decide ns up)
      ∙ node-decide n (decide (kinds ns) up)
      ∙ sym (decide-append (node_kinds n) (kinds ns) up)

-- The walk from a node down, along its siblings and back up answers as the first node in the order
-- of the document that decides: a block and a line break end the word, an opaque node does not, and
-- a text that is not empty does or does not by its first character.
pub right_wb_nodes-decide : (ns : Nodes) (up : Bool) → right_wb_nodes ns up ≡ decide (kinds ns) up
right_wb_nodes-decide ns up = nodes-decide ns up
