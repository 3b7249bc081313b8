-- ===== src/Render/Nodes.antt =====
-- The trees that the renderer of src/format/html/html.c is proved to write as well-formed HTML, and
-- how much it writes for them.
use lowdown.Prelude.{ℕ, ◌+◌, ◌*◌, ◌≤◌, arith}
use lowdown.Tree.{Kind, Node, Nodes, node, nil, cons}
use lowdown.Render.Kinds.{IsPlain, own_cost}

-- Every node is one that may be there, in the body of a document.
unfoldable mutual
  unfolding IsPlain

  pub PlainNode : ℕ → Node → Type 0
  PlainNode flags (node id kind children) = IsPlain flags kind × PlainNodes flags children

  pub PlainNodes : ℕ → Nodes → Type 0
  PlainNodes flags nil = Unit
  PlainNodes flags (cons n ns) = PlainNode flags n × PlainNodes flags ns

-- The children of a root as the parser leaves them where there are no metadata: the header of the
-- document, which is empty, and the body.
unfoldable pub IsDocument : ℕ → Nodes → Type 0
unfolding PlainNodes
IsDocument flags (cons (node id Kind.doc_header nil) ns) = PlainNodes flags ns
IsDocument flags _ = ⊥

-- How much is written of a node, and of its later siblings.
unfoldable mutual
  unfolding own_cost

  pub node_cost : Node → ℕ
  node_cost (node id kind children) = nodes_cost children + own_cost kind children + 320

  pub nodes_cost : Nodes → ℕ
  nodes_cost nil = 0
  nodes_cost (cons n ns) = node_cost n + nodes_cost ns

-- How many nodes there are: no more identifiers are made.
unfoldable mutual
  pub node_ids : Node → ℕ
  node_ids (node id kind children) = nodes_ids children + 1

  pub nodes_ids : Nodes → ℕ
  nodes_ids nil = 0
  nodes_ids (cons n ns) = node_ids n + nodes_ids ns

mutual
  unfolding node_ids node_cost

  node_ids-le : (n : Node) → 320 * node_ids n ≤ node_cost n
  node_ids-le (node id kind children) = omega (arith, nodes_ids-le children)

  nodes_ids-le : (ns : Nodes) → 320 * nodes_ids ns ≤ nodes_cost ns
  nodes_ids-le nil = omega arith
  nodes_ids-le (cons n ns) = omega (arith, node_ids-le n, nodes_ids-le ns)

pub nodes_ids-le-cost : (ns : Nodes) → 320 * nodes_ids ns ≤ nodes_cost ns
nodes_ids-le-cost ns = nodes_ids-le ns

pub node_ids-le-cost : (n : Node) → 320 * node_ids n ≤ node_cost n
node_ids-le-cost n = node_ids-le n
