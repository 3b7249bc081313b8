-- ===== src/Library/Whole.antt =====
-- lowdown_buf of src/library/library.c behind the parser: the rewriter and the renderer together.
use lowdown.Prelude.{
  ℕ, ◌*◌, ◌^◌, ◌≤◌, ◌<◌, ◌≡◌, List, [], Option, none, some, Bytes, codes, length, All,
}
use lowdown.Tree.{Kind, Chng, Node, Nodes, node}
use lowdown.Smarty.Post.{Post}
use lowdown.Render.{ℤ, pos, Html}
use lowdown.Render.Scan.{IsWellFormed}
use lowdown.Render.Nodes.{IsDocument, nodes_cost}
use lowdown.Library.{Returned, returned}

-- The flags of the renderer.
abbrev pub flags_of : Option ℕ → ℕ
flags_of none = 0
flags_of (some oflags) = oflags

-- The root, with children that can be rendered within a bound.
Typeset : ℕ → ℕ → Nodes → Option Node → ℕ → Type 0
Typeset flags id ns o k =
    (now : Nodes) × (o ≡ some (node id Kind.root now))
    × IsDocument flags now
    × (nodes_cost now ≤ 120 * nodes_cost ns)

-- A success with well-formed HTML of at most `n` bytes.
abbrev pub GivesHtml : ℕ → Returned → Type 0
GivesHtml n r = (g : Bytes) × (r ≡ returned (some g)) × IsWellFormed g × (length g ≤ n)

module _ (sscanf : Bytes → Bytes → List ℕ) (strtonum : Bytes → ℤ → ℤ → Option ℤ) (chng : ℕ → Chng)
    (reads : (d : Bytes) → All (λ x. x < 2 ^ 32) (sscanf (codes "%ux%u") d)) where
  new_html : Option ℕ → Html
  new_html opts = record {
    headers_used = [];
    headers_offs = pos 0;
    flags = flags_of opts;
    foots = [];
    metaq = [];
  }
