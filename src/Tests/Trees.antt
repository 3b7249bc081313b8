-- ===== src/Tests/Trees.antt =====
-- Small trees: identifiers and smart typography.
use lowdown.Prelude.{◌≡◌, false, [], ◌∷◌, none, some, codes, arith}
use lowdown.Tree.{Kind, Node, Nodes, node, nil, cons}
use lowdown.Parse.Attrs.{Attrs}
use lowdown.Ident.{hbuf_id}
use lowdown.Ident.Extract.{texts_of, label}
use lowdown.Ident.Count.{Fresh}
use lowdown.Ident.Unique.{hbuf_id-Fresh}
use lowdown.Smarty.{smarty}
use lowdown.Smarty.Post.{Post}
use lowdown.Smarty.Pieces.{count}
use lowdown.Smarty.Expands.{text_bytes, Expands, Rootless}
use lowdown.Smarty.Whole.{Unique, smarty-Unique}
use lowdown.Tests.{holding}

-- A header that says `a "b"`.
abbrev words : Nodes
words = cons (node 2 (Kind.normal_text false (codes "a \"b\"")) nil) nil

abbrev no_attrs : Attrs
no_attrs = record { array = none; attrsz = 0 }

abbrev header : Nodes
header = cons (node 1 (Kind.header 1 no_attrs) words) nil

hbuf_id-Fresh_example :
    Fresh 33
      (holding (codes "a-b") ∷ [])
      []
      (hbuf_id none (node 1 (Kind.header 1 no_attrs) words) (holding (codes "a-b") ∷ []) [])
unfolding texts_of label
hbuf_id-Fresh_example =
    hbuf_id-Fresh none (node 1 (Kind.header 1 no_attrs) words) (holding (codes "a-b") ∷ []) []
      (omega arith)

header-Rootless : Rootless header
unfolding Rootless
header-Rootless = ((λ e. cc), ((λ e. cc), tt, tt), tt)

header-Unique : Unique 3 (cons (node 0 Kind.root header) nil)
unfolding Unique count
header-Unique = λ x. (ground arith, λ h. ground arith)

smarty-Unique_example :
    Post []
      (λ o k. (n : Node) × (o ≡ some n) × Unique k (cons n nil))
      (smarty (some (node 0 Kind.root header)) 3 [])
unfolding text_bytes
smarty-Unique_example = smarty-Unique 0 header 3 [] header-Rootless header-Unique (omega arith)
