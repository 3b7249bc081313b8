-- ===== src/Tests/Library.antt =====
-- A small document through lowdown_buf, with smart typography.
use lowdown.Prelude.{ℕ, ◌==◌, if◌then◌else◌, false, List, [], Option, none, Bytes, codes}
use lowdown.Tree.{Kind, Chng, Nodes, node, nil, cons}
use lowdown.Render.{ℤ}

abbrev no_scan : Bytes → Bytes → List ℕ
no_scan format d = []

abbrev no_number : Bytes → ℤ → ℤ → Option ℤ
no_number d low high = none

-- The node 2 has been inserted.
abbrev second_inserted : ℕ → Chng
second_inserted id = if id == 2 then Chng.insert else Chng.none

-- The header of the document, and a paragraph with a text that has symbols.
abbrev symbols : Nodes
symbols = cons (node 1 Kind.doc_header nil) (
    cons
      (node 3 Kind.paragraph (cons (node 2 (Kind.normal_text false (codes "a--b (c) <")) nil) nil))
      nil)
