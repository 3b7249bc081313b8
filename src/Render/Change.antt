-- ===== src/Render/Change.antt =====
-- The marks of a change around a node, of rndr of src/format/html/html.c.
use lowdown.Prelude.{Bool, true, false, not, ◌&&◌, List, [], ◌∷◌, codes, if◌then◌else◌}
use lowdown.Tree.{Kind, Chng}
use lowdown.Buffer.{M, done, hbuf_put}

unfoldable pub is_meta : Kind → Bool
is_meta (Kind.meta _) = true
is_meta _ = false

unfoldable pub is_doc_header : Kind → Bool
is_doc_header Kind.doc_header = true
is_doc_header _ = false

-- `n->parent != NULL && n->parent->type != LOWDOWN_DOC_HEADER`
unfoldable pub in_body : List Kind → Bool
unfolding is_doc_header
in_body [] = false
in_body (parent ∷ _) = not (is_doc_header parent)

unfoldable pub open_change : Chng → Kind → M (Unit {0})
unfolding is_meta
open_change Chng.none kind = done
open_change Chng.insert kind = if is_meta kind then done else hbuf_put (codes "<ins>")
open_change Chng.delete kind = if is_meta kind then done else hbuf_put (codes "<del>")

unfoldable pub close_change : Chng → Kind → List Kind → M (Unit {0})
unfolding is_meta in_body
close_change Chng.none kind above = done
close_change Chng.insert kind above =
    if not (is_meta kind) && in_body above then hbuf_put (codes "</ins>") else done
close_change Chng.delete kind above = if is_meta kind then done else hbuf_put (codes "</del>")

unfoldable pub is_delete : Chng → Bool
is_delete Chng.delete = true
is_delete _ = false
