-- ===== src/Ident/Extract.antt =====
-- What hbuf_extract_text of src/buffer.c gathers from a node.
use lowdown.Prelude.{[], ◌++◌, Bytes, if◌then◌else◌}
use lowdown.Tree.{Kind, Node, Nodes, node, nil, cons}
use lowdown.Buffer.{M, ◌>>◌, done}
use lowdown.Buffer.Writes.{Writes, Writes->>, Writes-done}
use lowdown.Buffer.Put.{hbuf_put-Writes}
use lowdown.Ident.{own_text, is_footnote, hbuf_extract_text, extract_children}

-- The texts of a subtree in the order of the document, footnotes left out.
unfoldable pub label : Kind → Bytes
label (Kind.normal_text _ text) = text
label (Kind.image _ _ _ alt _) = alt
label (Kind.link_auto link _) = link
label (Kind.codespan text) = text
label _ = []

unfoldable mutual
  unfolding label is_footnote

  pub text_of : Node → Bytes
  text_of (node id kind children) =
      let below = texts_of children in if is_footnote kind then [] else label kind ++ below

  pub texts_of : Nodes → Bytes
  texts_of nil = []
  texts_of (cons n ns) = text_of n ++ texts_of ns

own_text-Writes : (kind : Kind) → Writes (own_text kind) (label kind)
unfolding own_text label
own_text-Writes (Kind.normal_text _ text) = hbuf_put-Writes text
own_text-Writes (Kind.image _ _ _ alt _) = hbuf_put-Writes alt
own_text-Writes (Kind.link_auto link _) = hbuf_put-Writes link
own_text-Writes (Kind.codespan text) = hbuf_put-Writes text
own_text-Writes _ = Writes-done

node-Writes :
    (kind : Kind) (below : M (Unit {0})) (g : Bytes)
    → Writes below g
    → Writes
        (if is_footnote kind then done else (own_text kind >> below))
        (if is_footnote kind then [] else label kind ++ g)
unfolding is_footnote
node-Writes Kind.footnote below g w = Writes-done
node-Writes kind below g w = Writes->> (own_text kind) below (label kind) g (own_text-Writes kind) w

mutual
  unfolding hbuf_extract_text extract_children text_of texts_of

  pub hbuf_extract_text-Writes : (n : Node) → Writes (hbuf_extract_text n) (text_of n)
  hbuf_extract_text-Writes (node id kind children) =
      node-Writes kind (extract_children children) (texts_of children)
        (extract_children-Writes children)

  pub extract_children-Writes : (ns : Nodes) → Writes (extract_children ns) (texts_of ns)
  extract_children-Writes nil = Writes-done
  extract_children-Writes (cons n ns) =
      Writes->> (hbuf_extract_text n) (extract_children ns) (text_of n) (texts_of ns)
        (hbuf_extract_text-Writes n) (extract_children-Writes ns)
