-- ===== src/Render/Walk.antt =====
-- The walk over the tree: rndr_meta, rndr and lowdown_html_rndr of src/format/html/html.c, and
-- lowdown_get_meta of src/format/util.c.
--
-- The type of the change of a node is a function of its identifier. The kinds of the nodes above are
-- passed on, nearest first. Two functions of the C library are parameters: what sscanf() stores of a
-- text by a format, and the number that strtonum() reads within two bounds.
use lowdown.Prelude.{
  ℕ, zero, suc, true, false, not, List, [], ◌∷◌, ◌++◌, Option, none, some, Bytes, codes, bytes_eq,
  c_string, ltb, if◌then◌else◌,
}
use lowdown.Tree.{Kind, Chng, Node, Nodes, node, nil, cons}
use lowdown.Buffer.{
  Buf, Sched, Out, Res, ok, failed, fault, M, ◌>>◌, done, granted, rest, hbuf_init, hbuf_put,
  hbuf_printf,
}
use lowdown.Buffer.Copy.{Made, made, broken, hbuf_new, run_new}
use lowdown.Ident.{decimal}
use lowdown.Format.Entity.{entity_find_iso}
use lowdown.Render.{
  ℤ, pos, negsuc, Html, flag, html_num_ent, rndr_autolink, rndr_codespan, rndr_strikethrough,
  rndr_double_emphasis, rndr_emphasis, rndr_highlight, rndr_linebreak, rndr_triple_emphasis,
  rndr_raw_html, rndr_superscript, rndr_normal_text, rndr_math,
}
use lowdown.Render.Block.{
  rndr_blockcode, rndr_definition_data, rndr_definition_title, rndr_definition, rndr_blockquote,
  rndr_list, rndr_listitem, rndr_paragraph, rndr_raw_block, rndr_hrule,
}
use lowdown.Render.Table.{
  rndr_table, rndr_table_header, rndr_table_body, rndr_table_row, rndr_tablecell,
}
use lowdown.Render.Link.{rndr_link, rndr_image}
use lowdown.Render.Meta.{rndr_root, rndr_doc_header}
use lowdown.Render.State.{Rendered, rendered, lost, lift, on_success, rndr_header}
use lowdown.Render.Foot.{rndr_footnote_ref, rndr_doc_footer}
use lowdown.Render.Change.{open_change, close_change, is_delete}

-- The texts of the children; one that is no text fails an assert.
unfoldable pub meta_text : Nodes → M (Unit {0})
meta_text nil = done
meta_text (cons (node _ (Kind.normal_text _ text) _) ns) = hbuf_put text >> meta_text ns
meta_text (cons _ ns) = λ s. fault

-- The copy of the value, and the entry with its key and value.
unfoldable pub meta_copy : Bytes → Html → Out → Made → Rendered
meta_copy key st s (made (some b) m) =
    let entry = λ (v : Option Bytes). record st { metaq = st.metaq ++ ((some key, v) ∷ []) } in
    rendered (granted m) (entry (if granted m then some (c_string b.content) else none))
      (record s { sched = rest m })
meta_copy key st s (made none m) =
    rendered false (record st { metaq = st.metaq ++ ((some key, none) ∷ []) })
      (record s { sched = m })
meta_copy key st s broken = lost

-- calloc, strndup of the key, and a buffer for the value.
unfoldable pub lowdown_get_meta : Bytes → Nodes → Html → Out → Rendered
unfolding meta_text meta_copy hbuf_new run_new
lowdown_get_meta key children st s =
    if not (granted s.sched)
    then rendered false st (record s { sched = rest s.sched })
    else if not (granted (rest s.sched))
    then rendered false (record st { metaq = st.metaq ++ ((none, none) ∷ []) })
        (record s { sched = rest (rest s.sched) })
    else meta_copy (c_string key) st s
        (run_new (meta_text children) (hbuf_new 32 (rest (rest s.sched))))

unfoldable pub suc_ℤ : ℤ → ℤ
suc_ℤ (pos n) = pos (suc n)
suc_ℤ (negsuc zero) = pos 0
suc_ℤ (negsuc (suc n)) = negsuc n

unfoldable pub numeric_entity : Option ℕ → Bytes → M (Unit {0})
numeric_entity none text = hbuf_put text
numeric_entity (some ent) text =
    if ltb 0 ent
    then hbuf_printf (some (codes "&#" ++ (decimal ent ++ codes ";")))
    else hbuf_put text

unfoldable pub rndr_entity : Bytes → Html → M (Unit {0})
unfolding numeric_entity
rndr_entity text st =
    if not (flag st.flags html_num_ent)
    then hbuf_put text
    else numeric_entity (entity_find_iso text) text

-- `ret` is set to 1 before the first step, so that a step that fails returns 1, too.
unfoldable pub return_one : Rendered → Rendered
return_one (rendered _ st t) = rendered true st t
return_one lost = lost

-- The buffer for the children.
unfoldable pub child_out : Sched → Out
child_out m = record { ob = hbuf_init 64 true; sched = m }

module _ (sscanf : Bytes → Bytes → List ℕ) (strtonum : Bytes → ℤ → ℤ → Option ℤ)
    (chng : ℕ → Chng) where
  -- The offset that the last entry of the queue sets.
  unfoldable pub set_offset : Option (Option Bytes × Option Bytes) → Html → Html
  unfolding suc_ℤ
  set_offset (some (some key, some value)) st =
      if bytes_eq key (codes "shiftheadinglevelby")
      then (elim (strtonum value (negsuc 99) (pos 100)) [
        | none ↦ st
        | some val ↦ record st { headers_offs = suc_ℤ val }
      ])
      else if bytes_eq key (codes "baseheaderlevel")
      then (elim (strtonum value (pos 1) (pos 100)) [
        | none ↦ st
        | some val ↦ record st { headers_offs = val }
      ])
      else st
  set_offset _ st = st

  unfoldable pub last_entry :
      List (Option Bytes × Option Bytes) → Option (Option Bytes × Option Bytes)
  last_entry [] = none
  last_entry (e ∷ []) = some e
  last_entry (e ∷ (f ∷ mq)) = last_entry (f ∷ mq)

  unfoldable pub rndr_meta : Bytes → Nodes → Html → Out → Rendered
  unfolding lowdown_get_meta on_success set_offset last_entry
  rndr_meta key children st s =
      on_success (lowdown_get_meta key children st s)
        (λ st t. rendered true (set_offset (last_entry st.metaq) st) t)

  -- The footer is written behind the content.
  unfoldable pub root_after : Html → Out → Res (Unit {0}) → Rendered
  unfolding lift
  root_after st s (ok _ t) = lift (rndr_root sscanf t.ob st) st (record s { sched = t.sched })
  root_after st s (failed t) = rendered false st (record s { sched = t.sched })
  root_after st s fault = lost

  unfoldable pub rndr_root_node : Buf → Html → Out → Rendered
  unfolding root_after
  rndr_root_node content st s =
      root_after st s (rndr_doc_footer st (record { ob = content; sched = s.sched }))

  -- `switch (n->type)`
  unfoldable pub rndr_kind : Kind → Node → List Kind → Nodes → Buf → Html → Out → Rendered
  unfolding lift rndr_meta rndr_root_node rndr_entity is_delete
  rndr_kind Kind.root n above children tmp st = rndr_root_node tmp st
  rndr_kind (Kind.blockcode text lang) n above children tmp st =
      lift (rndr_blockcode text lang st) st
  rndr_kind (Kind.blockquote type admonition) n above children tmp st =
      lift (rndr_blockquote st type admonition tmp) st
  rndr_kind (Kind.definition _) n above children tmp st = lift (rndr_definition tmp) st
  rndr_kind Kind.definition_title n above children tmp st = lift (rndr_definition_title tmp) st
  rndr_kind Kind.definition_data n above children tmp st = lift (rndr_definition_data tmp) st
  rndr_kind Kind.doc_header n above children tmp st = lift (rndr_doc_header sscanf st) st
  rndr_kind (Kind.meta key) (node id kind below) above children tmp st =
      if is_delete (chng id) then lift done st else rndr_meta key children st
  rndr_kind (Kind.header level a) n above children tmp st = rndr_header tmp n level a st
  rndr_kind Kind.hrule n above children tmp st = lift rndr_hrule st
  rndr_kind (Kind.list flags start) n above children tmp st = lift (rndr_list tmp flags start) st
  rndr_kind (Kind.listitem flags) n above children tmp st = lift (rndr_listitem tmp flags above) st
  rndr_kind Kind.paragraph n above children tmp st = lift (rndr_paragraph tmp st) st
  rndr_kind Kind.table_block n above children tmp st = lift (rndr_table tmp) st
  rndr_kind Kind.table_header n above children tmp st = lift (rndr_table_header tmp) st
  rndr_kind Kind.table_body n above children tmp st = lift (rndr_table_body tmp) st
  rndr_kind Kind.table_row n above children tmp st = lift (rndr_table_row tmp) st
  rndr_kind (Kind.table_cell flags) n above children tmp st = lift (rndr_tablecell tmp flags) st
  rndr_kind (Kind.blockhtml text) n above children tmp st = lift (rndr_raw_block text st) st
  rndr_kind (Kind.link_auto link type) n above children tmp st =
      lift (rndr_autolink link type st) st
  rndr_kind (Kind.codespan text) n above children tmp st = lift (rndr_codespan text st) st
  rndr_kind Kind.double_emphasis n above children tmp st = lift (rndr_double_emphasis tmp) st
  rndr_kind Kind.emphasis n above children tmp st = lift (rndr_emphasis tmp) st
  rndr_kind Kind.highlight n above children tmp st = lift (rndr_highlight tmp) st
  rndr_kind (Kind.image link title dims alt a) n above children tmp st =
      lift (rndr_image (sscanf (codes "%ux%u")) link title dims alt a st) st
  rndr_kind Kind.linebreak n above children tmp st = lift rndr_linebreak st
  rndr_kind (Kind.link link title a) n above children tmp st =
      lift (rndr_link tmp link title a st) st
  rndr_kind Kind.triple_emphasis n above children tmp st = lift (rndr_triple_emphasis tmp) st
  rndr_kind Kind.strikethrough n above children tmp st = lift (rndr_strikethrough tmp) st
  rndr_kind Kind.superscript n above children tmp st = lift (rndr_superscript tmp true) st
  rndr_kind Kind.subscript n above children tmp st = lift (rndr_superscript tmp false) st
  rndr_kind Kind.footnote n above children tmp st = rndr_footnote_ref tmp st
  rndr_kind (Kind.math_block text blockmode) n above children tmp st =
      lift (rndr_math text blockmode st) st
  rndr_kind (Kind.raw_html text) n above children tmp st = lift (rndr_raw_html text st) st
  rndr_kind (Kind.normal_text _ text) n above children tmp st = lift (rndr_normal_text text st) st
  rndr_kind (Kind.entity text) n above children tmp st = lift (rndr_entity text st) st

  -- What follows the children: the marks of a change around the node.
  unfoldable pub rndr_marked : Node → List Kind → Html → Out → Out → Rendered
  unfolding lift on_success open_change close_change rndr_kind
  rndr_marked (node id kind children) above st t s =
      on_success (lift (open_change (chng id) kind) st s) (λ st s.
        on_success (rndr_kind kind (node id kind children) above children t.ob st s)
          (λ st s. lift (close_change (chng id) kind above) st s))

  -- What has been written to the buffer for the children, with the output as it was.
  unfoldable pub with_children : Node → List Kind → Buf → Rendered → Rendered
  unfolding rndr_marked return_one
  with_children n above ob (rendered true st t) =
      return_one (rndr_marked n above st t (record { ob = ob; sched = t.sched }))
  with_children n above ob (rendered false st t) =
      rendered true st (record { ob = ob; sched = t.sched })
  with_children n above ob lost = lost

  unfoldable mutual
    unfolding with_children on_success child_out

    pub rndr : List Kind → Node → Html → Out → Rendered
    rndr above (node id kind children) st s =
        let below = rndr_children (kind ∷ above) children st (child_out (rest s.sched)) in
        if granted s.sched
        then with_children (node id kind children) above s.ob below
        else rendered false st (record s { sched = rest s.sched })

    -- `TAILQ_FOREACH(child, &n->children, entries)`
    pub rndr_children : List Kind → Nodes → Html → Out → Rendered
    rndr_children above nil st s = rendered true st s
    rndr_children above (cons n ns) st s =
        on_success (rndr above n st s) (λ st t. rndr_children above ns st t)

  -- The state as it is afterwards; the queue of metadata is freed with it.
  unfoldable pub cleared : Rendered → Rendered
  cleared (rendered rc st t) =
      rendered rc (record st { headers_used = []; foots = []; metaq = [] }) t
  cleared lost = lost

  unfoldable pub lowdown_html_rndr : Node → Html → Out → Rendered
  unfolding rndr cleared
  lowdown_html_rndr n st s =
      cleared (rndr [] n (record st { headers_used = []; headers_offs = pos 1; metaq = [] }) s)

-- calloc, and the flags of the options.
unfoldable pub lowdown_html_new : Option ℕ → Sched → Option Html
lowdown_html_new opts m =
    if granted m
    then some (record {
      headers_used = [];
      headers_offs = pos 0;
      flags = elim opts [ none ↦ 0 | some oflags ↦ oflags ];
      foots = [];
      metaq = [];
    })
    else none
