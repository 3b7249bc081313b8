-- ===== src/Render/Document.antt =====
-- What lowdown_html_rndr of src/format/html/html.c writes for a document, and what it returns.
use lowdown.Prelude.{
  ℕ, ◌+◌, ◌^◌, ◌≤◌, ◌<◌, ◌≡◌, refl, sym, ap, subst, ◌∙◌, true, false, List, [], ◌∷◌, ◌++◌, Bytes,
  codes, length, ◌==◌, Option, drop, drop-append, All, arith, Bool-cases, inl, inr,
}
use lowdown.Tree.{Kind, Chng, Node, Nodes, node, nil, cons}
use lowdown.Buffer.{Buf, Out, hbuf_putb, size, done}
use lowdown.Render.{ℤ, pos, Html, flag, standalone, html_titleblock}
use lowdown.Render.Meta.{
  rndr_root, rndr_doc_header, all_keys, author_text, date_of, meta_value, or_else, rcsdate2str,
}
use lowdown.Format.Author.{rcsauthor2str}
use lowdown.Render.State.{Rendered, rendered, lost, lift}
use lowdown.Render.Foot.{rndr_doc_footer}
use lowdown.Render.Walk.{
  rndr_kind, rndr_root_node, root_after, child_out, rndr, cleared, rndr_children, lowdown_html_rndr,
}
use lowdown.Render.Change.{in_body, is_meta, is_doc_header, close_change}
use lowdown.Render.Scan.{Scan, scan, IsWellFormed}
use lowdown.Render.Emits.{IsReady, IsReady-le, Emits, Emits-done, Emits-putb}
use lowdown.Render.Moves.{
  Moves, Moves-le, Grown, with_ids, lift-Moves, marked, child_out-IsReady, HasRoom,
  on_success-Moves, close_change-Emits,
}
use lowdown.Render.Kinds.{own_cost}
use lowdown.Render.Levels.{IsNear}
use lowdown.Render.Whole.{rndr-Moves, node-Moves, children-Moves}
use lowdown.Render.Nodes.{
  PlainNode, IsDocument, node_cost, nodes_cost, node_ids, nodes_ids, nodes_ids-le-cost,
  node_ids-le-cost,
}

-- A success with the state as it was but for at most `m` identifiers, and a well-formed text of at
-- most `n` bytes behind what the buffer held.
abbrev pub WritesHtml : ℕ → ℕ → Html → Out → Rendered → Type 0
WritesHtml n m st s r =
    (t : Out) × (g : Bytes) × (ids : List Buf) × (r ≡ rendered true (with_ids st ids) t)
    × (t.ob.content ≡ s.ob.content ++ g)
    × IsWellFormed g
    × (length g ≤ n)
    × Grown m st ids

Moves-WritesHtml :
    (n m : ℕ) (st : Html) (s : Out) (r : Rendered)
    → ((k : List Bytes) → Moves n m (Scan.text k) (Scan.text k) st s r)
    → WritesHtml n m st s r
unfolding Moves IsWellFormed
Moves-WritesHtml n m st s (rendered rc st' t) h =
    let (e, (ids, f, grown), w) = h [] in
    let same : (k : List Bytes) → (h k).2.bytes ≡ w.bytes = λ k.
      sym (drop-append s.ob.content _)
      ∙ ap (drop (length s.ob.content)) (sym ((h k).2.content) ∙ w.content)
      ∙ drop-append s.ob.content w.bytes in
    (
      t,
      w.bytes,
      ids,
      subst (λ x. rendered rc st' t ≡ rendered x (with_ids st ids) t) e
          (ap (λ x. rendered rc x t) f),
      w.content,
      (λ k. subst (λ (d : Bytes). scan (Scan.text k) d ≡ Scan.text k) (same k) ((h k).2.scanned)),
      w.short,
      grown,
    )
Moves-WritesHtml n m st s lost h = absurd (h [])

no_footer : (st : Html) → st.foots ≡ [] → rndr_doc_footer st ≡ done
unfolding rndr_doc_footer
no_footer st e = let z : (length st.foots == 0) ≡ true = ground (arith, ap length e) in rw z refl

module _ (sscanf : Bytes → Bytes → List ℕ) (strtonum : Bytes → ℤ → ℤ → Option ℤ) (chng : ℕ → Chng)
    (reads : (d : Bytes) → All (λ x. x < 2 ^ 32) (sscanf (codes "%ux%u") d)) where
  -- Where no allocation is refused and there is room, rndr returns one and appends well-formed
  -- HTML, no longer than a bound that is a sum over the tree: for a node in the body of a document
  -- of any shape, with any marks of changes, under any flags but that raw HTML has to be left out
  -- or escaped; without footnotes, callouts, metadata, hard line breaks, titles of images with a
  -- double quote and entities with `<` or `>`, and if each attribute with a value has a key of
  -- fewer than 2^30 letters, digits and dashes, the levels are below 2^62, the offset is at most
  -- 2^62, the lists begin at a number of at most 20 digits, sscanf() stores numbers of 32 bits and
  -- at most 2^61 identifiers have been made. The state is as it was but for the queue of
  -- identifiers: behind those before it has at most one more for each node, none more if headings
  -- get no identifiers, and no two that are equal if there were none.
  pub rndr-WritesHtml :
      (above : List Kind) (n : Node) (st : Html) (s : Out)
      → in_body above ≡ true
      → IsNear st.headers_offs
      → PlainNode st.flags n
      → length st.headers_used ≤ 2 ^ 61
      → IsReady (node_cost n) s
      → WritesHtml (node_cost n) (node_ids n) st s (rndr sscanf strtonum chng above n st s)
  rndr-WritesHtml above n st s body near plain few r =
      Moves-WritesHtml (node_cost n) (node_ids n) st s (rndr sscanf strtonum chng above n st s)
        (λ k.
          node-Moves sscanf strtonum chng reads k above n st s body near plain
            (omega (arith, few, r.room, node_ids-le-cost n)) r)

  fragment :
      (b : Buf) (st : Html) → flag st.flags standalone ≡ false → rndr_root sscanf b st ≡ hbuf_putb b
  unfolding rndr_root
  fragment b st h = rw h refl

  -- Without footnotes, the root is its content.
  root-Moves :
      (k : List Bytes) (b : Buf) (st : Html) (s : Out)
      → st.foots ≡ []
      → flag st.flags standalone ≡ false
      → IsWellFormed b.content
      → IsReady (size b + 0) s
      → Moves
          (size b + 0)
          1
          (Scan.text k)
          (Scan.text k)
          st
          s
          (rndr_root_node sscanf strtonum chng b st s)
  unfolding rndr_root_node root_after rndr_root
  root-Moves k b st s e plain w r =
      let p = Scan.text k in
      let o : Out = record { ob = b; sched = s.sched } in
      let r' : IsReady (size b) s = record {
        valid = r.valid;
        grants = r.grants;
        room = omega (arith, r.room);
      } in
      subst (λ m. Moves (size b + 0) 1 p p st s (root_after sscanf strtonum chng st s (m o)))
        (sym (no_footer st e))
        (subst (λ m. Moves (size b + 0) 1 p p st s (lift m st s)) (sym (fragment b st plain))
          (Moves-le (size b) (size b + 0) 1 1 p p st s _ (omega arith) (omega arith)
            (lift-Moves (size b) 1 p p (hbuf_putb b) st s (Emits-putb k b w) r')))

  -- The state at the start of a document.
  start : Html → Html
  start st = record st { headers_used = []; headers_offs = pos 1; metaq = [] }

  -- The header of a document without metadata is not written, also where a title block is asked
  -- for.
  empty_header : (st : Html) → st.metaq ≡ [] → rndr_doc_header sscanf st ≡ done
  unfolding rndr_doc_header all_keys author_text date_of meta_value or_else rcsdate2str
      rcsauthor2str
  empty_header st e = elim (Bool-cases (flag st.flags html_titleblock)) [
    | inl h ↦ rw (h, e) refl
    | inr h ↦ rw h refl
  ]

  header-Moves :
      (k : List Bytes) (id : ℕ) (st : Html) (s : Out)
      → st.metaq ≡ []
      → HasRoom 1 st
      → IsReady 75 s
      → Moves 75 1
          (Scan.text k)
          (Scan.text k)
          st
          s
          (rndr sscanf strtonum chng (Kind.root ∷ []) (node id Kind.doc_header nil) st s)
  unfolding rndr rndr_kind lift close_change in_body is_doc_header is_meta
  header-Moves k id st s e more r =
      rndr-Moves sscanf strtonum chng reads id Kind.doc_header nil (Kind.root ∷ []) st 0 refl
        (λ j. close_change-Emits j Kind.doc_header refl (chng id) (Kind.root ∷ []) refl)
        (λ ids j b u room w y.
          subst
            (λ m.
              Moves (size b + 0) 1 (Scan.text j) (Scan.text j) (with_ids st ids) u
                (lift m (with_ids st ids) u))
            (sym (empty_header (with_ids st ids) e))
            (lift-Moves (size b + 0) 1 (Scan.text j) (Scan.text j) done (with_ids st ids) u
              (Emits-done (size b + 0) (Scan.text j)) y))
        k 0 0 s
        (λ j m a room.
          lift-Moves 0 0 (Scan.text j) (Scan.text j) done st (child_out m)
            (Emits-done 0 (Scan.text j)) (child_out-IsReady 0 m a room))
        more r

  body-Moves :
      (k : List Bytes) (ns : Nodes) (st : Html) (s : Out)
      → st.metaq ≡ []
      → IsNear st.headers_offs
      → IsDocument st.flags ns
      → HasRoom (nodes_ids ns) st
      → IsReady (nodes_cost ns) s
      → Moves
          (nodes_cost ns)
          (nodes_ids ns)
          (Scan.text k)
          (Scan.text k)
          st
          s
          (rndr_children sscanf strtonum chng (Kind.root ∷ []) ns st s)
  unfolding IsDocument nodes_cost node_cost nodes_ids node_ids own_cost rndr in_body is_doc_header
  body-Moves k nil st s e near h more r = absurd h
  body-Moves k (cons (node id Kind.doc_header nil) ns) st s e near h more r =
      let p = Scan.text k in
      on_success-Moves 320 (nodes_cost ns) 1 (nodes_ids ns) p p p st s _ _
        (Moves-le 75 320 1 1 p p st s _ (omega arith) (omega arith)
          (header-Moves k id st s e (omega (arith, more)) (IsReady-le 75 _ s (omega arith) r)))
        r
        (λ ids t l y.
          children-Moves sscanf strtonum chng reads k (Kind.root ∷ []) ns (with_ids st ids) t refl
            near h (omega (arith, more, l.short)) y)
  body-Moves k (cons (node id Kind.doc_header (cons n below)) ns) st s e near h more r = absurd h
  body-Moves k (cons (node id kind below) ns) st s e near h more r = absurd h

  -- Where no allocation is refused and there is room, lowdown_html_rndr returns one for a document
  -- and appends well-formed HTML, no longer than a bound that is a sum over the tree, and leaves
  -- the flags as they are and no footnotes: for a root that is not marked as changed, above the
  -- header of a document without metadata and a body of any shape, with any marks of changes, under
  -- any flags but that for a standalone document and that raw HTML has to be left out or escaped;
  -- without footnotes, callouts, hard line breaks, titles of images with a double quote and
  -- entities with `<` or `>`, and if each attribute with a value has a key of fewer than 2^30
  -- letters, digits and dashes, the levels are below 2^62, the lists begin at a number of at most
  -- 20 digits and sscanf() stores numbers of 32 bits.
  pub lowdown_html_rndr-WellFormed :
      (id : ℕ) (ns : Nodes) (st : Html) (s : Out)
      → chng id ≡ Chng.none
      → st.foots ≡ []
      → flag st.flags standalone ≡ false
      → IsDocument st.flags ns
      → IsReady (nodes_cost ns + 75) s
      → (t : Out) × (g : Bytes) × (st' : Html) × (lowdown_html_rndr sscanf strtonum chng
            (node id Kind.root ns)
            st
            s
          ≡ rendered true st' t)
        × (t.ob.content ≡ s.ob.content ++ g)
        × IsWellFormed g
        × (length g ≤ nodes_cost ns + 75)
        × (st'.flags ≡ st.flags)
        × (st'.foots ≡ [])
  unfolding lowdown_html_rndr start cleared rndr_kind marked close_change in_body is_doc_header
      is_meta IsNear
  lowdown_html_rndr-WellFormed id ns st s unchanged empty plain_flags plain r =
      let n = nodes_cost ns in
      let st0 = start st in
      let whole = rndr sscanf strtonum chng [] (node id Kind.root ns) st0 s in
      let first_near : IsNear (pos 1) = omega arith in
      let closes : (j : List Bytes)
          → Emits 6 (Scan.text (marked (chng id) j)) (Scan.text j)
              (close_change (chng id) Kind.root []) =
        λ j.
          subst (λ c. Emits 6 (Scan.text (marked c j)) (Scan.text j) (close_change c Kind.root []))
            (sym unchanged) (Emits-done 6 (Scan.text j)) in
      let (t, g, ids, e, c, w, l, _) =
        Moves-WritesHtml (n + 0 + 75) (nodes_ids ns + 1) st0 s whole (λ k.
          rndr-Moves sscanf strtonum chng reads id Kind.root ns [] st0 0 refl closes
            (λ ids j b u more v y. root-Moves j b (with_ids st0 ids) u empty plain_flags v y) k n
            (nodes_ids ns) s
            (λ j m a room.
              body-Moves j ns st0 (child_out m) refl first_near plain
                (omega (arith, r.room, nodes_ids-le-cost ns)) (child_out-IsReady n m a room))
            (omega (arith, r.room, nodes_ids-le-cost ns))
            (record { valid = r.valid; grants = r.grants; room = omega (arith, r.room) })) in
      (
        t,
        g,
        record st0 { headers_used = []; foots = []; metaq = [] },
        ap (cleared sscanf strtonum chng) e,
        c,
        w,
        omega (arith, l),
        refl,
        refl,
      )
