-- ===== src/Render/Whole.antt =====
-- The walk over the tree of src/format/html/html.c writes well-formed HTML.
use lowdown.Prelude.{
  ℕ, ◌+◌, ◌^◌, ◌≤◌, ◌<◌, ◌≡◌, Option, sym, ap, subst, true, false, List, [], ◌∷◌, Bytes, codes,
  length, All, arith,
}
use lowdown.Tree.{Kind, Chng, Node, Nodes, node, nil, cons}
use lowdown.Buffer.{Buf, Sched, Out, done, size, size_mod, AllGranted, rest}
use lowdown.Buffer.Writes.{AllGranted-rest, AllGranted-granted}
use lowdown.Render.{ℤ, Html}
use lowdown.Render.State.{Rendered, rendered, lost, lift}
use lowdown.Render.Walk.{
  return_one, rndr_kind, rndr_marked, with_children, child_out, rndr, rndr_children,
}
use lowdown.Render.Change.{in_body, is_meta, open_change, close_change}
use lowdown.Render.Scan.{Scan, scan, IsWellFormed}
use lowdown.Render.Emits.{IsReady, IsReady-le, Emits, Emits-done}
use lowdown.Render.Kinds.{IsPlain-is_meta, IsPlain-in_body, own_cost, rndr_kind-Moves}
use lowdown.Render.Levels.{IsNear}
use lowdown.Render.Moves.{
  with_ids, HasRoom, Moves, Moves-le, Moves-from, lift-Moves, on_success-Moves, return_one-Moves,
  marked, open_change-Emits, close_change-Emits, child_out-IsReady,
}
use lowdown.Render.Nodes.{PlainNode, PlainNodes, node_cost, nodes_cost, node_ids, nodes_ids}

module _ (sscanf : Bytes → Bytes → List ℕ) (strtonum : Bytes → ℤ → ℤ → Option ℤ) (chng : ℕ → Chng)
    (reads : (d : Bytes) → All (λ x. x < 2 ^ 32) (sscanf (codes "%ux%u") d)) where
  -- A node whose kind and whose marks are in order, above which `above` stands.
  module _ (id : ℕ) (kind : Kind) (children : Nodes) (above : List Kind) (st : Html) (c : ℕ)
      (plain : is_meta kind ≡ false)
      (closes : (j : List Bytes)
        → Emits 6
            (Scan.text (marked (chng id) j))
            (Scan.text j)
            (close_change (chng id) kind above))
      (inside : (ids : List Buf) (j : List Bytes) (b : Buf) (s : Out)
        → HasRoom 1 (with_ids st ids)
        → IsWellFormed b.content
        → IsReady (size b + c) s
        → Moves (size b + c) 1 (Scan.text j) (Scan.text j) (with_ids st ids) s (
            rndr_kind sscanf strtonum chng kind
              (node id kind children)
              above
              children
              b
              (with_ids st ids)
              s)) where
    rndr_marked-Moves :
        (k : List Bytes) (n : ℕ) (ids : List Buf) (t s : Out)
        → HasRoom 1 (with_ids st ids)
        → IsWellFormed t.ob.content
        → size t.ob ≤ n
        → IsReady (n + c + 11) s
        → Moves
            (n + c + 11)
            1
            (Scan.text k)
            (Scan.text k)
            (with_ids st ids)
            s
            (rndr_marked sscanf strtonum chng (node id kind children) above (with_ids st ids) t s)
    unfolding rndr_marked
    rndr_marked-Moves k n ids t s more w le r =
        let p = Scan.text k in
        let q = Scan.text (marked (chng id) k) in
        let d = size t.ob + c in
        let st' = with_ids st ids in
        Moves-le (5 + (d + 6)) (n + c + 11) (0 + (1 + 0)) 1 p p st' s _ (omega (arith, le))
          (omega arith)
          (on_success-Moves 5 (d + 6) 0 (1 + 0) p q p st' s _ _
            (lift-Moves 5 0 p q (open_change (chng id) kind) st' s
              (open_change-Emits k kind plain (chng id)) (IsReady-le 5 _ s (omega arith) r))
            (IsReady-le (5 + (d + 6)) _ s (omega (arith, le)) r)
            (λ later u l y.
              on_success-Moves d 6 1 0 q q p (with_ids st later) u _ _
                (inside later (marked (chng id) k) t.ob u (omega (arith, more, l.short)) w
                  (IsReady-le d (d + 6) u (omega arith) y))
                y
                (λ last v l' z.
                  lift-Moves 6 0 q p (close_change (chng id) kind above) (with_ids st last) v
                    (closes k) z)))

    -- The content is what the children have written to their buffer, whatever is open.
    with_children-Moves :
        (k : List Bytes) (n g : ℕ) (s : Out) (m : Sched) (r : Rendered)
        → ((j : List Bytes) → Moves n g (Scan.text j) (Scan.text j) st (child_out m) r)
        → HasRoom (g + 1) st
        → IsReady (n + c + 11) s
        → Moves
            (n + c + 11)
            (g + 1)
            (Scan.text k)
            (Scan.text k)
            st
            s
            (with_children sscanf strtonum chng (node id kind children) above s.ob r)
    unfolding with_children Moves child_out IsWellFormed
    with_children-Moves k n g s m (rendered true st' t) h more r =
        let p = Scan.text k in
        let (_, (ids, e, l), w) = h [] in
        let o : Out = record s { sched = t.sched } in
        let wf : IsWellFormed t.ob.content = λ j.
          let (_, _, x) = h j in
          subst (λ (d : Bytes). scan (Scan.text j) d ≡ Scan.text j) (sym x.content) x.scanned in
        let ready : IsReady (n + c + 11) o = record {
          valid = r.valid;
          grants = w.grants;
          room = r.room;
        } in
        subst
          (λ (x : Html).
            Moves (n + c + 11) (g + 1) p p st s
              (return_one (rndr_marked sscanf strtonum chng (node id kind children) above x t o)))
          (sym e)
          (Moves-from (n + c + 11) g 1 p p st ids s t.sched _ l (
            return_one-Moves (n + c + 11) 1 p p (with_ids st ids) o _ (
              rndr_marked-Moves k n ids t o (omega (arith, more, l.short)) wf
                (omega (arith, ap length w.content, w.short)) ready)))
    with_children-Moves k n g s m (rendered false st' t) h more r =
        let (f, _, _) = h [] in absurd cc
    with_children-Moves k n g s m lost h more r = h []

    -- A node with the buffer for its children.
    pub rndr-Moves :
        (k : List Bytes) (n g : ℕ) (s : Out)
        → ((j : List Bytes) (m : Sched)
            → AllGranted m
            → n + 64 ≤ size_mod
            → Moves n g
                (Scan.text j)
                (Scan.text j)
                st
                (child_out m)
                (rndr_children sscanf strtonum chng (kind ∷ above) children st (child_out m)))
        → HasRoom (g + 1) st
        → IsReady (n + c + 75) s
        → Moves
            (n + c + 75)
            (g + 1)
            (Scan.text k)
            (Scan.text k)
            st
            s
            (rndr sscanf strtonum chng above (node id kind children) st s)
    unfolding rndr
    rndr-Moves k n g s h more r =
        let p = Scan.text k in
        let m = rest s.sched in
        rw (AllGranted-granted s.sched r.grants) (
          Moves-le (n + c + 11) (n + c + 75) (g + 1) (g + 1) p p st s _ (omega arith) (omega arith)
            (with_children-Moves k n g s m _
              (λ j. h j m (AllGranted-rest s.sched r.grants) (omega (arith, r.room))) more
              (IsReady-le (n + c + 11) _ s (omega arith) r)))

  mutual
    unfolding PlainNode node_cost node_ids lift rndr

    pub node-Moves :
        (k : List Bytes) (above : List Kind) (n : Node) (st : Html) (s : Out)
        → in_body above ≡ true
        → IsNear st.headers_offs
        → PlainNode st.flags n
        → HasRoom (node_ids n) st
        → IsReady (node_cost n) s
        → Moves
            (node_cost n)
            (node_ids n)
            (Scan.text k)
            (Scan.text k)
            st
            s
            (rndr sscanf strtonum chng above n st s)
    node-Moves k above (node id kind children) st s body near (plain, below) more r =
        let m = IsPlain-is_meta st.flags kind plain in
        let c = own_cost kind children + 192 in
        let n = nodes_cost children in
        let g = nodes_ids children in
        let p = Scan.text k in
        Moves-le (n + c + 75) (n + own_cost kind children + 320) (g + 1) (g + 1) p p st s _
          (omega arith) (omega arith)
          (rndr-Moves id kind children above st c m
            (λ j. close_change-Emits j kind m (chng id) above body)
            (λ ids j b u more' w y.
              subst
                (λ x. Moves x 1 (Scan.text j) (Scan.text j) (with_ids st ids) u (
                  rndr_kind sscanf strtonum chng kind (node id kind children) above children b
                    (with_ids st ids) u))
                (omega arith)
                (rndr_kind-Moves sscanf strtonum chng reads j id above children b (with_ids st ids)
                  u w more' near kind plain (IsReady-le _ _ u (omega arith) y)))
            k n g s
            (λ j m a room.
              children-Moves j (kind ∷ above) children st (child_out m)
                (IsPlain-in_body st.flags kind above plain) near below (omega (arith, more))
                (child_out-IsReady n m a room))
            more (IsReady-le (n + c + 75) _ s (omega arith) r))

    pub children-Moves :
        (k : List Bytes) (above : List Kind) (ns : Nodes) (st : Html) (s : Out)
        → in_body above ≡ true
        → IsNear st.headers_offs
        → PlainNodes st.flags ns
        → HasRoom (nodes_ids ns) st
        → IsReady (nodes_cost ns) s
        → Moves
            (nodes_cost ns)
            (nodes_ids ns)
            (Scan.text k)
            (Scan.text k)
            st
            s
            (rndr_children sscanf strtonum chng above ns st s)
    children-Moves k above nil st s body near plain more r =
        lift-Moves 0 0 (Scan.text k) (Scan.text k) done st s (Emits-done 0 (Scan.text k)) r
    children-Moves k above (cons n ns) st s body near (plain, later) more r =
        let p = Scan.text k in
        on_success-Moves (node_cost n) (nodes_cost ns) (node_ids n) (nodes_ids ns) p p p st s _ _
          (node-Moves k above n st s body near plain (omega (arith, more))
            (IsReady-le (node_cost n) _ s (omega arith) r))
          r
          (λ ids t l y.
            children-Moves k above ns (with_ids st ids) t body near later
              (omega (arith, more, l.short)) y)
