-- ===== src/Render/Started.antt =====
-- With which tag rndr_header of src/format/html/html.c starts.
use lowdown.Prelude.{
  ℕ, ◌+◌, ◌*◌, ◌≡◌, refl, sym, ap, subst, ◌∙◌, false, List, ◌++◌, append_assoc, none, Bytes, codes,
  length, inl, inr, arith,
}
use lowdown.Tree.{Node}
use lowdown.Buffer.{Buf, Out, Res, ok, failed, fault, M, ◌>>◌, size}
use lowdown.Parse.Attrs.{Attrs}
use lowdown.Ident.{decimal}
use lowdown.Ident.Unique.{title}
use lowdown.Render.{Html, flag, html_head_ids}
use lowdown.Render.State.{
  Rendered, rendered, lost, lift, on_success, header_level, overflows, put_named, put_id,
  head_start, head_end, rndr_header,
}
use lowdown.Render.Scan.{Scan, scan, step, IsWellFormed}
use lowdown.Render.Emits.{IsReady, IsReady-le, IsReady-after, After, Emits}
use lowdown.Render.Tags.{InTag, Attributes-Emits}
use lowdown.Render.Attributes.{AreNamed, quoted-InTag}
use lowdown.Render.Headings.{
  own_id, MakesId, head_name, named_cost, end_cost, head_cost, head_start-Emits, head_end-Emits,
  name-InTag, put_id_lem, put_named-Attributes, id_or_new-lift, lift->>,
}
use lowdown.Render.Names.{heading_cost, new_ident-Moves, made-put_id, MakesId-cases}
use lowdown.Render.Moves.{Moves, Moves-le, HasRoom, with_ids, on_success-Moves, lift-Moves}

-- What is written takes the scanner from `p` to `q` by way of `mid`.
unfoldable pub Passes : Scan → Scan → Scan → Out → Rendered → Type 0
Passes p mid q s (rendered rc st t) =
    (x : Bytes) × (y : Bytes) × (t.ob.content ≡ s.ob.content ++ (x ++ y))
    × (scan p x ≡ mid)
    × (scan mid y ≡ q)
Passes p mid q s lost = ⊥

-- A writer, and what follows it.
on_success-Passes :
    (n j g : ℕ) (p mid q : Scan) (m : M (Unit {0})) (st : Html) (s : Out)
    (f : Html → Out → Rendered)
    → Emits n p mid m
    → IsReady (n + j) s
    → ((t : Out) → IsReady j t → Moves j g mid q st t (f st t))
    → Passes p mid q s (on_success (lift m st s) f)
unfolding Emits After Moves Passes lift on_success
on_success-Passes n j g p mid q m st s f e r next =
    by_result (m s) (e s (IsReady-le n (n + j) s (omega arith) r))
  where
    by_result :
        (o : Res (Unit {0}))
        → After n p mid s o
        → Passes p mid q s (on_success (lift (λ _. o) st s) f)
    by_result (ok _ t) w = by_rest (f st t) (next t (IsReady-after n j p mid s t w r))
      where
        by_rest : (o : Rendered) → Moves j g mid q st t o → Passes p mid q s o
        by_rest (rendered rc st' u) (_, _, v) = (
          w.bytes,
          v.bytes,
          v.content
              ∙ ap (λ (x : Bytes). x ++ v.bytes) w.content
              ∙ append_assoc s.ob.content w.bytes v.bytes,
          w.scanned,
          v.scanned,
        )
        by_rest lost h = h
    by_result (failed t) h = absurd h
    by_result fault h = absurd h

module _ (k : List Bytes) (b : Buf) (n : Node) (level : ℕ) (a : Attrs) (st : Html)
    (w : IsWellFormed b.content) (h : AreNamed a) where
  later : Html → Out → Rendered
  later st' t = lift (head_end b (decimal (header_level level st.headers_offs)) a st') st' t

  cost : ℕ
  cost = 2 * length (title none n) + 34 + named_cost (own_id a) + (end_cost a + (size b + 9))

  made-rest :
      (t : Out)
      → MakesId a st
      → HasRoom 1 st
      → IsReady cost t
      → Moves cost 1
          (Scan.name k (head_name k level st))
          (Scan.text k)
          st
          t
          (on_success (put_id n a st t) later)
  unfolding cost later
  made-rest t makes more r =
      let p = Scan.text k in
      let name = Scan.name k (head_name k level st) in
      let q = Scan.quoted k (head_name k level st) in
      let x = length (title none n) + 34 in
      let y = end_cost a + (size b + 9) in
      Moves-le (x + y) _ (1 + 0) 1 name p st t _ (omega arith) (omega arith) (
        on_success-Moves x y 1 0 name q p st t _ _
          (subst (Moves x 1 name q st t) (sym (made-put_id n a st t h makes)) (
            new_ident-Moves k (head_name k level st) n st t name (name-InTag k level st) (makes.1)
              more (omega (arith, r.room)) (IsReady-le x _ t (omega arith) r)))
          (IsReady-le (x + y) _ t (omega arith) r)
          (λ ids u le ready.
            lift-Moves y 0 q p _ (with_ids st ids) u
              (head_end-Emits k level st b a (with_ids st ids) q w h
                (quoted-InTag k (head_name k level st)))
              ready))

  given-rest :
      (t : Out)
      → ¬ MakesId a st
      → IsReady cost t
      → Moves cost 1
          (Scan.name k (head_name k level st))
          (Scan.text k)
          st
          t
          (on_success (put_id n a st t) later)
  unfolding cost later InTag scan step
  given-rest t given r =
      let p = Scan.text k in
      let name = head_name k level st in
      let x = named_cost (own_id a) in
      let y = end_cost a + (size b + 9) in
      let digit = decimal (header_level level st.headers_offs) in
      let id = put_named (codes " id=\"") (own_id a) in
      Moves-le (x + y) _ 1 1 (Scan.name k name) p st t _ (omega arith) (omega arith) (
        subst (Moves (x + y) 1 (Scan.name k name) p st t)
          (sym (
            ap (λ o. on_success o later)
              (put_id_lem n a st t h ∙ id_or_new-lift n (own_id a) st t given)
            ∙ lift->> id (head_end b digit a st) later st t (λ u. refl)))
          (lift-Moves (x + y) 1 (Scan.name k name) p (id >> head_end b digit a st) st t
            (Attributes-Emits k name x y _ _ (Scan.name k name) p (name-InTag k level st)
              (put_named-Attributes k name (codes " id=\"") _ (omega arith) (λ q i. rw (i.0) refl))
              (λ q i. head_end-Emits k level st b a st q w h i))
            (IsReady-le (x + y) _ t (omega arith) r)))

  -- The start tag has the number of the level, and the end tag is that of the element.
  pub rndr_header-Passes :
      (s : Out)
      → overflows level st.headers_offs ≡ false
      → HasRoom 1 st
      → IsReady (size b + heading_cost n a) s
      → Passes
          (Scan.text k)
          (Scan.name k (codes "h" ++ decimal (header_level level st.headers_offs)))
          (Scan.text k)
          s
          (rndr_header b n level a st s)
  unfolding rndr_header heading_cost head_cost cost later
  rndr_header-Passes s small more r = rw small (
      on_success-Passes 6 cost 1 (Scan.text k) (Scan.name k (head_name k level st)) (Scan.text k)
        (head_start (decimal (header_level level st.headers_offs))) st s _
        (head_start-Emits k level st) (IsReady-le (6 + cost) _ s (omega arith) r)
        (λ t ready. elim (MakesId-cases (own_id a) (flag st.flags html_head_ids)) [
          | inl makes ↦ made-rest t makes more ready
          | inr given ↦ given-rest t given ready
        ]))
