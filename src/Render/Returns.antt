-- ===== src/Render/Returns.antt =====
-- What rndr of src/format/html/html.c returns when an allocation is refused.
use lowdown.Prelude.{ℕ, ◌≡◌, refl, Bool, true, false, Option, List, ◌∷◌, Bytes, if◌then◌else◌}
use lowdown.Tree.{Kind, Chng, Node, node}
use lowdown.Buffer.{Buf, Out, granted, rest}
use lowdown.Render.{ℤ, Html}
use lowdown.Render.State.{Rendered, rendered, lost}
use lowdown.Render.Walk.{return_one, with_children, child_out, rndr, rndr_children}

-- The truth value that is returned, if the run is defined.
unfoldable pub Returns : Bool → Rendered → Type 0
Returns b (rendered rc st t) = rc ≡ b
Returns b lost = Unit

return_one-Returns : (r : Rendered) → Returns true (return_one r)
unfolding Returns return_one
return_one-Returns (rendered rc st t) = refl
return_one-Returns lost = tt

module _ (sscanf : Bytes → Bytes → List ℕ) (strtonum : Bytes → ℤ → ℤ → Option ℤ)
    (chng : ℕ → Chng) where
  with_children-Returns :
      (n : Node) (above : List Kind) (ob : Buf) (r : Rendered)
      → Returns true (with_children sscanf strtonum chng n above ob r)
  unfolding with_children Returns
  with_children-Returns n above ob (rendered true st t) = return_one-Returns _
  with_children-Returns n above ob (rendered false st t) = refl
  with_children-Returns n above ob lost = tt

  -- Where it is defined, rndr returns zero exactly when the first allocation, that of its own
  -- buffer, is refused, whatever becomes of all the later ones.
  pub rndr-Returns :
      (above : List Kind) (n : Node) (st : Html) (s : Out)
      → Returns (granted s.sched) (rndr sscanf strtonum chng above n st s)
  unfolding rndr Returns
  rndr-Returns above (node id kind children) st s = by_grant (granted s.sched)
    where
      by_grant :
          (b : Bool)
          → Returns b (
              if b
              then with_children sscanf strtonum chng (node id kind children) above s.ob (
                  rndr_children sscanf strtonum chng
                    (kind ∷ above)
                    children
                    st
                    (child_out (rest s.sched)))
              else rendered false st (record s { sched = rest s.sched }))
      by_grant true = with_children-Returns (node id kind children) above s.ob _
      by_grant false = refl
