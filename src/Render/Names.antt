-- ===== src/Render/Names.antt =====
-- The headings of src/format/html/html.c are well-formed HTML, also where hbuf_id makes their
-- identifiers.
use mathlib.Core.List.{map-append}
use lowdown.Prelude.{
  ℕ, ◌+◌, ◌*◌, ◌≤◌, ◌≡◌, refl, sym, ap, subst, ◌∙◌, true, false, Bool, Option, ◌⊎◌, inl, inr, List,
  [], ◌∷◌, ◌++◌, none, some, Bytes, codes, length, length-append, All, ◌==◌, arith,
}
use lowdown.Tree.{Node}
use lowdown.Buffer.{Buf, Out, ◌>>◌, size, size_mod, hbuf_put, hbuf_putb}
use lowdown.Buffer.Put.{hbuf_putb-Writes}
use lowdown.Buffer.Name.Sound.{IsIdByte}
use lowdown.Parse.Attrs.{Attrs}
use lowdown.Ident.{Ident, ident, undefined, hbuf_id}
use lowdown.Ident.Seen.{texts, has_text, Distinct, Distinct-last}
use lowdown.Ident.Count.{Fresh}
use lowdown.Ident.Unique.{title, hbuf_id-Fresh}
use lowdown.Render.{Html, flag, html_head_ids}
use lowdown.Render.State.{lift, put_ident, new_ident, id_or_new, put_id, overflows, rndr_header}
use lowdown.Render.Scan.{Scan, scan, step, IsWellFormed}
use lowdown.Render.Emits.{IsReady, IsReady-le, Emits, Emits->>, Emits-put, Emits-Writes}
use lowdown.Render.Tags.{InTag}
use lowdown.Render.Attributes.{AreNamed, quoted-InTag}
use lowdown.Render.Headings.{
  own_id, MakesId, head_name, end_cost, head_cost, head_writer, head_start-Emits, head_end-Emits,
  head_writer-Emits, name-InTag, put_id_lem, rndr_header-lift,
}
use lowdown.Render.Moves.{
  Moves, Grown, with_ids, HasRoom, on_success-Moves, lift-Moves, Moves-from, Moves-le,
}

-- The bytes of an identifier stand in a quoted value.
id-scan : (k : List Bytes) (n d : Bytes) → All IsIdByte d → scan (Scan.value k n) d ≡ Scan.value k n
unfolding scan step
id-scan k n [] a = refl
id-scan k n (c ∷ cs) (i, a) = let z : (c == b'"') ≡ false = ground arith in rw z (id-scan k n cs a)

-- A new entry at the end of the queue.
one_more :
    (st : Html) (b : Buf) (q : List Buf)
    → flag st.flags html_head_ids ≡ true
    → q ≡ st.headers_used ++ b ∷ []
    → has_text (texts st.headers_used) b.content ≡ false
    → Grown 1 st q
one_more st b q makes e new = record {
  behind = (b ∷ [], e);
  short = omega (arith, ap length e, length-append st.headers_used (b ∷ []));
  kept = λ f. cc;
  unique = λ d.
      subst Distinct
        (sym (ap texts e ∙ map-append (λ (x : Buf). x.content) st.headers_used (b ∷ [])))
        (Distinct-last (texts st.headers_used) b.content d new);
}

module _ (k : List Bytes) (n : Bytes) where
  put_ident-Emits :
      (b : Buf)
      → All IsIdByte b.content
      → Emits (size b + 1) (Scan.value k n) (Scan.quoted k n) (hbuf_putb b >> hbuf_put (codes "\""))
  unfolding scan step
  put_ident-Emits b i =
      let value = Scan.value k n in
      Emits->> (size b) 1 value value (Scan.quoted k n) (hbuf_putb b) _
        (Emits-Writes (size b) value value b.content (hbuf_putb b) (hbuf_putb-Writes b)
          (omega arith) (id-scan k n b.content i))
        (Emits-put 1 value (Scan.quoted k n) (codes "\"") (omega arith) refl)

  -- The entry in the queue counts as one.
  put_ident-Moves :
      (l : ℕ) (st : Html) (s : Out) (r : Ident)
      → flag st.flags html_head_ids ≡ true
      → Fresh l st.headers_used s.sched r
      → IsReady (l + 1) s
      → Moves (l + 1) 1 (Scan.value k n) (Scan.quoted k n) st s (put_ident st s.ob s.sched r)
  unfolding put_ident
  put_ident-Moves l st s (ident (some b) q t) makes (e, new, valid, i, ne, short, grants) r =
      let value = Scan.value k n in
      let quoted = Scan.quoted k n in
      let o : Out = record { ob = s.ob; sched = t } in
      let w = lift (hbuf_putb b >> hbuf_put (codes "\"")) (with_ids st q) o in
      Moves-from (l + 1) 1 0 value quoted st q s t w (one_more st b q makes e new) (
        Moves-le (size b + 1) (l + 1) 0 0 value quoted (with_ids st q) o w (omega (arith, short))
          (omega arith)
          (lift-Moves (size b + 1) 0 value quoted _ (with_ids st q) o (put_ident-Emits b i)
            (record {
              valid = r.valid;
              grants = grants r.grants;
              room = omega (arith, short, r.room);
            })))
  put_ident-Moves l st s (ident none q t) makes (e, f) r = absurd (f r.grants)
  put_ident-Moves l st s undefined makes f r = absurd f

-- A new identifier, at most 28 bytes longer than the text of the heading.
pub new_ident-Moves :
    (k : List Bytes) (name : Bytes) (n : Node) (st : Html) (s : Out) (p : Scan)
    → InTag k name p
    → flag st.flags html_head_ids ≡ true
    → HasRoom 1 st
    → 2 * length (title none n) ≤ size_mod
    → IsReady (length (title none n) + 34) s
    → Moves (length (title none n) + 34) 1 p (Scan.quoted k name) st s (new_ident n st s)
unfolding new_ident InTag scan step
new_ident-Moves k name n st s p i makes more short r =
    let l = length (title none n) + 28 in
    let value = Scan.value k name in
    Moves-le (5 + (l + 1)) _ (0 + 1) 1 p (Scan.quoted k name) st s _ (omega arith) (omega arith) (
      on_success-Moves 5 (l + 1) 0 1 p value (Scan.quoted k name) st s _ _
        (lift-Moves 5 0 p value (hbuf_put (codes " id=\"")) st s
          (Emits-put 5 p value (codes " id=\"") (omega arith) (rw (i.0) refl))
          (IsReady-le 5 _ s (omega arith) r))
        (IsReady-le (5 + (l + 1)) _ s (omega arith) r)
        (λ ids t le y.
          put_ident-Moves k name l (with_ids st ids) t (hbuf_id none n ids t.sched) makes
            (hbuf_id-Fresh none n ids t.sched (omega (arith, more, short, le.short))) y))

pub made-put_id :
    (n : Node) (a : Attrs) (st : Html) (s : Out)
    → AreNamed a
    → MakesId a st
    → put_id n a st s ≡ new_ident n st s
unfolding id_or_new
made-put_id n a st s h (e, ids) =
    put_id_lem n a st s h ∙ ap (λ o. id_or_new n o st s) e ∙ rw ids refl

pub MakesId-cases :
    (o : Option Buf) (b : Bool) → ((o ≡ none) × (b ≡ true)) ⊎ (¬ ((o ≡ none) × (b ≡ true)))
MakesId-cases none true = inl (refl, refl)
MakesId-cases none false = inr (λ (e, f). cc)
MakesId-cases (some x) b = inr (λ (e, f). cc)

-- How much is written of a heading beside its content.
unfoldable pub heading_cost : Node → Attrs → ℕ
heading_cost n a = head_cost a + 2 * length (title none n) + 98

module _ (k : List Bytes) (b : Buf) (n : Node) (level : ℕ) (a : Attrs) (st : Html) (s : Out)
    (w : IsWellFormed b.content) (h : AreNamed a)
    (small : overflows level st.headers_offs ≡ false) where
  made-Moves :
      MakesId a st
      → HasRoom 1 st
      → IsReady (size b + heading_cost n a) s
      → Moves
          (size b + heading_cost n a)
          1
          (Scan.text k)
          (Scan.text k)
          st
          s
          (rndr_header b n level a st s)
  unfolding rndr_header heading_cost head_cost
  made-Moves makes more r =
      let p = Scan.text k in
      let name = Scan.name k (head_name k level st) in
      let q = Scan.quoted k (head_name k level st) in
      let x = length (title none n) + 34 in
      let y = end_cost a + (size b + 9) in
      rw small (
        Moves-le (6 + (x + y)) _ (0 + (1 + 0)) 1 p p st s _ (omega arith) (omega arith) (
          on_success-Moves 6 (x + y) 0 (1 + 0) p name p st s _ _
            (lift-Moves 6 0 p name _ st s (head_start-Emits k level st)
              (IsReady-le 6 _ s (omega arith) r))
            (IsReady-le (6 + (x + y)) _ s (omega arith) r)
            (λ ids t le ready.
              on_success-Moves x y 1 0 name q p (with_ids st ids) t _ _
                (subst (Moves x 1 name q (with_ids st ids) t)
                  (sym (made-put_id n a (with_ids st ids) t h makes))
                  (new_ident-Moves k (head_name k level st) n (with_ids st ids) t name
                    (name-InTag k level st) (makes.1) (omega (arith, more, le.short))
                    (omega (arith, r.room)) (IsReady-le x _ t (omega arith) ready)))
                ready
                (λ later u le' ready'.
                  lift-Moves y 0 q p _ (with_ids st later) u
                    (head_end-Emits k level st b a (with_ids st later) q w h
                      (quoted-InTag k (head_name k level st)))
                    ready'))))

  pub rndr_header-Heading :
      HasRoom 1 st
      → IsReady (size b + heading_cost n a) s
      → Moves
          (size b + heading_cost n a)
          1
          (Scan.text k)
          (Scan.text k)
          st
          s
          (rndr_header b n level a st s)
  unfolding heading_cost
  rndr_header-Heading more r =
      let p = Scan.text k in
      let m = size b + head_cost a + 64 in
      elim (MakesId-cases (own_id a) (flag st.flags html_head_ids)) [
        | inl makes ↦ made-Moves makes more r
        | inr given ↦ Moves-le m _ 0 1 p p st s _ (omega arith) (omega arith) (
            subst (Moves m 0 p p st s) (sym (rndr_header-lift b n level a st s h given small)) (
              lift-Moves m 0 p p (head_writer b level a st) st s
                (head_writer-Emits k b level a st w h) (IsReady-le m _ s (omega arith) r)))
      ]
