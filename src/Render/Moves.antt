-- ===== src/Render/Moves.antt =====
-- What a step of the walk of src/format/html/html.c writes, as a move of the scanner, and what it
-- leaves of the state; the marks of a change, and the buffer for the children.
use lowdown.Prelude.{
  ℕ, ◌+◌, ◌≤◌, ◌≡◌, ◌^◌, length, refl, sym, subst, ◌∙◌, ap, true, false, List, [], ◌∷◌, ◌++◌,
  append_assoc, append-nil, Bytes, codes, isalnum, arith,
}
use lowdown.Tree.{Kind, Chng}
use lowdown.Buffer.{Buf, Sched, Out, Res, ok, failed, fault, M, size_mod, AllGranted}
use lowdown.Ident.Seen.{texts, Distinct}
use lowdown.Render.{Html, flag, html_head_ids}
use lowdown.Render.State.{Rendered, rendered, lost, lift, on_success}
use lowdown.Render.Walk.{return_one, child_out}
use lowdown.Render.Change.{is_meta, in_body, open_change, close_change}
use lowdown.Render.Scan.{Scan, scan, step, between, pop, name_byte}
use lowdown.Render.Emits.{
  IsReady, IsReady-after, Written, Written-trans, Written-le, After, Emits, Emits-done, Emits-put,
}

-- The state with another queue of identifiers, and whether it has room for `g` more.
abbrev pub with_ids : Html → List Buf → Html
with_ids st ids = record st { headers_used = ids }

abbrev pub HasRoom : ℕ → Html → Type 0
HasRoom g st = length st.headers_used + g ≤ 2 ^ 62

-- The queue with at most `g` more identifiers behind those that it had: none if they are not asked for, and pairwise different
-- if those before are.
pub record Grown (g : ℕ) (st : Html) (ids : List Buf) : Type 0 where
  pub behind : (new : List Buf) × (ids ≡ st.headers_used ++ new)
  pub short : length ids ≤ length st.headers_used + g
  pub kept : flag st.flags html_head_ids ≡ false → ids ≡ st.headers_used
  pub unique : Distinct (texts st.headers_used) → Distinct (texts ids)

Grown-same : (g : ℕ) (st : Html) → Grown g st st.headers_used
Grown-same g st = record {
  behind = ([], sym (append-nil st.headers_used));
  short = omega arith;
  kept = λ h. refl;
  unique = λ d. d;
}

Grown-trans :
    (g h : ℕ) (st : Html) (ids later : List Buf)
    → Grown g st ids
    → Grown h (with_ids st ids) later
    → Grown (g + h) st later
Grown-trans g h st ids later a b = record {
  behind =
      let (x, e) = a.behind in
      let (y, f) = b.behind in
      (x ++ y, f ∙ ap (λ (z : List Buf). z ++ y) e ∙ append_assoc st.headers_used x y);
  short = omega (arith, a.short, b.short);
  kept = λ f. b.kept f ∙ a.kept f;
  unique = λ d. b.unique (a.unique d);
}

Grown-le : (g h : ℕ) (st : Html) (ids : List Buf) → g ≤ h → Grown g st ids → Grown h st ids
Grown-le g h st ids le a = record {
  behind = a.behind;
  short = omega (arith, a.short);
  kept = a.kept;
  unique = a.unique;
}

-- A success that leaves the state as it is but for at most `g` new identifiers, and has written a
-- text of at most `n` bytes.
unfoldable pub Moves : ℕ → ℕ → Scan → Scan → Html → Out → Rendered → Type 0
Moves n g p q st s (rendered rc st' t) =
    (rc ≡ true) × ((ids : List Buf) × (st' ≡ with_ids st ids) × Grown g st ids) × Written n p q s t
Moves n g p q st s lost = ⊥

After-Moves :
    (n g : ℕ) (p q : Scan) (st : Html) (s : Out) (r : Res (Unit {0}))
    → After n p q s r
    → Moves n g p q st s (lift (λ _. r) st s)
unfolding After Moves lift
After-Moves n g p q st s (ok _ t) a = (refl, (st.headers_used, refl, Grown-same g st), a)
After-Moves n g p q st s (failed t) f = absurd f
After-Moves n g p q st s fault f = f

pub lift-Moves :
    (n g : ℕ) (p q : Scan) (m : M (Unit {0})) (st : Html) (s : Out)
    → Emits n p q m
    → IsReady n s
    → Moves n g p q st s (lift m st s)
unfolding Emits lift
lift-Moves n g p q m st s e r = After-Moves n g p q st s (m s) (e s r)

-- What follows new identifiers and a text.
Moves-after :
    (n j g h : ℕ) (p q w : Scan) (st : Html) (ids : List Buf) (s t : Out) (r : Rendered)
    → Grown g st ids
    → Written n p q s t
    → Moves j h q w (with_ids st ids) t r
    → Moves (n + j) (g + h) p w st s r
unfolding Moves
Moves-after n j g h p q w st ids s t (rendered rc st' u) l a (e, (more, f, k), b) =
    (e, (more, f, Grown-trans g h st ids more l k), Written-trans n j p q w s t u a b)
Moves-after n j g h p q w st ids s t lost l a f = f

pub on_success-Moves :
    (n j g h : ℕ) (p q w : Scan) (st : Html) (s : Out) (r : Rendered) (f : Html → Out → Rendered)
    → Moves n g p q st s r
    → IsReady (n + j) s
    → ((ids : List Buf) (t : Out)
        → Grown g st ids
        → IsReady j t
        → Moves j h q w (with_ids st ids) t (f (with_ids st ids) t))
    → Moves (n + j) (g + h) p w st s (on_success r f)
unfolding Moves on_success
on_success-Moves n j g h p q w st s (rendered true st' t) f (_, (ids, e, l), a) y next =
    subst (λ x. Moves (n + j) (g + h) p w st s (f x t)) (sym e)
      (Moves-after n j g h p q w st ids s t (f (with_ids st ids) t) l a
        (next ids t l (IsReady-after n j p q s t a y)))
on_success-Moves n j g h p q w st s (rendered false st' t) f (e, _, _) y next = absurd (cc)
on_success-Moves n j g h p q w st s lost f m y next = m

pub Moves-le :
    (n j g h : ℕ) (p q : Scan) (st : Html) (s : Out) (r : Rendered)
    → n ≤ j
    → g ≤ h
    → Moves n g p q st s r
    → Moves j h p q st s r
unfolding Moves
Moves-le n j g h p q st s (rendered rc st' t) le more (e, (ids, f, l), w) =
    (e, (ids, f, Grown-le g h st ids more l), Written-le n j p q s t le w)
Moves-le n j g h p q st s lost le more f = f

-- Only the buffer of the first output counts, and the queue may have grown before.
pub Moves-from :
    (n g h : ℕ) (p q : Scan) (st : Html) (ids : List Buf) (s : Out) (m : Sched) (r : Rendered)
    → Grown g st ids
    → Moves n h p q (with_ids st ids) (record s { sched = m }) r
    → Moves n (g + h) p q st s r
unfolding Moves
Moves-from n g h p q st ids s m (rendered rc st' t) l (e, (more, f, k), w) = (
  e,
  (more, f, Grown-trans g h st ids more l k),
  record {
    bytes = w.bytes;
    content = w.content;
    short = w.short;
    scanned = w.scanned;
    unit = w.unit;
    valid = w.valid;
    grants = w.grants;
  },
)
Moves-from n g h p q st ids s m lost l f = f

pub return_one-Moves :
    (n g : ℕ) (p q : Scan) (st : Html) (s : Out) (r : Rendered)
    → Moves n g p q st s r
    → Moves n g p q st s (return_one r)
unfolding Moves return_one
return_one-Moves n g p q st s (rendered rc st' t) (e, i, w) = (refl, i, w)
return_one-Moves n g p q st s lost f = f

-- The open elements within the mark of a change.
unfoldable pub marked : Chng → List Bytes → List Bytes
marked Chng.none k = k
marked Chng.insert k = codes "ins" ∷ k
marked Chng.delete k = codes "del" ∷ k

module _ (k : List Bytes) (kind : Kind) (plain : is_meta kind ≡ false) where
  pub open_change-Emits :
      (c : Chng) → Emits 5 (Scan.text k) (Scan.text (marked c k)) (open_change c kind)
  unfolding open_change marked scan step between name_byte isalnum
  open_change-Emits Chng.none = Emits-done 5 (Scan.text k)
  open_change-Emits Chng.insert =
      rw plain
        (Emits-put 5 (Scan.text k) (Scan.text (codes "ins" ∷ k)) (codes "<ins>") (omega arith) refl)
  open_change-Emits Chng.delete =
      rw plain
        (Emits-put 5 (Scan.text k) (Scan.text (codes "del" ∷ k)) (codes "<del>") (omega arith) refl)

  -- The end tag of an insertion is written in the body only.
  pub close_change-Emits :
      (c : Chng) (above : List Kind)
      → in_body above ≡ true
      → Emits 6 (Scan.text (marked c k)) (Scan.text k) (close_change c kind above)
  unfolding close_change marked scan step pop name_byte isalnum
  close_change-Emits Chng.none above h = Emits-done 6 (Scan.text k)
  close_change-Emits Chng.insert above h =
      rw (plain, h)
        (Emits-put 6 (Scan.text (codes "ins" ∷ k)) (Scan.text k) (codes "</ins>") (omega arith)
          refl)
  close_change-Emits Chng.delete above h =
      rw plain (
        Emits-put 6 (Scan.text (codes "del" ∷ k)) (Scan.text k) (codes "</del>") (omega arith) refl)

-- The buffer for the children.
pub child_out-IsReady :
    (n : ℕ) (m : Sched) → AllGranted m → n + 64 ≤ size_mod → IsReady n (child_out m)
unfolding child_out
child_out-IsReady n m a le = record {
  valid = record { unit_pos = omega arith; size_le = omega arith; backed = refl };
  grants = a;
  room = omega (arith, le);
}
