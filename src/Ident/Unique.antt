-- ===== src/Ident/Unique.antt =====
-- hbuf_id of src/buffer.c ends, and gives an identifier that the queue does not yet hold.
use lowdown.Prelude.{
  ℕ, ◌+◌, ◌≤◌, ◌≢◌, refl, sym, ap, subst, ◌∙◌, List, [], ◌∷◌, Option, none, some, Bytes, length,
  arith, inl, inr, Bool-cases, All,
}
use lowdown.Tree.{Kind, Node, Nodes, node}
use lowdown.Buffer.{Buf, Sched, size_mod, AllGranted}
use lowdown.Buffer.Copy.{Made, made, broken, hbuf_new, run_new}
use lowdown.Buffer.Copy.Laws.{Holds, run_new-Holds}
use lowdown.Buffer.Name.{hbuf_dupname}
use lowdown.Buffer.Name.Sound.{IsIdByte, hbuf_dupname-IsIdByte}
use lowdown.Ident.{seen, id_of, dup_text, id_name, hbuf_id, extract_children}
use lowdown.Ident.Extract.{texts_of, extract_children-Writes}
use lowdown.Ident.Seen.{seen-has_text}
use lowdown.Ident.Count.{Fresh, insert_tail-Fresh, with_count-Fresh}

id_of-Fresh :
    (n : ℕ) (g : Bytes) (q : List Buf) (m0 : Sched) (r : Made)
    → Holds g m0 r
    → All IsIdByte g
    → g ≢ []
    → length g + length q + 50 ≤ size_mod
    → length g + 21 ≤ n
    → Fresh n q m0 (id_of q r)
unfolding id_of
id_of-Fresh n g q m0 (made (some b) m) (v, c, a) i ne room short =
    let ib = subst (All IsIdByte) (sym c) i in
    elim (Bool-cases (seen q b)) [
      | inl h ↦ rw h (
          with_count-Fresh n b q m0 m a ib (omega (arith, ap length c))
            (omega (arith, ap length c, short)))
      | inr h ↦ rw h (
          insert_tail-Fresh n q b m0 m a (sym (seen-has_text q b) ∙ h) v ib (λ z. ne (sym c ∙ z))
            (omega (arith, ap length c, short)))
    ]
id_of-Fresh n g q m0 (made none m) a i ne room short = (refl, a)
id_of-Fresh n g q m0 broken f i ne room short = f

-- The text that the identifier is made from.
abbrev pub title : Option Buf → Node → Bytes
title (some header) n = header.content
title none (node id kind children) = texts_of children

-- A name is made, or an allocation has been refused.
Named : ℕ → Sched → Made → Type 0
Named size_of m r = (g : Bytes) × Holds g m r × All IsIdByte g × (g ≢ []) × (length g ≤ size_of + 7)

dup_text-Named :
    (d : Bytes) (m : Sched) (r : Made)
    → Holds d m r
    → length d + 39 ≤ size_mod
    → Named (length d) m (dup_text r)
unfolding dup_text Named
dup_text-Named d m (made (some b) m') (v, c, a) room =
    let (g, h, i, n, l) = hbuf_dupname-IsIdByte b m' (omega (arith, ap length c)) in
    (g, Holds-before g m m' (hbuf_dupname b m') a h, i, n, omega (arith, ap length c))
  where
    Holds-before :
        (g : Bytes) (m m' : Sched) (r : Made)
        → (AllGranted m → AllGranted m')
        → Holds g m' r
        → Holds g m r
    Holds-before g m m' (made (some b) k) a (v, c, f) = (v, c, λ x. f (a x))
    Holds-before g m m' (made none k) a f = λ x. f (a x)
    Holds-before g m m' broken a f = f
dup_text-Named d m (made none m') f room = (b'-' ∷ [], f, (refl, tt), (λ e. cc), omega arith)
dup_text-Named d m broken f room = absurd f

id_name-Named :
    (header : Option Buf) (children : Nodes) (m : Sched)
    → length (title header (node 0 Kind.root children)) + 39 ≤ size_mod
    → Named (length (title header (node 0 Kind.root children))) m (id_name header children m)
unfolding id_name Named
id_name-Named (some h) children m room = hbuf_dupname-IsIdByte h m room
id_name-Named none children m room =
    dup_text-Named (texts_of children) m (run_new (extract_children children) (hbuf_new 32 m))
      (run_new-Holds (extract_children children) (texts_of children) m
        (λ s v e f. extract_children-Writes children s v f) (omega arith))
      room

-- For a title that leaves room in size_t, with the length of the queue, hbuf_id ends with an
-- identifier that the queue does not hold yet, appended to it: a valid buffer, not empty, of
-- lower-case letters, digits, dashes, full stops and underscores, at most 28 bytes longer than the
-- title. After a refused allocation it returns NULL, with the queue as it was. It is never undefined.
pub hbuf_id-Fresh :
    (header : Option Buf) (n : Node) (q : List Buf) (m : Sched)
    → length (title header n) + length q + 57 ≤ size_mod
    → Fresh (length (title header n) + 28) q m (hbuf_id header n q m)
unfolding hbuf_id Named
hbuf_id-Fresh (some h) (node id kind children) q m room =
    let (g, p, i, n, l) = id_name-Named (some h) children m (omega arith) in
    id_of-Fresh _ g q m (id_name (some h) children m) p i n (omega arith) (omega (arith, l))
hbuf_id-Fresh none (node id kind children) q m room =
    let (g, p, i, n, l) = id_name-Named none children m (omega arith) in
    id_of-Fresh _ g q m (id_name none children m) p i n (omega arith) (omega (arith, l))
