-- ===== src/Library/Typeset.antt =====
-- What smarty leaves of a tree can be rendered as the tree could, and is not much more to write.
use lowdown.Prelude.{
  ℕ, ◌+◌, ◌*◌, ◌≤◌, ◌≡◌, ◌≢◌, refl, sym, ap, subst, ◌∙◌, [], ◌++◌, append_assoc, Bytes, length,
  length-append, All, arith,
}
use lowdown.Tree.{Kind, Nodes, node, nil, cons}
use lowdown.Ident.Extract.{label, text_of, texts_of}
use lowdown.Smarty.{Entity, ents, ◌+++◌}
use lowdown.Smarty.Pieces.{Pieces, Stands-ne-nil}
use lowdown.Smarty.Expands.{Expands, Rootless}
use lowdown.Render.Kinds.{IsPlain, own_cost}
use lowdown.Render.Nodes.{PlainNodes, IsDocument, nodes_cost}

PlainNodes-+++ :
    (flags : ℕ) (p q : Nodes) → PlainNodes flags p → PlainNodes flags q → PlainNodes flags (p +++ q)
unfolding PlainNodes
PlainNodes-+++ flags nil q h k = k
PlainNodes-+++ flags (cons n p) q (h, hs) k = (h, PlainNodes-+++ flags p q hs k)

nodes_cost-+++ : (p q : Nodes) → nodes_cost (p +++ q) ≡ nodes_cost p + nodes_cost q
unfolding nodes_cost
nodes_cost-+++ nil q = omega arith
nodes_cost-+++ (cons n p) q = omega (arith, nodes_cost-+++ p q)

-- No entity ends a tag or begins one.
ents-plain : (e : Entity) → All (λ c. (c ≢ b'<') × (c ≢ b'>')) (ents e)
unfolding ents
ents-plain Entity.copy = omega arith
ents-plain Entity.reg = omega arith
ents-plain Entity.tmark = omega arith
ents-plain Entity.smark = omega arith
ents-plain Entity.ellip = omega arith
ents-plain Entity.mdash = omega arith
ents-plain Entity.ndash = omega arith
ents-plain Entity.ldquo = omega arith
ents-plain Entity.rdquo = omega arith
ents-plain Entity.lsquo = omega arith
ents-plain Entity.rsquo = omega arith
ents-plain Entity.frac14 = omega arith
ents-plain Entity.frac12 = omega arith
ents-plain Entity.frac34 = omega arith

ents-short : (e : Entity) → length (ents e) ≤ 8
unfolding ents
ents-short Entity.copy = omega arith
ents-short Entity.reg = omega arith
ents-short Entity.tmark = omega arith
ents-short Entity.smark = omega arith
ents-short Entity.ellip = omega arith
ents-short Entity.mdash = omega arith
ents-short Entity.ndash = omega arith
ents-short Entity.ldquo = omega arith
ents-short Entity.rdquo = omega arith
ents-short Entity.lsquo = omega arith
ents-short Entity.rsquo = omega arith
ents-short Entity.frac14 = omega arith
ents-short Entity.frac12 = omega arith
ents-short Entity.frac34 = omega arith

Pieces-Plain :
    (flags : ℕ) {d left : Bytes} {pieces : Nodes} → Pieces d left pieces → PlainNodes flags pieces
unfolding PlainNodes IsPlain
Pieces-Plain flags (Pieces.whole d c) = tt
Pieces-Plain flags (Pieces.last a key ent id st c) = ((ents-plain ent, tt), tt)
Pieces-Plain flags (Pieces.more a key d left ent id further later st c p) =
    ((ents-plain ent, tt), ((tt, tt), Pieces-Plain flags p))

-- A piece costs no more than a constant for each byte of the text.
Pieces-cost :
    {d left : Bytes} {pieces : Nodes}
    → Pieces d left pieces
    → nodes_cost pieces + 6 * length left ≤ 700 * length d
unfolding nodes_cost own_cost
Pieces-cost (Pieces.whole d c) = omega arith
Pieces-cost (Pieces.last a key ent id st c) =
    omega (arith, ents-short ent, Stands-ne-nil key ent st, length-append a key)
Pieces-cost (Pieces.more a key d left ent id further later st c p) = omega (
  arith,
  Pieces-cost p,
  ents-short ent,
  Stands-ne-nil key ent st,
  length-append a (key ++ d),
  length-append key d,
)

Expands-Plain :
    (flags : ℕ) {ns now : Nodes} → Expands ns now → PlainNodes flags ns → PlainNodes flags now
unfolding PlainNodes IsPlain
Expands-Plain flags Expands.end h = tt
Expands-Plain flags (Expands.entered id kind children below ns later en e f) ((h, hs), k) =
    ((h, Expands-Plain flags e hs), Expands-Plain flags f k)
Expands-Plain flags (Expands.untouched id kind children ns later un f) (h, k) =
    (h, Expands-Plain flags f k)
Expands-Plain flags (Expands.cut_up id d left children pieces ns later p f) ((h, hs), k) =
    ((tt, hs), PlainNodes-+++ flags pieces later (Pieces-Plain flags p) (Expands-Plain flags f k))

texts_of-+++ : (p q : Nodes) → texts_of (p +++ q) ≡ texts_of p ++ texts_of q
unfolding texts_of
texts_of-+++ nil q = refl
texts_of-+++ (cons n p) q =
    ap (λ z. text_of n ++ z) (texts_of-+++ p q)
    ∙ sym (append_assoc (text_of n) (texts_of p) (texts_of q))

-- The identifier of a heading is not made from a longer text.
Pieces-texts :
    {d left : Bytes} {pieces : Nodes}
    → Pieces d left pieces
    → length left + length (texts_of pieces) ≤ length d
unfolding texts_of label
Pieces-texts (Pieces.whole d c) = omega arith
Pieces-texts (Pieces.last a key ent id st c) = omega (arith, length-append a key)
Pieces-texts (Pieces.more a key d left ent id further later st c p) = omega (
  arith,
  Pieces-texts p,
  length-append a (key ++ d),
  length-append key d,
  length-append (left ++ []) (texts_of later),
  length-append left [],
)

text_of-le :
    (id : ℕ) (kind : Kind) (below children : Nodes)
    → length (texts_of below) ≤ length (texts_of children)
    → length (text_of (node id kind below)) ≤ length (text_of (node id kind children))
unfolding texts_of
text_of-le id Kind.footnote below children le = omega arith
text_of-le id kind below children le = omega (
  arith,
  le,
  length-append (label kind) (texts_of below),
  length-append (label kind) (texts_of children),
)

Expands-texts : {ns now : Nodes} → Expands ns now → length (texts_of now) ≤ length (texts_of ns)
unfolding texts_of label
Expands-texts Expands.end = omega arith
Expands-texts (Expands.entered id kind children below ns later en e f) = omega (
  arith,
  text_of-le id kind below children (Expands-texts e),
  Expands-texts f,
  length-append (text_of (node id kind below)) (texts_of later),
  length-append (text_of (node id kind children)) (texts_of ns),
)
Expands-texts (Expands.untouched id kind children ns later un f) = omega (
  arith,
  Expands-texts f,
  length-append (text_of (node id kind children)) (texts_of later),
  length-append (text_of (node id kind children)) (texts_of ns),
)
Expands-texts (Expands.cut_up id d left children pieces ns later p f) = omega (
  arith,
  Pieces-texts p,
  Expands-texts f,
  ap length (texts_of-+++ pieces later),
  length-append (texts_of pieces) (texts_of later),
  length-append (left ++ texts_of children) (texts_of (pieces +++ later)),
  length-append left (texts_of children),
  length-append (d ++ texts_of children) (texts_of ns),
  length-append d (texts_of children),
)

own_cost-le :
    (kind : Kind) (below children : Nodes)
    → length (texts_of below) ≤ length (texts_of children)
    → own_cost kind below ≤ own_cost kind children
unfolding own_cost
own_cost-le (Kind.header level a) below children le = omega (arith, le)
own_cost-le kind below children le = omega arith

pub Expands-cost : {ns now : Nodes} → Expands ns now → nodes_cost now ≤ 120 * nodes_cost ns
unfolding nodes_cost own_cost
Expands-cost Expands.end = omega arith
Expands-cost (Expands.entered id kind children below ns later en e f) =
    omega (arith, Expands-cost e, Expands-cost f, own_cost-le kind below children (Expands-texts e))
Expands-cost (Expands.untouched id kind children ns later un f) = omega (arith, Expands-cost f)
Expands-cost (Expands.cut_up id d left children pieces ns later p f) =
    omega (arith, Pieces-cost p, Expands-cost f, nodes_cost-+++ pieces later)

not-root : (flags : ℕ) (kind : Kind) → IsPlain flags kind → kind ≢ Kind.root
unfolding IsPlain
not-root flags Kind.root h = absurd h
not-root flags kind h = λ e. cc

PlainNodes-Rootless : (flags : ℕ) (ns : Nodes) → PlainNodes flags ns → Rootless ns
unfolding PlainNodes Rootless
PlainNodes-Rootless flags nil h = tt
PlainNodes-Rootless flags (cons (node id kind children) ns) ((h, hs), k) =
    (not-root flags kind h, PlainNodes-Rootless flags children hs, PlainNodes-Rootless flags ns k)

IsNil : Nodes → Type 0
IsNil nil = Unit
IsNil (cons n ns) = ⊥

Expands-IsNil : {ns now : Nodes} → Expands ns now → IsNil ns → now ≡ nil
unfolding IsNil
Expands-IsNil Expands.end h = refl
Expands-IsNil (Expands.entered id kind children below ns later en e f) h = absurd h
Expands-IsNil (Expands.untouched id kind children ns later un f) h = absurd h
Expands-IsNil (Expands.cut_up id d left children pieces ns later p f) h = absurd h

-- The header of the document stays empty.
entered-Document :
    (flags id : ℕ) (kind : Kind) (children below ns later : Nodes)
    → Expands children below
    → Expands ns later
    → IsDocument flags (cons (node id kind children) ns)
    → IsDocument flags (cons (node id kind below) later)
unfolding IsDocument IsNil
entered-Document flags id Kind.doc_header nil below ns later e f h =
    subst (λ z. IsDocument flags (cons (node id Kind.doc_header z) later))
      (sym (Expands-IsNil e tt)) (Expands-Plain flags f h)
entered-Document flags id Kind.doc_header (cons n children) below ns later e f h = absurd h
entered-Document flags id kind children below ns later e f h = absurd h

untouched-Document :
    (flags id : ℕ) (kind : Kind) (children ns later : Nodes)
    → Expands ns later
    → IsDocument flags (cons (node id kind children) ns)
    → IsDocument flags (cons (node id kind children) later)
unfolding IsDocument
untouched-Document flags id Kind.doc_header nil ns later f h = Expands-Plain flags f h
untouched-Document flags id Kind.doc_header (cons n children) ns later f h = absurd h
untouched-Document flags id kind children ns later f h = absurd h

pub Expands-Document :
    (flags : ℕ) {ns now : Nodes} → Expands ns now → IsDocument flags ns → IsDocument flags now
unfolding IsDocument
Expands-Document flags Expands.end h = h
Expands-Document flags (Expands.entered id kind children below ns later en e f) h =
    entered-Document flags id kind children below ns later e f h
Expands-Document flags (Expands.untouched id kind children ns later un f) h =
    untouched-Document flags id kind children ns later f h
Expands-Document flags (Expands.cut_up id d left children pieces ns later p f) h = absurd h

pub IsDocument-Rootless : (flags : ℕ) (ns : Nodes) → IsDocument flags ns → Rootless ns
unfolding IsDocument Rootless
IsDocument-Rootless flags nil h = absurd h
IsDocument-Rootless flags (cons (node id Kind.doc_header nil) ns) h =
    ((λ e. cc), tt, PlainNodes-Rootless flags ns h)
IsDocument-Rootless flags (cons (node id Kind.doc_header (cons n below)) ns) h = absurd h
IsDocument-Rootless flags (cons (node id kind below) ns) h = absurd h
