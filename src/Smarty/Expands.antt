-- ===== src/Smarty/Expands.antt =====
-- What smarty of src/library/smartypants.c makes of a tree, against a description of it.
use lowdown.Prelude.{
  ℕ, zero, suc, ◌+◌, ◌*◌, ◌^◌, ◌≤◌, ◌<◌, ◌≡◌, ◌≢◌, refl, sym, subst, Bool, true, false, Bytes,
  length, ◌==◌, if◌then◌else◌, arith,
}
use lowdown.Tree.{Kind, Nodes, node, nil, cons}
use lowdown.Buffer.{Sched}
use lowdown.Smarty.{
  Outcome, done, failed, undefined, Class, types, S, ◌>>=◌, return, ◌+++◌, smarty_text, split_text,
  text_node, smarty_nodes, right_wb_nodes,
}
use lowdown.Smarty.Post.{Post, Post->>=, Post-return}
use lowdown.Smarty.Pieces.{
  Pieces, Split, node_count, count, new, new-add, new-same, if_suc, split_text-Split,
}

-- The nodes whose children are visited.
pub Entered : Class → Type 0
Entered Class.root = Unit
Entered Class.block = Unit
Entered Class.span = Unit
Entered _ = ⊥

-- The nodes that are left alone: escaped texts, line breaks and what is opaque.
pub Untouched : Kind → Type 0
Untouched (Kind.normal_text escaped _) = escaped ≡ true
Untouched Kind.linebreak = Unit
Untouched kind = types kind ≡ Class.opaque

-- A tree and the tree that takes its place.
pub data Expands : Nodes → Nodes → Type 0 where
  end : Expands nil nil
  entered :
      (id : ℕ) (kind : Kind) (children below ns later : Nodes)
      → Entered (types kind)
      → Expands children below
      → Expands ns later
      → Expands (cons (node id kind children) ns) (cons (node id kind below) later)
  untouched :
      (id : ℕ) (kind : Kind) (children ns later : Nodes)
      → Untouched kind
      → Expands ns later
      → Expands (cons (node id kind children) ns) (cons (node id kind children) later)
  cut_up :
      (id : ℕ) (d left : Bytes) (children pieces ns later : Nodes)
      → Pieces d left pieces
      → Expands ns later
      → Expands
          (cons (node id (Kind.normal_text false d) children) ns)
          (cons (node id (Kind.normal_text false left) children) (pieces +++ later))

-- No node is a root.
unfoldable pub Rootless : Nodes → Type 0
Rootless nil = Unit
Rootless (cons (node id kind children) ns) = (kind ≢ Kind.root) × Rootless children × Rootless ns

-- How long the texts of a tree are: there are at most two new identifiers for each byte.
unfoldable pub text_size : Kind → ℕ
text_size (Kind.normal_text escaped d) = length d
text_size _ = 0

unfoldable pub text_bytes : Nodes → ℕ
unfolding text_size
text_bytes nil = 0
text_bytes (cons (node id kind children) ns) = text_size kind + text_bytes children + text_bytes ns

-- The nodes that are there afterwards, with the new identifiers where there is room for them.
unfoldable pub Grown : Nodes → ℕ → Nodes × Bool → ℕ → Type 0
unfolding text_bytes
Grown ns m (now, left_wb) k =
    Expands ns now
    × (m + 2 * text_bytes ns < 2 ^ 64
        → (m ≤ k) × (k ≤ m + 2 * text_bytes ns) × ((x : ℕ) → count x now ≡ count x ns + new x m k))

count-+++ : (x : ℕ) (p q : Nodes) → count x (p +++ q) ≡ count x p + count x q
unfolding count
count-+++ x nil q = omega arith
count-+++ x (cons n p) q = omega (arith, count-+++ x p q)

-- The nodes in the place of a node that is neither entered nor left alone as it is.
Texted : ℕ → Kind → Nodes → ℕ → Nodes × Bool → ℕ → Type 0
Texted id kind children m (now, left_wb) k =
    ((ns later : Nodes)
      → Expands ns later
      → Expands (cons (node id kind children) ns) (now +++ later))
    × (m + 2 * text_size kind < 2 ^ 64
        → (m ≤ k)
          × (k ≤ m + 2 * text_size kind)
          × ((x : ℕ) → count x now ≡ node_count x (node id kind children) + new x m k))

alone-Texted :
    (id : ℕ) (kind : Kind) (children : Nodes) (m : ℕ) (left_wb : Bool)
    → Untouched kind
    → Texted id kind children m (cons (node id kind children) nil, left_wb) m
unfolding Texted count
alone-Texted id kind children m left_wb u = (
  λ ns later e. Expands.untouched id kind children ns later u e,
  λ _. (omega arith, omega arith, λ x. omega (arith, new-same x m)),
)

Split-Texted :
    (id : ℕ) (children : Nodes) (d : Bytes) (m k : ℕ) (p : Nodes × Bool)
    → Split id children d m p k
    → Texted id (Kind.normal_text false d) children m p k
unfolding Texted Split count text_size
Split-Texted id children d m k (now, left_wb) (left, pieces, e, pc, cnt) = (
  λ ns later x. rw e (Expands.cut_up id d left children pieces ns later pc x),
  λ room. let (le, up, each) = cnt room in (le, up, λ x. rw e (omega (arith, each x))),
)

enter-Grown :
    (id : ℕ) (kind : Kind) (children ns : Nodes) (m : ℕ) (s : Sched) (below : S (Nodes × Bool))
    (later : Bool → S (Nodes × Bool))
    → Entered (types kind)
    → Post s (Grown children m) (below m s)
    → ((left : Bool) (k : ℕ) (t : Sched) → Post t (Grown ns k) (later left k t))
    → Post s (Grown (cons (node id kind children) ns) m) (
        (do
          (now, left) ← below
          (rest, after) ← later left
          return (cons (node id kind now) rest, after))
          m s)
unfolding Grown count text_bytes
enter-Grown id kind children ns m s below later e p q =
    Post->>= (Grown children m) (Grown (cons (node id kind children) ns) m) below
      (λ (now, left). do (rest, after) ← later left; return (cons (node id kind now) rest, after)) m
      s p
      (λ (now, left) k t (x, c).
        Post->>= (Grown ns k) (Grown (cons (node id kind children) ns) m) (later left)
          (λ (rest, after). return (cons (node id kind now) rest, after)) k t (q left k t)
          (λ (rest, after) j u (y, d).
            Post-return (Grown (cons (node id kind children) ns) m)
              (cons (node id kind now) rest, after) j u
              (
                Expands.entered id kind children now ns rest e x y,
                λ room.
                    let (le, up, cs) = c (omega (arith, room)) in
                    let (le', up', ds) = d (omega (arith, room, up)) in
                    (
                      omega (arith, le, le'),
                      omega (arith, up, up'),
                      λ z. omega (
                        arith,
                        if_suc (z == id) (count z now),
                        if_suc (z == id) (count z children),
                        cs z,
                        ds z,
                        new-add z m k j le le',
                      ),
                    ),
              )))

text-Grown :
    (id : ℕ) (kind : Kind) (children ns : Nodes) (m : ℕ) (s : Sched) (text : S (Nodes × Bool))
    (later : Bool → S (Nodes × Bool))
    → Post s (Texted id kind children m) (text m s)
    → ((left : Bool) (k : ℕ) (t : Sched) → Post t (Grown ns k) (later left k t))
    → Post s (Grown (cons (node id kind children) ns) m) (
        (do (pieces, left) ← text; (rest, after) ← later left; return (pieces +++ rest, after)) m s)
unfolding Grown Texted count text_bytes
text-Grown id kind children ns m s text later p q =
    Post->>= (Texted id kind children m) (Grown (cons (node id kind children) ns) m) text
      (λ (now, left). do (rest, after) ← later left; return (now +++ rest, after)) m s p
      (λ (now, left) k t (x, c).
        Post->>= (Grown ns k) (Grown (cons (node id kind children) ns) m) (later left)
          (λ (rest, after). return (now +++ rest, after)) k t (q left k t)
          (λ (rest, after) j u (y, d).
            Post-return (Grown (cons (node id kind children) ns) m) (now +++ rest, after) j u
              (
                x ns rest y,
                λ room.
                    let (le, up, cs) = c (omega (arith, room)) in
                    let (le', up', ds) = d (omega (arith, room, up)) in
                    (
                      omega (arith, le, le'),
                      omega (arith, up, up'),
                      λ z. omega (arith, count-+++ z now rest, cs z, ds z, new-add z m k j le le'),
                    ),
              )))

escaped-Texted :
    (fuel id : ℕ) (children : Nodes) (next left_wb : Bool) (d : Bytes) (m : ℕ) (s : Sched)
    → 0 < fuel
    → Post s
        (Texted id (Kind.normal_text true d) children m)
        (split_text fuel id true children next left_wb d m s)
unfolding split_text smarty_text Untouched
escaped-Texted zero id children next left_wb d m s lt = absurd (omega arith)
escaped-Texted (suc fuel) id children next left_wb d m s lt =
    Post-return (Texted id (Kind.normal_text true d) children m)
      (cons (node id (Kind.normal_text true d) children) nil, left_wb) m s
      (alone-Texted id (Kind.normal_text true d) children m left_wb refl)

split-Texted :
    (id : ℕ) (children : Nodes) (next left_wb : Bool) (d : Bytes) (m : ℕ) (s : Sched)
    → Post s
        (Texted id (Kind.normal_text false d) children m)
        (split_text (length d + 1) id false children next left_wb d m s)
unfolding Post
split-Texted id children next left_wb d m s =
    by_outcome (split_text (length d + 1) id false children next left_wb d m s)
      (split_text-Split (length d + 1) id children next left_wb d m s (omega arith))
  where
    by_outcome :
        (o : Outcome (Nodes × Bool))
        → Post s (Split id children d m) o
        → Post s (Texted id (Kind.normal_text false d) children m) o
    by_outcome (done p k t) (h, g) = (Split-Texted id children d m k p h, g)
    by_outcome failed h = h
    by_outcome undefined h = h

text_node-Texted :
    (id : ℕ) (kind : Kind) (children : Nodes) (next left_wb : Bool) (m : ℕ) (s : Sched)
    → types kind ≡ Class.text
    → Post s (Texted id kind children m) (text_node id kind children next left_wb m s)
unfolding text_node types Untouched
text_node-Texted id (Kind.normal_text true d) children next left_wb m s e =
    escaped-Texted (length d + 1) id children next left_wb d m s (omega arith)
text_node-Texted id (Kind.normal_text false d) children next left_wb m s e =
    split-Texted id children next left_wb d m s
text_node-Texted id Kind.linebreak children next left_wb m s e =
    Post-return (Texted id Kind.linebreak children m)
      (cons (node id Kind.linebreak children) nil, true) m s
      (alone-Texted id Kind.linebreak children m true tt)
text_node-Texted id kind children next left_wb m s e = absurd cc

alone-Grown :
    (id : ℕ) (kind : Kind) (children ns : Nodes) (m : ℕ) (s : Sched) (later : S (Nodes × Bool))
    → Untouched kind
    → Post s (Grown ns m) (later m s)
    → Post s
        (Grown (cons (node id kind children) ns) m)
        ((do (rest, after) ← later; return (cons (node id kind children) rest, after)) m s)
unfolding Grown count text_bytes
alone-Grown id kind children ns m s later u p =
    Post->>= (Grown ns m) (Grown (cons (node id kind children) ns) m) later
      (λ (rest, after). return (cons (node id kind children) rest, after)) m s p
      (λ (rest, after) k t (y, d).
        Post-return (Grown (cons (node id kind children) ns) m)
          (cons (node id kind children) rest, after) k t
          (
            Expands.untouched id kind children ns rest u y,
            λ room.
                let (le, up, ds) = d (omega (arith, room)) in
                (le, omega (arith, up), λ z. omega (arith, ds z)),
          ))

opaque-Untouched : (kind : Kind) → types kind ≡ Class.opaque → Untouched kind
unfolding types Untouched
opaque-Untouched (Kind.normal_text escaped d) e = absurd cc
opaque-Untouched Kind.linebreak e = absurd cc
opaque-Untouched kind e = e

root-kind : (kind : Kind) → types kind ≡ Class.root → kind ≡ Kind.root
unfolding types
root-kind Kind.root e = refl
root-kind kind e = absurd cc

pub smarty_nodes-Grown :
    (in_span up left_wb : Bool) (ns : Nodes) (m : ℕ) (s : Sched)
    → Rootless ns
    → Post s (Grown ns m) (smarty_nodes in_span up left_wb ns m s)
unfolding smarty_nodes Rootless Grown Entered text_bytes
smarty_nodes-Grown in_span up left_wb nil m s r =
    Post-return (Grown nil m) (nil, left_wb) m s
      (Expands.end, λ _. (omega arith, omega arith, λ x. omega (arith, new-same x m)))
smarty_nodes-Grown in_span up left_wb (cons (node id kind children) ns) m s (n, c, r) =
    by_class (types kind) refl (smarty_nodes-Grown false (right_wb_nodes ns up) true children m s c)
      (smarty_nodes-Grown true (right_wb_nodes ns up) left_wb children m s c)
      (λ left k t. smarty_nodes-Grown in_span up left ns k t r)
  where
    now : Nodes
    now = cons (node id kind children) ns

    next : Bool
    next = right_wb_nodes ns up

    as_block : S (Nodes × Bool)
    as_block = do
      (below, _) ← smarty_nodes false next true children
      (later, after) ← smarty_nodes in_span up left_wb ns
      return (cons (node id kind below) later, after)

    resume : Class → S (Nodes × Bool)
    resume Class.root = if in_span then (λ maxn s. undefined) else as_block
    resume Class.block = as_block
    resume Class.span = do
      (below, left) ← smarty_nodes true next left_wb children
      (later, after) ← smarty_nodes in_span up left ns
      return (cons (node id kind below) later, after)
    resume Class.opaque = do
      (later, after) ← smarty_nodes in_span up false ns
      return (cons (node id kind children) later, after)
    resume Class.text = do
      (pieces, left) ← text_node id kind children next left_wb
      (later, after) ← smarty_nodes in_span up left ns
      return (pieces +++ later, after)

    by_class :
        (class : Class)
        → types kind ≡ class
        → Post s (Grown children m) (smarty_nodes false next true children m s)
        → Post s (Grown children m) (smarty_nodes true next left_wb children m s)
        → ((left : Bool) (k : ℕ) (t : Sched)
            → Post t (Grown ns k) (smarty_nodes in_span up left ns k t))
        → Post s (Grown now m) (resume class m s)
    by_class Class.root e block span later = absurd (n (root-kind kind e))
    by_class Class.block e block span later =
        enter-Grown id kind children ns m s (smarty_nodes false next true children)
          (λ _. smarty_nodes in_span up left_wb ns) (subst Entered (sym e) tt) block
          (λ _ k t. later left_wb k t)
    by_class Class.span e block span later =
        enter-Grown id kind children ns m s (smarty_nodes true next left_wb children)
          (λ left. smarty_nodes in_span up left ns) (subst Entered (sym e) tt) span later
    by_class Class.opaque e block span later =
        alone-Grown id kind children ns m s (smarty_nodes in_span up false ns)
          (opaque-Untouched kind e) (later false m s)
    by_class Class.text e block span later =
        text-Grown id kind children ns m s (text_node id kind children next left_wb)
          (λ left. smarty_nodes in_span up left ns)
          (text_node-Texted id kind children next left_wb m s e) later
