-- ===== src/Smarty/Pieces.antt =====
-- What smarty_text and the loop around it in src/library/smartypants.c make of one text.
use lowdown.Prelude.{
  ℕ, zero, suc, ◌+◌, ◌*◌, ◌^◌, ◌≤◌, ◌<◌, ◌≡◌, refl, sym, ap, ◌∙◌, subst, Bool, true, false, ◌&&◌,
  List, [], ◌∷◌, ◌++◌, append_assoc, append-nil, Option, none, some, Bytes, length, length-append,
  take, take-append, drop, drop-append, get_elem?, ltb, leb, ◌==◌, if◌then◌else◌, arith,
}
use lowdown.Tree.{Kind, Node, Nodes, node, nil, cons}
use lowdown.Buffer.{Sched}
use lowdown.Smarty.{
  syms, syms2, Entity, ents, Scan, clean, cut, S, ◌>>=◌, return, smarty_scan, smarty_text,
  smarty_entity, split_rest, split_text, right_wb_nodes,
}
use lowdown.Smarty.Post.{Post, Post->>=, Post-return, Parted, next, next_lem, smarty_entity-Post}
use lowdown.Smarty.Scanned.{Stands, Clear, Cuts, smarty_scan-Cuts}

-- How often an identifier occurs.
unfoldable mutual
  pub node_count : ℕ → Node → ℕ
  node_count x (node id kind children) =
      let below = count x children in if x == id then 1 + below else below

  pub count : ℕ → Nodes → ℕ
  count x nil = 0
  count x (cons n ns) = node_count x n + count x ns

-- Whether `x` is one of the identifiers given out between `m` and `k`.
unfoldable pub new : ℕ → ℕ → ℕ → ℕ
new x m k = if leb m x && ltb x k then 1 else 0

-- A text and the nodes that take its place: what is left of it, each symbol as the entity that it
-- stands for, and the texts between. A symbol that needs no wordbreak is never left.
pub data Pieces : Bytes → Bytes → Nodes → Type 0 where
  whole : (d : Bytes) → Clear (length d) d → Pieces d d nil
  last :
      (a key : Bytes) (ent : Entity) (id : ℕ)
      → Stands key ent
      → Clear (length a) (a ++ key)
      → Pieces (a ++ key) a (cons (node id (Kind.entity (ents ent)) nil) nil)
  more :
      (a key d left : Bytes) (ent : Entity) (id further : ℕ) (later : Nodes)
      → Stands key ent
      → Clear (length a) (a ++ (key ++ d))
      → Pieces d left later
      → Pieces (a ++ (key ++ d)) a (
          cons
            (node id (Kind.entity (ents ent)) nil)
            (cons (node further (Kind.normal_text false left) nil) later))

-- The node of a text and those behind it.
unfoldable pub Split : ℕ → Nodes → Bytes → ℕ → Nodes × Bool → ℕ → Type 0
Split id children d m (now, left_wb) k =
    (left : Bytes) × (pieces : Nodes) × (now
      ≡ cons (node id (Kind.normal_text false left) children) pieces)
    × Pieces d left pieces
    × (m + 2 * length d < 2 ^ 64
        → (m ≤ k) × (k ≤ m + 2 * length d) × ((x : ℕ) → count x pieces ≡ new x m k))

module _ (id : ℕ) (children : Nodes) (d a key r : Bytes) (ent : Entity)
    (parts : d ≡ a ++ (key ++ r)) (stands : Stands key ent) (first : Clear (length a) d) where
  drop-parts : drop (length a + length key) d ≡ r
  drop-parts =
      rw (sym (length-append a key), parts ∙ sym (append_assoc a key r)) (drop-append (a ++ key) r)

  take-parts : take (length a) d ≡ a
  take-parts = ap (take (length a)) parts ∙ take-append a (key ++ r)

  last-Pieces : (n : ℕ) → r ≡ [] → Pieces d a (cons (node n (Kind.entity (ents ent)) nil) nil)
  last-Pieces n e =
      let whole_text : d ≡ a ++ key = parts ∙ rw (e, append-nil key) in
      subst (λ z. Pieces z a (cons (node n (Kind.entity (ents ent)) nil) nil)) (sym whole_text)
        (Pieces.last a key ent n stands (subst (Clear (length a)) whole_text first))

  more-Pieces :
      (left : Bytes) (n further : ℕ) (later : Nodes)
      → Pieces r left later
      → Pieces d a (
          cons
            (node n (Kind.entity (ents ent)) nil)
            (cons (node further (Kind.normal_text false left) nil) later))
  more-Pieces left n further later p =
      subst
        (λ z. Pieces z a (
          cons (node n (Kind.entity (ents ent)) nil)
            (cons (node further (Kind.normal_text false left) nil) later)))
        (sym parts)
        (Pieces.more a key r left ent n further later stands (subst (Clear (length a)) parts first)
          p)

new-suc : (x m k : ℕ) → m + 1 ≤ k → (if x == m then 1 else 0) + new x (m + 1) k ≡ new x m k
unfolding new
new-suc x m k le = ground arith

pub new-same : (x m : ℕ) → new x m m ≡ 0
unfolding new
new-same x m = ground arith

pub new-add : (x m k l : ℕ) → m ≤ k → k ≤ l → new x m k + new x k l ≡ new x m l
unfolding new
new-add x m k l p q = ground arith

-- No key of a table is empty.
has_keys : List (Bytes × Entity) → Bool
has_keys [] = true
has_keys ((key, ent) ∷ table) = leb 1 (length key) && has_keys table

has_keys_lem :
    (table : List (Bytes × Entity)) (i : ℕ) (key : Bytes) (ent : Entity)
    → has_keys table ≡ true
    → get_elem? table i ≡ some (key, ent)
    → 1 ≤ length key
unfolding has_keys
has_keys_lem [] i key ent h e = cc
has_keys_lem ((k, n) ∷ table) zero key ent h e =
    let same : k ≡ key = cc in subst (λ z. 1 ≤ length z) same (ground arith)
has_keys_lem ((k, n) ∷ table) (suc i) key ent h e = has_keys_lem table i key ent (ground arith) e

pub Stands-ne-nil : (key : Bytes) (ent : Entity) → Stands key ent → 1 ≤ length key
unfolding has_keys
Stands-ne-nil key ent (Stands.anywhere i e) = has_keys_lem syms i key ent refl e
Stands-ne-nil key ent (Stands.fraction i e) = has_keys_lem syms2 i key ent refl e
Stands-ne-nil key ent Stands.left_double = omega arith
Stands-ne-nil key ent Stands.right_double = omega arith
Stands-ne-nil key ent Stands.left_single = omega arith
Stands-ne-nil key ent Stands.right_single = omega arith

pub if_suc : (b : Bool) (n : ℕ) → (if b then 1 + n else n) ≡ (if b then 1 else 0) + n
if_suc true n = omega arith
if_suc false n = omega arith

Split-whole :
    (id : ℕ) (children : Nodes) (d : Bytes) (left_wb : Bool) (m : ℕ)
    → Clear (length d) d
    → Split id children d m (cons (node id (Kind.normal_text false d) children) nil, left_wb) m
unfolding Split count
Split-whole id children d left_wb m c =
    (d, nil, refl, Pieces.whole d c, λ _. (omega arith, omega arith, λ x. sym (new-same x m)))

new-cons :
    (x m k : ℕ) (kind : Kind) (ns : Nodes)
    → m + 1 ≤ k
    → count x ns ≡ new x (m + 1) k
    → count x (cons (node m kind nil) ns) ≡ new x m k
unfolding count
new-cons x m k kind ns le e = omega (arith, if_suc (x == m) 0, new-suc x m k le, e)

-- What the loop does behind a new entity.
behind :
    ℕ
    → Nodes
    → Bytes
    → ℕ
    → Entity
    → Bool
    → (ℕ → Bool → Bytes → S (Nodes × Bool))
    → ℕ × Option (ℕ × Bytes)
    → S (Nodes × Bool)
behind id children d i ent left_wb go (nent, nn) = do
  (later, after) ← split_rest go left_wb nn
  return (
    cons (node id (Kind.normal_text false (take i d)) children)
        (cons (node nent (Kind.entity (ents ent)) nil) later),
    after,
  )

behind-Split :
    (id : ℕ) (children : Nodes) (d a key r : Bytes) (ent : Entity) (parts : d ≡ a ++ (key ++ r))
    (stands : Stands key ent) (first : Clear (length a) d) (left_wb : Bool)
    (go : ℕ → Bool → Bytes → S (Nodes × Bool))
    (ih : (n k : ℕ) (left : Bool) (t : Sched) → Post t (Split n nil r k) (go n left r k t))
    (m k : ℕ) (nent : ℕ) (nn : Option (ℕ × Bytes)) (t : Sched)
    → Parted (drop (length a + length key) d) m (nent, nn) k
    → Post t (Split id children d m) (behind id children d (length a) ent left_wb go (nent, nn) k t)
unfolding behind split_rest Parted Split count
behind-Split id children d a key r ent parts stands first left_wb go ih m k nent none t (e, f, g) =
    Post-return (Split id children d m)
      (
        cons (node id (Kind.normal_text false (take (length a) d)) children)
            (cons (node nent (Kind.entity (ents ent)) nil) nil),
        left_wb,
      )
      k t
      (
        a,
        cons (node nent (Kind.entity (ents ent)) nil) nil,
        rw (take-parts id children d a key r ent parts stands first) refl,
        last-Pieces id children d a key r ent parts stands first nent
            (sym (drop-parts id children d a key r ent parts stands first) ∙ f),
        λ room.
            let size : 1 ≤ length d = omega (
              arith,
              ap length parts,
              length-append a (key ++ r),
              length-append key r,
              Stands-ne-nil key ent stands,
            ) in
            let one : k ≡ m + 1 = g ∙ next_lem m (omega (arith, room, size)) in
            (
              omega (arith, one),
              omega (arith, one, size),
              λ x.
                  rw (e, one)
                    (new-cons x m (m + 1) (Kind.entity (ents ent)) nil (omega arith)
                      (sym (new-same x (m + 1)))),
            ),
      )
behind-Split id children d a key r ent parts stands first left_wb go ih m k nent (some (n, w)) t
      (e, f, g, h) =
    Post->>= (Split n nil r k) (Split id children d m) (go n left_wb w)
      (λ (later, after). return (
        cons (node id (Kind.normal_text false (take (length a) d)) children)
            (cons (node nent (Kind.entity (ents ent)) nil) later),
        after,
      ))
      k t
      (subst (λ z. Post t (Split n nil r k) (go n left_wb z k t))
        (sym (f ∙ drop-parts id children d a key r ent parts stands first)) (ih n k left_wb t))
      (λ (later, after) j u (left, pieces, e', pc, cnt).
        Post-return (Split id children d m)
          (
            cons (node id (Kind.normal_text false (take (length a) d)) children)
                (cons (node nent (Kind.entity (ents ent)) nil) later),
            after,
          )
          j u
          (
            a,
            cons (node nent (Kind.entity (ents ent)) nil) later,
            rw (take-parts id children d a key r ent parts stands first) refl,
            rw e' (more-Pieces id children d a key r ent parts stands first left nent n pieces pc),
            λ room.
                let size : length r + 1 ≤ length d = omega (
                  arith,
                  ap length parts,
                  length-append a (key ++ r),
                  length-append key r,
                  Stands-ne-nil key ent stands,
                ) in
                let one : next m ≡ m + 1 = next_lem m (omega (arith, room, size)) in
                let two : k ≡ m + 1 + 1 =
                  h ∙ ap next one ∙ next_lem (m + 1) (omega (arith, room, size)) in
                let (le, up, each) = cnt (omega (arith, room, size, two)) in
                (
                  omega (arith, two, le),
                  omega (arith, two, up, size),
                  λ x.
                      rw (e, e', g ∙ one)
                        (new-cons x m j (Kind.entity (ents ent))
                          (cons (node (m + 1) (Kind.normal_text false left) nil) pieces)
                          (omega (arith, two, le))
                          (new-cons x (m + 1) j (Kind.normal_text false left) pieces
                            (omega (arith, two, le))
                            (subst (λ z. count x pieces ≡ new x z j) two (each x)))),
                ),
          ))

pub split_text-Split :
    (fuel id : ℕ) (children : Nodes) (next left_wb : Bool) (d : Bytes) (m : ℕ) (s : Sched)
    → length d < fuel
    → Post s (Split id children d m) (split_text fuel id false children next left_wb d m s)
unfolding split_text smarty_text Cuts behind
split_text-Split zero id children next left_wb d m s lt = absurd (omega arith)
split_text-Split (suc fuel) id children next left_wb d m s lt =
    by_scan (smarty_scan left_wb (right_wb_nodes children next) 0 d)
      (smarty_scan-Cuts left_wb (right_wb_nodes children next) 0 d)
      (λ n left e k t. split_text-Split fuel n nil next left e k t)
  where
    go : ℕ → Bool → Bytes → S (Nodes × Bool)
    go = λ n left e. split_text fuel n false nil next left e

    resume : Scan → S (Nodes × Bool)
    resume (clean left) = return (cons (node id (Kind.normal_text false d) children) nil, left)
    resume (cut i key ent skip left) =
        smarty_entity d (i + length key) >>= behind id children d i ent (skip && left) go

    by_scan :
        (o : Scan)
        → Cuts 0 d o
        → ((n : ℕ) (left : Bool) (e : Bytes) (k : ℕ) (t : Sched)
            → length e < fuel
            → Post t (Split n nil e k) (go n left e k t))
        → Post s (Split id children d m) (resume o m s)
    by_scan (clean left) c ih =
        Post-return (Split id children d m)
          (cons (node id (Kind.normal_text false d) children) nil, left) m s
          (Split-whole id children d left m c)
    by_scan (cut i key ent skip left) (a, r, e, f, st, first) ih =
        let at : length a ≡ i = omega (arith, f) in
        subst
          (λ j. Post s (Split id children d m) (
            (smarty_entity d (j + length key) >>= behind id children d j ent (skip && left) go) m
              s))
          at
          (Post->>= (Parted (drop (length a + length key) d) m) (Split id children d m)
            (smarty_entity d (length a + length key))
            (behind id children d (length a) ent (skip && left) go) m s
            (smarty_entity-Post d (length a + length key) m s)
            (λ (nent, nn) k t p.
              behind-Split id children d a key r ent e st first (skip && left) go
                (λ n k left t. ih n left r k t (
                  omega (
                    arith,
                    ap length e,
                    length-append a (key ++ r),
                    length-append key r,
                    Stands-ne-nil key ent st,
                  )))
                m k nent nn t p))
