-- ===== src/Smarty/Whole.antt =====
-- smarty of src/library/smartypants.c on a whole document.
use lowdown.Prelude.{
  ℕ, ◌+◌, ◌*◌, ◌^◌, ◌≤◌, ◌<◌, ◌&&◌, ◌⊎◌, inl, inr, Bool-cases, ◌≡◌, refl, Bool, true, false, Option,
  some, ltb, leb, arith, ◌==◌,
}
use lowdown.Tree.{Kind, Node, Nodes, node, nil, cons}
use lowdown.Buffer.{Sched}
use lowdown.Smarty.{smarty, smarty_nodes, types, return}
use lowdown.Smarty.Post.{Post, Post->>=, Post-return}
use lowdown.Smarty.Pieces.{node_count, count, new, if_suc}
use lowdown.Smarty.Expands.{Expands, Rootless, Grown, text_bytes, smarty_nodes-Grown}

-- Each identifier stands once at most, and below the next one to be given.
unfoldable pub Unique : ℕ → Nodes → Type 0
Unique maxn ns = (x : ℕ) → (count x ns ≤ 1) × (maxn ≤ x → count x ns ≡ 0)

smarty-Post :
    (id : ℕ) (children : Nodes) (maxn : ℕ) (s : Sched) (Q : Option Node → ℕ → Type 0)
    → Rootless children
    → ((p : Nodes × Bool) (k : ℕ) → Grown children maxn p k → Q (some (node id Kind.root (p.0))) k)
    → Post s Q (smarty (some (node id Kind.root children)) maxn s)
unfolding smarty types
smarty-Post id children maxn s Q r h =
    Post->>= (Grown children maxn) Q (smarty_nodes false true true children)
      (λ (below, _). return (some (node id Kind.root below))) maxn s
      (smarty_nodes-Grown false true true children maxn s r)
      (λ (below, left) k t g.
        Post-return Q (some (node id Kind.root below)) k t (h (below, left) k g))

new-cases : (x m k : ℕ) → (new x m k ≡ 0) ⊎ ((m ≤ x) × (x < k) × (new x m k ≡ 1))
unfolding new
new-cases x m k = elim (Bool-cases (leb m x && ltb x k)) [
  | inl h ↦ rw h (inr (ground arith, ground arith, refl))
  | inr h ↦ rw h (inl refl)
]

-- Where the identifiers of the tree are unique and below the next one, and there is room in size_t
-- for two more for each byte of the texts, they are so afterwards.
pub smarty-Unique :
    (id : ℕ) (children : Nodes) (maxn : ℕ) (s : Sched)
    → Rootless children
    → Unique maxn (cons (node id Kind.root children) nil)
    → maxn + 2 * text_bytes children < 2 ^ 64
    → Post s
        (λ o k. (n : Node) × (o ≡ some n) × Unique k (cons n nil))
        (smarty (some (node id Kind.root children)) maxn s)
unfolding Grown Unique count node_count
smarty-Unique id children maxn s r u room = smarty-Post id children maxn s _ r (λ (now, _) k (_, c).
    let (le, _, each) = c room in (node id Kind.root now, refl, λ x. once x now k le (each x)))
  where
    once :
        (x : ℕ) (now : Nodes) (k : ℕ)
        → maxn ≤ k
        → count x now ≡ count x children + new x maxn k
        → (count x (cons (node id Kind.root now) nil) ≤ 1)
          × (k ≤ x → count x (cons (node id Kind.root now) nil) ≡ 0)
    once x now k le c =
        let (one, zero) = u x in
        let before = if_suc (x == id) (count x children) in
        let after = if_suc (x == id) (count x now) in
        elim (new-cases x maxn k) [
          | inl e ↦ (
            omega (arith, one, before, after, c, e),
            λ h. omega (arith, zero (omega (arith, le, h)), before, after, c, e),
          )
          | inr (a, b, e) ↦ (omega (arith, zero a, before, after, c, e), λ h. omega (arith, h, b))
        ]
