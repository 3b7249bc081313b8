-- ===== src/Parse/Header/Cut.antt =====
-- What parse_header_ext_attrs of src/parse/document.c leaves of the children of a header.
use lowdown.Prelude.{
  ℕ, zero, suc, ◌+◌, ◌≤◌, ◌<◌, ◌≡◌, refl, sym, ap, ◌∙◌, Bool, true, false, [], ◌∷◌, ◌++◌,
  append_assoc, some, Bytes, length, length-append, replicate, take, take-append, get_or, last_or,
  is_nil, ◌==◌, ==_iff, if◌then◌else◌, arith, All, inl, inr, Bool-cases,
}
use lowdown.Tree.{Kind, Node, Nodes, node, nil, cons}
use lowdown.Buffer.{Sched}
use lowdown.Smarty.{◌+++◌}
use lowdown.Parse.Attrs.{Attrs}
use lowdown.Parse.Attrs.Block.{Parsed, parsed, lost, lowdown_attrs_parse}
use lowdown.Parse.Header.{
  Headed, headed, undefined, last_node, map_last, rtrim, cut_text, after_attrs,
  parse_header_ext_attrs,
}
use lowdown.Parse.Header.Braces.{NoBrace, parse_header_ext_attrs-after}

-- The children with the text that is left as the last one, or without a last one where no text is
-- left.
abbrev pub with_left : Nodes → ℕ → Bool → Bytes → Nodes → Nodes
with_left before id escaped left below =
    before
    +++ (if is_nil left then nil else cons (node id (Kind.normal_text escaped left) below) nil)

-- The outcome for a header, by that of the block.
unfoldable pub by_block : Nodes → Nodes → Parsed → Headed
by_block whole cut (parsed zero a m) = headed false whole a m
by_block whole cut (parsed (suc r) a m) = headed true cut a m
by_block whole cut lost = undefined

last_node-+++ : (before : Nodes) (n : Node) → last_node (before +++ cons n nil) ≡ some n
unfolding last_node
last_node-+++ nil n = refl
last_node-+++ (cons b nil) n = refl
last_node-+++ (cons b (cons c bs)) n = last_node-+++ (cons c bs) n

map_last-+++ :
    (f : Node → Nodes) (before : Nodes) (n : Node)
    → map_last f (before +++ cons n nil) ≡ before +++ f n
unfolding map_last
map_last-+++ f nil n = refl
map_last-+++ f (cons b nil) n = refl
map_last-+++ f (cons b (cons c bs)) n = ap (cons b) (map_last-+++ f (cons c bs) n)

get_or-last :
    (left r : Bytes) (k : ℕ) → length left ≡ suc k → get_or (left ++ r) k 0 ≡ last_or left 0
get_or-last [] r k e = absurd (omega (arith, e))
get_or-last (x ∷ []) r zero e = refl
get_or-last (x ∷ []) r (suc k) e = absurd (omega (arith, e))
get_or-last (x ∷ (y ∷ left)) r zero e = absurd (omega (arith, e))
get_or-last (x ∷ (y ∷ left)) r (suc k) e = get_or-last (y ∷ left) r k (omega (arith, e))

get_or-spaces :
    (left r : Bytes) (n i : ℕ)
    → length left ≤ i
    → i < length left + n
    → get_or (left ++ (replicate n b' ' ++ r)) i 0 ≡ b' '
get_or-spaces [] r zero i le lt = absurd (omega (arith, lt))
get_or-spaces [] r (suc n) zero le lt = refl
get_or-spaces [] r (suc n) (suc i) le lt = get_or-spaces [] r n i (omega arith) (omega (arith, lt))
get_or-spaces (x ∷ left) r n zero le lt = absurd (omega (arith, le))
get_or-spaces (x ∷ left) r n (suc i) le lt =
    get_or-spaces left r n i (omega (arith, le)) (omega (arith, lt))

rtrim-start :
    (left r : Bytes) (n : ℕ)
    → length left ≡ n
    → (last_or left 0 == b' ') ≡ false
    → rtrim (left ++ r) n ≡ n
unfolding rtrim
rtrim-start left r zero e h = refl
rtrim-start left r (suc k) e h =
    let same : (get_or (left ++ r) k 0 == b' ') ≡ false =
      ap (λ c. c == b' ') (get_or-last left r k e) ∙ h in
    rw same refl

-- The spaces behind a text that does not end with one are cut off.
rtrim-spaces :
    (left r : Bytes) (n i : ℕ)
    → length left ≤ i
    → i ≤ length left + n
    → (last_or left 0 == b' ') ≡ false
    → rtrim (left ++ (replicate n b' ' ++ r)) i ≡ length left
unfolding rtrim
rtrim-spaces left r n zero le lt h = omega (arith, le)
rtrim-spaces left r n (suc i) le lt h = elim (Bool-cases (length left == suc i)) [
  | inl e ↦
      let same : length left ≡ suc i = (==_iff (length left) (suc i)).0 e in
      rtrim-start left (replicate n b' ' ++ r) (suc i) same h ∙ sym same
  | inr e ↦
      let more : length left ≤ i = ground (arith, le) in
      let blank : (get_or (left ++ (replicate n b' ' ++ r)) i 0 == b' ') ≡ true =
        (==_iff _ b' ').1 (get_or-spaces left r n i more (omega (arith, lt))) in
      rw blank (rtrim-spaces left r n i more (omega (arith, lt)) h)
]

length-replicate : (n c : ℕ) → length (replicate n c) ≡ n
length-replicate zero c = refl
length-replicate (suc n) c = ap suc (length-replicate n c)

-- Where the last child of a header is a text that ends with a block in braces behind any number of
-- spaces, with no opening brace inside the block, parse_header_ext_attrs parses exactly that block.
-- Where that returns zero, it reports a failure and the children are as they were. Otherwise it
-- succeeds, and of the last child only the text in front of the spaces is left, or no child where
-- that is empty; the others are as they were.
pub parse_header_ext_attrs-block :
    (before : Nodes) (left : Bytes) (n : ℕ) (block : Bytes) (id : ℕ) (escaped : Bool)
    (below : Nodes) (a : Attrs) (m : Sched)
    → (last_or left 0 == b' ') ≡ false
    → All NoBrace block
    → let text = (left ++ replicate n b' ') ++ (b'{' ∷ (block ++ (b'}' ∷ []))) in
      let whole = before +++ cons (node id (Kind.normal_text escaped text) below) nil in
      parse_header_ext_attrs whole a m
      ≡ by_block whole (with_left before id escaped left below) (lowdown_attrs_parse block a m)
unfolding after_attrs cut_text by_block
parse_header_ext_attrs-block before left n block id escaped below a m h free =
    parse_header_ext_attrs-after (left ++ replicate n b' ') block whole below id escaped a m
      (last_node-+++ before _) free
    ∙ outcome (lowdown_attrs_parse block a m)
  where
    text : Bytes
    text = (left ++ replicate n b' ') ++ (b'{' ∷ (block ++ (b'}' ∷ [])))

    whole : Nodes
    whole = before +++ cons (node id (Kind.normal_text escaped text) below) nil

    trimmed : take (rtrim text (length (left ++ replicate n b' '))) text ≡ left
    trimmed =
        let r = b'{' ∷ (block ++ (b'}' ∷ [])) in
        let shape : text ≡ left ++ (replicate n b' ' ++ r) =
          append_assoc left (replicate n b' ') r in
        let size : length (left ++ replicate n b' ') ≡ length left + n =
          length-append left (replicate n b' ')
          ∙ ap (λ z. length left + z) (length-replicate n b' ') in
        ap (λ z. take (rtrim text z) text) size
        ∙ ap (λ z. take (rtrim z (length left + n)) z) shape
        ∙ ap (λ z. take z (left ++ (replicate n b' ' ++ r)))
            (rtrim-spaces left r n (length left + n) (omega arith) (omega arith) h)
        ∙ take-append left (replicate n b' ' ++ r)

    outcome :
        (o : Parsed)
        → after_attrs text (length (left ++ replicate n b' ')) whole o
          ≡ by_block whole (with_left before id escaped left below) o
    outcome (parsed zero b t) = refl
    outcome (parsed (suc r) b t) =
        ap (λ ns. headed true ns b t)
          (map_last-+++ _ before _
            ∙ ap
                (λ z.
                  before
                  +++ (if is_nil z
                      then nil
                      else cons (node id (Kind.normal_text escaped z) below) nil))
                trimmed)
    outcome lost = refl
