-- ===== src/Parse/Header/Braces.antt =====
-- parse_header_ext_attrs of src/parse/document.c on a header that ends with a block in braces.
use lowdown.Prelude.{
  ℕ, zero, suc, ◌+◌, ◌-◌, ◌≤◌, ◌<◌, ◌≡◌, refl, sym, ap, ◌∙◌, subst, Bool, true, false, [], ◌∷◌,
  ◌++◌, append_assoc, Option, none, some, Bytes, length, length-append, take, take-append, drop,
  get_or, last_or-append, ◌==◌, ==_iff, arith, inl, inr, Bool-cases, All, All-append,
}
use lowdown.Tree.{Kind, Nodes, node}
use lowdown.Buffer.{Sched}
use lowdown.Parse.Attrs.{Attrs}
use lowdown.Parse.Attrs.Block.{words_loop, lowdown_attrs_parse}
use lowdown.Parse.Header.{
  Headed, headed, last_node, braced_text, open_brace, after_attrs, with_brace,
  parse_header_ext_attrs,
}

unfoldable pub NoBrace : ℕ → Type 0
NoBrace c = (c == b'{') ≡ false

open_brace-last :
    (d : Bytes) (i n : ℕ)
    → i ≤ n
    → get_or d i 0 ≡ b'{'
    → ((j : ℕ) → i < j → j ≤ n → NoBrace (get_or d j 0))
    → open_brace d n ≡ i
unfolding open_brace NoBrace
open_brace-last d i zero le e f = omega (arith, le)
open_brace-last d i (suc n) le e f = elim (Bool-cases (i == suc n)) [
  | inl h ↦
      let same : i ≡ suc n = (==_iff i (suc n)).0 h in
      let here : (get_or d (suc n) 0 == b'{') ≡ true =
        (==_iff (get_or d (suc n) 0) b'{').1 (ap (λ k. get_or d k 0) (sym same) ∙ e) in
      rw here (sym same)
  | inr h ↦
      let below : i ≤ n = ground arith in
      rw (f (suc n) (omega (arith, below)) (omega arith))
        (open_brace-last d i n below e (λ j p q. f j p (omega (arith, q))))
]

get_or-place : (pre r : Bytes) (x : ℕ) → get_or (pre ++ (x ∷ r)) (length pre) 0 ≡ x
get_or-place [] r x = refl
get_or-place (c ∷ pre) r x = get_or-place pre r x

get_or-All : (r : Bytes) (j : ℕ) → All NoBrace r → NoBrace (get_or r j 0)
unfolding NoBrace
get_or-All [] j a = refl
get_or-All (c ∷ r) zero (h, a) = h
get_or-All (c ∷ r) (suc j) (h, a) = get_or-All r j a

get_or-behind :
    (pre r : Bytes) (x j : ℕ)
    → All NoBrace r
    → length pre < j
    → NoBrace (get_or (pre ++ (x ∷ r)) j 0)
get_or-behind [] r x zero a lt = absurd (omega arith)
get_or-behind [] r x (suc j) a lt = get_or-All r j a
get_or-behind (c ∷ pre) r x zero a lt = absurd (omega arith)
get_or-behind (c ∷ pre) r x (suc j) a lt = get_or-behind pre r x j a (omega arith)

drop-behind : (pre r : Bytes) (x : ℕ) → drop (suc (length pre)) (pre ++ (x ∷ r)) ≡ r
drop-behind [] r x = refl
drop-behind (c ∷ pre) r x = drop-behind pre r x

-- The block of the last opening brace is the one that is parsed.
with_brace-block :
    (pre block : Bytes) (children : Nodes) (a : Attrs) (m : Sched)
    → All NoBrace block
    → let d = pre ++ (b'{' ∷ (block ++ (b'}' ∷ []))) in
      with_brace d (open_brace d (length d - 1)) children a m
      ≡ after_attrs d (length pre) children (lowdown_attrs_parse block a m)
unfolding with_brace NoBrace
with_brace-block pre block children a m free =
    let d : Bytes = pre ++ (b'{' ∷ (block ++ (b'}' ∷ []))) in
    let len : length d ≡ length pre + length block + 2 =
      omega (
        arith,
        length-append pre (b'{' ∷ (block ++ (b'}' ∷ []))),
        length-append block (b'}' ∷ []),
      ) in
    let found : open_brace d (length d - 1) ≡ length pre =
      open_brace-last d (length pre) (length d - 1) (omega (arith, len))
        (get_or-place pre (block ++ (b'}' ∷ [])) b'{')
        (λ j p q.
          get_or-behind pre (block ++ (b'}' ∷ [])) b'{' j
            (All-append NoBrace block (b'}' ∷ []) free (refl, tt)) p) in
    let here : (get_or d (length pre) 0 == b'{') ≡ true =
      (==_iff (get_or d (length pre) 0) b'{').1 (get_or-place pre (block ++ (b'}' ∷ [])) b'{') in
    let size : length d - length pre - 2 ≡ length block = omega (arith, len) in
    let next : length pre + 1 ≡ suc (length pre) = omega arith in
    rw (found, here, size, next)
      (ap
          (λ z.
            after_attrs d (length pre) children (lowdown_attrs_parse (take (length block) z) a m))
          (drop-behind pre (block ++ (b'}' ∷ [])) b'{')
        ∙ ap (λ z. after_attrs d (length pre) children (lowdown_attrs_parse z a m))
            (take-append block (b'}' ∷ [])))

braced_text-block :
    (id : ℕ) (escaped : Bool) (d : Bytes) (below : Nodes)
    → braced_text (some (node id (Kind.normal_text escaped (d ++ (b'}' ∷ []))) below))
      ≡ some (d ++ (b'}' ∷ []))
unfolding braced_text
braced_text-block id escaped [] below = refl
braced_text-block id escaped (c ∷ d) below = rw (last_or-append d (b'}' ∷ []) c) refl

-- The block in the last braces is parsed.
pub parse_header_ext_attrs-after :
    (pre block : Bytes) (children below : Nodes) (id : ℕ) (escaped : Bool) (a : Attrs) (m : Sched)
    → last_node children
      ≡ some (node id (Kind.normal_text escaped (pre ++ (b'{' ∷ (block ++ (b'}' ∷ []))))) below)
    → All NoBrace block
    → parse_header_ext_attrs children a m
      ≡ after_attrs
          (pre ++ (b'{' ∷ (block ++ (b'}' ∷ []))))
          (length pre)
          children
          (lowdown_attrs_parse block a m)
unfolding parse_header_ext_attrs
parse_header_ext_attrs-after pre block children below id escaped a m e free =
    ap
      (λ (o : Option Bytes). elim o as (λ x. Headed) [
        | none ↦ headed true children a m
        | some d ↦ with_brace d (open_brace d (length d - 1)) children a m
      ])
      (ap braced_text e ∙ ends)
    ∙ with_brace-block pre block children a m free
  where
    ends :
        braced_text
          (some (node id (Kind.normal_text escaped (pre ++ (b'{' ∷ (block ++ (b'}' ∷ []))))) below))
        ≡ some (pre ++ (b'{' ∷ (block ++ (b'}' ∷ []))))
    ends =
        subst (λ z. braced_text (some (node id (Kind.normal_text escaped z) below)) ≡ some z)
          (append_assoc pre (b'{' ∷ block) (b'}' ∷ []))
          (braced_text-block id escaped (pre ++ (b'{' ∷ block)) below)

-- Where the last child of a header is a text that ends with an empty block in braces,
-- parse_header_ext_attrs reports a failure, with no allocation asked for and nothing changed.
pub parse_header_ext_attrs-empty :
    (pre : Bytes) (children below : Nodes) (id : ℕ) (escaped : Bool) (a : Attrs) (m : Sched)
    → last_node children
      ≡ some (node id (Kind.normal_text escaped (pre ++ (b'{' ∷ b'}' ∷ []))) below)
    → parse_header_ext_attrs children a m ≡ headed false children a m
unfolding after_attrs lowdown_attrs_parse words_loop
parse_header_ext_attrs-empty pre children below id escaped a m e =
    parse_header_ext_attrs-after pre [] children below id escaped a m e tt
