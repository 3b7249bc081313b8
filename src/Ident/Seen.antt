-- ===== src/Ident/Seen.antt =====
-- The identifiers that a queue holds, as a list of texts, and what is left of it without one of
-- them.
use lowdown.Prelude.{
  ◌≤◌, ◌<◌, ◌≡◌, ◌≢◌, refl, sym, ◌∙◌, Bool, true, false, ◌||◌, List, [], ◌∷◌, ◌++◌, map, Bytes,
  length, bytes_eq, bytes_eq_refl, bytes_eq→eq, if◌then◌else◌, arith, inl, inr, Bool-cases,
}
use lowdown.Buffer.{Buf}
use lowdown.Buffer.Copy.{hbuf_eq}
use lowdown.Buffer.Copy.Laws.{comparisons}
use lowdown.Ident.{seen}

abbrev pub texts : List Buf → List Bytes
texts q = map (λ b. b.content) q

-- Whether a text is in the list.
abbrev pub has_text : List Bytes → Bytes → Bool
has_text [] x = false
has_text (y ∷ ys) x = bytes_eq y x || has_text ys x

both : (a b : Bool) → (a ≡ true → b ≡ true) → (b ≡ true → a ≡ true) → a ≡ b
both true b f g = sym (f refl)
both false true f g = g refl
both false false f g = refl

hbuf_eq-bytes_eq : (a b : Buf) → hbuf_eq a b ≡ bytes_eq a.content b.content
hbuf_eq-bytes_eq a b =
    let (_, e, _) = comparisons a b b.content in
    both (hbuf_eq a b) (bytes_eq a.content b.content) (λ t. rw (e.0 t) (bytes_eq_refl b.content))
      (λ t. e.1 (bytes_eq→eq a.content b.content t))

pub seen-has_text : (q : List Buf) (b : Buf) → seen q b ≡ has_text (texts q) b.content
unfolding seen
seen-has_text [] b = refl
seen-has_text (a ∷ q) b = rw (hbuf_eq-bytes_eq a b, seen-has_text q b) refl

unfoldable pub without : Bytes → List Bytes → List Bytes
without x [] = []
without x (y ∷ ys) = if bytes_eq y x then without x ys else y ∷ without x ys

length-without_le : (x : Bytes) (ys : List Bytes) → length (without x ys) ≤ length ys
unfolding without
length-without_le x [] = omega arith
length-without_le x (y ∷ ys) = ground (arith, length-without_le x ys)

pub length-without :
    (x : Bytes) (ys : List Bytes) → has_text ys x ≡ true → length (without x ys) < length ys
unfolding without
length-without x [] h = absurd (cc)
length-without x (y ∷ ys) h = ground (arith, length-without x ys, length-without_le x ys)

pub has_text-without :
    (x y : Bytes) (ys : List Bytes)
    → x ≢ y
    → has_text ys y ≡ true
    → has_text (without x ys) y ≡ true
unfolding without
has_text-without x y [] n h = h
has_text-without x y (z ∷ zs) n h = elim (Bool-cases (bytes_eq z x)) [
  | inl t ↦ elim (Bool-cases (bytes_eq z y)) [
    | inl u ↦ absurd (n (sym (bytes_eq→eq z x t) ∙ bytes_eq→eq z y u))
    | inr u ↦ rw t (has_text-without x y zs n (ground arith))
  ]
  | inr t ↦ elim (Bool-cases (bytes_eq z y)) [
    | inl u ↦ rw t (rw u refl)
    | inr u ↦ rw t (rw u (has_text-without x y zs n (ground arith)))
  ]
]

-- No text stands twice in a list.
unfoldable pub Distinct : List Bytes → Type 0
Distinct [] = Unit
Distinct (x ∷ xs) = (has_text xs x ≡ false) × Distinct xs

bytes_eq_sym : (a b : Bytes) → bytes_eq a b ≡ bytes_eq b a
bytes_eq_sym a b =
    both (bytes_eq a b) (bytes_eq b a) (λ t. rw (bytes_eq→eq a b t) (bytes_eq_refl b))
      (λ t. rw (bytes_eq→eq b a t) (bytes_eq_refl a))

has_text-last :
    (ys : List Bytes) (x y : Bytes)
    → has_text ys y ≡ false
    → bytes_eq x y ≡ false
    → has_text (ys ++ x ∷ []) y ≡ false
has_text-last [] x y h n = rw n refl
has_text-last (z ∷ ys) x y h n = ground (arith, has_text-last ys x y)

pub Distinct-last :
    (xs : List Bytes) (x : Bytes) → Distinct xs → has_text xs x ≡ false → Distinct (xs ++ x ∷ [])
unfolding Distinct
Distinct-last [] x d h = (refl, tt)
Distinct-last (y ∷ ys) x (n, d) h =
    (has_text-last ys x y n (bytes_eq_sym x y ∙ ground arith), Distinct-last ys x d (ground arith))
