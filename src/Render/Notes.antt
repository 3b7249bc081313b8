-- ===== src/Render/Notes.antt =====
-- The footnotes of src/format/html/html.c are well-formed HTML, where the link back stands in the text.
use lowdown.Prelude.{
  ℕ, zero, suc, ltb, ◌==◌, not, ◌&&◌, ◌||◌, get_or, false, inl, inr, Bool-cases, length-drop, ◌+◌,
  ◌^◌, ◌<◌, ◌≡◌, ◌≢◌, refl, sym, ap, ◌∙◌, List, [], ◌∷◌, ◌++◌, Option, none, some, Bytes, codes,
  length, length-append, take, drop, take-append-drop, All, isalnum, arith,
}
use lowdown.Buffer.{Buf, done, size}
use lowdown.Ident.{decimal}
use lowdown.Ident.Decimal.{decimal_short, decimal-All}
use lowdown.Render.{Html}
use lowdown.Render.Foot.{
  anchor, back_link, put_with_link, rndr_footnote_def, foot_loop, rndr_doc_footer,
}
use lowdown.Render.Scan.{
  Scan, scan, step, scan-append, scan-value, between, pop, name_byte, IsWellFormed,
}
use lowdown.Render.Emits.{
  Renders, Emits->>, Emits-le, Emits-done, Emits-put, Emits-putb, Emits-printf, Emits-if,
}
use lowdown.Render.Blocks.{line-Emits}

-- The position, if there is one, is not in a tag.
unfoldable pub InText : Bytes → Option ℕ → Type 0
InText d none = Unit
InText d (some i) =
    (k : List Bytes) → (j : List Bytes) × (scan (Scan.text k) (take i d) ≡ Scan.text j)

-- No end tag of a paragraph stands in a tag.
unfoldable pub EndsInText : Bytes → Type 0
EndsInText d =
    (pre post : Bytes)
    → d ≡ pre ++ (codes "</p>" ++ post)
    → (k : List Bytes) → (j : List Bytes) × (scan (Scan.text k) pre ≡ Scan.text j)

-- The position, if there is one, is that of such an end tag.
IsEnd : Bytes → Option ℕ → Type 0
IsEnd d none = Unit
IsEnd d (some i) = d ≡ take i d ++ (codes "</p>" ++ drop 4 (drop i d))

get_or-drop : (d : Bytes) (x j i : ℕ) → i ≡ x + j → get_or d i 0 ≡ get_or (drop x d) j 0
get_or-drop d zero j i e = ap (λ n. get_or d n 0) (e ∙ omega arith)
get_or-drop [] (suc x) j i e = refl
get_or-drop (c ∷ d) (suc x) j zero e = absurd (omega (arith, e))
get_or-drop (c ∷ d) (suc x) j (suc i) e = get_or-drop d x j i (omega (arith, e))

end_tag :
    (r : Bytes)
    → 3 < length r
    → get_or r 0 0 ≡ b'<'
    → get_or r 1 0 ≡ b'/'
    → get_or r 2 0 ≡ b'p'
    → get_or r 3 0 ≡ b'>'
    → r ≡ codes "</p>" ++ drop 4 r
end_tag [] lt e f g h = absurd (omega (arith, lt))
end_tag (a ∷ []) lt e f g h = absurd (omega (arith, lt))
end_tag (a ∷ (b ∷ [])) lt e f g h = absurd (omega (arith, lt))
end_tag (a ∷ (b ∷ (c ∷ []))) lt e f g h = absurd (omega (arith, lt))
end_tag (a ∷ (b ∷ (c ∷ (x ∷ r)))) lt e f g h = rw (e, f, g, h) refl

-- Where the four bytes are read as those of the end tag of a paragraph.
found-IsEnd :
    (d : Bytes) (i : ℕ)
    → not (ltb (i + 3) (length d)) ≡ false
    → not (get_or d i 0 == b'<') ≡ false
    → not (get_or d (i + 1) 0 == b'/') ≡ false
    → ((not (get_or d (i + 2) 0 == b'p') && not (get_or d (i + 3) 0 == b'P'))
        || not (get_or d (i + 3) 0 == b'>'))
      ≡ false
    → IsEnd d (some i)
unfolding IsEnd
found-IsEnd d i a b c e =
    let third : get_or d (i + 3) 0 ≡ b'>' = ground arith in
    let second : get_or d (i + 2) 0 ≡ b'p' = ground arith in
    let first : get_or d (i + 1) 0 ≡ b'/' = ground arith in
    let start : get_or d i 0 ≡ b'<' = ground arith in
    let long : i + 3 < length d = ground arith in
    sym (take-append-drop i d)
    ∙ ap (λ r. take i d ++ r)
        (end_tag (drop i d) (omega (arith, length-drop i d, long))
          (sym (get_or-drop d i 0 i (omega arith)) ∙ start)
          (sym (get_or-drop d i 1 (i + 1) refl) ∙ first)
          (sym (get_or-drop d i 2 (i + 2) refl) ∙ second)
          (sym (get_or-drop d i 3 (i + 3) refl) ∙ third))

anchor-IsEnd : (fuel : ℕ) (d : Bytes) (i : ℕ) → IsEnd d (anchor fuel d i)
unfolding anchor IsEnd
anchor-IsEnd zero d i = tt
anchor-IsEnd (suc fuel) d i = elim (Bool-cases (not (ltb (i + 3) (length d)))) [
  | inl a ↦ rw a tt
  | inr a ↦ elim (Bool-cases (not (get_or d i 0 == b'<'))) [
    | inl b ↦ rw (a, b) (anchor-IsEnd fuel d (i + 1))
    | inr b ↦ elim (Bool-cases (not (get_or d (i + 1) 0 == b'/'))) [
      | inl c ↦ rw (a, b, c) (anchor-IsEnd fuel d (i + 2))
      | inr c ↦
          elim (Bool-cases (
            (not (get_or d (i + 2) 0 == b'p') && not (get_or d (i + 3) 0 == b'P'))
            || not (get_or d (i + 3) 0 == b'>'))) [
              | inl e ↦ rw (a, b, c, e) (anchor-IsEnd fuel d (i + 3))
              | inr e ↦ rw (a, b, c, e) (found-IsEnd d i a b c e)
            ]
    ]
  ]
]

IsEnd-InText : (d : Bytes) (o : Option ℕ) → EndsInText d → IsEnd d o → InText d o
unfolding EndsInText IsEnd InText
IsEnd-InText d none f e = tt
IsEnd-InText d (some i) f e = f (take i d) (drop 4 (drop i d)) e

-- So the link is put where no tag is open.
anchor-InText : (fuel : ℕ) (d : Bytes) → EndsInText d → InText d (anchor fuel d 0)
anchor-InText fuel d f = IsEnd-InText d (anchor fuel d 0) f (anchor-IsEnd fuel d 0)

-- Text, a number in an attribute, and text.
numbered-scan :
    (p q r : Scan) (before after : Bytes) (k : List Bytes) (n : Bytes) (num : ℕ)
    → scan p before ≡ Scan.value k n
    → scan (Scan.value k n) after ≡ r
    → scan p (before ++ (decimal num ++ after)) ≡ r
numbered-scan p q r before after k n num e f =
    scan-append p before (decimal num ++ after)
    ∙ ap (λ x. scan x (decimal num ++ after)) e
    ∙ scan-append (Scan.value k n) (decimal num) after
    ∙ ap (λ x. scan x after)
        (scan-value k n (decimal num) (decimal-All (λ c. c ≢ b'"') (λ d h. omega arith) num))
    ∙ f

back_link-Emits : (k : List Bytes) (num : ℕ) → num < 10 ^ 20 → Renders 96 k (back_link num)
unfolding back_link scan step between pop name_byte isalnum
back_link-Emits k num lt =
    let after = codes "\" rev=\"footnote\">&#8617;</a>" in
    Emits-printf 96 (omega arith) (Scan.text k) (Scan.text k) _
      (omega (arith, decimal_short num 19 lt, length-append (decimal num) after))
      (numbered-scan (Scan.text k) (Scan.text k) (Scan.text k) (codes "&#160;<a href=\"#fnref")
        after k (codes "a") num refl refl)

put_with_link-Emits :
    (k : List Bytes) (b : Buf) (num : ℕ) (o : Option ℕ)
    → num < 10 ^ 20
    → IsWellFormed b.content
    → InText b.content o
    → Renders (size b + 96) k (put_with_link b num o)
unfolding put_with_link InText IsWellFormed
put_with_link-Emits k b num none lt w h =
    Emits-le (size b) (size b + 96) (Scan.text k) (Scan.text k) _ (omega arith) (Emits-putb k b w)
put_with_link-Emits k b num (some i) lt w h =
    let d = b.content in
    let (j, e) = h k in
    let x = length (take i d) in
    let y = length (drop i d) in
    let p = Scan.text k in
    let q = Scan.text j in
    let later : scan q (drop i d) ≡ p =
      ap (λ r. scan r (drop i d)) (sym e)
      ∙ sym (scan-append p (take i d) (drop i d))
      ∙ ap (scan p) (take-append-drop i d)
      ∙ w k in
    Emits-le (x + (96 + y)) (size b + 96) p p _
      (omega (arith, length-append (take i d) (drop i d), ap length (take-append-drop i d)))
      (Emits->> x (96 + y) p q p _ _ (Emits-put x p q (take i d) (omega arith) e) (
        Emits->> 96 y q q p (back_link num) _ (back_link-Emits j num lt)
          (Emits-put y q p (drop i d) (omega arith) later)))

pub rndr_footnote_def-Emits :
    (k : List Bytes) (b : Buf) (num : ℕ)
    → num < 10 ^ 20
    → IsWellFormed b.content
    → InText b.content (anchor (size b) b.content 0)
    → Renders (size b + 160) k (rndr_footnote_def b num)
unfolding rndr_footnote_def scan step between pop name_byte isalnum
rndr_footnote_def-Emits k b num lt w h =
    let p = Scan.text k in
    let q = Scan.text (codes "li" ∷ k) in
    let after = codes "\">\n" in
    Emits-le (48 + ((size b + 96) + 6)) (size b + 160) p p _ (omega arith) (
      Emits->> 48 ((size b + 96) + 6) p q p _ _
        (Emits-printf 48 (omega arith) p q _
          (omega (arith, decimal_short num 19 lt, length-append (decimal num) after))
          (numbered-scan p q q (codes "\n<li id=\"fn") after k (codes "li") num refl refl))
        (Emits->> (size b + 96) 6 q q p _ _
          (put_with_link-Emits (codes "li" ∷ k) b num (anchor (size b) b.content 0) lt w h)
          (Emits-put 6 q p (codes "</li>\n") (omega arith) refl)))

-- A footnote that is there, is well-formed and ends its paragraphs in the text.
unfoldable pub IsNote : Option Buf → Type 0
IsNote none = ⊥
IsNote (some b) = IsWellFormed b.content × EndsInText b.content

unfoldable pub notes_cost : List (Option Buf) → ℕ
notes_cost [] = 0
notes_cost (none ∷ foots) = notes_cost foots
notes_cost (some b ∷ foots) = size b + 160 + notes_cost foots

foot_loop-Emits :
    (k : List Bytes) (num : ℕ) (foots : List (Option Buf))
    → num + length foots < 10 ^ 20
    → All IsNote foots
    → Renders (notes_cost foots) k (foot_loop num foots)
unfolding foot_loop notes_cost IsNote
foot_loop-Emits k num [] lt h = Emits-done 0 (Scan.text k)
foot_loop-Emits k num (none ∷ foots) lt (f, _) = absurd f
foot_loop-Emits k num (some b ∷ foots) lt ((w, ends), h) =
    Emits->> (size b + 160) (notes_cost foots) (Scan.text k) (Scan.text k) (Scan.text k)
      (rndr_footnote_def b num) (foot_loop (num + 1) foots)
      (rndr_footnote_def-Emits k b num (omega arith) w (anchor-InText (size b) b.content ends))
      (foot_loop-Emits k (num + 1) foots (omega arith) h)

pub rndr_doc_footer-Emits :
    (k : List Bytes) (st : Html)
    → length st.foots < 2 ^ 64
    → All IsNote st.foots
    → Renders (notes_cost st.foots + 64) k (rndr_doc_footer st)
unfolding rndr_doc_footer scan step between pop name_byte isalnum
rndr_doc_footer-Emits k st lt h =
    let p = Scan.text k in
    let q = Scan.text (codes "ol" ∷ codes "div" ∷ k) in
    let n = notes_cost st.foots in
    Emits-if (n + 64) p p _ done _ (λ t. Emits-done (n + 64) p)
      (λ t. Emits-le (1 + (36 + (n + 14))) (n + 64) p p _ (omega arith) (
        line-Emits (36 + (n + 14)) k _ (
          Emits->> 36 (n + 14) p q p _ _
            (Emits-put 36 p q (codes "<div class=\"footnotes\">\n<hr/>\n<ol>\n") (omega arith) refl)
            (Emits->> n 14 q q p (foot_loop 1 st.foots) _
              (foot_loop-Emits (codes "ol" ∷ codes "div" ∷ k) 1 st.foots (omega (arith, lt)) h)
              (Emits-put 14 q p (codes "\n</ol>\n</div>\n") (omega arith) refl)))))
