-- ===== src/Render/Items.antt =====
-- The functions of src/format/html/html.c for quotes and lists write well-formed HTML.
use lowdown.Prelude.{
  ℕ, ◌+◌, ◌^◌, ◌≤◌, ◌<◌, ◌≡◌, refl, ◌∙◌, Bool, not, List, ◌∷◌, ◌++◌, Bytes, length, length-append,
  codes, All-map, if◌then◌else◌, isalnum, arith, ltb, inl, inr, Bool-cases,
}
use lowdown.Tree.{Kind}
use lowdown.Buffer.{Buf, Out, Res, ok, failed, fault, M, ◌>>◌, done, size, hbuf_put, hbuf_putb}
use lowdown.Ident.{decimal}
use lowdown.Ident.Decimal.{decimal_short}
use lowdown.Render.{flag, hlist_ordered, hlist_def, hlist_checked, hlist_unchecked, newline}
use lowdown.Render.Block.{
  put_trimmed, rndr_list, wants_paragraph, unchecked, check_box, rndr_listitem,
}
use lowdown.Ident.Count.{decimal-IsIdByte}
use lowdown.Render.Blocks.{line-Emits}
use lowdown.Render.Scan.{
  Scan, scan, step, scan-append, scan-value, between, pop, name_byte, IsWellFormed,
}
use lowdown.Render.Emits.{
  After, Emits, Renders, Emits->>, Emits-le, Emits-done, Emits-put, Emits-printf, Emits-putb,
}
use lowdown.Render.Pieces.{put_trimmed-Emits}

unchecked-After :
    (n : ℕ) (p q : Scan) (s : Out) (r : Res (Unit {0}))
    → After n p q s r
    → After n p q s (unchecked (λ _. r) s)
unfolding After unchecked
unchecked-After n p q s (ok _ t) a = a
unchecked-After n p q s (failed t) f = absurd f
unchecked-After n p q s fault f = f

unchecked-Emits :
    (n : ℕ) (p q : Scan) (m : M (Unit {0})) → Emits n p q m → Emits n p q (unchecked m)
unfolding Emits unchecked
unchecked-Emits n p q m e s y = unchecked-After n p q s (m s) (e s y)

-- The tag of a check box, in its three parts.
check_box-Emits : (k : List Bytes) (flags : ℕ) → Renders 64 k (check_box flags)
unfolding check_box scan step between pop name_byte isalnum
check_box-Emits k flags =
    let box = Scan.gap k (codes "input") in
    let first =
      unchecked-Emits 23 (Scan.text k) box (hbuf_put (codes "<input type=\"checkbox\" "))
        (Emits-put 23 (Scan.text k) box (codes "<input type=\"checkbox\" ") (omega arith) refl) in
    let second =
      unchecked-Emits 18 box box (hbuf_put (codes "checked=\"checked\" "))
        (Emits-put 18 box box (codes "checked=\"checked\" ") (omega arith) refl) in
    let third =
      unchecked-Emits 2 box (Scan.text k) (hbuf_put (codes "/>"))
        (Emits-put 2 box (Scan.text k) (codes "/>") (omega arith) refl) in
    elim (Bool-cases (flag flags hlist_checked)) [
      | inl t ↦ rw t (
          Emits-le (23 + (18 + 2)) 64 (Scan.text k) (Scan.text k) _ (omega arith) (
            Emits->> 23 (18 + 2) (Scan.text k) box (Scan.text k) _ _ first
              (Emits->> 18 2 box box (Scan.text k) _ _ second third)))
      | inr t ↦ elim (Bool-cases (flag flags hlist_unchecked)) [
        | inl u ↦
            rw (t, u)
              (Emits-le (23 + (18 + 2)) 64 (Scan.text k) (Scan.text k) _ (omega arith) (
                Emits->> 23 (18 + 2) (Scan.text k) box (Scan.text k) _ _ first
                  (Emits->> 18 2 box box (Scan.text k) done _ (Emits-done 18 box) third)))
        | inr u ↦
            rw (t, u)
              (Emits->> 0 64 (Scan.text k) (Scan.text k) (Scan.text k) done _
                (Emits-done 0 (Scan.text k))
                (Emits->> 0 64 (Scan.text k) (Scan.text k) (Scan.text k) done done
                  (Emits-done 0 (Scan.text k)) (Emits-done 64 (Scan.text k))))
      ]
    ]

-- The open elements in a part that a condition puts into one more.
under : Bool → Bytes → List Bytes → List Bytes
under c name k = if c then name ∷ k else k

-- A tag that is there on a condition.
module _ (c : Bool) (k : List Bytes) (name tag : Bytes) (le : length tag ≤ 6) where
  start-Emits :
      scan (Scan.text k) tag ≡ Scan.text (name ∷ k)
      → Emits 6 (Scan.text k) (Scan.text (under c name k)) (if c then hbuf_put tag else done)
  unfolding under
  start-Emits e = elim (Bool-cases c) [
    | inl t ↦ rw t (Emits-put 6 (Scan.text k) (Scan.text (name ∷ k)) tag le e)
    | inr t ↦ rw t (Emits-done 6 (Scan.text k))
  ]

  end-Emits :
      scan (Scan.text (name ∷ k)) tag ≡ Scan.text k
      → Emits 6 (Scan.text (under c name k)) (Scan.text k) (if c then hbuf_put tag else done)
  unfolding under
  end-Emits e = elim (Bool-cases c) [
    | inl t ↦ rw t (Emits-put 6 (Scan.text (name ∷ k)) (Scan.text k) tag le e)
    | inr t ↦ rw t (Emits-done 6 (Scan.text k))
  ]

module _ (k : List Bytes) (b : Buf) (w : IsWellFormed b.content) (flags : ℕ) where
  pub rndr_listitem-Emits :
      (above : List Kind) → Renders (size b + 88) k (rndr_listitem b flags above)
  unfolding rndr_listitem scan step between pop name_byte isalnum
  rndr_listitem-Emits above =
      let item = not (flag flags hlist_def) in
      let blk = wants_paragraph b flags above in
      let k1 = under item (codes "li") k in
      let k2 = under blk (codes "p") k1 in
      let inside = Scan.text k2 in
      let around = Scan.text k1 in
      let p = Scan.text k in
      let n = size b in
      Emits-le (6 + (6 + (64 + (n + (6 + 6))))) (n + 88) p p _ (omega arith) (
        Emits->> 6 (6 + (64 + (n + (6 + 6)))) p around p _ _
          (start-Emits item k (codes "li") (codes "<li>") (omega arith) refl)
          (Emits->> 6 (64 + (n + (6 + 6))) around inside p _ _
            (start-Emits blk k1 (codes "p") (codes "<p>") (omega arith) refl)
            (Emits->> 64 (n + (6 + 6)) inside inside p (check_box flags) _
              (check_box-Emits k2 flags)
              (Emits->> n (6 + 6) inside inside p (put_trimmed b) _ (put_trimmed-Emits k2 b w) (
                Emits->> 6 6 inside around p _ _
                  (end-Emits blk k1 (codes "p") (codes "</p>") (omega arith) refl)
                  (end-Emits item k (codes "li") (codes "</li>\n") (omega arith) refl))))))

-- The start tag of a list with its first number.
start_tag : ℕ → Bytes
start_tag start = codes "<ol start=\"" ++ (decimal start ++ codes "\">\n")

start_tag-scan :
    (k : List Bytes) (start : ℕ) → scan (Scan.text k) (start_tag start) ≡ Scan.text (codes "ol" ∷ k)
unfolding start_tag scan step between pop name_byte isalnum
start_tag-scan k start =
    scan-append (Scan.value k (codes "ol")) (decimal start) (codes "\">\n")
    ∙ rw
        (scan-value k (codes "ol") (decimal start)
          (All-map (λ c h. ground arith) (decimal start) (decimal-IsIdByte start)))
        refl

length-start_tag : (start : ℕ) → start < 10 ^ 20 → length (start_tag start) ≤ 35
unfolding start_tag
length-start_tag start h =
    omega (arith, decimal_short start 19 h, length-append (decimal start) (codes "\">\n"))

module _ (k : List Bytes) (b : Buf) (w : IsWellFormed b.content) where
  tagged-Emits :
      (name close' : Bytes) (m : M (Unit {0}))
      → Emits 36 (Scan.text k) (Scan.text (name ∷ k)) m
      → scan (Scan.text (name ∷ k)) close' ≡ Scan.text k
      → length close' ≤ 6
      → Renders (size b + 64) k (newline >> (m >> (hbuf_putb b >> hbuf_put close')))
  tagged-Emits name close' m e f le =
      let inner = Scan.text (name ∷ k) in
      let rest = hbuf_putb b >> hbuf_put close' in
      Emits-le (1 + (36 + (size b + 6))) (size b + 64) (Scan.text k) (Scan.text k)
        (newline >> (m >> rest)) (omega arith)
        (line-Emits (36 + (size b + 6)) k (m >> rest) (
          Emits->> 36 (size b + 6) (Scan.text k) inner (Scan.text k) m rest e (
            Emits->> (size b) 6 inner inner (Scan.text k) (hbuf_putb b) (hbuf_put close')
              (Emits-putb (name ∷ k) b w) (Emits-put 6 inner (Scan.text k) close' le f))))

  -- The first number is one of size_t.
  pub rndr_list-Emits :
      (flags start : ℕ) → start < 10 ^ 20 → Renders (size b + 64) k (rndr_list b flags start)
  unfolding rndr_list start_tag scan step between pop name_byte isalnum
  rndr_list-Emits flags start lt = elim (Bool-cases (flag flags hlist_ordered)) [
    | inl t ↦ rw t (elim (Bool-cases (ltb 1 start)) [
      | inl u ↦ rw u (
          tagged-Emits (codes "ol") (codes "</ol>\n") _
            (Emits-printf 36 (omega arith) (Scan.text k) (Scan.text (codes "ol" ∷ k))
              (start_tag start) (omega (arith, length-start_tag start lt)) (start_tag-scan k start))
            refl (omega arith))
      | inr u ↦ rw u (
          tagged-Emits (codes "ol") (codes "</ol>\n") (hbuf_put (codes "<ol>\n"))
            (Emits-put 36 (Scan.text k) (Scan.text (codes "ol" ∷ k)) (codes "<ol>\n") (omega arith)
              refl)
            refl (omega arith))
    ])
    | inr t ↦ rw t (
        tagged-Emits (codes "ul") (codes "</ul>\n") (hbuf_put (codes "<ul>\n"))
          (Emits-put 36 (Scan.text k) (Scan.text (codes "ul" ∷ k)) (codes "<ul>\n") (omega arith)
            refl)
          refl (omega arith))
  ]
