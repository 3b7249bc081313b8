-- ===== src/Render/Metas.antt =====
-- The values of metadata that rndr_meta_multi of src/format/html/html.c prints are well-formed HTML.
use native.Mathlib.Nat.{mul-le-mul_right, add-mul, mul-add}
use lowdown.Prelude.{
  ℕ, zero, suc, ◌+◌, ◌*◌, ◌≤◌, ◌≡◌, refl, sym, subst, ◌∙◌, ap, Bool, true, false, List, [], ◌∷◌,
  some, Bytes, codes, length, length-drop, drop, is_nil, isspace, skip_isspace, arith, inl, inr,
  Bool-cases,
}
use lowdown.Buffer.{M, ◌>>◌, done, hbuf_put, hbuf_puts}
use lowdown.Render.{Html}
use lowdown.Render.Meta.{value_of, behind_value, multi_escape, multi_loop, rndr_meta_multi}
use lowdown.Render.Scan.{Scan, scan, step}
use lowdown.Render.Emits.{
  Emits, Renders, Emits->>, Emits-le, Emits-done, Emits-put, Emits-puts, Emits-if,
}
use lowdown.Render.Pieces.{Emits-esc_attr, escape_html-Emits, length-skip_isspace}

-- A value and what is behind it are the text.
length-value_of : (d : Bytes) → length (value_of d) + length (behind_value d) ≡ length d
unfolding value_of behind_value isspace
length-value_of [] = refl
length-value_of (c ∷ []) = refl
length-value_of (c ∷ d ∷ cs) = ground (arith, length-value_of (d ∷ cs))

not_nil : (d : Bytes) → is_nil d ≡ false → 1 ≤ length d
not_nil [] h = absurd cc
not_nil (c ∷ cs) h = omega arith

value_head : (c : ℕ) (cs : Bytes) → isspace c ≡ false → is_nil (value_of (c ∷ cs)) ≡ false
unfolding value_of
value_head c [] h = refl
value_head c (d ∷ cs) h = rw h refl

-- Behind the white space there is a byte that is none, so the value is not empty.
skipped-head :
    (b : Bytes) → is_nil (skip_isspace b) ≡ false → is_nil (value_of (skip_isspace b)) ≡ false
unfolding skip_isspace
skipped-head [] h = absurd cc
skipped-head (c ∷ cs) h = elim (Bool-cases (isspace c)) [
  | inl t ↦
      let skipped : skip_isspace (c ∷ cs) ≡ skip_isspace cs = rw (t, skip_isspace) refl in
      subst (λ (d : Bytes). is_nil (value_of d) ≡ false) (sym skipped)
        (skipped-head cs (ap is_nil (sym skipped) ∙ h))
  | inr t ↦
      let kept : skip_isspace (c ∷ cs) ≡ c ∷ cs = rw (t, skip_isspace) refl in
      subst (λ (d : Bytes). is_nil (value_of d) ≡ false) (sym kept) (value_head c cs t)
]

-- A value of `x` bytes, `y` further bytes and tags of `a` bytes.
cost_step : (a x y n : ℕ) → 1 ≤ x → x + y ≤ n → a + (6 * x + 1) + y * (a + 7) ≤ n * (a + 7)
cost_step a x y n p q =
    omega
      (arith, mul-le-mul_right (a + 7) q, add-mul x y (a + 7), mul-add x a 7, mul-le-mul_right a p)

-- The tags around a value leave the scanner where the escape of the value keeps it.
module _ (st : Html) (href attr : Bool) (starttag endtag : Bytes) (k : List Bytes) (p : Scan)
    (opens : scan (Scan.text k) starttag ≡ p) (closes : scan p endtag ≡ Scan.text k)
    (keeps : (d : Bytes) → Emits (6 * length d) p p (multi_escape st href attr d)) where
  abbrev tags_cost : ℕ
  tags_cost = length starttag + length endtag + 7

  value-Emits :
      (n : ℕ) (d : Bytes) (later : M (Unit {0}))
      → Renders n k later
      → Renders (length starttag + (6 * length d + (length endtag + (1 + n)))) k (
          hbuf_puts starttag
          >> (multi_escape st href attr d
              >> (hbuf_puts endtag >> (hbuf_put (codes "\n") >> later))))
  unfolding scan step
  value-Emits n d later h =
      let t = Scan.text k in
      Emits->> (length starttag) (6 * length d + (length endtag + (1 + n))) t p t _ _
        (Emits-puts (length starttag) t p starttag (omega arith) opens)
        (Emits->> (6 * length d) (length endtag + (1 + n)) p p t _ _ (keeps d) (
          Emits->> (length endtag) (1 + n) p t t _ _
            (Emits-puts (length endtag) p t endtag (omega arith) closes)
            (Emits->> 1 n t t t _ later (Emits-put 1 t t (codes "\n") (omega arith) refl) h)))

  multi_loop-Emits :
      (fuel : ℕ) (b : Bytes)
      → length b ≤ fuel
      → Renders (length b * tags_cost) k (multi_loop fuel st href attr starttag endtag b)
  unfolding multi_loop
  multi_loop-Emits zero [] le = Emits-done _ (Scan.text k)
  multi_loop-Emits zero (c ∷ cs) le = absurd (omega arith)
  multi_loop-Emits (suc fuel) b le =
      let t = Scan.text k in
      let v = skip_isspace b in
      let d = value_of v in
      let e = drop 1 (behind_value v) in
      let n = length b * tags_cost in
      let lv = length-skip_isspace b in
      let ld = length-value_of v in
      let le' = length-drop 1 (behind_value v) in
      Emits-if n t t (is_nil v) done _ (λ x. Emits-done n t)
        (λ x.
          Emits-if n t t (is_nil d) _ _ (λ y. let z = skipped-head b x in absurd cc)
            (λ y.
              let one : 1 ≤ length d = not_nil d y in
              Emits-le
                (length starttag + (6 * length d + (length endtag + (1 + length e * tags_cost)))) n
                t t _
                (omega (
                  arith,
                  cost_step (length starttag + length endtag) (length d) (length e) (length b) one
                      (omega arith),
                ))
                (value-Emits (length e * tags_cost) d _ (multi_loop-Emits fuel e (omega arith)))))

-- With values as attributes, from a start tag that ends in one, and with values as text.
module _ (st : Html) (starttag endtag : Bytes) (b : Bytes) (k : List Bytes) where
  pub rndr_meta_multi-attr :
      (n : Bytes)
      → scan (Scan.text k) starttag ≡ Scan.value k n
      → scan (Scan.value k n) endtag ≡ Scan.text k
      → Renders
          (length b * (length starttag + length endtag + 7))
          k
          (rndr_meta_multi st (some b) false true starttag endtag)
  unfolding rndr_meta_multi multi_escape
  rndr_meta_multi-attr n opens closes =
      multi_loop-Emits st false true starttag endtag k (Scan.value k n) opens closes
        (λ d. Emits-esc_attr k d n) (length b) b (omega arith)

  pub rndr_meta_multi-text :
      (n : Bytes)
      → scan (Scan.text k) starttag ≡ Scan.text (n ∷ k)
      → scan (Scan.text (n ∷ k)) endtag ≡ Scan.text k
      → Renders
          (length b * (length starttag + length endtag + 7))
          k
          (rndr_meta_multi st (some b) false false starttag endtag)
  unfolding rndr_meta_multi multi_escape
  rndr_meta_multi-text n opens closes =
      multi_loop-Emits st false false starttag endtag k (Scan.text (n ∷ k)) opens closes
        (λ d. escape_html-Emits (n ∷ k) d st) (length b) b (omega arith)
