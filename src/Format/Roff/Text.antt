-- ===== src/Format/Roff/Text.antt =====
-- The text that lowdown_roff_esc of src/format/roff/roff_escape.c appends, as a function of the
-- last byte that stands in the output before it.
use lowdown.Prelude.{
  ℕ, ◌≡◌, refl, sym, ◌∙◌, ap, Bool, true, false, not, ◌&&◌, ◌||◌, [], ◌∷◌, ◌++◌, Bytes, codes,
  last_or, last_or-append, length, ltb, inl, inr, ◌==◌, if◌then◌else◌, Bool-cases, arith, subst,
}
use lowdown.Buffer.{Out, Res, ◌>>◌, done, hbuf_put, hbuf_putc}
use lowdown.Buffer.Writes.{
  IsValid, Fits, Appends, Writes_then, Writes-done, Fits-after, Fits-before,
}
use lowdown.Buffer.Put.{hbuf_put-Writes, hbuf_putc-Writes}
use lowdown.Format.Roff.{Oneline, is_neg, is_pos, ends_in, roff_guard, roff_emit, space, roff_loop}

-- The last byte of the output, 0 for an empty one.
abbrev pub last_of : Out → ℕ
last_of s = last_or s.ob.content 0

unfoldable pub guarded : Oneline → Bool → ℕ → Bool
guarded oneline first prev = (is_neg oneline && first) || (not (is_pos oneline) && prev == b'\n')

unfoldable pub roff_rep : Oneline → Bool → ℕ → ℕ → Bytes
unfolding guarded
roff_rep oneline first prev c =
    if c == b'^'
    then codes "\\(ha"
    else if c == b'~'
    then codes "\\(ti"
    else if c == b'`'
    then codes "\\(ga"
    else if c == b'"'
    then codes "\\(dq"
    else if c == b'\n'
    then (if is_pos oneline then b' ' else b'\n') ∷ []
    else if c == b'\\'
    then codes "\\e"
    else if c == b'\'' || c == b'.'
    then (if guarded oneline first prev then b'\\' ∷ b'&' ∷ c ∷ [] else c ∷ [])
    else c ∷ []

unfoldable pub roff_text : Oneline → Bool → Bool → Bool → ℕ → Bytes → Bytes
roff_text oneline literal first skipping prev [] = []
roff_text oneline literal first skipping prev (c ∷ cs) = elim (skipping && space c) [
  | true ↦ roff_text oneline literal false true prev cs
  | false ↦
      let g = roff_rep oneline first prev c in
      g ++ roff_text oneline literal false (c == b'\n' && not literal) (last_or g prev) cs
]

pub ends_in_newline : (s : Out) → ends_in b'\n' s ≡ (last_of s == b'\n')
unfolding ends_in
ends_in_newline s = by_content s.ob.content
  where
    by_content :
        (xs : Bytes) → (ltb 0 (length xs) && last_or xs 0 == b'\n') ≡ (last_or xs 0 == b'\n')
    by_content [] = refl
    by_content (x ∷ xs) = ground arith

roff_guard_lem :
    (oneline : Oneline) (first : Bool) (s : Out)
    → roff_guard oneline first s
      ≡ (if guarded oneline first (last_of s) then hbuf_put (codes "\\&") s else done s)
unfolding roff_guard guarded
roff_guard_lem oneline first s = rw (ends_in_newline s) refl

-- The guard and the byte behind it.
roff_guard-Appends :
    (oneline : Oneline) (first : Bool) (c : ℕ) (s : Out)
    → IsValid s.ob
    → let g = if guarded oneline first (last_of s) then b'\\' ∷ b'&' ∷ c ∷ [] else c ∷ [] in
      Fits s.ob g → Appends s g ((roff_guard oneline first >> hbuf_putc c) s)
roff_guard-Appends oneline first c s v =
    let g = if guarded oneline first (last_of s) then b'\\' ∷ b'&' ∷ c ∷ [] else c ∷ [] in
    subst (λ (r : Res (Unit {0})). Fits s.ob g → Appends s g (((λ _. r) >> hbuf_putc c) s))
      (sym (roff_guard_lem oneline first s))
      (elim (Bool-cases (guarded oneline first (last_of s))) [
        | inl t ↦ rw t (λ f.
            Writes_then s (hbuf_put (codes "\\&") s) (hbuf_putc c) (codes "\\&") (c ∷ [])
              (hbuf_put-Writes (codes "\\&") s v (omega arith))
              (λ u vu e w. hbuf_putc-Writes c u vu (Fits-after s u (codes "\\&") (c ∷ []) e w f)))
        | inr t ↦ rw t (λ f. hbuf_putc-Writes c s v f)
      ])

roff_emit-Appends :
    (oneline : Oneline) (first : Bool) (c : ℕ) (s : Out)
    → IsValid s.ob
    → Fits s.ob (roff_rep oneline first (last_of s) c)
    → Appends s (roff_rep oneline first (last_of s) c) (roff_emit oneline first c s)
unfolding roff_emit roff_rep
roff_emit-Appends oneline first c s v = elim (Bool-cases (c == b'^')) [
  | inl t ↦ rw t (hbuf_put-Writes (codes "\\(ha") s v)
  | inr t1 ↦ elim (Bool-cases (c == b'~')) [
    | inl t ↦ rw (t1, t) (hbuf_put-Writes (codes "\\(ti") s v)
    | inr t2 ↦ elim (Bool-cases (c == b'`')) [
      | inl t ↦ rw (t1, t2, t) (hbuf_put-Writes (codes "\\(ga") s v)
      | inr t3 ↦ elim (Bool-cases (c == b'"')) [
        | inl t ↦ rw (t1, t2, t3, t) (hbuf_put-Writes (codes "\\(dq") s v)
        | inr t4 ↦ elim (Bool-cases (c == b'\n')) [
          | inl t ↦ rw (t1, t2, t3, t4, t) (hbuf_putc-Writes _ s v)
          | inr t5 ↦ elim (Bool-cases (c == b'\\')) [
            | inl t ↦ rw (t1, t2, t3, t4, t5, t) (hbuf_put-Writes (codes "\\e") s v)
            | inr t6 ↦ elim (Bool-cases (c == b'\'' || c == b'.')) [
              | inl t ↦ rw (t1, t2, t3, t4, t5, t6, t) (roff_guard-Appends oneline first c s v)
              | inr t7 ↦ rw (t1, t2, t3, t4, t5, t6, t7) (hbuf_putc-Writes c s v)
            ]
          ]
        ]
      ]
    ]
  ]
]

pub roff_loop-Appends :
    (oneline : Oneline) (literal first skipping : Bool) (d : Bytes) (s : Out)
    → IsValid s.ob
    → Fits s.ob (roff_text oneline literal first skipping (last_of s) d)
    → Appends s
        (roff_text oneline literal first skipping (last_of s) d)
        (roff_loop oneline literal first skipping d s)
unfolding roff_loop roff_text
roff_loop-Appends oneline literal first skipping [] s v = λ f. Writes-done s v f
roff_loop-Appends oneline literal first skipping (c ∷ cs) s v =
    elim (Bool-cases (skipping && space c)) [
      | inl t ↦ rw (t, roff_loop, roff_text) (roff_loop-Appends oneline literal false true cs s v)
      | inr t ↦
          let g = roff_rep oneline first (last_of s) c in
          let k = c == b'\n' && not literal in
          rw (t, roff_loop, roff_text)
            (λ f.
              let h = roff_text oneline literal false k (last_or g (last_of s)) cs in
              Writes_then s (roff_emit oneline first c s) (roff_loop oneline literal false k cs) g h
                (roff_emit-Appends oneline first c s v (Fits-before s g h f))
                (λ u vu e w.
                  let l : last_of u ≡ last_or g (last_of s) =
                    ap (λ (x : Bytes). last_or x 0) e ∙ last_or-append s.ob.content g 0 in
                  subst
                    (λ p.
                      Appends u (roff_text oneline literal false k p cs)
                        (roff_loop oneline literal false k cs u))
                    l
                    (roff_loop-Appends oneline literal false k cs u vu
                      (rw l (Fits-after s u g h e w f)))))
    ]
