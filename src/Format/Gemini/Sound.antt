-- ===== src/Format/Gemini/Sound.antt =====
-- What lowdown_gemini_esc of src/format/gemini/gemini_escape.c appends.
use lowdown.Prelude.{
  ℕ, ◌+◌, ◌*◌, ◌≤◌, ◌≡◌, refl, ◌∙◌, ap, subst, Bool, true, false, ◌&&◌, [], ◌∷◌, ◌++◌, Bytes,
  last_or, last_or-append, length, ltb, inl, inr, ◌==◌, if◌then◌else◌, Bool-cases, arith,
  append-nil, append_assoc, All, All-append, iscntrl,
}
use lowdown.Buffer.{Out, M, ◌>>◌, size, size_mod, hbuf_put, hbuf_putc}
use lowdown.Buffer.Writes.{
  IsValid, Fits, Appends, Writes_then, Writes-done, Fits-after, Fits-before,
}
use lowdown.Buffer.Put.{hbuf_put-Writes, hbuf_putc-Writes}
use lowdown.Format.Gemini.{gemini_stop, gemini_loop, lowdown_gemini_esc}

abbrev last_of : Out → ℕ
last_of s = last_or s.ob.content 0

-- The second space behind a full stop.
stop_text : ℕ → Bytes
stop_text prev = if prev == b'.' then b' ' ∷ [] else []

-- What the text becomes behind the byte `prev`.
gemini_text : Bool → ℕ → Bytes → Bytes
gemini_text oneline prev [] = []
gemini_text oneline prev (c ∷ cs) = elim (c == b'\n' && oneline) [
  | true ↦ stop_text prev ++ (b' ' ∷ gemini_text oneline b' ' cs)
  | false ↦ elim (ltb c 0x80 && iscntrl c) [
    | true ↦ gemini_text oneline prev cs
    | false ↦ c ∷ gemini_text oneline c cs
  ]
]

gemini_stop-Appends :
    (s : Out)
    → IsValid s.ob
    → Fits s.ob (stop_text (last_of s))
    → Appends s (stop_text (last_of s)) (gemini_stop s)
unfolding gemini_stop stop_text
gemini_stop-Appends s v = rw (stop_test s.ob.content) (elim (Bool-cases (last_of s == b'.')) [
  | inl t ↦ rw t (λ f. hbuf_putc-Writes b' ' s v f)
  | inr t ↦ rw t (λ f. Writes-done s v f)
])
  where
    stop_test : (xs : Bytes) → (ltb 0 (length xs) && last_or xs 0 == b'.') ≡ (last_or xs 0 == b'.')
    stop_test [] = refl
    stop_test (x ∷ xs) = ground arith

-- The last byte after a text has been appended.
last_after :
    (s t : Out) (g : Bytes) → t.ob.content ≡ s.ob.content ++ g → last_of t ≡ last_or g (last_of s)
last_after s t g e = ap (λ (x : Bytes). last_or x 0) e ∙ last_or-append s.ob.content g 0

-- A newline that becomes a space, and what is written behind it.
newline-Appends :
    (k : M (Unit {0})) (h : Bytes) (s : Out)
    → IsValid s.ob
    → ((w : Out) → IsValid w.ob → last_of w ≡ b' ' → Fits w.ob h → Appends w h (k w))
    → Fits s.ob (stop_text (last_of s) ++ (b' ' ∷ h))
    → Appends s (stop_text (last_of s) ++ (b' ' ∷ h)) ((gemini_stop >> (hbuf_putc b' ' >> k)) s)
newline-Appends k h s v q f =
    let g = stop_text (last_of s) in
    Writes_then s (gemini_stop s) (hbuf_putc b' ' >> k) g (b' ' ∷ h)
      (gemini_stop-Appends s v (Fits-before s g (b' ' ∷ h) f))
      (λ t vt e x.
        let ft = Fits-after s t g (b' ' ∷ h) e x f in
        Writes_then t (hbuf_putc b' ' t) k (b' ' ∷ []) h (hbuf_putc-Writes b' ' t vt (omega arith))
          (λ w vw e' x'.
            q w vw (last_after t w (b' ' ∷ []) e') (Fits-after t w (b' ' ∷ []) h e' x' ft)))

gemini_loop-Appends :
    (oneline : Bool) (run d : Bytes) (s : Out)
    → IsValid s.ob
    → Fits s.ob (run ++ gemini_text oneline (last_or run (last_of s)) d)
    → Appends s
        (run ++ gemini_text oneline (last_or run (last_of s)) d)
        (gemini_loop oneline run d s)
unfolding gemini_loop gemini_text
gemini_loop-Appends oneline [] [] s v = λ f. Writes-done s v f
gemini_loop-Appends oneline (x ∷ xs) [] s v =
    rw (append-nil xs) (λ f. hbuf_put-Writes (x ∷ xs) s v f)
gemini_loop-Appends oneline run (c ∷ cs) s v = elim (Bool-cases (c == b'\n' && oneline)) [
  | inl t ↦
      rw (t, gemini_loop, gemini_text)
        (λ f.
          let p = last_or run (last_of s) in
          let h = gemini_text oneline b' ' cs in
          let k = gemini_loop oneline [] cs in
          Writes_then s (hbuf_put run s) (gemini_stop >> (hbuf_putc b' ' >> k)) run
            (stop_text p ++ (b' ' ∷ h)) (hbuf_put-Writes run s v (Fits-before s run _ f))
            (λ w vw e x.
              subst
                (λ y.
                  Appends w (stop_text y ++ (b' ' ∷ h)) ((gemini_stop >> (hbuf_putc b' ' >> k)) w))
                (last_after s w run e)
                (newline-Appends k h w vw
                  (λ z vz l fz.
                    subst (λ y. Appends z (gemini_text oneline y cs) (k z)) l
                      (gemini_loop-Appends oneline [] cs z vz (rw l fz)))
                  (rw (last_after s w run e) (Fits-after s w run _ e x f)))))
  | inr t ↦ elim (Bool-cases (ltb c 0x80 && iscntrl c)) [
    | inl u ↦
        rw (t, gemini_loop, gemini_text)
          (rw u (λ f.
            Writes_then s (hbuf_put run s) (gemini_loop oneline [] cs) run
              (gemini_text oneline (last_or run (last_of s)) cs)
              (hbuf_put-Writes run s v (Fits-before s run _ f))
              (λ w vw e x.
                subst (λ y. Appends w (gemini_text oneline y cs) (gemini_loop oneline [] cs w))
                  (last_after s w run e)
                  (gemini_loop-Appends oneline [] cs w vw
                    (rw (last_after s w run e) (Fits-after s w run _ e x f))))))
    | inr u ↦
        let ih = gemini_loop-Appends oneline (run ++ c ∷ []) cs s v in
        let l : last_or (run ++ c ∷ []) (last_of s) ≡ c = last_or-append run (c ∷ []) (last_of s) in
        rw (t, gemini_loop, gemini_text)
          (rw (u, ← append_assoc run (c ∷ []) (gemini_text oneline c cs))
            (subst
              (λ y.
                Fits s.ob ((run ++ c ∷ []) ++ gemini_text oneline y cs)
                → Appends s ((run ++ c ∷ []) ++ gemini_text oneline y cs)
                    (gemini_loop oneline (run ++ c ∷ []) cs s))
              l ih))
  ]
]

-- No byte of the ASCII control range.
abbrev pub IsPrintable : ℕ → Type 0
IsPrintable c = (ltb c 0x80 && iscntrl c) ≡ false

-- The text with its control characters left out.
pub printable : Bytes → Bytes
printable [] = []
printable (c ∷ cs) = if ltb c 0x80 && iscntrl c then printable cs else c ∷ printable cs

stop_text-IsPrintable : (prev : ℕ) → All IsPrintable (stop_text prev)
unfolding stop_text iscntrl
stop_text-IsPrintable prev = ground arith

gemini_text-IsPrintable :
    (oneline : Bool) (prev : ℕ) (d : Bytes) → All IsPrintable (gemini_text oneline prev d)
unfolding gemini_text
gemini_text-IsPrintable oneline prev [] = tt
gemini_text-IsPrintable oneline prev (c ∷ cs) = elim (Bool-cases (c == b'\n' && oneline)) [
  | inl t ↦
      rw (t, gemini_text)
        (All-append IsPrintable (stop_text prev) _ (stop_text-IsPrintable prev)
          (unfold iscntrl in refl, gemini_text-IsPrintable oneline b' ' cs))
  | inr t ↦ elim (Bool-cases (ltb c 0x80 && iscntrl c)) [
    | inl u ↦ rw (t, gemini_text) (rw u (gemini_text-IsPrintable oneline prev cs))
    | inr u ↦ rw (t, gemini_text) (rw u (u, gemini_text-IsPrintable oneline c cs))
  ]
]

gemini_text-printable : (prev : ℕ) (d : Bytes) → gemini_text false prev d ≡ printable d
unfolding gemini_text printable
gemini_text-printable prev [] = refl
gemini_text-printable prev (c ∷ cs) =
    ground (arith, gemini_text-printable prev cs, gemini_text-printable c cs)

length-gemini_text :
    (oneline : Bool) (prev : ℕ) (d : Bytes) → length (gemini_text oneline prev d) ≤ 2 * length d
unfolding gemini_text stop_text
length-gemini_text oneline prev [] = omega arith
length-gemini_text oneline prev (c ∷ cs) = ground (
  arith,
  length-gemini_text oneline b' ' cs,
  length-gemini_text oneline prev cs,
  length-gemini_text oneline c cs,
)

module _ (d : Bytes) (s : Out) (v : IsValid s.ob)
    (room : size s.ob + 2 * length d + s.ob.unit ≤ size_mod) where
  lowdown_gemini_esc-Appends :
      (oneline : Bool)
      → Appends s (gemini_text oneline (last_of s) d) (lowdown_gemini_esc d oneline s)
  unfolding lowdown_gemini_esc
  lowdown_gemini_esc-Appends oneline =
      gemini_loop-Appends oneline [] d s v (omega (arith, length-gemini_text oneline (last_of s) d))

  -- On a valid buffer with room in size_t for two bytes to each byte of the text,
  -- lowdown_gemini_esc appends a text with no ASCII control character, so with no newline; it stops
  -- early only after a refused allocation, with a part written.
  pub lowdown_gemini_esc_sound :
      (oneline : Bool)
      → (g : Bytes) × Appends s g (lowdown_gemini_esc d oneline s) × All IsPrintable g
  lowdown_gemini_esc_sound oneline = (
    gemini_text oneline (last_of s) d,
    lowdown_gemini_esc-Appends oneline,
    gemini_text-IsPrintable oneline (last_of s) d,
  )

  -- On a valid buffer with room in size_t for two bytes to each byte of the text, and without
  -- `oneline`, lowdown_gemini_esc appends exactly the bytes that are no ASCII control characters.
  pub lowdown_gemini_esc_keeps : Appends s (printable d) (lowdown_gemini_esc d false s)
  lowdown_gemini_esc_keeps =
      subst (λ g. Appends s g (lowdown_gemini_esc d false s)) (gemini_text-printable (last_of s) d)
        (lowdown_gemini_esc-Appends false)
