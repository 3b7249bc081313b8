-- ===== src/Buffer/Text/Trim.antt =====
-- What hbuf_stringn_trim of src/buffer.c copies.
use lowdown.Prelude.{
  ℕ, zero, suc, ◌-◌, ◌≤◌, ◌<◌, ◌≡◌, refl, sym, ap, ◌∙◌, true, false, ◌&&◌, [], ◌∷◌, ◌++◌,
  append_assoc, append-nil, none, some, Bytes, length, take_all, take, drop, get_or, last_or, leb,
  c_string, isspace, skip_isspace, if◌then◌else◌, arith, inl, inr, ◌⊎◌, Bool-cases, All, All-append,
}
use lowdown.Buffer.{Buf, Sched, granted, rest, size}
use lowdown.Buffer.Text.{text, strndup, trim_end, hbuf_stringn_trim}

abbrev IsSpace : ℕ → Type 0
IsSpace c = isspace c ≡ true

-- Nothing, or a text with no white space at its two ends.
pub Tight : Bytes → Type 0
Tight d = (d ≡ []) ⊎ ((isspace (get_or d 0 0) ≡ false) × (isspace (last_or d 0) ≡ false))

-- White space, and the text behind it.
skip_isspace-split :
    (d : Bytes)
    → (pre : Bytes) × (d ≡ pre ++ skip_isspace d)
      × All IsSpace pre
      × ((skip_isspace d ≡ []) ⊎ (isspace (get_or (skip_isspace d) 0 0) ≡ false))
unfolding skip_isspace
skip_isspace-split [] = ([], refl, tt, inl refl)
skip_isspace-split (c ∷ cs) = elim (Bool-cases (isspace c)) [
  | inl h ↦ let (pre, e, a, f) = skip_isspace-split cs in rw h (c ∷ pre, ap (◌∷◌ c) e, (h, a), f)
  | inr h ↦ rw h ([], refl, tt, inr h)
]

take-suc : (d : Bytes) (n : ℕ) → n < length d → take (suc n) d ≡ take n d ++ (get_or d n 0 ∷ [])
take-suc [] n lt = absurd (omega arith)
take-suc (c ∷ cs) zero lt = refl
take-suc (c ∷ cs) (suc n) lt = ap (◌∷◌ c) (take-suc cs n (omega arith))

last_or-take :
    (d : Bytes) (n : ℕ) (x : ℕ) → n < length d → last_or (take (suc n) d) x ≡ get_or d n 0
last_or-take [] n x lt = absurd (omega arith)
last_or-take (c ∷ cs) zero x lt = refl
last_or-take (c ∷ cs) (suc n) x lt = last_or-take cs n c (omega arith)

trim_end-split :
    (d : Bytes) (n : ℕ)
    → n ≤ length d
    → (post : Bytes) × (take n d ≡ take (trim_end d n) d ++ post)
      × All IsSpace post
      × ((trim_end d n ≡ 0) ⊎ (isspace (last_or (take (trim_end d n) d) 0) ≡ false))
unfolding trim_end
trim_end-split d zero le = ([], refl, tt, inl refl)
trim_end-split d (suc n) le = elim (Bool-cases (isspace (get_or d n 0))) [
  | inl h ↦
      let (post, e, a, f) = trim_end-split d n (omega arith) in
      rw h (
        post ++ (get_or d n 0 ∷ []),
        take-suc d n (omega arith)
            ∙ ap (λ (x : Bytes). x ++ (get_or d n 0 ∷ [])) e
            ∙ append_assoc (take (trim_end d n) d) post (get_or d n 0 ∷ []),
        All-append IsSpace post (get_or d n 0 ∷ []) a (h, tt),
        f,
      )
  | inr h ↦ rw h (
    [],
    sym (append-nil (take (suc n) d)),
    tt,
    inr (ap isspace (last_or-take d n 0 (omega arith)) ∙ h),
  )
]

-- The first byte of a part that is not empty is that of the whole.
head-take :
    (d : Bytes) (n : ℕ)
    → isspace (get_or d 0 0) ≡ false
    → (take n d ≡ []) ⊎ (isspace (get_or (take n d) 0 0) ≡ false)
head-take d zero h = inl refl
head-take [] (suc n) h = inl refl
head-take (c ∷ cs) (suc n) h = inr h

trim_end-Tight :
    (d : Bytes)
    → (d ≡ []) ⊎ (isspace (get_or d 0 0) ≡ false)
    → (trim_end d (length d) ≡ 0) ⊎ (isspace (last_or (take (trim_end d (length d)) d) 0) ≡ false)
    → Tight (take (trim_end d (length d)) d)
unfolding Tight trim_end
trim_end-Tight d (inl e) q = inl (rw e refl)
trim_end-Tight d (inr h) (inl z) = inl (rw z refl)
trim_end-Tight d (inr h) (inr l) = elim (head-take d (trim_end d (length d)) h) [
  | inl e ↦ inl e
  | inr f ↦ inr (f, l)
]

-- For a slice inside the buffer, hbuf_stringn_trim copies, as a C string, the slice without the
-- white space at its two ends; nothing else is cut off. It returns NULL where the allocation is
-- refused.
pub hbuf_stringn_trim-Tight :
    (buf : Buf) (start end : ℕ) (m : Sched)
    → start ≤ end
    → end ≤ size buf
    → (pre mid post : Bytes) × (take (end - start) (drop start buf.content) ≡ pre ++ (mid ++ post))
      × All IsSpace pre
      × All IsSpace post
      × Tight mid
      × (hbuf_stringn_trim buf start end m
          ≡ (if granted m then text (some (c_string mid)) (rest m) else text none (rest m)))
unfolding hbuf_stringn_trim strndup
hbuf_stringn_trim-Tight buf start end m le fits =
    let slice = take (end - start) (drop start buf.content) in
    let d = skip_isspace slice in
    let (pre, e, a, first) = skip_isspace-split slice in
    let (post, f, b, last) = trim_end-split d (length d) (omega arith) in
    let inside : (leb start end && leb end (size buf)) ≡ true = ground arith in
    (
      pre,
      take (trim_end d (length d)) d,
      post,
      e ∙ ap (λ (x : Bytes). pre ++ x) (sym (take_all d) ∙ f),
      a,
      b,
      trim_end-Tight d first last,
      rw inside refl,
    )
