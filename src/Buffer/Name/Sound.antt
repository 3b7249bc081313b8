-- ===== src/Buffer/Name/Sound.antt =====
-- What hbuf_dupname of src/buffer.c makes of a header.
use lowdown.Prelude.{
  ℕ, ◌+◌, ◌≤◌, ◌≡◌, ◌≢◌, refl, sym, ap, subst, ◌∙◌, Bool, true, false, ◌||◌, is_nil, [], ◌∷◌, ◌++◌,
  Bytes, codes, length, ◌==◌, if◌then◌else◌, arith, inl, inr, Bool-cases, All, append-nil, isalnum,
  isdigit, islower, isspace, tolower,
}
use lowdown.Buffer.{Buf, Sched, Out, ◌>>◌, size, size_mod, hbuf_put, hbuf_putc}
use lowdown.Buffer.Writes.{
  IsValid, Fits, Appends, Writes, Writes_then, Writes->>, Writes-done, Fits-after, Fits-before,
}
use lowdown.Buffer.Put.{hbuf_put-Writes, hbuf_putc-Writes}
use lowdown.Buffer.Copy.Laws.{Holds, WritesNew, run_new-Holds}
use lowdown.Buffer.Name.{keeps, dupname_loop, dupname_section, hbuf_dupname}

-- The kept bytes, with one dash for each run of spaces that is not at the start.
name_text : Bool → Bytes → Bytes
name_text last_space [] = []
name_text last_space (c ∷ cs) = elim (keeps c) [
  | true ↦ tolower c ∷ name_text false cs
  | false ↦ elim (isspace c) [
    | true ↦ elim last_space [ true ↦ name_text true cs | false ↦ b'-' ∷ name_text true cs ]
    | false ↦ name_text last_space cs
  ]
]

dupname_loop-Writes :
    (last_space : Bool) (d : Bytes) → Writes (dupname_loop last_space d) (name_text last_space d)
unfolding dupname_loop name_text
dupname_loop-Writes true [] = Writes-done
dupname_loop-Writes false [] = Writes-done
dupname_loop-Writes last_space (c ∷ cs) = elim (Bool-cases (keeps c)) [
  | inl t ↦
      rw (t, dupname_loop, name_text)
        (Writes->> (hbuf_putc (tolower c)) (dupname_loop false cs) (tolower c ∷ [])
          (name_text false cs) (hbuf_putc-Writes (tolower c)) (dupname_loop-Writes false cs))
  | inr t ↦ elim (Bool-cases (isspace c)) [
    | inl u ↦ elim (Bool-cases last_space) [
      | inl w ↦ rw (t, dupname_loop, name_text) (rw u (rw w (dupname_loop-Writes true cs)))
      | inr w ↦
          rw (t, dupname_loop, name_text)
            (rw u (
              rw w (
                Writes->> (hbuf_put (codes "-")) (dupname_loop true cs) (codes "-")
                  (name_text true cs) (hbuf_put-Writes (codes "-")) (dupname_loop-Writes true cs))))
    ]
    | inr u ↦ rw (t, dupname_loop, name_text) (rw u (dupname_loop-Writes last_space cs))
  ]
]

-- A name that is nothing becomes `section`.
or_section : Bytes → Bytes
or_section g = if is_nil g then codes "section" else g

-- A byte of an identifier: a lower-case letter, a digit, a dash, a full stop or an underscore.
abbrev pub IsIdByte : ℕ → Type 0
IsIdByte c = (islower c || isdigit c || c == b'-' || c == b'.' || c == b'_') ≡ true

tolower-IsIdByte : (c : ℕ) → keeps c ≡ true → IsIdByte (tolower c)
unfolding keeps tolower isalnum
tolower-IsIdByte c h = ground arith

name_text-IsIdByte : (last_space : Bool) (d : Bytes) → All IsIdByte (name_text last_space d)
unfolding name_text
name_text-IsIdByte true [] = tt
name_text-IsIdByte false [] = tt
name_text-IsIdByte last_space (c ∷ cs) = elim (Bool-cases (keeps c)) [
  | inl t ↦ rw (t, name_text) (tolower-IsIdByte c t, name_text-IsIdByte false cs)
  | inr t ↦ elim (Bool-cases (isspace c)) [
    | inl u ↦ elim (Bool-cases last_space) [
      | inl w ↦ rw (t, name_text) (rw u (rw w (name_text-IsIdByte true cs)))
      | inr w ↦ rw (t, name_text) (rw u (rw w (refl, name_text-IsIdByte true cs)))
    ]
    | inr u ↦ rw (t, name_text) (rw u (name_text-IsIdByte last_space cs))
  ]
]

dupname_section-Appends :
    (g : Bytes) (t : Out)
    → IsValid t.ob
    → t.ob.content ≡ g
    → Fits t.ob (if is_nil g then codes "section" else [])
    → Appends t (if is_nil g then codes "section" else []) (dupname_section t)
unfolding dupname_section
dupname_section-Appends [] t v e =
    let z : (size t.ob == 0) ≡ true = rw e refl in
    rw z (λ f. hbuf_put-Writes (codes "section") t v f)
dupname_section-Appends (x ∷ xs) t v e =
    let z : (size t.ob == 0) ≡ false = rw e (ground arith) in rw z (λ f. Writes-done t v f)

or_section-append : (g : Bytes) → or_section g ≡ g ++ (if is_nil g then codes "section" else [])
unfolding or_section
or_section-append [] = refl
or_section-append (x ∷ xs) = ap (◌∷◌ x) (sym (append-nil xs))

dupname-WritesNew :
    (d : Bytes) → WritesNew (dupname_loop true d >> dupname_section) (or_section (name_text true d))
dupname-WritesNew d s v e f =
    let g = name_text true d in
    let h = if is_nil g then codes "section" else [] in
    let f' : Fits s.ob (g ++ h) = rw (← or_section-append g) f in
    subst (λ y. Appends s y ((dupname_loop true d >> dupname_section) s))
      (sym (or_section-append g))
      (Writes_then s (dupname_loop true d s) dupname_section g h
        (dupname_loop-Writes true d s v (Fits-before s g h f'))
        (λ t vt c u.
          dupname_section-Appends g t vt (c ∙ ap (λ (x : Bytes). x ++ g) e)
            (Fits-after s t g h c u f')))

length-name_text : (last_space : Bool) (d : Bytes) → length (name_text last_space d) ≤ length d
unfolding name_text
length-name_text true [] = omega arith
length-name_text false [] = omega arith
length-name_text last_space (c ∷ cs) =
    ground
      (arith, length-name_text true cs, length-name_text false cs, length-name_text last_space cs)

or_section-IsIdByte :
    (g : Bytes) → All IsIdByte g → All IsIdByte (or_section g) × (or_section g ≢ [])
unfolding or_section
or_section-IsIdByte [] a = ((refl, (refl, (refl, (refl, (refl, (refl, (refl, tt))))))), cc)
or_section-IsIdByte (x ∷ xs) a = (a, cc)

-- For a header that leaves room in size_t, hbuf_dupname gives a valid buffer that holds an
-- identifier, at most seven bytes longer than the header, which is not empty and has only
-- lower-case letters, digits, dashes, full stops and underscores, or NULL after a refused
-- allocation.
pub hbuf_dupname-IsIdByte :
    (b : Buf) (m : Sched)
    → size b + 39 ≤ size_mod
    → (g : Bytes) × Holds g m (hbuf_dupname b m)
      × All IsIdByte g
      × (g ≢ [])
      × (length g ≤ size b + 7)
unfolding hbuf_dupname
hbuf_dupname-IsIdByte b m room =
    let g = name_text true b.content in
    let (a, n) = or_section-IsIdByte g (name_text-IsIdByte true b.content) in
    let short = length-name_text true b.content in
    let section = length-or_section g in
    (
      or_section g,
      run_new-Holds (dupname_loop true b.content >> dupname_section) (or_section g) m
          (dupname-WritesNew b.content) (omega arith),
      a,
      n,
      omega arith,
    )
  where
    length-or_section : (g : Bytes) → length (or_section g) ≤ length g + 7
    length-or_section g = unfold or_section in ground arith
