-- ===== src/Format/Latex/Sound.antt =====
-- What lowdown_latex_esc of src/format/latex/latex_escape.c writes typesets as its argument.
use lowdown.Prelude.{
  ℕ, zero, suc, ◌+◌, ◌*◌, ◌≤◌, ◌≡◌, refl, ◌∙◌, ap, Bool, true, false, ◌||◌, [], ◌∷◌, ◌++◌, Bytes,
  codes, inl, inr, ◌==◌, ==_iff, if◌then◌else◌, Bool-cases, begins, Option, none, some, arith,
  length, length-append,
}
use lowdown.Buffer.{Out, hbuf_putc, size, size_mod}
use lowdown.Buffer.Writes.{IsValid, Appends, Writes, Writes->>, Writes-done}
use lowdown.Buffer.Put.{hbuf_put-Writes, hbuf_putc-Writes}
use lowdown.Format.Latex.{backslashed, latex_emit, lowdown_latex_esc}

latex_rep : ℕ → Bytes
latex_rep c =
    if backslashed c
    then b'\\' ∷ c ∷ []
    else if c == b'~'
    then codes "\\textasciitilde{}"
    else if c == b'^'
    then codes "\\textasciicircum{}"
    else if c == b'\\'
    then codes "\\textbackslash{}"
    else c ∷ []

latex_text : Bytes → Bytes
unfolding latex_rep
latex_text [] = []
latex_text (c ∷ cs) = latex_rep c ++ latex_text cs

latex_emit-Writes : (c : ℕ) → Writes (latex_emit c) (latex_rep c)
unfolding latex_emit latex_rep
latex_emit-Writes c = elim (Bool-cases (backslashed c)) [
  | inl t ↦ rw t (
      Writes->> (hbuf_putc b'\\') (hbuf_putc c) (b'\\' ∷ []) (c ∷ []) (hbuf_putc-Writes b'\\')
        (hbuf_putc-Writes c))
  | inr t ↦ elim (Bool-cases (c == b'~')) [
    | inl u ↦ rw (t, u) (hbuf_put-Writes _)
    | inr u ↦ elim (Bool-cases (c == b'^')) [
      | inl w ↦ rw (t, u, w) (hbuf_put-Writes _)
      | inr w ↦ elim (Bool-cases (c == b'\\')) [
        | inl x ↦ rw (t, u, w, x) (hbuf_put-Writes _)
        | inr x ↦ rw (t, u, w, x) (hbuf_putc-Writes c)
      ]
    ]
  ]
]

lowdown_latex_esc-Writes : (d : Bytes) → Writes (lowdown_latex_esc d) (latex_text d)
unfolding lowdown_latex_esc latex_text
lowdown_latex_esc-Writes [] = Writes-done
lowdown_latex_esc-Writes (c ∷ cs) =
    Writes->> (latex_emit c) (lowdown_latex_esc cs) (latex_rep c) (latex_text cs)
      (latex_emit-Writes c) (lowdown_latex_esc-Writes cs)

-- The characters that are reserved in LaTeX, of which it prints those that are no accents behind a
-- backslash.
abbrev reserved : ℕ → Bool
reserved c = c == b'#' || c == b'$' || c == b'%' || c == b'&' || c == b'_' || c == b'{' || c == b'}'

reserved_lem : (c : ℕ) → reserved c ≡ backslashed c
unfolding backslashed
reserved_lem c = ground arith

-- A reader of LaTeX text: the byte that a command stands for, and the length of the command behind
-- its backslash. `none` is any other command.
command : Bytes → Option (ℕ × ℕ)
command [] = none
command (c ∷ s) =
    if reserved c
    then some (c, 1)
    else if begins (codes "textasciitilde{}") (c ∷ s)
    then some (b'~', 16)
    else if begins (codes "textasciicircum{}") (c ∷ s)
    then some (b'^', 17)
    else if begins (codes "textbackslash{}") (c ∷ s)
    then some (b'\\', 15)
    else none

-- The bytes that LaTeX treats in a way of its own where no backslash stands before them.
abbrev special : ℕ → Bool
special c = reserved c || c == b'~' || c == b'^'

push : ℕ → Option Bytes → Option Bytes
push c none = none
push c (some s) = some (c ∷ s)

-- The text that is typeset, or `none` where an unescaped special byte or an unknown command stands.
typeset_from : ℕ → Bytes → Option Bytes
typeset_from skip [] = some []
typeset_from (suc skip) (c ∷ cs) = typeset_from skip cs
typeset_from zero (c ∷ cs) = elim (c == b'\\') [
  | true ↦ elim (command cs) [ none ↦ none | some (x, n) ↦ push x (typeset_from n cs) ]
  | false ↦ if special c then none else push c (typeset_from zero cs)
]

pub typeset : Bytes → Option Bytes
unfolding typeset_from
typeset = typeset_from 0

Typesets : Bytes → ℕ → Type 0
Typesets g c = (r : Bytes) → typeset_from 0 (g ++ r) ≡ push c (typeset_from 0 r)

Typesets-tilde : Typesets (codes "\\textasciitilde{}") b'~'
unfolding Typesets typeset_from command
Typesets-tilde r = refl

Typesets-circum : Typesets (codes "\\textasciicircum{}") b'^'
unfolding Typesets typeset_from command
Typesets-circum r = refl

Typesets-backslash : Typesets (codes "\\textbackslash{}") b'\\'
unfolding Typesets typeset_from command
Typesets-backslash r = refl

command-backslashed : (c : ℕ) (r : Bytes) → backslashed c ≡ true → command (c ∷ r) ≡ some (c, 1)
unfolding command
command-backslashed c r t = let e : reserved c ≡ true = reserved_lem c ∙ t in rw e

Typesets-latex_rep : (c : ℕ) → Typesets (latex_rep c) c
unfolding Typesets latex_rep typeset_from
Typesets-latex_rep c r = elim (Bool-cases (backslashed c)) [
  | inl t ↦ rw t (rw (command-backslashed c r t, typeset_from) refl)
  | inr t ↦ elim (Bool-cases (c == b'~')) [
    | inl u ↦ rw (t, u, (==_iff c b'~').0 u) (Typesets-tilde r)
    | inr u ↦ elim (Bool-cases (c == b'^')) [
      | inl w ↦ rw (t, u, w, (==_iff c b'^').0 w) (Typesets-circum r)
      | inr w ↦ elim (Bool-cases (c == b'\\')) [
        | inl x ↦ rw (t, u, w, x, (==_iff c b'\\').0 x) (Typesets-backslash r)
        | inr x ↦
            let e : reserved c ≡ false = reserved_lem c ∙ t in
            rw (t, u, w, x) (rw (x, typeset_from) (rw (e, u, w) refl))
      ]
    ]
  ]
]

typeset-latex_text : (d : Bytes) → typeset (latex_text d) ≡ some d
unfolding typeset latex_text Typesets push
typeset-latex_text [] = refl
typeset-latex_text (c ∷ cs) =
    Typesets-latex_rep c (latex_text cs) ∙ ap (push c) (typeset-latex_text cs)

length-latex_rep : (c : ℕ) → length (latex_rep c) ≤ 18
unfolding latex_rep
length-latex_rep c = ground arith

length-latex_text : (d : Bytes) → length (latex_text d) ≤ 18 * length d
unfolding latex_text
length-latex_text [] = omega arith
length-latex_text (c ∷ cs) =
    omega
      (arith, length-append (latex_rep c) (latex_text cs), length-latex_rep c, length-latex_text cs)

-- On a valid buffer with room in size_t for eighteen bytes to each byte of the text,
-- lowdown_latex_esc appends a text that LaTeX typesets as its argument, with no special byte left
-- unescaped; it stops early only after a refused allocation, with a part written.
pub lowdown_latex_esc_sound :
    (d : Bytes) (s : Out)
    → IsValid s.ob
    → size s.ob + 18 * length d + s.ob.unit ≤ size_mod
    → (g : Bytes) × Appends s g (lowdown_latex_esc d s) × (typeset g ≡ some d)
lowdown_latex_esc_sound d s v room = (
  latex_text d,
  lowdown_latex_esc-Writes d s v (omega (arith, length-latex_text d)),
  typeset-latex_text d,
)
