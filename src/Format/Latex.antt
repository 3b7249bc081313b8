-- ===== src/Format/Latex.antt =====
-- Escaping for LaTeX: src/format/latex/latex_escape.c.
pub mod Sound
use lowdown.Prelude.{ℕ, Bool, ◌||◌, [], ◌∷◌, Bytes, codes, ◌==◌, if◌then◌else◌}
use lowdown.Buffer.{M, ◌>>◌, done, hbuf_put, hbuf_putc}

-- The bytes that LaTeX reads as themselves behind a backslash.
pub backslashed : ℕ → Bool
backslashed c =
    c == b'&' || c == b'%' || c == b'$' || c == b'#' || c == b'_' || c == b'{' || c == b'}'

-- The switch on one byte.
latex_emit : ℕ → M (Unit {0})
unfolding backslashed
latex_emit c =
    if backslashed c
    then hbuf_putc b'\\' >> hbuf_putc c
    else if c == b'~'
    then hbuf_put (codes "\\textasciitilde{}")
    else if c == b'^'
    then hbuf_put (codes "\\textasciicircum{}")
    else if c == b'\\'
    then hbuf_put (codes "\\textbackslash{}")
    else hbuf_putc c

pub lowdown_latex_esc : Bytes → M (Unit {0})
unfolding latex_emit
lowdown_latex_esc [] = done
lowdown_latex_esc (c ∷ cs) = latex_emit c >> lowdown_latex_esc cs
