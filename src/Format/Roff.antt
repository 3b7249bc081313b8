-- ===== src/Format/Roff.antt =====
-- Escaping for roff: lowdown_roff_esc of src/format/roff/roff_escape.c.
pub mod Text
pub mod Sound
use lowdown.Prelude.{
  ℕ, Bool, true, false, not, ◌&&◌, ◌||◌, [], ◌∷◌, Bytes, codes, last_or, is_nil, ltb, ◌==◌,
  if◌then◌else◌,
}
use lowdown.Buffer.{Out, Res, ok, M, ◌>>◌, done, size, hbuf_put, hbuf_putc}

-- The sign of the argument `oneline`.
pub data Oneline : Type 0 where
  negative zero positive : Oneline

abbrev pub is_neg : Oneline → Bool
is_neg negative = true
is_neg zero = false
is_neg positive = false

abbrev pub is_pos : Oneline → Bool
is_pos negative = false
is_pos zero = false
is_pos positive = true

-- `ob->size > 0 && ob->data[ob->size - 1] == c`
pub ends_in : ℕ → Out → Bool
ends_in c s = ltb 0 (size s.ob) && last_or s.ob.content 0 == c

-- The guard of a full stop or a single quote; `first` is `i == 0`.
roff_guard : Oneline → Bool → M (Unit {0})
roff_guard oneline first s =
    if (is_neg oneline && first) || (not (is_pos oneline) && ends_in b'\n' s)
    then hbuf_put (codes "\\&") s
    else done s

-- The switch on one byte, but for the spaces that it passes over behind a newline.
roff_emit : Oneline → Bool → ℕ → M (Unit {0})
unfolding roff_guard
roff_emit oneline first c =
    if c == b'^'
    then hbuf_put (codes "\\(ha")
    else if c == b'~'
    then hbuf_put (codes "\\(ti")
    else if c == b'`'
    then hbuf_put (codes "\\(ga")
    else if c == b'"'
    then hbuf_put (codes "\\(dq")
    else if c == b'\n'
    then hbuf_putc (if is_pos oneline then b' ' else b'\n')
    else if c == b'\\'
    then hbuf_put (codes "\\e")
    else if c == b'\'' || c == b'.'
    then roff_guard oneline first >> hbuf_putc c
    else hbuf_putc c

abbrev pub space : ℕ → Bool
space c = c == b' ' || c == b'\n'

-- The rest of the text. `skipping` is set while spaces are passed over: at the start of the text,
-- and behind a newline of a text that is not literal.
pub roff_loop : Oneline → Bool → Bool → Bool → Bytes → M (Unit {0})
unfolding roff_emit
roff_loop oneline literal first skipping [] = done
roff_loop oneline literal first skipping (c ∷ cs) = elim (skipping && space c) [
  | true ↦ roff_loop oneline literal false true cs
  | false ↦
      roff_emit oneline first c >> roff_loop oneline literal false (c == b'\n' && not literal) cs
]

pub lowdown_roff_esc : Bytes → Oneline → Bool → M (Unit {0})
unfolding roff_loop
lowdown_roff_esc data' oneline literal s =
    if is_nil data'
    then ok tt s
    else roff_loop oneline literal true (not literal && ends_in b'\n' s) data' s
