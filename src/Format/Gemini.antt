-- ===== src/Format/Gemini.antt =====
-- Escaping for gemtext: lowdown_gemini_esc of src/format/gemini/gemini_escape.c.
pub mod Sound
use lowdown.Prelude.{
  ℕ, Bool, true, false, not, ◌&&◌, [], ◌∷◌, ◌++◌, Bytes, last_or, is_nil, ltb, ◌==◌, if◌then◌else◌,
  iscntrl,
}
use lowdown.Buffer.{Out, M, ◌>>◌, done, size, hbuf_put, hbuf_putc}

-- The second space behind a full stop.
gemini_stop : M (Unit {0})
gemini_stop s =
    if ltb 0 (size s.ob) && last_or s.ob.content 0 == b'.' then hbuf_putc b' ' s else done s

-- `run` is buf[start .. i), the bytes that are not yet written.
gemini_loop : Bool → Bytes → Bytes → M (Unit {0})
unfolding gemini_stop
gemini_loop oneline run [] = if is_nil run then done else hbuf_put run
gemini_loop oneline run (c ∷ cs) = elim (c == b'\n' && oneline) [
  | true ↦ hbuf_put run >> (gemini_stop >> (hbuf_putc b' ' >> gemini_loop oneline [] cs))
  | false ↦ elim (ltb c 0x80 && iscntrl c) [
    | true ↦ hbuf_put run >> gemini_loop oneline [] cs
    | false ↦ gemini_loop oneline (run ++ c ∷ []) cs
  ]
]

pub lowdown_gemini_esc : Bytes → Bool → M (Unit {0})
unfolding gemini_loop
lowdown_gemini_esc buf oneline = gemini_loop oneline [] buf
