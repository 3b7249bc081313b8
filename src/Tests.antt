-- ===== src/Tests.antt =====
-- Concrete runs of the modelled functions, on an empty buffer and on small texts.
pub mod Escapes
pub mod Buffers
pub mod Links
pub mod Lines
pub mod Trees
pub mod Headers
pub mod Entities
pub mod Attributes
pub mod Renders
pub mod Library
use lowdown.Prelude.{refl, true, [], Bytes, codes, arith}
use lowdown.Buffer.{Buf, Out, hbuf_init}
use lowdown.Buffer.Writes.{IsValid}

abbrev pub empty : Out
empty = record { ob = hbuf_init 64 true; sched = [] }

pub empty-IsValid : IsValid empty.ob
empty-IsValid = record { unit_pos = omega arith; size_le = omega arith; backed = refl }

-- A buffer that holds a link, with room left.
abbrev pub holding : Bytes → Buf
holding d = record { content = d; alloc = 64; maxsize = 64; unit = 64; buffer_free = true }
