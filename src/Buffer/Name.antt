-- ===== src/Buffer/Name.antt =====
-- Section identifiers: hbuf_dupname of src/buffer.c.
pub mod Sound
use lowdown.Prelude.{
  ℕ, Bool, true, false, ◌||◌, [], ◌∷◌, Bytes, codes, ◌==◌, if◌then◌else◌, isalnum, isspace, tolower,
}
use lowdown.Buffer.{Buf, Sched, M, ◌>>◌, done, size, hbuf_put, hbuf_putc}
use lowdown.Buffer.Copy.{Made, hbuf_new, run_new}

-- The bytes that a name keeps, in lower case.
pub keeps : ℕ → Bool
keeps c = isalnum c || c == b'-' || c == b'.' || c == b'_'

dupname_loop : Bool → Bytes → M (Unit {0})
unfolding keeps
dupname_loop last_space [] = done
dupname_loop last_space (c ∷ cs) = elim (keeps c) [
  | true ↦ hbuf_putc (tolower c) >> dupname_loop false cs
  | false ↦ elim (isspace c) [
    | true ↦ elim last_space [
      | true ↦ dupname_loop true cs
      | false ↦ hbuf_put (codes "-") >> dupname_loop true cs
    ]
    | false ↦ dupname_loop last_space cs
  ]
]

dupname_section : M (Unit {0})
dupname_section s = if size s.ob == 0 then hbuf_put (codes "section") s else done s

pub hbuf_dupname : Buf → Sched → Made
unfolding dupname_loop dupname_section
hbuf_dupname buf m = run_new (dupname_loop true buf.content >> dupname_section) (hbuf_new 32 m)
