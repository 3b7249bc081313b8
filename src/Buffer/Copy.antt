-- ===== src/Buffer/Copy.antt =====
-- Making, copying and comparing buffers: hbuf_new, hbuf_strndup, hbuf_clone, hbuf_dup, hbuf_streq,
-- hbuf_strprefix, hbuf_eq and hbuf_strncasecmpat of src/buffer.c. A NULL result is `none`. What
-- hbuf_free gives back to the allocator is not modelled.
pub mod Laws
use lowdown.Prelude.{
  ℕ, ◌+◌, ◌%◌, Bool, true, false, ◌&&◌, [], ◌∷◌, map, Option, none, some, Bytes, length, take, drop,
  is_nil, bytes_eq, leb, ◌==◌, if◌then◌else◌, tolower,
}
use lowdown.Buffer.{
  Buf, Sched, Out, Res, M, ok, failed, fault, granted, rest, size, size_mod, hbuf_init, hbuf_put,
}

-- What an allocating function leaves: its result, `none` for NULL, and the schedule; or a fault.
pub data Made : Type 0 where
  made : Option Buf → Sched → Made
  broken : Made

unfoldable pub hbuf_new : ℕ → Sched → Made
hbuf_new unit m =
    if granted m then made (some (hbuf_init unit true)) (rest m) else made none (rest m)

-- The buffer that a writer has filled, or NULL.
abbrev pub filled : Res (Unit {0}) → Made
filled (ok _ t) = made (some t.ob) t.sched
filled (failed t) = made none t.sched
filled fault = broken

-- A writer that is run on a new buffer.
unfoldable pub run_new : M (Unit {0}) → Made → Made
run_new k (made (some v) m) = filled (k (record { ob = v; sched = m }))
run_new k (made none m) = made none m
run_new k broken = broken

pub hbuf_strndup : Bytes → Sched → Made
unfolding run_new hbuf_new
hbuf_strndup val m = run_new (hbuf_put val) (hbuf_new 32 m)

-- The struct is copied whole, `maxsize` included, and `size` bytes are allocated for the text.
unfoldable pub hbuf_clone : Buf → Sched → Made
hbuf_clone buf m =
    if is_nil buf.content
    then made (some (record buf { alloc = 0 })) m
    else if granted m
    then made (some (record buf { alloc = size buf })) (rest m)
    else made none (rest m)

pub hbuf_dup : Buf → Sched → Made
unfolding hbuf_clone
hbuf_dup buf m = if granted m then hbuf_clone buf (rest m) else made none (rest m)

-- memcmp of `n` bytes, for equality.
abbrev pub memcmp_eq : Bytes → Bytes → ℕ → Bool
memcmp_eq a b n = bytes_eq (take n a) (take n b)

pub hbuf_streq : Buf → Bytes → Bool
hbuf_streq buf1 buf2 = size buf1 == length buf2 && memcmp_eq buf1.content buf2 (length buf2)

pub hbuf_strprefix : Buf → Bytes → Bool
hbuf_strprefix buf1 buf2 =
    leb (length buf2) (size buf1) && memcmp_eq buf1.content buf2 (length buf2)

pub hbuf_eq : Buf → Buf → Bool
hbuf_eq buf1 buf2 = size buf1 == size buf2 && memcmp_eq buf1.content buf2.content (size buf1)

pub hbuf_strncasecmpat : Buf → Bytes → ℕ → Bool
hbuf_strncasecmpat buf val pos =
    leb ((pos + length val) % size_mod) (size buf)
    && bytes_eq (map tolower (take (length val) (drop pos buf.content))) (map tolower val)

pub hbuf_strncasecmp : Buf → Bytes → Bool
unfolding hbuf_strncasecmpat
hbuf_strncasecmp buf val = hbuf_strncasecmpat buf val 0
