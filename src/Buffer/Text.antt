-- ===== src/Buffer/Text.antt =====
-- Buffers as C strings: hbuf_string, hbuf_stringn and their trimming kin of src/buffer.c. What
-- strndup copies ends at a NUL.
pub mod Trim
use lowdown.Prelude.{
  ℕ, zero, suc, ◌-◌, Bool, ◌&&◌, Option, none, some, Bytes, length, take, drop, get_or, leb,
  c_string, isspace, skip_isspace, if◌then◌else◌,
}
use lowdown.Buffer.{Buf, Sched, granted, rest, size}

-- The copy, `none` for NULL, and the schedule; or a failed assert.
pub data Text : Type 0 where
  text : Option Bytes → Sched → Text
  undefined : Text

unfoldable pub strndup : Bytes → Sched → Text
strndup d m = if granted m then text (some (c_string d)) (rest m) else text none (rest m)

unfoldable pub hbuf_stringn : Buf → ℕ → ℕ → Sched → Text
unfolding strndup
hbuf_stringn buf start end m =
    if leb start end && leb end (size buf)
    then strndup (take (end - start) (drop start buf.content)) m
    else undefined

pub hbuf_string : Buf → Sched → Text
unfolding hbuf_stringn
hbuf_string buf m = hbuf_stringn buf 0 (size buf) m

-- `for ( ; end > start; end--)`, with both counted from the start.
unfoldable pub trim_end : Bytes → ℕ → ℕ
trim_end d zero = 0
trim_end d (suc end) =
    let lower = trim_end d end in if isspace (get_or d end 0) then lower else suc end

unfoldable pub hbuf_stringn_trim : Buf → ℕ → ℕ → Sched → Text
unfolding strndup trim_end
hbuf_stringn_trim buf start end m =
    let d = skip_isspace (take (end - start) (drop start buf.content)) in
    if leb start end && leb end (size buf)
    then strndup (take (trim_end d (length d)) d) m
    else undefined

pub hbuf_string_trim : Buf → Sched → Text
unfolding hbuf_stringn_trim
hbuf_string_trim buf m = hbuf_stringn_trim buf 0 (size buf) m
