-- ===== src/Buffer.antt =====
-- The growing byte buffer: struct lowdown_buf of src/lowdown.h and the hbuf_* functions of
-- src/buffer.c that change one.
--
-- `content` is data[0 .. size), so `size` is its length; `alloc` is the number of bytes that
-- really stand behind `data`, which C does not record. A write past `alloc` is a `fault`, as are a
-- failed assert and a division by zero. `sched` says for each allocation still to come whether it
-- is granted; past its end all are. `failed` is the return of zero that follows a refused one.
pub mod Writes
pub mod Put
pub mod Link
pub mod Name
pub mod Print
pub mod Copy
pub mod Text
use lowdown.Prelude.{
  ℕ, zero, suc, ◌+◌, ◌-◌, ◌*◌, ◌/◌, ◌%◌, ◌^◌, ◌≡◌, Bool, true, false, List, [], ◌∷◌, ◌++◌, Option,
  none, some, Bytes, length, take, drop, is_nil, All, ltb, leb, ◌==◌, if◌then◌else◌,
}

-- One more than SIZE_MAX.
abbrev pub size_mod : ℕ
size_mod = 2 ^ 64

pub record Buf : Type 0 where
  pub content : Bytes
  pub alloc : ℕ
  pub maxsize : ℕ
  pub unit : ℕ
  pub buffer_free : Bool

abbrev pub Sched : Type 0
Sched = List Bool

-- The outcome of the next allocation, and what is left of the schedule.
abbrev pub granted : Sched → Bool
granted [] = true
granted (b ∷ _) = b

abbrev pub rest : Sched → Sched
rest [] = []
rest (_ ∷ bs) = bs

abbrev pub AllGranted : Sched → Type 0
AllGranted = All (λ b. b ≡ true)

-- The state of a function that writes to one output buffer.
pub record Out : Type 0 where
  pub ob : Buf
  pub sched : Sched

pub data Res (A : Type 0) : Type 0 where
  ok : A → Out → Res A
  failed : Out → Res A
  fault : Res A

abbrev pub M : Type 0 → Type 0
M A = Out → Res A

infixl 5 ◌>>=◌ ◌>>◌
abbrev pub ◌>>=◌ : {A B : Type 0} → M A → (A → M B) → M B
◌>>=◌ m f s = elim (m s) [ ok a t ↦ f a t | failed t ↦ failed t | fault ↦ fault ]

abbrev pub ◌>>◌ : {B : Type 0} → M (Unit {0}) → M B → M B
◌>>◌ m k s = elim (m s) [ ok _ t ↦ k t | failed t ↦ failed t | fault ↦ fault ]

abbrev pub done : M (Unit {0})
done s = ok tt s

-- The number of bytes that have been written.
abbrev pub size : Buf → ℕ
size b = length b.content

abbrev pub hbuf_init : ℕ → Bool → Buf
hbuf_init unit buffer_free = record {
  content = [];
  alloc = 0;
  maxsize = 0;
  unit = unit;
  buffer_free = buffer_free;
}

-- `(neosz/unit + (neosz%unit > 0)) * unit`, in size_t.
pub round_up : ℕ → ℕ → ℕ
round_up neosz unit = ((neosz / unit + (if ltb 0 (neosz % unit) then 1 else 0)) * unit) % size_mod

-- realloc(buf->data, n), and the two assignments behind it.
unfoldable pub hbuf_realloc : ℕ → M (Unit {0})
hbuf_realloc n s =
    if granted s.sched
    then ok tt (record s { ob = record s.ob { alloc = n; maxsize = n }; sched = rest s.sched })
    else failed (record s { sched = rest s.sched })

unfoldable pub hbuf_grow : ℕ → M (Unit {0})
unfolding hbuf_realloc
hbuf_grow neosz s =
    if leb neosz s.ob.maxsize
    then ok tt s
    else if s.ob.unit == 0
    then fault
    else hbuf_realloc (round_up neosz s.ob.unit) s

-- memcpy(buf->data + buf->size, data, size), and the new size.
pub hbuf_store : Bytes → M (Unit {0})
hbuf_store d s =
    if leb (size s.ob + length d) s.ob.alloc
    then ok tt (record s { ob = record s.ob { content = s.ob.content ++ d } })
    else fault

-- The guard `size + n > maxsize && !hbuf_grow(size + n)`.
hbuf_reserve : ℕ → M (Unit {0})
hbuf_reserve n s =
    if ltb s.ob.maxsize ((size s.ob + n) % size_mod)
    then hbuf_grow ((size s.ob + n) % size_mod) s
    else ok tt s

-- A NULL `data` is the empty text.
pub hbuf_put : Bytes → M (Unit {0})
unfolding hbuf_reserve
hbuf_put d s =
    if s.ob.unit == 0
    then fault
    else if is_nil d
    then ok tt s
    else (hbuf_reserve (length d) >> hbuf_store d) s

pub hbuf_putb : Buf → M (Unit {0})
unfolding hbuf_put
hbuf_putb b = hbuf_put b.content

pub hbuf_puts : Bytes → M (Unit {0})
unfolding hbuf_put
hbuf_puts str = hbuf_put str

pub hbuf_room : M (Unit {0})
hbuf_room s =
    if leb s.ob.maxsize (size s.ob) then hbuf_grow ((size s.ob + 1) % size_mod) s else ok tt s

pub hbuf_putc : ℕ → M (Unit {0})
unfolding hbuf_room
hbuf_putc c s = if s.ob.unit == 0 then fault else (hbuf_room >> hbuf_store (c ∷ [])) s

-- vsnprintf into the free room: at most `maxsize - size` bytes with the closing NUL, which must lie
-- inside the allocation. The argument is the formatted text, and the result says whether it fits.
hbuf_vsnprintf : Bytes → M Bool
hbuf_vsnprintf d s =
    let cap = s.ob.maxsize - size s.ob in
    if leb (size s.ob + (if ltb (length d) cap then length d + 1 else cap)) s.ob.alloc
    then ok (ltb (length d) cap) s
    else fault

-- Growing and printing again where the text did not fit, and the new size. A second print that does
-- not fit would leave the size past the room: a fault.
hbuf_reprint : Bytes → Bool → M (Unit {0})
unfolding hbuf_vsnprintf
hbuf_reprint d true = hbuf_store d
hbuf_reprint d false = do
  (λ s. hbuf_grow ((size s.ob + length d + 1) % size_mod) s)
  fits ← hbuf_vsnprintf d
  if fits then hbuf_store d else (λ _. fault)

-- `none` is a negative return of vsnprintf, and so is a text that is longer than INT_MAX.
pub hbuf_printf : Option Bytes → M (Unit {0})
unfolding hbuf_room hbuf_reprint hbuf_vsnprintf
hbuf_printf none s = if s.ob.unit == 0 then fault else (hbuf_room >> (λ t. failed t)) s
hbuf_printf (some d) s =
    if s.ob.unit == 0
    then fault
    else if leb (2 ^ 31) (length d)
    then (hbuf_room >> (λ t. failed t)) s
    else (do hbuf_room; fits ← hbuf_vsnprintf d; hbuf_reprint d fits) s

unfoldable pub hbuf_truncate : Buf → Buf
hbuf_truncate b = record b { content = [] }

-- A stream: the bytes still to be read, and whether it ends by an error.
pub record File : Type 0 where
  pub bytes : Bytes
  pub error : Bool

-- A round reads `unit` bytes; a short count sets the end-of-file or the error flag, and ends the
-- loop.
hbuf_putf_loop : ℕ → Bytes → M (Unit {0})
hbuf_putf_loop zero bytes s = fault
hbuf_putf_loop (suc fuel) bytes s =
    let again = hbuf_putf_loop fuel (drop s.ob.unit bytes) in
    let chunk = take s.ob.unit bytes in
    (do
      (λ t. hbuf_grow ((size t.ob + t.ob.unit) % size_mod) t)
      hbuf_store chunk
      (if ltb (length chunk) s.ob.unit then done else again))
      s

unfoldable pub hbuf_putf : File → M (Unit {0})
unfolding hbuf_putf_loop
hbuf_putf f s =
    if s.ob.unit == 0
    then fault
    else (hbuf_putf_loop (length f.bytes + 1) f.bytes
          >> (λ t. if f.error then failed t else ok tt t))
        s
