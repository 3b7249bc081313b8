-- ===== src/Parse/Lines.antt =====
-- The recognisers of lines and of the prefixes of blocks: from countspaces to prefix_uli of
-- src/parse/document.c.
--
-- `data'` is data[0 .. size). Where C reads data[i] without comparing `i` with `size`, a result
-- `none` stands for a read outside. The flags of doc->ext_flags are Boolean arguments.
pub mod Spaces
pub mod Prefixes
pub mod Bullets
pub mod Numbers
pub mod Blocks
pub mod Fences
use lowdown.Prelude.{
  ℕ, suc, ◌+◌, ◌-◌, Bool, true, false, not, ◌&&◌, ◌||◌, [], ◌∷◌, Option, none, some, Bytes, length,
  take, drop, get_elem?, is_nil, ltb, leb, ◌==◌, if◌then◌else◌, isdigit,
}
use lowdown.Parse.Autolink.{bind}

-- `for (i = offset; i < size; i++)` over data[i .. size).
spaces_loop : ℕ → ℕ → ℕ → Bytes → ℕ
spaces_loop offset maxlen i [] = i
spaces_loop offset maxlen i (c ∷ cs) =
    let next = spaces_loop offset maxlen (i + 1) cs in
    if ltb 0 maxlen && i - offset == maxlen then i else if not (c == b' ') then i else next

pub countspaces : Bytes → ℕ → ℕ → ℕ
unfolding spaces_loop
countspaces data' offset maxlen = spaces_loop offset maxlen offset (drop offset data')

-- The bytes before the first newline.
pub line_end : Bytes → ℕ
line_end [] = 0
line_end (c ∷ cs) = if c == b'\n' then 0 else suc (line_end cs)

empty_loop : ℕ → Bytes → ℕ
empty_loop i [] = i + 1
empty_loop i (c ∷ cs) =
    let next = empty_loop (i + 1) cs in
    if c == b'\n' then i + 1 else if not (c == b' ') then 0 else next

pub is_empty : Bytes → ℕ
unfolding empty_loop
is_empty data' = empty_loop 0 data'

hrule_loop : ℕ → ℕ → Bytes → Bool
hrule_loop c n [] = leb 3 n
hrule_loop c n (x ∷ xs) = elim (x == b'\n') [
  | true ↦ leb 3 n
  | false ↦ elim (x == c) [
    | true ↦ hrule_loop c (n + 1) xs
    | false ↦ elim (x == b' ') [ true ↦ hrule_loop c n xs | false ↦ false ]
  ]
]

-- The line from data[i] on.
hrule_at : Bytes → Bool
unfolding hrule_loop
hrule_at (c ∷ x ∷ y ∷ ys) = (c == b'*' || c == b'-' || c == b'_') && hrule_loop c 0 (c ∷ x ∷ y ∷ ys)
hrule_at _ = false

pub is_hrule : Bytes → Bool
unfolding hrule_at countspaces
is_hrule data' =
    if ltb (length data') 3 then false else hrule_at (drop (countspaces data' 0 3) data')

-- The length of the run of a byte.
pub run_of : ℕ → Bytes → ℕ
run_of c [] = 0
run_of c (x ∷ xs) = if x == c then suc (run_of c xs) else 0

-- From `c = data[i]` on: nothing, or the end of the fence, its width and its byte.
fence_at : ℕ → Bytes → Option (Option (ℕ × ℕ × ℕ))
unfolding run_of
fence_at i [] = none
fence_at i (c ∷ cs) =
    let n = suc (run_of c cs) in
    some (
      if ltb (length cs) 2 || not (c == b'~' || c == b'`')
      then none
      else if ltb n 3
      then none
      else some (i + n, n, c))

pub is_fencedcode : Bool → Bytes → Option (Option (ℕ × ℕ × ℕ))
unfolding fence_at countspaces
is_fencedcode fenced data' =
    if not fenced
    then some none
    else if ltb (length data') 3
    then some none
    else fence_at (countspaces data' 0 3) (drop (countspaces data' 0 3) data')

hashes : ℕ → Bytes → ℕ
hashes (suc n) (c ∷ cs) = if c == b'#' then suc (hashes n cs) else 0
hashes _ _ = 0

-- A space, or the end of the text, behind the hashes.
atx_space : Option ℕ → Bool
atx_space none = true
atx_space (some c) = c == b' '

pub is_atxheader : Bool → Bytes → Option Bool
unfolding hashes atx_space
is_atxheader commonmark [] = none
is_atxheader commonmark (c ∷ cs) =
    some (c == b'#' && (not commonmark || atx_space (get_elem? (c ∷ cs) (hashes 6 (c ∷ cs)))))

-- The end of the line, behind the underline and the spaces.
header_end : ℕ → Option ℕ → ℕ
header_end level none = level
header_end level (some c) = if c == b'\n' then level else 0

header_rest : ℕ → ℕ → Bytes → ℕ
unfolding header_end run_of countspaces
header_rest level hchr cs =
    let data' = hchr ∷ cs in
    header_end level (get_elem? data' (countspaces data' (1 + run_of hchr cs) 0))

pub is_headerline : Bytes → Option ℕ
unfolding header_rest
is_headerline [] = none
is_headerline (c ∷ cs) =
    some (if c == b'=' then header_rest 1 c cs else if c == b'-' then header_rest 2 c cs else 0)

pub is_next_headerline : Bytes → Option ℕ
unfolding is_headerline line_end
is_next_headerline data' =
    let i = suc (line_end data') in
    if leb (length data') i then some 0 else is_headerline (drop i data')

-- A prefix of length `n`, unless the next line is an underline.
pub unless_header : Bytes → ℕ → Option ℕ
unfolding is_next_headerline
unless_header data' n = bind (is_next_headerline data') (λ h. some (if not (h == 0) then 0 else n))

dli_at : ℕ → Bytes → Option ℕ
unfolding unless_header
dli_at i (c ∷ x ∷ xs) =
    if not (c == b':') || not (x == b' ') then some 0 else unless_header (c ∷ x ∷ xs) (i + 2)
dli_at i _ = some 0

pub prefix_dli : Bool → Bytes → Option ℕ
unfolding dli_at countspaces
prefix_dli deflist data' =
    let i = countspaces data' 0 3 in if not deflist then some 0 else dli_at i (drop i data')

pub prefix_quote : Bytes → ℕ
unfolding countspaces
prefix_quote data' =
    let i = countspaces data' 0 3 in
    elim (get_elem? data' i) [
      | none ↦ 0
      | some c ↦ if c == b'>' then countspaces data' (i + 1) 1 else 0
    ]

pub prefix_code : Bytes → ℕ
unfolding countspaces
prefix_code data' = if countspaces data' 0 4 == 4 then 4 else 0

pub digits : Bytes → ℕ
digits [] = 0
digits (c ∷ cs) = if isdigit c then suc (digits cs) else 0

oli_delim : Bool → ℕ → Bool
oli_delim commonmark c = c == b'.' || (commonmark && c == b')')

-- From the delimiter on; `i` is its place, and `vdata` the digits before it. The result is the
-- length of the prefix and the value, which is empty outside CommonMark.
oli_at : Bool → ℕ → Bytes → Bytes → Option (ℕ × Bytes)
unfolding oli_delim unless_header
oli_at commonmark i vdata (c ∷ x ∷ xs) =
    if not (oli_delim commonmark c) || not (x == b' ')
    then some (0, [])
    else bind (unless_header (c ∷ x ∷ xs) (i + 2))
        (λ n. some (n, if n == 0 then [] else if commonmark then vdata else []))
oli_at commonmark i vdata _ = some (0, [])

pub prefix_oli : Bool → Bytes → Option (ℕ × Bytes)
unfolding oli_at countspaces digits
prefix_oli commonmark data' =
    let i = countspaces data' 0 3 in
    let vsize = digits (drop i data') in
    if vsize == 0
    then some (0, [])
    else if commonmark && ltb 9 vsize
    then some (0, [])
    else oli_at commonmark (i + vsize) (take vsize (drop i data')) (drop vsize (drop i data'))

-- The length of the prefix with its checkbox, and whether that is set; `none` is -1.
uli_box : ℕ → Bytes → ℕ × Option Bool
uli_box i (b0 ∷ b1 ∷ b2 ∷ b3 ∷ _) =
    if b0 == b'[' && (b1 == b' ' || b1 == b'x' || b1 == b'X') && b2 == b']' && b3 == b' '
    then (i + 6, some (not (b1 == b' ')))
    else (i + 2, none)
uli_box i _ = (i + 2, none)

uli_at : Bool → ℕ → Bytes → Option (ℕ × Option Bool)
unfolding uli_box unless_header
uli_at tasklist i (c ∷ x ∷ xs) =
    if not (c == b'*' || c == b'+' || c == b'-') || not (x == b' ')
    then some (0, none)
    else bind (unless_header (c ∷ x ∷ xs) (i + 2))
        (λ n. some (if n == 0 then (0, none) else if tasklist then uli_box i xs else (i + 2, none)))
uli_at tasklist i _ = some (0, none)

pub prefix_uli : Bool → Bytes → Option (ℕ × Option Bool)
unfolding uli_at countspaces
prefix_uli tasklist data' = let i = countspaces data' 0 3 in uli_at tasklist i (drop i data')
