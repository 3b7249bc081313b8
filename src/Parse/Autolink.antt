-- ===== src/Parse/Autolink.antt =====
-- Links that stand in a text with no markup: src/parse/autolink.c.
--
-- The pointer `data` stands inside a paragraph: `data'` is data[0 .. size), and `before` is
-- data[-1], data[-2] and so on, max_rewind bytes of them. A read outside both is a `fault`, or
-- `none` in a helper. The output buffer of the monad is `link`.
pub mod Delim
pub mod Found
use mathlib.Core.List
use lowdown.Prelude.{
  ℕ, zero, suc, ◌+◌, ◌-◌, ◌%◌, Bool, true, false, not, ◌&&◌, ◌||◌, List, [], ◌∷◌, ◌++◌, map, Option,
  none, some, Bytes, codes, length, take, drop, get_elem?, ltb, leb, ◌==◌, bytes_eq, is_nil,
  if◌then◌else◌, isalnum, isalpha, isspace, ispunct, tolower,
}
use lowdown.Buffer.{Out, Res, ok, fault, M, ◌>>=◌, ◌>>◌, size_mod, hbuf_put}

abbrev pub bind {ℓ κ} : {A : Type ℓ} {B : Type κ} → Option A → (A → Option B) → Option B
bind none f = none
bind (some a) f = f a

-- A value that may be undefined.
lift : {A : Type 0} → Option A → M A
lift none s = fault
lift (some a) s = ok a s

-- strchr finds the closing NUL of its text too.
pub strchr : Bytes → ℕ → Bool
strchr [] c = c == 0
strchr (x ∷ xs) c = x == c || strchr xs c

abbrev valid_uris : List Bytes
valid_uris =
    codes "http://"
    ∷ codes "https://"
    ∷ codes "/"
    ∷ codes "#"
    ∷ codes "ftp://"
    ∷ codes "mailto:"
    ∷ []

-- A known protocol, and an alphanumeric byte behind it.
safe_with : Bytes → Bytes → Bool
safe_with data' uri =
    ltb (length uri) (length data')
    && bytes_eq (map tolower (take (length uri) data')) (map tolower uri)
    && alnum_at (drop (length uri) data')
  where
    alnum_at : Bytes → Bool
    alnum_at [] = false
    alnum_at (c ∷ cs) = isalnum c

halink_is_safe_in : List Bytes → Bytes → Bool
unfolding safe_with
halink_is_safe_in [] data' = false
halink_is_safe_in (u ∷ us) data' = safe_with data' u || halink_is_safe_in us data'

pub halink_is_safe : Bytes → Bool
unfolding halink_is_safe_in
halink_is_safe data' = halink_is_safe_in valid_uris data'

-- `for (i = 0; i < link_end; ++i)`: the place of the first `<`.
cut_tag : Bytes → ℕ → ℕ → ℕ
cut_tag (c ∷ cs) (suc n) i = if c == b'<' then i else cut_tag cs n (i + 1)
cut_tag _ n i = i + n

-- `new_end` goes back over letters.
entity_start : Bytes → ℕ → Option ℕ
entity_start data' zero = some 0
entity_start data' (suc n) =
    let rest = entity_start data' n in
    bind (get_elem? data' (suc n)) (λ c. if isalpha c then rest else some (suc n))

-- `link_end - 2`, in size_t.
less_two : ℕ → ℕ
less_two e = (e + size_mod - 2) % size_mod

-- Where the text ends without a closing `;` and the entity that it closes.
entity_end : Bytes → ℕ → Option ℕ
unfolding entity_start less_two
entity_end data' e = bind (entity_start data' (less_two e)) (λ n.
    bind (get_elem? data' n) (λ c. some (if ltb n (less_two e) && c == b'&' then n else e - 1)))

-- A round of the loop on the last byte `c`; `again` is the loop from another end.
trim_byte : (ℕ → Option ℕ) → Bytes → ℕ → ℕ → Option ℕ
trim_byte again data' e c =
    if strchr (codes "?!.,:") c
    then again (e - 1)
    else if c == b';'
    then bind (entity_end data' e) again
    else some e

-- `while (link_end > 0)`.
trim : ℕ → Bytes → ℕ → Option ℕ
unfolding trim_byte
trim zero data' e = none
trim (suc fuel) data' e = elim (e == 0) [
  | true ↦ some 0
  | false ↦ bind (get_elem? data' (e - 1)) (trim_byte (trim fuel data') data' e)
]

-- The switch on the last byte: what opens it, 0 for a byte that closes nothing.
copen_of : ℕ → ℕ
copen_of c =
    if c == b'"'
    then b'"'
    else if c == b'\''
    then b'\''
    else if c == b')'
    then b'('
    else if c == b']'
    then b'['
    else if c == b'}'
    then b'{'
    else 0

unfoldable pub count : ℕ → Bytes → ℕ
count c [] = 0
count c (x ∷ xs) = (if x == c then 1 else 0) + count c xs

-- The bytes that close, those that also open not counted.
count_closing : ℕ → ℕ → Bytes → ℕ
count_closing copen cclose [] = 0
count_closing copen cclose (x ∷ xs) =
    (if x == copen then 0 else if x == cclose then 1 else 0) + count_closing copen cclose xs

balance : Bytes → ℕ → ℕ → ℕ
unfolding copen_of count count_closing
balance data' e cclose =
    let copen = copen_of cclose in
    let area = take e data' in
    if copen == 0
    then e
    else if count_closing copen cclose area == count copen area
    then e
    else e - 1

pub autolink_delim : Bytes → ℕ → Option ℕ
unfolding cut_tag trim entity_end strchr balance
autolink_delim data' link_end =
    let cut = cut_tag data' link_end 0 in
    bind (trim (cut + 1) data' cut) (λ e.
      if e == 0 then some 0 else bind (get_elem? data' (e - 1)) (λ c. some (balance data' e c)))

-- `for (i = 1; i < size - 1; ++i)` over data[i .. size); the result is `np ? i : 0`.
domain_loop : ℕ → ℕ → Bytes → ℕ
domain_loop i np (c ∷ d ∷ ds) = elim (strchr (codes ".:") c) [
  | true ↦ domain_loop (i + 1) (np + 1) (d ∷ ds)
  | false ↦ elim (not (isalnum c) && not (c == b'-')) [
    | true ↦ if np == 0 then 0 else i
    | false ↦ domain_loop (i + 1) np (d ∷ ds)
  ]
]
domain_loop i np _ = if np == 0 then 0 else i

pub check_domain : Bytes → Option ℕ
unfolding domain_loop strchr
check_domain [] = none
check_domain (c ∷ cs) = some (if not (isalnum c) then 0 else domain_loop 1 0 cs)

-- `while (link_end < size && !isspace(data[link_end]))` over the rest of the text.
pub to_space : ℕ → Bytes → ℕ
to_space e [] = e
to_space e (c ∷ cs) = if isspace c then e else to_space (e + 1) cs

-- The end of the call: nothing found, or the text of the link with what stands before `data`.
finish : Bytes → Bytes → ℕ → ℕ → M (Option (ℕ × ℕ))
finish before data' rewind link_end s =
    if link_end == 0
    then ok none s
    else (hbuf_put (List.reverse (take rewind before) ++ take link_end data')
          >> (λ t. ok (some (link_end, rewind)) t))
        s

-- `data[-1]` is no punctuation and no space.
inside_word : Bytes → Bool
inside_word [] = false
inside_word (c ∷ cs) = not (ispunct c) && not (isspace c)

-- From the end of the domain on: the rest of the word, less what closes it.
link_from : Bytes → Bytes → ℕ → ℕ → M (Option (ℕ × ℕ))
unfolding lift autolink_delim to_space finish
link_from before data' rewind end = do
  link_end ← lift (autolink_delim data' (to_space end (drop end data')))
  finish before data' rewind link_end

www_domain : Bytes → Bytes → ℕ → M (Option (ℕ × ℕ))
unfolding link_from
www_domain before data' domain s =
    if domain == 0 then ok none s else link_from before data' 0 domain s

-- The result of the three functions is `none` for 0, and otherwise the length and the rewind.
pub halink_www : Bytes → Bytes → M (Option (ℕ × ℕ))
unfolding www_domain check_domain inside_word lift
halink_www before data' s =
    if inside_word before
    then ok none s
    else if ltb (length data') 4 || not (bytes_eq (take 4 data') (codes "www."))
    then ok none s
    else (lift (check_domain data') >>= www_domain before data') s

-- `for (rewind = 0; rewind < max_rewind; ++rewind)`
email_rewind : Bytes → ℕ
unfolding strchr
email_rewind [] = 0
email_rewind (c ∷ cs) = if isalnum c || strchr (codes ".+-_") c then suc (email_rewind cs) else 0

-- `for (link_end = 0; link_end < size; ++link_end)`: the place of the end, and the at signs and the
-- full stops before it.
email_loop : ℕ → ℕ → ℕ → Bytes → ℕ × ℕ × ℕ
email_loop i nb np [] = (i, nb, np)
email_loop i nb np (c ∷ cs) = elim (isalnum c) [
  | true ↦ email_loop (i + 1) nb np cs
  | false ↦ elim (c == b'@') [
    | true ↦ email_loop (i + 1) (nb + 1) np cs
    | false ↦ elim (c == b'.' && not (is_nil cs)) [
      | true ↦ email_loop (i + 1) nb (np + 1) cs
      | false ↦ elim (c == b'-' || c == b'_') [
        | true ↦ email_loop (i + 1) nb np cs
        | false ↦ (i, nb, np)
      ]
    ]
  ]
]

-- `link_end < 2 || nb != 1 || np == 0 || !isalpha(data[link_end - 1])`
email_bad : Bytes → ℕ × ℕ × ℕ → Option Bool
email_bad data' (e, nb, np) =
    if ltb e 2 || not (nb == 1) || np == 0
    then some true
    else bind (get_elem? data' (e - 1)) (λ c. some (not (isalpha c)))

email_end : Bytes → Bytes → ℕ → ℕ → Bool → M (Option (ℕ × ℕ))
unfolding lift autolink_delim finish
email_end before data' rewind e true = λ s. ok none s
email_end before data' rewind e false = do
  link_end ← lift (autolink_delim data' e)
  finish before data' rewind link_end

pub halink_email : Bytes → Bytes → M (Option (ℕ × ℕ))
unfolding email_rewind email_loop email_bad email_end lift
halink_email before data' s =
    let found = email_loop 0 0 0 data' in
    if email_rewind before == 0
    then ok none s
    else (lift (email_bad data' found) >>= email_end before data' (email_rewind before) found.0) s

-- `while (rewind < max_rewind && isalpha(data[-1 - rewind]))`
url_rewind : Bytes → ℕ
url_rewind [] = 0
url_rewind (c ∷ cs) = if isalpha c then suc (url_rewind cs) else 0

-- `link_end` starts behind `://`.
url_domain : Bytes → Bytes → ℕ → ℕ → M (Option (ℕ × ℕ))
unfolding link_from
url_domain before data' rewind domain s =
    if domain == 0 then ok none s else link_from before data' rewind (3 + domain) s

-- `size < 4 || data[1] != '/' || data[2] != '/'`
no_slashes : Bytes → Bool
no_slashes (_ ∷ c ∷ d ∷ _ ∷ _) = not (c == b'/') || not (d == b'/')
no_slashes _ = true

pub halink_url : Bytes → Bytes → M (Option (ℕ × ℕ))
unfolding url_rewind url_domain check_domain no_slashes lift
halink_url before data' s =
    let rewind = url_rewind before in
    if no_slashes data'
    then ok none s
    else if not (halink_is_safe (List.reverse (take rewind before) ++ data'))
    then ok none s
    else (lift (check_domain (drop 3 data')) >>= url_domain before data' rewind) s
