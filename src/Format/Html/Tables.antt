-- ===== src/Format/Html/Tables.antt =====
-- The tables of src/format/html/html_escape.c in closed form, checked for every byte.
use lowdown.Prelude.{
  ℕ, zero, suc, ◌≤◌, ◌≡◌, refl, inl, inr, Bool, true, ◌&&◌, ◌||◌, List, [], ◌∷◌, length, get_or,
  ltb, leb, ◌==◌, ==_iff, Bool-cases, if◌then◌else◌, table_below, table_below_lem, arith,
}
use lowdown.Format.Html.{esc_tbl, href_tbl}

get_or-beyond : (xs : List ℕ) (i d : ℕ) → length xs ≤ i → get_or xs i d ≡ d
get_or-beyond [] i d h = refl
get_or-beyond (x ∷ xs) zero d h = elim h [ ]
get_or-beyond (x ∷ xs) (suc i) d h = get_or-beyond xs i d (omega arith)

-- Two functions that agree below 256 and are both the default above agree.
table_eq :
    (xs : List ℕ) (f : ℕ → ℕ)
    → length xs ≡ 256
    → table_below 256 (λ c. get_or xs c 0 == f c) ≡ true
    → ((c : ℕ) → 256 ≤ c → f c ≡ 0)
    → (c : ℕ) → get_or xs c 0 ≡ f c
table_eq xs f len table high c = elim (Bool-cases (ltb c 256)) [
  | inl t ↦ (==_iff _ (f c)).0 (table_below_lem _ c 256 (ground arith) table)
  | inr t ↦
      let big : 256 ≤ c = ground arith in
      rw (get_or-beyond xs c 0 (omega (arith, len))) (ground (arith, high c big))
]

abbrev pub esc_class : ℕ → ℕ
esc_class c =
    if c == b'&'
    then 6
    else if c == b'<'
    then 5
    else if c == b'>'
    then 4
    else if c == b'/'
    then 3
    else if c == b'\''
    then 2
    else 0

pub esc_tbl_lem : (c : ℕ) → get_or esc_tbl c 0 ≡ esc_class c
unfolding table_below
esc_tbl_lem = table_eq esc_tbl esc_class refl refl (λ c h. ground arith)

-- -_.+!*(),%#@?=;:/$~ and the alphanumerics.
abbrev pub url_safe : ℕ → Bool
url_safe c =
    (leb b'(' c && leb c b'9')
    || (leb b'?' c && leb c b'Z')
    || (leb b'a' c && leb c b'z')
    || (leb b'#' c && leb c b'%')
    || c == b'!'
    || c == b':'
    || c == b';'
    || c == b'='
    || c == b'_'
    || c == b'~'

pub href_tbl_lem : (c : ℕ) → get_or href_tbl c 0 ≡ (if url_safe c then 1 else 0)
unfolding table_below
href_tbl_lem = table_eq href_tbl (λ c. if url_safe c then 1 else 0) refl refl (λ c h. ground arith)
