-- ===== src/Format/Html/Sound.antt =====
-- What html_escape.c writes is read back as the text it was given, and holds no markup.
use lowdown.Prelude.{
  ℕ, ◌*◌, ◌≤◌, ◌≡◌, ◌≢◌, refl, ◌∙◌, ap, Bool, true, false, [], ◌∷◌, ◌++◌, Bytes, codes, inl, inr,
  ◌==◌, ==_iff, if◌then◌else◌, Bool-cases, arith, All, All-append, length, length-append,
}
use lowdown.Format.Html.{attr_plain, esc_max, esc_plain}
use lowdown.Format.Html.Tables.{esc_class, esc_tbl_lem}
use lowdown.Format.Html.Decode.{decode_from, html_decode}
use lowdown.Format.Html.Writes.{replaced, escaped, attr_rep, attr_text, esc_rep, esc_text}

-- The text `g` reads back as the byte `c`, whatever follows it.
abbrev Reads : Bytes → ℕ → Type 0
Reads g c = (r : Bytes) → decode_from 0 (g ++ r) ≡ c ∷ decode_from 0 r

Reads-self : (c : ℕ) → (c == b'&') ≡ false → Reads (c ∷ []) c
unfolding decode_from
Reads-self c h r = rw (h, decode_from)

-- Lifting a fact about the replacement of each byte to the text.
decode-escaped :
    (plain : ℕ → Bool) (rep : ℕ → Bytes)
    → ((c : ℕ) → Reads (replaced plain rep c) c)
    → (d : Bytes) → html_decode (escaped plain rep d) ≡ d
unfolding html_decode escaped
decode-escaped plain rep h [] = refl
decode-escaped plain rep h (c ∷ cs) =
    h c (escaped plain rep cs) ∙ ap (◌∷◌ c) (decode-escaped plain rep h cs)

pub All-escaped :
    (P : ℕ → Type 0) (plain : ℕ → Bool) (rep : ℕ → Bytes)
    → ((c : ℕ) → All P (replaced plain rep c))
    → (d : Bytes) → All P (escaped plain rep d)
unfolding escaped
All-escaped P plain rep h [] = tt
All-escaped P plain rep h (c ∷ cs) =
    All-append P (replaced plain rep c) (escaped plain rep cs) (h c) (All-escaped P plain rep h cs)

pub length-escaped :
    (k : ℕ) (plain : ℕ → Bool) (rep : ℕ → Bytes)
    → ((c : ℕ) → length (replaced plain rep c) ≤ k)
    → (d : Bytes) → length (escaped plain rep d) ≤ k * length d
unfolding escaped
length-escaped k plain rep h [] = omega arith
length-escaped k plain rep h (c ∷ cs) =
    let ih = length-escaped k plain rep h cs in
    let l = length-append (replaced plain rep c) (escaped plain rep cs) in
    let hc = h c in grind arith

-- A property of the replacements, from the five bytes that the table names and all the others.
by_class :
    (P : ℕ → Type 0)
    → P b'&'
    → P b'<'
    → P b'>'
    → P b'/'
    → P b'\''
    → ((c : ℕ) → esc_class c ≡ 0 → (c == b'&') ≡ false → P c)
    → (c : ℕ) → P c
by_class P amp lt gt slash quote other c = elim (Bool-cases (c == b'&')) [
  | inl t ↦ rw ((==_iff c b'&').0 t) amp
  | inr a ↦ elim (Bool-cases (c == b'<')) [
    | inl t ↦ rw ((==_iff c b'<').0 t) lt
    | inr b ↦ elim (Bool-cases (c == b'>')) [
      | inl t ↦ rw ((==_iff c b'>').0 t) gt
      | inr d ↦ elim (Bool-cases (c == b'/')) [
        | inl t ↦ rw ((==_iff c b'/').0 t) slash
        | inr e ↦ elim (Bool-cases (c == b'\'')) [
          | inl t ↦ rw ((==_iff c b'\'').0 t) quote
          | inr f ↦ other c (rw (a, b, d, e, f)) a
        ]
      ]
    ]
  ]
]

-- esc_plain and esc_rep at a byte with no class.
replaced_plain :
    (most : ℕ) (num : Bool) (c : ℕ)
    → esc_class c ≡ 0
    → replaced esc_plain (esc_rep most num) c ≡ c ∷ []
unfolding esc_plain
replaced_plain most num c h = rw (esc_tbl_lem, h)

-- The class up to which a byte is left alone depends on `secure` only.
abbrev pub most_of : Bool → ℕ
most_of secure = if secure then 0 else 3

esc_max_lem : (secure literal : Bool) → esc_max secure literal ≡ most_of secure
unfolding esc_max
esc_max_lem secure literal = ground arith

-- A property of the replacements of the five bytes of the table.
abbrev OfClass : (ℕ → Bytes → Type 0) → Bool → Bool → Type 0
OfClass P secure num =
    P b'&' (esc_rep (most_of secure) num b'&')
    × P b'<' (esc_rep (most_of secure) num b'<')
    × P b'>' (esc_rep (most_of secure) num b'>')
    × P b'/' (esc_rep (most_of secure) num b'/')
    × P b'\'' (esc_rep (most_of secure) num b'\'')

by_replaced :
    (P : ℕ → Bytes → Type 0) (secure literal num : Bool)
    → OfClass P secure num
    → ((c : ℕ) → esc_class c ≡ 0 → (c == b'&') ≡ false → P c (c ∷ []))
    → (c : ℕ) → P c (replaced esc_plain (esc_rep (esc_max secure literal) num) c)
unfolding esc_plain
by_replaced P secure literal num (amp, lt, gt, slash, quote) other =
    rw (esc_max_lem secure literal) (
      by_class (λ c. P c (replaced esc_plain (esc_rep (most_of secure) num) c)) amp lt gt slash
        quote (λ c h a. rw (replaced_plain (most_of secure) num c h) (other c h a)))

Reads-class : (secure num : Bool) → OfClass (λ c g. Reads g c) secure num
unfolding decode_from
Reads-class true true = ((λ r. refl), (λ r. refl), (λ r. refl), (λ r. refl), (λ r. refl))
Reads-class true false = ((λ r. refl), (λ r. refl), (λ r. refl), (λ r. refl), (λ r. refl))
Reads-class false true = ((λ r. refl), (λ r. refl), (λ r. refl), (λ r. refl), (λ r. refl))
Reads-class false false = ((λ r. refl), (λ r. refl), (λ r. refl), (λ r. refl), (λ r. refl))

-- Neither `<` nor `>`, and where `secure` is set neither `'` nor `/`.
abbrev pub NoMarkup : Bool → ℕ → Type 0
NoMarkup true c = (c ≢ b'<') × (c ≢ b'>') × (c ≢ b'\'') × (c ≢ b'/')
NoMarkup false c = (c ≢ b'<') × (c ≢ b'>')

NoMarkup-class : (secure num : Bool) → OfClass (λ c g. All (NoMarkup secure) g) secure num
NoMarkup-class true true = omega arith
NoMarkup-class true false = omega arith
NoMarkup-class false true = omega arith
NoMarkup-class false false = omega arith

NoMarkup-plain :
    (secure : Bool) (c : ℕ) → esc_class c ≡ 0 → (c == b'&') ≡ false → All (NoMarkup secure) (c ∷ [])
NoMarkup-plain true c h a = ground arith
NoMarkup-plain false c h a = ground arith

length-class : (secure num : Bool) → OfClass (λ c g. length g ≤ 6) secure num
length-class true true = omega arith
length-class true false = omega arith
length-class false true = omega arith
length-class false false = omega arith

module _ (d : Bytes) (secure literal num : Bool) where
  pub decode-esc_text : html_decode (esc_text secure literal num d) ≡ d
  unfolding esc_text
  decode-esc_text =
      decode-escaped esc_plain (esc_rep (esc_max secure literal) num)
        (by_replaced (λ c g. Reads g c) secure literal num (Reads-class secure num)
          (λ c h a. Reads-self c a))
        d

  pub esc_text-NoMarkup : All (NoMarkup secure) (esc_text secure literal num d)
  unfolding esc_text
  esc_text-NoMarkup =
      All-escaped (NoMarkup secure) esc_plain (esc_rep (esc_max secure literal) num)
        (by_replaced (λ c g. All (NoMarkup secure) g) secure literal num (NoMarkup-class secure num)
          (NoMarkup-plain secure))
        d

  pub length-esc_text : length (esc_text secure literal num d) ≤ 6 * length d
  unfolding esc_text
  length-esc_text =
      length-escaped 6 esc_plain (esc_rep (esc_max secure literal) num)
        (by_replaced (λ c g. length g ≤ 6) secure literal num (length-class secure num)
          (λ c h a. omega arith))
        d

attr_cases :
    (P : ℕ → Bytes → Type 0)
    → P b'"' (codes "&quot;")
    → P b'&' (codes "&amp;")
    → ((c : ℕ) → (c == b'"') ≡ false → (c == b'&') ≡ false → P c (c ∷ []))
    → (c : ℕ) → P c (replaced attr_plain attr_rep c)
unfolding attr_plain
attr_cases P quote amp other c = elim (Bool-cases (c == b'"')) [
  | inl t ↦ rw ((==_iff c b'"').0 t) quote
  | inr a ↦ elim (Bool-cases (c == b'&')) [
    | inl t ↦ rw ((==_iff c b'&').0 t) amp
    | inr b ↦ rw (a, b) (other c a b)
  ]
]

module _ (d : Bytes) where
  pub decode-attr_text : html_decode (attr_text d) ≡ d
  unfolding attr_text decode_from
  decode-attr_text =
      decode-escaped attr_plain attr_rep
        (attr_cases (λ c g. Reads g c) (λ r. refl) (λ r. refl) (λ c a b. Reads-self c b)) d

  -- Nothing in the text closes a double-quoted attribute.
  pub attr_text-no_quote : All (λ c. c ≢ b'"') (attr_text d)
  unfolding attr_text
  attr_text-no_quote =
      All-escaped (λ c. c ≢ b'"') attr_plain attr_rep
        (attr_cases (λ c g. All (λ x. x ≢ b'"') g) (omega arith) (omega arith)
          (λ c a b. ground arith))
        d

  pub length-attr_text : length (attr_text d) ≤ 6 * length d
  unfolding attr_text
  length-attr_text =
      length-escaped 6 attr_plain attr_rep
        (attr_cases (λ c g. length g ≤ 6) (omega arith) (omega arith) (λ c a b. omega arith)) d

-- The escape of a text makes no double quote.
QuoteFree : ℕ → Bytes → Type 0
QuoteFree c g = c ≢ b'"' → All (λ x. x ≢ b'"') g

QuoteFree-class : (secure num : Bool) → OfClass QuoteFree secure num
unfolding QuoteFree
QuoteFree-class true true = omega arith
QuoteFree-class true false = omega arith
QuoteFree-class false true = omega arith
QuoteFree-class false false = omega arith

QuoteFree-escaped :
    (plain : ℕ → Bool) (rep : ℕ → Bytes)
    → ((c : ℕ) → QuoteFree c (replaced plain rep c))
    → (d : Bytes) → All (λ x. x ≢ b'"') d
    → All (λ x. x ≢ b'"') (escaped plain rep d)
unfolding escaped QuoteFree
QuoteFree-escaped plain rep h [] a = tt
QuoteFree-escaped plain rep h (c ∷ cs) (a, b) =
    All-append (λ x. x ≢ b'"') (replaced plain rep c) (escaped plain rep cs) (h c a)
      (QuoteFree-escaped plain rep h cs b)

pub esc_text-no_quote :
    (d : Bytes) (secure literal num : Bool)
    → All (λ x. x ≢ b'"') d
    → All (λ x. x ≢ b'"') (esc_text secure literal num d)
unfolding esc_text QuoteFree
esc_text-no_quote d secure literal num =
    QuoteFree-escaped esc_plain (esc_rep (esc_max secure literal) num)
      (by_replaced QuoteFree secure literal num (QuoteFree-class secure num) (λ c h a q. (q, tt))) d
