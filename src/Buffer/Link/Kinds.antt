-- ===== src/Buffer/Link/Kinds.antt =====
-- What hbuf_isrellink and hbuf_ismanpage of src/buffer.c decide, and where they are undefined.
use lowdown.Prelude.{
  take-append, ℕ, suc, ◌+◌, ◌≤◌, ◌≡◌, ◌≢◌, refl, sym, ap, subst, ◌∙◌, Bool, true, false, not, ◌||◌,
  is_nil, [], ◌∷◌, ◌++◌, Option, none, some, Bytes, codes, length, take, drop, last_or,
  last_or-append, ltb, ◌==◌, ==_iff, if◌then◌else◌, arith, inl, inr, Bool-cases, All, isdigit,
  isalpha, memchr, memchr-FirstAt,
}
use lowdown.Buffer.{Buf, size}
use lowdown.Buffer.Link.{
  isrellink_slash, isrellink_at, hbuf_isrellink, manpage_letters, manpage_section, manpage_at,
  hbuf_ismanpage,
}

-- The text `s` as a reference to a manual page: a word, and in parentheses a digit and at most
-- three letters; `r` is what stands behind.
pub record IsPage (s : Bytes) : Type 0 where
  pub word : Bytes
  pub digit : ℕ
  pub letters : Bytes
  pub behind : Bytes
  pub spells : s ≡ word ++ (b'(' ∷ digit ∷ (letters ++ (b')' ∷ behind)))
  pub no_paren : All (λ c. c ≢ b'(') word
  pub is_digit : isdigit digit ≡ true
  pub are_letters : All (λ c. isalpha c ≡ true) letters
  pub at_most_three : length letters ≤ 3

-- Whether the byte stands in the text.
abbrev pub has : ℕ → Bytes → Bool
has c [] = false
has c (x ∷ xs) = x == c || has c xs

last_or-has : (c d : ℕ) (xs : Bytes) → last_or xs d ≡ c → d ≢ c → has c xs ≡ true
last_or-has c d [] h n = absurd (n h)
last_or-has c d (x ∷ xs) h n = elim (Bool-cases (x == c)) [
  | inl t ↦ rw t refl
  | inr t ↦ rw t (last_or-has c x xs h (ground arith))
]

-- What the letters give once a closing parenthesis is in the text.
Letters : ℕ → Bytes → Type 0
Letters n s =
    (l : Bytes) × (b : Bytes) × (s ≡ l ++ (b')' ∷ b))
    × All (λ c. isalpha c ≡ true) l
    × (length l + n ≤ 3)

manpage_letters_lem :
    (n : ℕ) (s : Bytes)
    → has b')' s ≡ true
    → (r : Bool) × (manpage_letters n s ≡ some r) × (r ≡ true → Letters n s)
unfolding manpage_letters Letters
manpage_letters_lem n [] h = absurd (cc)
manpage_letters_lem n (c ∷ cs) h = elim (Bool-cases (c == b')')) [
  | inl t ↦ (
    not (ltb 3 n),
    rw (t, manpage_letters) refl,
    λ g. ([], cs, ap (λ x. x ∷ cs) ((==_iff c b')').0 t), tt, ground arith),
  )
  | inr t ↦ elim (Bool-cases (isalpha c)) [
    | inl a ↦
        let (v, q, k) = manpage_letters_lem (n + 1) cs (rw t at h) in
        (
          v,
          rw (t, manpage_letters) (rw a q),
          λ g. let (l, b, s, al, m) = k g in (c ∷ l, b, ap (◌∷◌ c) s, (a, al), omega arith),
        )
    | inr a ↦ (false, rw (t, manpage_letters) (rw a refl), λ g. cc)
  ]
]

manpage_section_lem :
    (w s : Bytes)
    → All (λ c. c ≢ b'(') w
    → has b')' s ≡ true
    → (r : Bool) × (manpage_section s ≡ some r) × (r ≡ true → IsPage (w ++ (b'(' ∷ s)))
unfolding manpage_section Letters
manpage_section_lem w [] a h = absurd (cc)
manpage_section_lem w (d ∷ cs) a h = elim (Bool-cases (isdigit d)) [
  | inl t ↦
      let (v, q, k) = manpage_letters_lem 0 cs (ground arith) in
      (
        v,
        rw t q,
        λ g.
            let (l, b, e, al, m) = k g in
            record {
              word = w;
              digit = d;
              letters = l;
              behind = b;
              spells = ap (λ x. w ++ (b'(' ∷ d ∷ x)) e;
              no_paren = a;
              is_digit = t;
              are_letters = al;
              at_most_three = omega arith;
            },
      )
  | inr t ↦ (false, rw t refl, λ g. cc)
]

manpage_at_lem :
    (s : Bytes) (o : Option ℕ)
    → memchr b'(' s ≡ o
    → last_or s 0 ≡ b')'
    → (r : Bool) × (manpage_at s o ≡ some r) × (r ≡ true → IsPage s)
unfolding manpage_at
manpage_at_lem s none e h = (false, refl, λ g. cc)
manpage_at_lem s (some i) e h =
    let (p, a, l) = memchr-FirstAt b'(' s e in
    let later = drop (suc i) s in
    let last : last_or later b'(' ≡ b')' =
      sym (last_or-append (take i s) (b'(' ∷ later) 0)
      ∙ ap (λ (x : Bytes). last_or x 0) (sym p)
      ∙ h in
    let (v, q, k) =
      manpage_section_lem (take i s) later a (last_or-has b')' b'(' later last (omega arith)) in
    (v, q, λ g. subst IsPage (sym p) (k g))

-- hbuf_ismanpage never reads past its text, and what it accepts is a reference to a manual page at
-- the start of the text.
pub hbuf_ismanpage-IsPage :
    (b : Buf) → (r : Bool) × (hbuf_ismanpage b ≡ some r) × (r ≡ true → IsPage b.content)
unfolding hbuf_ismanpage
hbuf_ismanpage-IsPage b = elim (Bool-cases (ltb (size b) 4)) [
  | inl t ↦ (false, rw t refl, λ g. cc)
  | inr t ↦ elim (Bool-cases (last_or b.content 0 == b')')) [
    | inl u ↦
        let (v, q, k) = manpage_at_lem b.content _ refl ((==_iff _ b')').0 u) in (v, rw (t, u) q, k)
    | inr u ↦ (false, rw (t, u) refl, λ g. cc)
  ]
]

-- A text with a second closing parenthesis is accepted too.
ismanpage_behind :
    hbuf_ismanpage
      (record { content = codes "a(3)b)"; alloc = 6; maxsize = 6; unit = 1; buffer_free = true })
    ≡ some true
unfolding hbuf_ismanpage memchr isalpha
ismanpage_behind = refl

memchr-append :
    (c : ℕ) (p r : Bytes) → All (λ x. x ≢ c) p → memchr c (p ++ (c ∷ r)) ≡ some (length p)
unfolding memchr
memchr-append c [] r a = ground arith
memchr-append c (x ∷ p) r (n, a) =
    let f : (x == c) ≡ false = ground arith in rw f (rw (memchr-append c p r a) refl)

memchr-absent : (c : ℕ) (s : Bytes) → All (λ x. x ≢ c) s → memchr c s ≡ none
unfolding memchr
memchr-absent c [] a = refl
memchr-absent c (x ∷ s) (n, a) =
    let f : (x == c) ≡ false = ground arith in rw f (rw (memchr-absent c s a) refl)

isrellink_slash-has : (p : Bytes) → isrellink_slash (memchr b'/' p) ≡ some (has b'/' p)
unfolding isrellink_slash memchr
isrellink_slash-has [] = refl
isrellink_slash-has (x ∷ p) = ground (arith, isrellink_slash-has p)

-- hbuf_isrellink takes a text with no colon for relative. Of one with a colon it is undefined where
-- the colon comes first, an assert that fails, and otherwise says whether a slash stands before the
-- first colon.
pub hbuf_isrellink_lem :
    (b : Buf)
    → (All (λ c. c ≢ b':') b.content → hbuf_isrellink b ≡ some true)
      × ((p r : Bytes)
          → b.content ≡ p ++ (b':' ∷ r)
          → All (λ c. c ≢ b':') p
          → hbuf_isrellink b ≡ (if is_nil p then none else some (has b'/' p)))
unfolding hbuf_isrellink
hbuf_isrellink_lem b = (
  (λ a. rw (memchr-absent b':' b.content a) refl),
  λ p r e a. rw (e, memchr-append b':' p r a) (at_colon p r),
)
  where
    at_colon :
        (p r : Bytes)
        → isrellink_at (p ++ (b':' ∷ r)) (some (length p))
          ≡ (if is_nil p then none else some (has b'/' p))
    at_colon [] r = refl
    at_colon (x ∷ p) r =
        ap (λ y. isrellink_slash (memchr b'/' y)) (take-append (x ∷ p) (b':' ∷ r))
        ∙ isrellink_slash-has (x ∷ p)
