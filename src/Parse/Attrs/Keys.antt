-- ===== src/Parse/Attrs/Keys.antt =====
-- What the arguments of lowdown_attrs_add of src/parse/ext_attrs.c mean: the attribute that a key
-- names, and the value in a text.
use lowdown.Prelude.{
  ℕ, zero, suc, ◌+◌, ◌-◌, ◌<◌, ◌≡◌, ◌≢◌, ◌⊎◌, refl, sym, ap, subst, ◌∙◌, true, ◌&&◌, List, [], ◌∷◌,
  ◌++◌, Option, none, some, Bytes, codes, length, length-append, get_elem?, take, last_or,
  last_or-append, take-append, begins, bytes_eq, bytes_eq→eq, ltb, ◌==◌, All, arith, inl, inr,
  Bool-cases, c_string,
}
use lowdown.Parse.Attrs.{attr_custom, strip_quotes, attr_type, strattrs, type_and_key}

-- The numbers of enum lowdown_attr_type in src/lowdown.h, each with the attribute of HTML that its
-- member is named after.
abbrev attr_names : List (ℕ × Bytes)
attr_names =
    (0, codes "id")
    ∷ (1, codes "class")
    ∷ (2, codes "crossorigin")
    ∷ (3, codes "referrerpolicy")
    ∷ (4, codes "ismap")
    ∷ (5, codes "usemap")
    ∷ (6, codes "sizes")
    ∷ (7, codes "srcset")
    ∷ (8, codes "width")
    ∷ (9, codes "height")
    ∷ (10, codes "rel")
    ∷ (11, codes "target")
    ∷ (12, codes "download")
    ∷ (13, codes "loading")
    ∷ (14, codes "ping")
    ∷ []

unfoldable pub Names : ℕ → Bytes → Type 0
Names t key = (i : ℕ) × (get_elem? attr_names i ≡ some (t, key))

-- A key names its attribute, or is that of a further one; without a key only the identifier and the
-- class can be added.
unfoldable pub KeyOf : ℕ → Option Bytes → ℕ → Bytes → Type 0
KeyOf type (some typestr) t key =
    (key ≡ c_string typestr) × (Names t key ⊎ ((t ≡ attr_custom) × ((u : ℕ) → ¬ Names u key)))
KeyOf type none t key =
    ((type ≡ 0) × (t ≡ 0) × (key ≡ codes "id")) ⊎ ((type ≡ 1) × (t ≡ 1) × (key ≡ codes "class"))

-- The text between two double quotes where it is not empty, and else the whole.
unfoldable pub Unquoted : Bytes → Bytes → Type 0
Unquoted val inner =
    ((inner ≢ []) × (val ≡ b'"' ∷ (inner ++ (b'"' ∷ []))))
    ⊎ ((val ≡ inner) × ((d : Bytes) → d ≢ [] → val ≢ b'"' ∷ (d ++ (b'"' ∷ []))))

All-get {ℓ κ} :
    {A : Type ℓ} (P : A → Type κ) (xs : List A) (i : ℕ) (x : A)
    → All P xs
    → get_elem? xs i ≡ some x
    → P x
All-get P [] i x h e = absurd (cc)
All-get P (y ∷ xs) zero x (h, hs) e = let same : y ≡ x = cc in subst P same h
All-get P (y ∷ xs) (suc i) x (h, hs) e = All-get P xs i x hs e

listed : All (λ (r : ℕ × Bytes). attr_type strattrs (r.1) ≡ r.0) attr_names
unfolding attr_type
listed = (
  refl,
  (
    refl,
    (
      refl,
      (
        refl,
        (refl, (refl, (refl, (refl, (refl, (refl, (refl, (refl, (refl, (refl, (refl, tt))))))))))),
      ),
    ),
  ),
)

named : All (λ (name : Bytes). (u : ℕ) × Names u name) strattrs
unfolding Names
named = (
  (0, (0, refl)),
  (
    (1, (1, refl)),
    (
      (2, (2, refl)),
      (
        (3, (3, refl)),
        (
          (4, (4, refl)),
          (
            (5, (5, refl)),
            (
              (6, (6, refl)),
              (
                (7, (7, refl)),
                (
                  (8, (8, refl)),
                  (
                    (9, (9, refl)),
                    (
                      (10, (10, refl)),
                      (
                        (11, (11, refl)),
                        ((12, (12, refl)), ((13, (13, refl)), ((14, (14, refl)), tt))),
                      ),
                    ),
                  ),
                ),
              ),
            ),
          ),
        ),
      ),
    ),
  ),
)

attr_type-missing :
    (names : List Bytes) (key : Bytes)
    → All (λ (name : Bytes). key ≢ name) names
    → attr_type names key ≡ length names
unfolding attr_type
attr_type-missing [] key h = refl
attr_type-missing (name ∷ names) key (h, hs) = elim (Bool-cases (bytes_eq key name)) [
  | inl e ↦ absurd (h (bytes_eq→eq key name e))
  | inr e ↦ rw e (omega (arith, attr_type-missing names key hs))
]

All-missing :
    (names : List Bytes) (key : Bytes)
    → All (λ (name : Bytes). (u : ℕ) × Names u name) names
    → ((u : ℕ) → ¬ Names u key)
    → All (λ (name : Bytes). key ≢ name) names
All-missing [] key h f = tt
All-missing (name ∷ names) key ((u, x), hs) f =
    ((λ e. f u (subst (Names u) (sym e) x)), All-missing names key hs f)

pub KeyOf-type_and_key :
    (type : ℕ) (typestr : Option Bytes) (t : ℕ) (key : Bytes)
    → KeyOf type typestr t key
    → type_and_key type typestr ≡ some (t, key)
unfolding KeyOf Names type_and_key
KeyOf-type_and_key type (some typestr) t key (e, inl (i, f)) =
    let found : attr_type strattrs key ≡ t =
      All-get (λ (r : ℕ × Bytes). attr_type strattrs (r.1) ≡ r.0) attr_names i (t, key) listed f in
    rw (sym e, found) refl
KeyOf-type_and_key type (some typestr) t key (e, inr (c, f)) =
    let found : attr_type strattrs key ≡ t =
      attr_type-missing strattrs key (All-missing strattrs key named f) ∙ sym c in
    rw (sym e, found) refl
KeyOf-type_and_key type none t key (inl (e, f, g)) = rw (e, f, g) refl
KeyOf-type_and_key type none t key (inr (e, f, g)) = rw (e, f, g) refl

last-split : (d : Bytes) (x : ℕ) → x ∷ d ≡ take (length d) (x ∷ d) ++ (last_or d x ∷ [])
last-split [] x = refl
last-split (y ∷ d) x = ap (◌∷◌ x) (last-split d y)

Quoted-split :
    (val : Bytes)
    → (ltb 2 (length val) && begins (b'"' ∷ []) val && last_or val 0 == b'"') ≡ true
    → (d : Bytes) × (d ≢ []) × (val ≡ b'"' ∷ (d ++ (b'"' ∷ [])))
Quoted-split [] h = absurd (cc)
Quoted-split (x ∷ []) h = absurd (ground (arith, h))
Quoted-split (x ∷ (y ∷ [])) h = absurd (ground (arith, h))
Quoted-split (x ∷ (y ∷ (z ∷ d))) h =
    let first : x ≡ b'"' = ground (arith, h) in
    let end : last_or d z ≡ b'"' = ground (arith, h) in
    (
      y ∷ take (length d) (z ∷ d),
      (λ e. cc),
      ap (λ a. a ∷ (y ∷ (z ∷ d))) first
          ∙ ap (λ r. b'"' ∷ (y ∷ r))
              (last-split d z ∙ ap (λ c. take (length d) (z ∷ d) ++ (c ∷ [])) end),
    )

ne-length : (d : Bytes) → d ≢ [] → 0 < length d
ne-length [] h = absurd (h refl)
ne-length (c ∷ d) h = omega arith

quoted_lem : (inner : Bytes) → inner ≢ [] → strip_quotes (b'"' ∷ (inner ++ (b'"' ∷ []))) ≡ inner
unfolding strip_quotes
quoted_lem inner h =
    let size : length (inner ++ (b'"' ∷ [])) ≡ length inner + 1 = length-append inner (b'"' ∷ []) in
    let long : ltb 2 (suc (length (inner ++ (b'"' ∷ [])))) ≡ true =
      ground (arith, size, ne-length inner h) in
    let cut : suc (length (inner ++ (b'"' ∷ []))) - 2 ≡ length inner = omega (arith, size) in
    rw (long, last_or-append inner (b'"' ∷ []) b'"', cut) (take-append inner (b'"' ∷ []))

pub Unquoted-strip_quotes : (val inner : Bytes) → Unquoted val inner → strip_quotes val ≡ inner
unfolding Unquoted strip_quotes
Unquoted-strip_quotes val inner (inl (ne, e)) = ap strip_quotes e ∙ quoted_lem inner ne
Unquoted-strip_quotes val inner (inr (e, f)) =
    elim (Bool-cases (ltb 2 (length val) && begins (b'"' ∷ []) val && last_or val 0 == b'"')) [
      | inl h ↦ let (d, ne, g) = Quoted-split val h in absurd (f d ne g)
      | inr h ↦ rw h e
    ]
