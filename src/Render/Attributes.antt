-- ===== src/Render/Attributes.antt =====
-- The loops over extended attributes of src/format/html/html.c keep a start tag well formed.
use lowdown.Prelude.{
  ℕ, ◌+◌, ◌*◌, ◌^◌, ◌≤◌, ◌<◌, ◌≡◌, ◌≢◌, refl, ap, ◌∙◌, true, List, [], ◌∷◌, ◌++◌, Option, none,
  some, Bytes, codes, length, length-append, get_elem?, All, ◌==◌, isalnum, arith, inl, inr,
  Bool-cases,
}
use lowdown.Buffer.{Buf, size, hbuf_put}
use lowdown.Parse.Attrs.{Attr, Attrs, attr_custom}
use lowdown.Render.{escape_attr}
use lowdown.Render.Link.{put_key, put_value, put_title}
use lowdown.Render.Scan.{Scan, scan, step, scan-append, scan-key, between, name_byte}
use lowdown.Render.Emits.{Emits, Emits->>, Emits-le, Emits-put, Emits-printf}
use lowdown.Render.Pieces.{escape_attr-Emits}
use lowdown.Render.Tags.{InTag, Attributes, Attributes-done, Attributes-le, Attributes-of}

-- A key that can stand in a tag, where there is a value, and whose length is an int with more beside
-- it.
unfoldable pub IsNamed : Option Bytes → Option Buf → Type 0
IsNamed key none = Unit
IsNamed none (some value) = ⊥
IsNamed (some key) (some value) =
    (key ≢ []) × (length key < 2 ^ 30) × All (λ c. name_byte c ≡ true) key

unfoldable pub NamedArray : Option (List Attr) → ℕ → Type 0
unfolding IsNamed
NamedArray none n = n ≡ 0
NamedArray (some l) n = (length l ≡ n) × (attr_custom ≤ n) × All (λ v. IsNamed v.key v.value) l

-- NULL and no attributes, or an array of the right size with room for the known ones.
unfoldable pub AreNamed : Attrs → Type 0
unfolding NamedArray
AreNamed a = NamedArray a.array a.attrsz

-- How much is written of an attribute.
unfoldable pub value_cost : Option Bytes → Option Buf → ℕ
value_cost key none = 0
value_cost none (some value) = 0
value_cost (some key) (some value) = length key + 6 * size value + 8

unfoldable pub slot_cost : Option Attr → ℕ
unfolding value_cost
slot_cost none = 0
slot_cost (some v) = value_cost v.key v.value

unfoldable pub known_cost : List Attr → List ℕ → ℕ
unfolding slot_cost
known_cost l [] = 0
known_cost l (i ∷ is) = slot_cost (get_elem? l i) + known_cost l is

unfoldable pub entries : Option (List Attr) → List Attr
entries none = []
entries (some l) = l

module _ (k : List Bytes) (n : Bytes) where
  gap-scan :
      (key : Bytes)
      → key ≢ []
      → All (λ c. name_byte c ≡ true) key
      → scan (Scan.gap k n) key ≡ Scan.key k n
  unfolding scan step
  gap-scan [] ne a = absurd (ne refl)
  gap-scan (c ∷ cs) ne (h, hs) = rw h (scan-key k n cs hs)

  key-InTag : InTag k n (Scan.key k n)
  unfolding InTag step between name_byte isalnum
  key-InTag = (refl, refl)

  pub quoted-InTag : InTag k n (Scan.quoted k n)
  unfolding InTag step between name_byte isalnum
  quoted-InTag = (refl, refl)

  -- ` key` and ` key="`.
  key_scan :
      (p : Scan) (key after : Bytes)
      → InTag k n p
      → key ≢ []
      → All (λ c. name_byte c ≡ true) key
      → scan p (b' ' ∷ (key ++ after)) ≡ scan (Scan.key k n) after
  unfolding InTag scan
  key_scan p key after (h, _) ne a =
      ap (λ q. scan q (key ++ after)) h
      ∙ scan-append (Scan.gap k n) key after
      ∙ ap (λ q. scan q after) (gap-scan key ne a)

  put_key-Emits :
      (p q : Scan) (key after : Bytes)
      → InTag k n p
      → key ≢ []
      → All (λ c. name_byte c ≡ true) key
      → scan (Scan.key k n) after ≡ q
      → length key + length after + 2 ≤ 2 ^ 31
      → Emits (length key + length after + 2) p q (put_key (some key) after)
  unfolding put_key
  put_key-Emits p q key after i ne a e small =
      Emits-printf (length key + length after + 2) small p q (b' ' ∷ (key ++ after))
        (omega (arith, length-append key after)) (key_scan p key after i ne a ∙ e)

  pub put_value-Attributes :
      (v : Attr) (key : Option Bytes) (value : Option Buf)
      → v.key ≡ key
      → IsNamed key value
      → Attributes (value_cost key value) k n (put_value v value)
  unfolding put_value IsNamed value_cost scan step name_byte isalnum
  put_value-Attributes v key none e h = Attributes-done k n 0
  put_value-Attributes v none (some value) e h = absurd h
  put_value-Attributes v (some key) (some value) e (ne, lt, a) =
      let w = length key + 6 * size value + 8 in
      elim (Bool-cases (size value == 0)) [
        | inl t ↦
            rw (t, e)
              (Attributes-le k n (length key + 0 + 2) w (put_key (some key) []) (omega arith) (
                Attributes-of k n (length key + 0 + 2) (put_key (some key) []) (Scan.key k n)
                  key-InTag
                  (λ p i. put_key-Emits p (Scan.key k n) key [] i ne a refl (omega (arith, lt)))))
        | inr t ↦
            rw (t, e)
              (Attributes-of k n w _ (Scan.quoted k n) quoted-InTag (λ p i.
                Emits-le (length key + 2 + 2 + (6 * size value + 1)) w p (Scan.quoted k n) _
                  (omega arith)
                  (Emits->> (length key + 2 + 2) (6 * size value + 1) p (Scan.value k n)
                    (Scan.quoted k n) (put_key (some key) (codes "=\"")) _
                    (put_key-Emits p (Scan.value k n) key (codes "=\"") i ne a refl
                      (omega (arith, lt)))
                    (Emits->> (6 * size value) 1 (Scan.value k n) (Scan.value k n) (Scan.quoted k n)
                      (escape_attr value.content) (hbuf_put (codes "\""))
                      (escape_attr-Emits k value.content n)
                      (Emits-put 1 (Scan.value k n) (Scan.quoted k n) (codes "\"") (omega arith)
                        refl)))))
      ]

  -- A title, if there is one.
  pub put_title-Attributes :
      (title : Bytes) → Attributes (6 * length title + 9) k n (put_title title)
  unfolding put_title InTag scan step name_byte isalnum
  put_title-Attributes [] = Attributes-done k n 9
  put_title-Attributes (c ∷ cs) =
      let d = c ∷ cs in
      let value = Scan.value k n in
      Attributes-of k n (6 * length d + 9) _ (Scan.quoted k n) quoted-InTag (λ p i.
        Emits-le (8 + (6 * length d + 1)) (6 * length d + 9) p (Scan.quoted k n) _ (omega arith) (
          Emits->> 8 (6 * length d + 1) p value (Scan.quoted k n) (hbuf_put (codes " title=\"")) _
            (Emits-put 8 p value (codes " title=\"") (omega arith) (rw (i.0) refl))
            (Emits->> (6 * length d) 1 value value (Scan.quoted k n) (escape_attr d)
              (hbuf_put (codes "\"")) (escape_attr-Emits k d n)
              (Emits-put 1 value (Scan.quoted k n) (codes "\"") (omega arith) refl))))
