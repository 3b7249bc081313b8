-- ===== src/Parse/Autolink/Found.antt =====
-- What halink_www, halink_email and halink_url of src/parse/autolink.c find.
use mathlib.Core.List
use lowdown.Prelude.{
  ℕ, ◌+◌, ◌-◌, ◌≤◌, ◌<◌, ◌≡◌, refl, Bool, true, false, not, ◌||◌, [], ◌∷◌, ◌++◌, Option, none, some,
  Bytes, codes, length, length-append, length-take, length-drop, take, drop, ltb, bytes_eq, ◌==◌,
  isalpha, arith, inl, inr, Bool-cases,
}
use lowdown.Buffer.{Out, Res, ok, failed, fault, ◌>>=◌, ◌>>◌, size, size_mod, hbuf_put}
use lowdown.Buffer.Writes.{IsValid, Appends}
use lowdown.Buffer.Put.{hbuf_put-Writes}
use lowdown.Parse.Autolink.{
  lift, autolink_delim, to_space, finish, link_from, www_domain, halink_www, email_rewind,
  email_loop, email_bad, email_end, halink_email, url_rewind, url_domain, no_slashes,
  halink_is_safe, halink_url, inside_word,
}
use lowdown.Parse.Autolink.Delim.{
  NoSemicolon, NoTag, get_elem?-some, autolink_delim-le, check_domain-le, to_space-le,
}

-- The text from `w` bytes before the pointer to `e` bytes behind it.
abbrev pub around : Bytes → Bytes → ℕ → ℕ → Bytes
around before data' w e = List.reverse (take w before) ++ take e data'

-- The outcome of a search from `s`: nothing, with the buffer left alone; or a link, which has been
-- appended to the buffer, is part of the text, and has no `<` behind the pointer; or a refused
-- allocation. It is never undefined.
pub data Found (before data' : Bytes) (s : Out) : Res (Option (ℕ × ℕ)) → Type 0 where
  nothing : Found before data' s (ok none s)
  found :
      (t : Out) (e w : ℕ)
      → 0 < e
      → e ≤ length data'
      → w ≤ length before
      → NoTag (take e data')
      → Appends s (around before data' w e) (ok tt t)
      → Found before data' s (ok (some (e, w)) t)
  refused :
      (t : Out) (e w : ℕ)
      → Appends s (around before data' w e) (failed t)
      → Found before data' s (failed t)

length-reverse_aux : (l r : Bytes) → length (List.reverse_aux l r) ≡ length l + length r
length-reverse_aux [] r = omega arith
length-reverse_aux (x ∷ xs) r = omega (arith, length-reverse_aux xs (x ∷ r))

length-reverse_take :
    (before data' : Bytes) (w e : ℕ)
    → length (around before data' w e) ≤ length before + length data'
length-reverse_take before data' w e = omega (
  arith,
  length-append (List.reverse (take w before)) (take e data'),
  length-reverse_aux (take w before) [],
  length-take w before,
  length-take e data',
)

email_rewind-le : (d : Bytes) → email_rewind d ≤ length d
unfolding email_rewind
email_rewind-le [] = omega arith
email_rewind-le (c ∷ cs) = ground (arith, email_rewind-le cs)

url_rewind-le : (d : Bytes) → url_rewind d ≤ length d
unfolding url_rewind
url_rewind-le [] = omega arith
url_rewind-le (c ∷ cs) = ground (arith, url_rewind-le cs)

email_loop-le : (i nb np : ℕ) (d : Bytes) → (email_loop i nb np d).0 ≤ i + length d
unfolding email_loop
email_loop-le i nb np [] = omega arith
email_loop-le i nb np (c ∷ cs) = ground (
  arith,
  email_loop-le (i + 1) nb np cs,
  email_loop-le (i + 1) (nb + 1) np cs,
  email_loop-le (i + 1) nb (np + 1) cs,
)

email_bad-some :
    (d : Bytes) (e nb np : ℕ) → e ≤ length d → (b : Bool) × (email_bad d (e, nb, np) ≡ some b)
unfolding email_bad
email_bad-some d e nb np l = elim (Bool-cases (ltb e 2 || not (nb == 1) || np == 0)) [
  | inl t ↦ (true, rw t refl)
  | inr t ↦
      let (c, g) = get_elem?-some d (e - 1) (ground arith) in (not (isalpha c), rw t (rw g refl))
]

no_slashes-length : (d : Bytes) → no_slashes d ≡ false → 4 ≤ length d
unfolding no_slashes
no_slashes-length [] h = absurd (cc)
no_slashes-length (a ∷ []) h = absurd (cc)
no_slashes-length (a ∷ b ∷ []) h = absurd (cc)
no_slashes-length (a ∷ b ∷ c ∷ []) h = absurd (cc)
no_slashes-length (a ∷ b ∷ c ∷ d ∷ ds) h = omega arith

-- There is room in size_t for the whole text.
abbrev pub RoomAround : Bytes → Bytes → Out → Type 0
RoomAround before data' s = size s.ob + length before + length data' + s.ob.unit ≤ size_mod

module _ (before data' : Bytes) (s : Out) (v : IsValid s.ob)
    (room : RoomAround before data' s) where
  finish-Found :
      (w e : ℕ)
      → e ≤ length data'
      → w ≤ length before
      → NoTag (take e data')
      → Found before data' s (finish before data' w e s)
  unfolding finish
  finish-Found w e le lw tag = elim (Bool-cases (e == 0)) [
    | inl t ↦ rw t nothing
    | inr t ↦ rw t (
        by_put (hbuf_put (around before data' w e) s) (ground arith) (
          hbuf_put-Writes (around before data' w e) s v
            (omega (arith, length-reverse_take before data' w e))))
  ]
    where
      by_put :
          (r : Res (Unit {0}))
          → 0 < e
          → Appends s (around before data' w e) r
          → Found before data' s (((λ _. r) >> (λ t. ok (some (e, w)) t)) s)
      by_put (ok _ t) p a = found t e w p le lw tag a
      by_put (failed t) p a = refused t e w a
      by_put fault p a = absurd a

  module _ (head : NoSemicolon data') (small : length data' < size_mod) where
    -- The text up to `end`, less what autolink_delim leaves out.
    delim-Found :
        (w end : ℕ)
        → end ≤ length data'
        → w ≤ length before
        → Found before data' s ((lift (autolink_delim data' end) >>= finish before data' w) s)
    unfolding lift
    delim-Found w end le lw =
        let (r, q, l, tag) = autolink_delim-le data' end head le small in
        rw q (finish-Found w r (omega arith) lw tag)

    link_from-Found :
        (w end : ℕ)
        → end ≤ length data'
        → w ≤ length before
        → Found before data' s (link_from before data' w end s)
    unfolding link_from
    link_from-Found w end le lw =
        delim-Found w (to_space end (drop end data'))
          (omega (arith, to_space-le end (drop end data'), length-drop end data')) lw

    -- With a valid buffer, and in a text that does not begin with a semicolon, is shorter than
    -- size_t and leaves room for itself in the buffer, halink_www is never undefined: it finds
    -- nothing, appends a part of the text with no `<` behind the pointer as the link, or stops
    -- after a refused allocation.
    pub halink_www-Found : Found before data' s (halink_www before data' s)
    unfolding halink_www www_domain lift
    halink_www-Found = elim (Bool-cases (inside_word before)) [
      | inl t ↦ rw t nothing
      | inr t ↦
          elim (Bool-cases (ltb (length data') 4 || not (bytes_eq (take 4 data') (codes "www.")))) [
            | inl u ↦ rw (t, u) nothing
            | inr u ↦
                let (r, q, l) = check_domain-le data' (ground arith) in
                rw (t, u)
                  (rw q (elim (Bool-cases (r == 0)) [
                    | inl z ↦ rw z nothing
                    | inr z ↦ rw z (link_from-Found 0 r l (omega arith))
                  ]))
          ]
    ]

    -- With a valid buffer, and in a text that does not begin with a semicolon, is shorter than
    -- size_t and leaves room for itself in the buffer, halink_email is never undefined: it finds
    -- nothing, appends a part of the text with no `<` behind the pointer as the link, or stops
    -- after a refused allocation.
    pub halink_email-Found : Found before data' s (halink_email before data' s)
    unfolding halink_email email_bad email_end lift
    halink_email-Found =
        let (e, nb, np) = email_loop 0 0 0 data' in
        let l = email_loop-le 0 0 0 data' in
        let (b, q) = email_bad-some data' e nb np (omega arith) in
        elim (Bool-cases (email_rewind before == 0)) [
          | inl t ↦ rw t nothing
          | inr t ↦ rw t (
              rw q (elim (Bool-cases b) [
                | inl z ↦ rw z nothing
                | inr z ↦
                    rw z
                      (delim-Found (email_rewind before) e (omega arith) (email_rewind-le before))
              ]))
        ]

    -- With a valid buffer, and in a text that does not begin with a semicolon, is shorter than
    -- size_t and leaves room for itself in the buffer, halink_url is never undefined: it finds
    -- nothing, appends a part of the text with no `<` behind the pointer as the link, or stops
    -- after a refused allocation.
    pub halink_url-Found : Found before data' s (halink_url before data' s)
    unfolding halink_url url_domain lift
    halink_url-Found =
        let w = url_rewind before in
        elim (Bool-cases (no_slashes data')) [
          | inl t ↦ rw t nothing
          | inr t ↦
              elim (Bool-cases (not (halink_is_safe (List.reverse (take w before) ++ data')))) [
                | inl u ↦ rw (t, u) nothing
                | inr u ↦
                    let four = no_slashes-length data' t in
                    let (r, q, l) =
                      check_domain-le (drop 3 data') (omega (arith, length-drop 3 data')) in
                    rw (t, u)
                      (rw q (elim (Bool-cases (r == 0)) [
                        | inl z ↦ rw z nothing
                        | inr z ↦ rw z (
                            link_from-Found w (3 + r) (omega (arith, length-drop 3 data'))
                              (url_rewind-le before))
                      ]))
              ]
        ]
