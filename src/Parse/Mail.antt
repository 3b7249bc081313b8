-- ===== src/Parse/Mail.antt =====
-- The address of a mail link in angle brackets: is_mail_autolink of src/parse/document.c.
use lowdown.Prelude.{
  ℕ, suc, ◌+◌, ◌<◌, ◌≡◌, ◌↔◌, refl, ap, true, false, ◌||◌, [], ◌∷◌, ◌++◌, Bytes, length, ◌==◌,
  ==_iff, if◌then◌else◌, isalnum, arith, inl, inr, Bool-cases, All,
}
use lowdown.Parse.Autolink.{count}

mail_loop : ℕ → ℕ → Bytes → ℕ
mail_loop i nb [] = 0
mail_loop i nb (c ∷ cs) = elim (isalnum c || c == b'-' || c == b'.' || c == b'_') [
  | true ↦ mail_loop (i + 1) nb cs
  | false ↦ elim (c == b'@') [
    | true ↦ mail_loop (i + 1) (nb + 1) cs
    | false ↦ if c == b'>' then (if nb == 1 then i + 1 else 0) else 0
  ]
]

pub is_mail_autolink : Bytes → ℕ
unfolding mail_loop
is_mail_autolink data' = mail_loop 0 0 data'

abbrev pub IsMailByte : ℕ → Type 0
IsMailByte c = (isalnum c || c == b'-' || c == b'.' || c == b'_' || c == b'@') ≡ true

-- Bytes of an address up to the first closing bracket, at `r - 1`.
abbrev pub Mail : ℕ → Bytes → ℕ → Type 0
Mail n d r =
    (a : Bytes) × (u : Bytes) × (d ≡ a ++ (b'>' ∷ u))
    × All IsMailByte a
    × (count b'@' a + n ≡ 1)
    × (r ≡ length a + 1)

mail_byte :
    (c : ℕ)
    → (isalnum c || c == b'-' || c == b'.' || c == b'_') ≡ true
    → IsMailByte c × ((c == b'@') ≡ false)
unfolding isalnum
mail_byte c h = (ground arith, ground arith)

mail_loop-Mail :
    (i nb : ℕ) (d : Bytes)
    → 0 < mail_loop i nb d
    → (r : ℕ) × (mail_loop i nb d ≡ i + r) × Mail nb d r
unfolding mail_loop count
mail_loop-Mail i nb [] h = elim h [ ]
mail_loop-Mail i nb (c ∷ cs) h =
    elim (Bool-cases (isalnum c || c == b'-' || c == b'.' || c == b'_')) [
      | inl t ↦
          let g = rw (t, mail_loop) at h in
          let (r, q, (a, u, e, al, k, l)) = mail_loop-Mail (i + 1) nb cs g in
          let (m, n) = mail_byte c t in
          (
            suc r,
            rw (t, mail_loop) (omega (arith, q)),
            (c ∷ a, u, ap (◌∷◌ c) e, (m, al), rw n (omega (arith, k)), omega arith),
          )
      | inr t ↦ elim (Bool-cases (c == b'@')) [
        | inl w ↦
            let g = rw (t, mail_loop) at h in
            let g' = rw w at g in
            let (r, q, (a, u, e, al, k, l)) = mail_loop-Mail (i + 1) (nb + 1) cs g' in
            (
              suc r,
              rw (t, mail_loop) (rw w (omega (arith, q))),
              (c ∷ a, u, ap (◌∷◌ c) e, (ground arith, al), rw w (omega (arith, k)), omega arith),
            )
        | inr w ↦ elim (Bool-cases (c == b'>')) [
          | inl x ↦
              let g = rw (t, mail_loop) at h in
              let g' = rw (w, x) at g in
              elim (Bool-cases (nb == 1)) [
                | inl y ↦ (
                  1,
                  rw (t, mail_loop) (rw (w, x, y) refl),
                  ([], cs, ap (λ z. z ∷ cs) ((==_iff c b'>').0 x), tt, ground arith, omega arith),
                )
                | inr y ↦ let g2 = rw y at g' in elim g2 [ ]
              ]
          | inr x ↦ let g = rw (t, mail_loop) at h in let g' = rw (w, x) at g in elim g' [ ]
        ]
      ]
    ]

mail_loop_at :
    (i nb : ℕ) (a u : Bytes)
    → All IsMailByte a
    → count b'@' a + nb ≡ 1
    → mail_loop i nb (a ++ (b'>' ∷ u)) ≡ i + length a + 1
unfolding mail_loop count
mail_loop_at i nb [] u al k =
    let y : (nb == 1) ≡ true = ground arith in unfold isalnum in rw y (omega arith)
mail_loop_at i nb (c ∷ a) u (m, al) k =
    elim (Bool-cases (isalnum c || c == b'-' || c == b'.' || c == b'_')) [
      | inl t ↦
          let (_, n) = mail_byte c t in
          let k' = rw n at k in
          rw (t, mail_loop) (omega (arith, mail_loop_at (i + 1) nb a u al (omega (arith, k'))))
      | inr t ↦
          let w : (c == b'@') ≡ true = ground arith in
          let k' = rw w at k in
          rw (t, mail_loop)
            (rw w (omega (arith, mail_loop_at (i + 1) (nb + 1) a u al (omega (arith, k')))))
    ]

-- is_mail_autolink returns a length other than 0 exactly for a text that begins with an address
-- with one at sign and a closing bracket, and the length is theirs.
pub is_mail_autolink_iff : (d : Bytes) (r : ℕ) → ((is_mail_autolink d ≡ r) × (0 < r)) ↔ Mail 0 d r
unfolding is_mail_autolink
is_mail_autolink_iff d r = (
  λ (e, p).
      let (s, q, (a, u, g, al, k, l)) = mail_loop-Mail 0 0 d (omega (arith, e)) in
      (a, u, g, al, k, omega (arith, e, q)),
  λ (a, u, g, al, k, l). (rw g (omega (arith, mail_loop_at 0 0 a u al k)), omega arith),
)
