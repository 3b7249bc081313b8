-- ===== src/Format/Html/Url.antt =====
-- What lowdown_html_esc_href of html_escape.c writes is made of bytes that are safe in a URL.
use lowdown.Prelude.{
  ℕ, ◌*◌, ◌≤◌, ◌<◌, ◌≡◌, refl, ap, true, ◌||◌, [], ◌∷◌, Bytes, get_or, inl, inr, ◌==◌, Bool-cases,
  ◌/◌, ◌%◌, arith, table_below, table_below_lem, All, length,
}
use lowdown.Format.Html.{href_plain, hex_chars}
use lowdown.Format.Html.Tables.{url_safe, href_tbl_lem}
use lowdown.Format.Html.Writes.{replaced, escaped, href_rep, href_text}
use lowdown.Format.Html.Sound.{All-escaped, length-escaped}

-- What a URL in an attribute may hold: a safe byte, or the start of a reference.
abbrev pub UrlByte : ℕ → Type 0
UrlByte c = (url_safe c || c == b'&') ≡ true

hex_safe : (x : ℕ) → x < 16 → url_safe (get_or hex_chars x 0) ≡ true
unfolding table_below
hex_safe x h = table_below_lem (λ x. url_safe (get_or hex_chars x 0)) x 16 h refl

href_cases :
    (P : ℕ → Bytes → Type 0)
    → ((c : ℕ) → url_safe c ≡ true → P c (c ∷ []))
    → ((c : ℕ) → P c (href_rep c))
    → (c : ℕ) → P c (replaced href_plain href_rep c)
unfolding href_plain
href_cases P safe other c = elim (Bool-cases (url_safe c)) [
  | inl t ↦ rw (href_tbl_lem, t) (safe c t)
  | inr t ↦ rw (href_tbl_lem, t) (other c)
]

href_rep-UrlByte : (c : ℕ) → All UrlByte (href_rep c)
href_rep-UrlByte c = elim (Bool-cases (c == b'&')) [
  | inl t ↦ rw t (refl, (refl, (refl, (refl, (refl, tt)))))
  | inr t ↦ elim (Bool-cases (c == b'\'')) [
    | inl u ↦ rw (t, u) (refl, (refl, (refl, (refl, (refl, (refl, tt))))))
    | inr u ↦
        rw (t, u)
          (
            refl,
            (
              rw (hex_safe (c / 16 % 16) (omega arith)) refl,
              (rw (hex_safe (c % 16) (omega arith)) refl, tt),
            ),
          )
  ]
]

length-href_rep : (c : ℕ) → length (href_rep c) ≤ 6
length-href_rep c = ground arith

module _ (d : Bytes) where
  pub href_text-UrlByte : All UrlByte (href_text d)
  unfolding href_text
  href_text-UrlByte =
      All-escaped UrlByte href_plain href_rep
        (href_cases (λ c g. All UrlByte g) (λ c h. (rw h refl, tt)) href_rep-UrlByte) d

  pub length-href_text : length (href_text d) ≤ 6 * length d
  unfolding href_text
  length-href_text =
      length-escaped 6 href_plain href_rep
        (href_cases (λ c g. length g ≤ 6) (λ c h. omega arith) length-href_rep) d

-- A text of safe bytes is kept as it is.
pub href_text_safe : (d : Bytes) → All (λ c. url_safe c ≡ true) d → href_text d ≡ d
unfolding href_text escaped href_plain
href_text_safe [] h = refl
href_text_safe (c ∷ cs) (h, hs) = rw (href_tbl_lem, h) (ap (◌∷◌ c) (href_text_safe cs hs))
