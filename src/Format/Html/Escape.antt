-- ===== src/Format/Html/Escape.antt =====
-- The three functions of src/format/html/html_escape.c: what they append to the output buffer.
use lowdown.Prelude.{◌+◌, ◌*◌, ◌≤◌, ◌≡◌, ◌≢◌, Bool, true, subst, Bytes, length, All, arith}
use lowdown.Buffer.{Out, size, size_mod}
use lowdown.Buffer.Writes.{IsValid, Appends}
use lowdown.Format.Html.{lowdown_html_esc, lowdown_html_esc_attr, lowdown_html_esc_href}
use lowdown.Format.Html.Tables.{url_safe}
use lowdown.Format.Html.Decode.{html_decode}
use lowdown.Format.Html.Writes.{
  attr_text, href_text, esc_text, lowdown_html_esc-Writes, lowdown_html_esc_attr-Writes,
  lowdown_html_esc_href-Writes,
}
use lowdown.Format.Html.Sound.{
  NoMarkup, decode-esc_text, esc_text-NoMarkup, length-esc_text, decode-attr_text,
  attr_text-no_quote, length-attr_text,
}
use lowdown.Format.Html.Url.{UrlByte, href_text-UrlByte, length-href_text, href_text_safe}

-- There is room for six bytes to each byte of the text.
abbrev pub RoomFor : Out → Bytes → Type 0
RoomFor s d = size s.ob + 6 * length d + s.ob.unit ≤ size_mod

module _ (d : Bytes) (s : Out) (v : IsValid s.ob) (room : RoomFor s d) where
  -- On a valid buffer with room in size_t for six bytes to each byte of the text, lowdown_html_esc
  -- appends a text that reads back as its argument and holds neither `<` nor `>`, and with `secure`
  -- neither `'` nor `/`; it stops early only after a refused allocation, with a part written.
  pub lowdown_html_esc_sound :
      (secure literal num : Bool)
      → (g : Bytes) × Appends s g (lowdown_html_esc d secure literal num s)
        × (html_decode g ≡ d)
        × All (NoMarkup secure) g
  lowdown_html_esc_sound secure literal num = (
    esc_text secure literal num d,
    lowdown_html_esc-Writes d secure literal num s v
        (omega (arith, length-esc_text d secure literal num)),
    decode-esc_text d secure literal num,
    esc_text-NoMarkup d secure literal num,
  )

  -- On a valid buffer with room in size_t for six bytes to each byte of the text,
  -- lowdown_html_esc_attr appends a text that reads back as its argument and holds no double quote;
  -- it stops early only after a refused allocation, with a part written.
  pub lowdown_html_esc_attr_sound :
      (g : Bytes) × Appends s g (lowdown_html_esc_attr d s)
      × (html_decode g ≡ d)
      × All (λ c. c ≢ b'"') g
  lowdown_html_esc_attr_sound = (
    attr_text d,
    lowdown_html_esc_attr-Writes d s v (omega (arith, length-attr_text d)),
    decode-attr_text d,
    attr_text-no_quote d,
  )

  -- On a valid buffer with room in size_t for six bytes to each byte of the text,
  -- lowdown_html_esc_href appends bytes that are safe in a URL or begin a reference; it stops early
  -- only after a refused allocation, with a part written.
  pub lowdown_html_esc_href_sound :
      (g : Bytes) × Appends s g (lowdown_html_esc_href d s) × All UrlByte g
  lowdown_html_esc_href_sound = (
    href_text d,
    lowdown_html_esc_href-Writes d s v (omega (arith, length-href_text d)),
    href_text-UrlByte d,
  )

  -- On a valid buffer with room in size_t for six bytes to each byte of the text,
  -- lowdown_html_esc_href appends a text of safe bytes as it is; it stops early only after a
  -- refused allocation, with a part written.
  pub lowdown_html_esc_href_safe :
      All (λ c. url_safe c ≡ true) d → Appends s d (lowdown_html_esc_href d s)
  lowdown_html_esc_href_safe safe =
      subst (λ g. Appends s g (lowdown_html_esc_href d s)) (href_text_safe d safe)
        (lowdown_html_esc_href-Writes d s v (omega (arith, length-href_text d)))
