-- ===== src/Tests/Escapes.antt =====
-- The escapes of src/format on short texts.
use lowdown.Prelude.{◌≡◌, ◌≢◌, true, false, some, Bytes, codes, All, arith, not, ◌&&◌, ◌==◌}
use lowdown.Buffer.Writes.{Appends}
use lowdown.Format.Html.{lowdown_html_esc, lowdown_html_esc_attr, lowdown_html_esc_href}
use lowdown.Format.Html.Decode.{html_decode}
use lowdown.Format.Html.Sound.{NoMarkup}
use lowdown.Format.Html.Url.{UrlByte}
use lowdown.Format.Html.Escape.{
  lowdown_html_esc_sound, lowdown_html_esc_attr_sound, lowdown_html_esc_href_sound,
}
use lowdown.Format.Author.{keyword, rcsauthor2str, rcsauthor2str-keyword}
use lowdown.Format.Latex.{lowdown_latex_esc}
use lowdown.Format.Latex.Sound.{typeset, lowdown_latex_esc_sound}
use lowdown.Format.Roff.{is_neg, Oneline, lowdown_roff_esc}
use lowdown.Format.Roff.Text.{last_of}
use lowdown.Format.Roff.Sound.{SafeLines, roff_read, squeeze, lowdown_roff_esc_sound}
use lowdown.Format.Gemini.{lowdown_gemini_esc}
use lowdown.Format.Gemini.Sound.{IsPrintable, lowdown_gemini_esc_sound}
use lowdown.Tests.{empty, empty-IsValid}

lowdown_html_esc_sound_example :
    (g : Bytes) × Appends empty g (lowdown_html_esc (codes "<a href='/'>&") true false false empty)
    × (html_decode g ≡ codes "<a href='/'>&")
    × All (NoMarkup true) g
lowdown_html_esc_sound_example =
    lowdown_html_esc_sound (codes "<a href='/'>&") empty empty-IsValid (omega arith) true false
      false

lowdown_html_esc_attr_sound_example :
    (g : Bytes) × Appends empty g (lowdown_html_esc_attr (codes "a\"b&c") empty)
    × (html_decode g ≡ codes "a\"b&c")
    × All (λ c. c ≢ b'"') g
lowdown_html_esc_attr_sound_example =
    lowdown_html_esc_attr_sound (codes "a\"b&c") empty empty-IsValid (omega arith)

lowdown_html_esc_href_sound_example :
    (g : Bytes) × Appends empty g (lowdown_html_esc_href (codes "/a b?c&d") empty) × All UrlByte g
lowdown_html_esc_href_sound_example =
    lowdown_html_esc_href_sound (codes "/a b?c&d") empty empty-IsValid (omega arith)

lowdown_latex_esc_sound_example :
    (g : Bytes) × Appends empty g (lowdown_latex_esc (codes "a_b~\\c") empty)
    × (typeset g ≡ some (codes "a_b~\\c"))
lowdown_latex_esc_sound_example =
    lowdown_latex_esc_sound (codes "a_b~\\c") empty empty-IsValid (omega arith)

lowdown_roff_esc_sound_example :
    (g : Bytes) × Appends empty g (lowdown_roff_esc (codes "a\n .TH") Oneline.zero false empty)
    × SafeLines (last_of empty) g
    × (is_neg Oneline.zero ≡ true → SafeLines b'\n' g)
    × (roff_read g
        ≡ some (squeeze Oneline.zero false (not false && last_of empty == b'\n') (codes "a\n .TH")))
lowdown_roff_esc_sound_example =
    lowdown_roff_esc_sound (codes "a\n .TH") false empty empty-IsValid (omega arith) Oneline.zero
      (λ h. cc)

lowdown_gemini_esc_sound_example :
    (g : Bytes) × Appends empty g (lowdown_gemini_esc (codes "a.\nb") true empty)
    × All IsPrintable g
lowdown_gemini_esc_sound_example =
    lowdown_gemini_esc_sound (codes "a.\nb") empty empty-IsValid (omega arith) true

rcsauthor2str-keyword_example :
    rcsauthor2str (some (keyword true (codes "kristaps"))) ≡ some (codes "kristaps")
rcsauthor2str-keyword_example =
    rcsauthor2str-keyword true (codes "kristaps") (omega arith) (omega arith)
