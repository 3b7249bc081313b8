-- ===== src/Tests/Lines.antt =====
-- The recognisers of lines of src/parse/document.c on short texts.
use lowdown.Prelude.{◌≡◌, ◌↔◌, ◌<◌, refl, true, codes, arith}
use lowdown.Parse.Lines.{is_hrule}
use lowdown.Parse.Mail.{is_mail_autolink, Mail, is_mail_autolink_iff}
use lowdown.Parse.Lines.Blocks.{IsRule, is_hrule_iff}
use lowdown.Parse.Lines.Fences.{IsFence}

is_hrule_iff_example : (is_hrule (codes " * * *\n") ≡ true) ↔ IsRule (codes " * * *\n")
is_hrule_iff_example = is_hrule_iff (codes " * * *\n")

fence : IsFence (codes " ```c\n") 4 3 b'`'
fence = record {
  indent = 1;
  later = codes "c\n";
  spells = refl;
  at_most_three = omega arith;
  ends = refl;
  wide = omega arith;
  is_chr = refl;
  maximal = ground arith;
}

is_mail_autolink_iff_example :
    ((is_mail_autolink (codes "a.b@c> d") ≡ 6) × (0 < 6)) ↔ Mail 0 (codes "a.b@c> d") 6
is_mail_autolink_iff_example = is_mail_autolink_iff (codes "a.b@c> d") 6
