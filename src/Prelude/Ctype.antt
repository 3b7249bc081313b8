-- ===== src/Prelude/Ctype.antt =====
-- The tests of <ctype.h> that the program uses, in the C locale, on unsigned bytes.
use Prim.Native.Nat.{ℕ, ◌+◌}
use mathlib.Core.Bool.{Bool, not, ◌&&◌, ◌||◌}
use mathlib.Core.List.{[], ◌∷◌}
use lowdown.Prelude.Lists.{Bytes}
use lowdown.Prelude.Tests.{leb, ltb, ◌==◌, if◌then◌else◌}

abbrev pub isdigit : ℕ → Bool
isdigit c = leb b'0' c && leb c b'9'

abbrev pub isupper : ℕ → Bool
isupper c = leb b'A' c && leb c b'Z'

abbrev pub islower : ℕ → Bool
islower c = leb b'a' c && leb c b'z'

unfoldable pub isalpha : ℕ → Bool
isalpha c = isupper c || islower c

unfoldable pub isalnum : ℕ → Bool
unfolding isalpha
isalnum c = isalpha c || isdigit c

-- Space, \t, \n, \v, \f, \r.
unfoldable pub isspace : ℕ → Bool
isspace c = c == b' ' || (leb 9 c && leb c 13)

unfoldable pub ispunct : ℕ → Bool
unfolding isalnum
ispunct c = leb 33 c && leb c 126 && not (isalnum c)

unfoldable pub iscntrl : ℕ → Bool
iscntrl c = ltb c 32 || c == 127

unfoldable pub tolower : ℕ → ℕ
tolower c = if isupper c then c + 32 else c

-- A text from its first byte on that isspace() does not accept.
unfoldable pub skip_isspace : Bytes → Bytes
unfolding isspace
skip_isspace [] = []
skip_isspace (c ∷ cs) = let later = skip_isspace cs in if isspace c then later else c ∷ cs
