-- ===== src/Format/Html/Decode.antt =====
-- A reader of the character references that an HTML document may hold in the place of the bytes
-- `&`, `<`, `>`, `/`, `"` and `'`, written independently of the escaping of html_escape.c.
use lowdown.Prelude.{
  ℕ, zero, suc, true, false, [], ◌∷◌, Bytes, codes, begins, ◌==◌, if◌then◌else◌, ◌≡◌, refl,
}

-- The byte that a reference stands for, and the length of the reference behind its `&`. An `&` that
-- begins none stands for itself.
unfoldable pub reference : Bytes → ℕ × ℕ
reference s =
    if begins (codes "amp;") s
    then (b'&', 4)
    else if begins (codes "lt;") s
    then (b'<', 3)
    else if begins (codes "gt;") s
    then (b'>', 3)
    else if begins (codes "quot;") s
    then (b'"', 5)
    else if begins (codes "#39;") s
    then (b'\'', 4)
    else if begins (codes "#x27;") s
    then (b'\'', 5)
    else if begins (codes "#47;") s
    then (b'/', 4)
    else if begins (codes "#38;") s
    then (b'&', 4)
    else if begins (codes "#60;") s
    then (b'<', 4)
    else if begins (codes "#62;") s
    then (b'>', 4)
    else (b'&', 0)

-- The first argument counts the bytes of a reference that are still to be passed over.
unfoldable pub decode_from : ℕ → Bytes → Bytes
unfolding reference
decode_from skip [] = []
decode_from (suc skip) (c ∷ cs) = decode_from skip cs
decode_from zero (c ∷ cs) = elim (c == b'&') [
  | true ↦ (reference cs).0 ∷ decode_from (reference cs).1 cs
  | false ↦ c ∷ decode_from zero cs
]

unfoldable pub html_decode : Bytes → Bytes
unfolding decode_from
html_decode = decode_from 0

decodes : html_decode (codes "a &lt; b &amp;&quot;&#47;") ≡ codes "a < b &\"/"
unfolding html_decode
decodes = refl
