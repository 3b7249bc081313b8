-- ===== src/Tests/Links.antt =====
-- The readers of links of src/buffer.c and src/parse/autolink.c on short texts.
use lowdown.Prelude.{
  ℕ, ◌≤◌, ◌≡◌, ◌≢◌, Bool, true, [], ◌∷◌, ◌++◌, none, some, Bytes, codes, take, All, is_nil,
  if◌then◌else◌, arith,
}
use lowdown.Buffer.Link.{hbuf_isrellink, hbuf_ismanpage}
use lowdown.Buffer.Link.Kinds.{IsPage, has, hbuf_ismanpage-IsPage, hbuf_isrellink_lem}
use lowdown.Parse.Autolink.{autolink_delim, halink_www, halink_url}
use lowdown.Parse.Autolink.Delim.{NoTag, autolink_delim-le}
use lowdown.Parse.Autolink.Found.{Found, halink_www-Found, halink_url-Found}
use lowdown.Tests.{empty, empty-IsValid, holding}

hbuf_ismanpage-IsPage_example :
    (r : Bool) × (hbuf_ismanpage (holding (codes "ls(1)")) ≡ some r)
    × (r ≡ true → IsPage (codes "ls(1)"))
hbuf_ismanpage-IsPage_example = hbuf_ismanpage-IsPage (holding (codes "ls(1)"))

hbuf_isrellink_lem_example :
    (All (λ c. c ≢ b':') (codes ":a") → hbuf_isrellink (holding (codes ":a")) ≡ some true)
    × ((p r : Bytes)
        → codes ":a" ≡ p ++ (b':' ∷ r)
        → All (λ c. c ≢ b':') p
        → hbuf_isrellink (holding (codes ":a")) ≡ (if is_nil p then none else some (has b'/' p)))
hbuf_isrellink_lem_example = hbuf_isrellink_lem (holding (codes ":a"))

autolink_delim-le_example :
    (r : ℕ) × (autolink_delim (codes "a.b/c).") 7 ≡ some r)
    × (r ≤ 7)
    × NoTag (take r (codes "a.b/c)."))
autolink_delim-le_example =
    autolink_delim-le (codes "a.b/c).") 7 (ground arith) (omega arith) (omega arith)

halink_www-Found_example :
    Found [] (codes "www.a.b c") empty (halink_www [] (codes "www.a.b c") empty)
halink_www-Found_example =
    halink_www-Found [] (codes "www.a.b c") empty empty-IsValid (omega arith) (ground arith)
      (omega arith)

halink_url-Found_example :
    Found (codes "ptth") (codes "://a.b") empty (halink_url (codes "ptth") (codes "://a.b") empty)
halink_url-Found_example =
    halink_url-Found (codes "ptth") (codes "://a.b") empty empty-IsValid (omega arith)
      (ground arith) (omega arith)
