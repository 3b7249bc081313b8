-- ===== src/Buffer/Link/Short.antt =====
-- What hbuf_shortlink of src/buffer.c writes.
use lowdown.Prelude.{
  ℕ, zero, suc, ◌≤◌, ◌<◌, ◌≡◌, ◌≢◌, refl, sym, ap, subst, ◌∙◌, [], ◌∷◌, ◌++◌, Option, none, some,
  Bytes, codes, length, take, drop, ◌==◌, ==_iff, arith, inl, inr, Bool-cases, All, length-append,
  take-append-drop, memchr, memrchr, memchr-FirstAt, memchr-none, memrchr-LastAt, memrchr_of_memchr,
}
use lowdown.Buffer.{Buf, M, ◌>>◌, hbuf_put}
use lowdown.Buffer.Writes.{Writes, Writes->>, Writes-cong}
use lowdown.Buffer.Put.{hbuf_put-Writes, hbuf_putb-Writes}
use lowdown.Buffer.Link.{
  shortlink_start, shortlink_area, shortlink_file, shortlink_path, hbuf_shortlink,
}

-- No slash.
abbrev pub NoSlash : Bytes → Type 0
NoSlash = All (λ c. c ≢ b'/')

-- How the text between the protocol and a closing slash is shortened.
pub data Shortens : Bytes → Bytes → Type 0 where
  -- A domain alone, or a domain and a file: kept.
  domain : (d : Bytes) → NoSlash d → Shortens d d
  one_file :
      (area d f : Bytes) → NoSlash d → NoSlash f → area ≡ d ++ (b'/' ∷ f) → Shortens area area
  -- A longer path: the domain and the last file.
  path :
      (area d p f : Bytes)
      → NoSlash d
      → NoSlash f
      → area ≡ d ++ (b'/' ∷ (p ++ (b'/' ∷ f)))
      → Shortens area (d ++ (codes "/..." ++ (b'/' ∷ f)))

-- A writer of some text with a property.
abbrev pub WritesSome : M (Unit {0}) → (Bytes → Type 0) → Type 0
WritesSome m P = (g : Bytes) × Writes m g × P g

tail_of : Bytes → Bytes
tail_of [] = []
tail_of (y ∷ ys) = ys

-- Between the first slash and a later last one.
two_slashes :
    (area : Bytes) (i j : ℕ)
    → i < j
    → area ≡ take i area ++ (b'/' ∷ drop (suc i) area)
    → area ≡ take j area ++ (b'/' ∷ drop (suc j) area)
    → (p : Bytes) × (drop (suc i) area ≡ p ++ (b'/' ∷ drop (suc j) area))
unfolding tail_of
two_slashes [] i j l e f =
    absurd (omega (arith, ap length e, length-append {A = ℕ} (take i []) (b'/' ∷ drop (suc i) [])))
two_slashes (x ∷ xs) zero zero l e f = elim l [ ]
two_slashes (x ∷ xs) zero (suc j) l e f = (take j xs, ap tail_of f)
two_slashes (x ∷ xs) (suc i) zero l e f = absurd (omega arith)
two_slashes (x ∷ xs) (suc i) (suc j) l e f =
    two_slashes xs i j (omega arith) (ap tail_of e) (ap tail_of f)

drop_at :
    (i : ℕ) (xs : Bytes) (c : ℕ) (r : Bytes)
    → xs ≡ take i xs ++ (c ∷ r)
    → i < length xs
    → drop i xs ≡ c ∷ drop (suc i) xs
unfolding tail_of
drop_at i [] c r e h = elim h [ ]
drop_at zero (x ∷ xs) c r e h = cc
drop_at (suc i) (x ∷ xs) c r e h = drop_at i xs c r (ap tail_of e) (omega arith)

-- The path, with a single slash or with a later last one.
shortlink_file-Shortens :
    (area : Bytes) (i j : ℕ)
    → memchr b'/' area ≡ some i
    → memrchr b'/' area ≡ some j
    → i ≤ j
    → WritesSome (hbuf_put (take i area) >> shortlink_file area i (some j)) (Shortens area)
unfolding shortlink_file
shortlink_file-Shortens area i j e f l =
    let (p, a, h) = memchr-FirstAt b'/' area e in
    let (q, z, k) = memrchr-LastAt b'/' area f in
    elim (Bool-cases (j == i)) [
      | inl t ↦
          let same : j ≡ i = (==_iff j i).0 t in
          let z' : NoSlash (drop (suc i) area) = subst (λ n. NoSlash (drop (suc n) area)) same z in
          (
            area,
            rw t (
                Writes-cong (hbuf_put (take i area) >> hbuf_put (drop i area))
                  (take-append-drop i area)
                  (Writes->> (hbuf_put (take i area)) (hbuf_put (drop i area)) (take i area)
                    (drop i area) (hbuf_put-Writes (take i area)) (hbuf_put-Writes (drop i area)))),
            one_file area (take i area) (drop (suc i) area) a z' p,
          )
      | inr t ↦
          let (m, w) = two_slashes area i j (ground arith) p q in
          let last = b'/' ∷ drop (suc j) area in
          let r : drop j area ≡ last = drop_at j area b'/' (drop (suc j) area) q k in
          (
            take i area ++ (codes "/..." ++ last),
            rw t (
                subst
                  (λ y.
                    Writes
                      (hbuf_put (take i area)
                        >> (hbuf_put (codes "/...") >> hbuf_put (drop j area)))
                      (take i area ++ (codes "/..." ++ y)))
                  r
                  (Writes->> (hbuf_put (take i area))
                    (hbuf_put (codes "/...") >> hbuf_put (drop j area)) (take i area)
                    (codes "/..." ++ drop j area) (hbuf_put-Writes (take i area))
                    (Writes->> (hbuf_put (codes "/...")) (hbuf_put (drop j area)) (codes "/...")
                      (drop j area) (hbuf_put-Writes (codes "/..."))
                      (hbuf_put-Writes (drop j area))))),
            path area (take i area) m (drop (suc j) area) a z
                (p ∙ ap (λ (y : Bytes). take i area ++ (b'/' ∷ y)) w),
          )
    ]

shortlink_path-Shortens :
    (area : Bytes) (o : Option ℕ)
    → memchr b'/' area ≡ o
    → WritesSome (shortlink_path area o) (Shortens area)
unfolding shortlink_path
shortlink_path-Shortens area none e =
    (area, hbuf_put-Writes area, domain area (memchr-none b'/' area e))
shortlink_path-Shortens area (some i) e =
    let (j, f, l) = memrchr_of_memchr b'/' area i e in
    subst (λ o. WritesSome (hbuf_put (take i area) >> shortlink_file area i o) (Shortens area))
      (sym f) (shortlink_file-Shortens area i j e f l)

-- hbuf_shortlink appends a link with no known protocol as it is. Of any other it appends what
-- stands between the protocol and a closing slash, shortened: a domain alone, or a domain and one
-- file, is kept, and of a longer path the domain and the last file stay, joined by `/...`.
pub hbuf_shortlink-Shortens :
    (link : Buf)
    → (g : Bytes) × Writes (hbuf_shortlink link) g
      × (shortlink_start link.content ≡ 0 → g ≡ link.content)
      × (shortlink_start link.content ≢ 0
          → Shortens (shortlink_area link.content (shortlink_start link.content)) g)
unfolding hbuf_shortlink
hbuf_shortlink-Shortens link = elim (Bool-cases (shortlink_start link.content == 0)) [
  | inl t ↦ (
    link.content,
    rw t (hbuf_putb-Writes link),
    (λ _. refl),
    λ n. absurd (n ((==_iff (shortlink_start link.content) 0).0 t)),
  )
  | inr t ↦
      let area = shortlink_area link.content (shortlink_start link.content) in
      let (g, w, sh) = shortlink_path-Shortens area (memchr b'/' area) refl in
      (g, rw t w, (λ n. absurd (ground arith)), λ _. sh)
]
