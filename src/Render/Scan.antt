-- ===== src/Render/Scan.antt =====
-- Well-formed HTML, as a scanner: which elements are open, and where in a tag a text stops. It is a
-- description of what src/format/html/html.c has to write, and models none of its code.
use lowdown.Prelude.{
  ℕ, ◌≡◌, ◌≢◌, refl, Bool, true, false, ◌||◌, List, [], ◌∷◌, ◌++◌, Bytes, bytes_eq, All, ◌==◌,
  if◌then◌else◌, isalnum, arith,
}

-- Each state has the names of the open elements, innermost first, and within a tag its name so far.
pub data Scan : Type 0 where
  text opened : List Bytes → Scan
  name gap key equals value quoted slash close : List Bytes → Bytes → Scan
  wrong : Scan

unfoldable pub name_byte : ℕ → Bool
unfolding isalnum
name_byte c = isalnum c || c == b'-'

-- An end tag has to close the innermost element.
unfoldable pub pop : Bytes → List Bytes → Scan
pop n [] = Scan.wrong
pop n (m ∷ k) = if bytes_eq n m then Scan.text k else Scan.wrong

-- Behind a name or a value in a tag.
unfoldable pub between : List Bytes → Bytes → ℕ → Scan
between k n c =
    if c == b' '
    then Scan.gap k n
    else if c == b'>'
    then Scan.text (n ∷ k)
    else if c == b'/'
    then Scan.slash k n
    else Scan.wrong

unfoldable pub step : Scan → ℕ → Scan
unfolding name_byte pop between
step (Scan.text k) c =
    if c == b'<' then Scan.opened k else if c == b'>' then Scan.wrong else Scan.text k
step (Scan.opened k) c =
    if c == b'/' then Scan.close k [] else if name_byte c then Scan.name k (c ∷ []) else Scan.wrong
step (Scan.name k n) c = if name_byte c then Scan.name k (n ++ c ∷ []) else between k n c
step (Scan.gap k n) c = if name_byte c then Scan.key k n else between k n c
step (Scan.key k n) c =
    if name_byte c then Scan.key k n else if c == b'=' then Scan.equals k n else between k n c
step (Scan.equals k n) c = if c == b'"' then Scan.value k n else Scan.wrong
step (Scan.value k n) c = if c == b'"' then Scan.quoted k n else Scan.value k n
step (Scan.quoted k n) c = between k n c
step (Scan.slash k n) c = if c == b'>' then Scan.text k else Scan.wrong
step (Scan.close k n) c =
    if name_byte c then Scan.close k (n ++ c ∷ []) else if c == b'>' then pop n k else Scan.wrong
step Scan.wrong c = Scan.wrong

unfoldable pub scan : Scan → Bytes → Scan
unfolding step
scan p [] = p
scan p (c ∷ cs) = scan (step p c) cs

-- Every tag of the text is complete, every element is closed in the right order, and there is no
-- markup byte outside of the tags.
unfoldable pub IsWellFormed : Bytes → Type 0
unfolding scan
IsWellFormed d = (k : List Bytes) → scan (Scan.text k) d ≡ Scan.text k

pub scan-append : (p : Scan) (d e : Bytes) → scan p (d ++ e) ≡ scan (scan p d) e
unfolding scan
scan-append p [] e = refl
scan-append p (c ∷ cs) e = scan-append (step p c) cs e

-- Bytes that leave the state as it is.
pub scan_stay :
    (p : Scan) (P : ℕ → Type 0)
    → ((c : ℕ) → P c → step p c ≡ p)
    → (d : Bytes) → All P d
    → scan p d ≡ p
unfolding scan
scan_stay p P h [] a = refl
scan_stay p P h (c ∷ cs) (a, b) = rw (h c a) (scan_stay p P h cs b)

pub scan_plain :
    (k : List Bytes) (d : Bytes)
    → All (λ c. (c ≢ b'<') × (c ≢ b'>')) d
    → scan (Scan.text k) d ≡ Scan.text k
unfolding step
scan_plain k d a =
    scan_stay (Scan.text k) (λ c. (c ≢ b'<') × (c ≢ b'>')) (λ c (l, g). ground arith) d a

pub scan-value :
    (k : List Bytes) (n d : Bytes)
    → All (λ c. c ≢ b'"') d
    → scan (Scan.value k n) d ≡ Scan.value k n
unfolding step
scan-value k n d a = scan_stay (Scan.value k n) (λ c. c ≢ b'"') (λ c q. ground arith) d a

pub scan-key :
    (k : List Bytes) (n d : Bytes)
    → All (λ c. name_byte c ≡ true) d
    → scan (Scan.key k n) d ≡ Scan.key k n
unfolding step
scan-key k n d a = scan_stay (Scan.key k n) (λ c. name_byte c ≡ true) (λ c q. rw q refl) d a

-- Only `>` brings the scanner to the text from a tag.
pub step_space :
    (p : Scan) (c : ℕ) (k : List Bytes)
    → (c == b'>') ≡ false
    → step p c ≡ Scan.text k
    → (c == b'<') ≡ false
    → p ≡ Scan.text k
unfolding step pop between
step_space (Scan.text j) c k g e l = ground arith
step_space (Scan.opened j) c k g e l = ground arith
step_space (Scan.name j n) c k g e l = ground arith
step_space (Scan.gap j n) c k g e l = ground arith
step_space (Scan.key j n) c k g e l = ground arith
step_space (Scan.equals j n) c k g e l = ground arith
step_space (Scan.value j n) c k g e l = ground arith
step_space (Scan.quoted j n) c k g e l = ground arith
step_space (Scan.slash j n) c k g e l = ground arith
step_space (Scan.close j n) c k g e l = ground arith
step_space Scan.wrong c k g e l = ground arith
