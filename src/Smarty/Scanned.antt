-- ===== src/Smarty/Scanned.antt =====
-- What smarty_text of src/library/smartypants.c finds in a text: the leftmost symbol.
use lowdown.Prelude.{
  ℕ, zero, suc, ◌+◌, ◌≤◌, ◌≡◌, refl, sym, ap, ◌∙◌, subst, Bool, true, false, ◌&&◌, ◌||◌, List, [],
  ◌∷◌, ◌++◌, Option, none, some, Bytes, length, drop, get_elem?, begins, ◌==◌, ==_iff,
  if◌then◌else◌, arith, inl, inr, Bool-cases,
}
use lowdown.Smarty.{
  Entity, syms, syms2, find_sym, plain, symbol, Scan, clean, cut, smarty_scan, smarty_right_wb,
  smarty_is_wb_l,
}

-- A text and the entity that it stands for.
pub data Stands : Bytes → Entity → Type 0 where
  anywhere :
      {key : Bytes} {ent : Entity} (i : ℕ) → get_elem? syms i ≡ some (key, ent) → Stands key ent
  fraction :
      {key : Bytes} {ent : Entity} (i : ℕ) → get_elem? syms2 i ≡ some (key, ent) → Stands key ent
  left_double : Stands (b'"' ∷ []) Entity.ldquo
  right_double : Stands (b'"' ∷ []) Entity.rdquo
  left_single : Stands (b'\'' ∷ []) Entity.lsquo
  right_single : Stands (b'\'' ∷ []) Entity.rsquo

-- A symbol that needs no wordbreak stands in the text at `n` or later only.
pub Clear : ℕ → Bytes → Type 0
Clear n d =
    (a r key : Bytes) (ent : Entity) (i : ℕ)
    → get_elem? syms i ≡ some (key, ent)
    → d ≡ a ++ (key ++ r)
    → n ≤ length a

begins-append : (key r : Bytes) → begins key (key ++ r) ≡ true
begins-append [] r = refl
begins-append (x ∷ key) r = ground (arith, begins-append key r)

begins→append : (key d : Bytes) → begins key d ≡ true → d ≡ key ++ drop (length key) d
begins→append [] d h = refl
begins→append (x ∷ key) [] h = cc
begins→append (x ∷ key) (y ∷ d) h = ground (arith, begins→append key d)

-- What a search of a table gives.
Picked : (Bytes → Bool) → List (Bytes × Entity) → Bytes → Option (Bytes × Entity) → Type 0
Picked test table d none =
    (key : Bytes) (ent : Entity) (i : ℕ)
    → get_elem? table i ≡ some (key, ent)
    → (begins key d && test (drop (length key) d)) ≡ false
Picked test table d (some (key, ent)) =
    (i : ℕ) × (get_elem? table i ≡ some (key, ent))
    × ((begins key d && test (drop (length key) d)) ≡ true)

find_sym-Picked :
    (test : Bytes → Bool) (table : List (Bytes × Entity)) (d : Bytes)
    → Picked test table d (find_sym test table d)
unfolding find_sym Picked
find_sym-Picked test [] d = λ key ent i e. cc
find_sym-Picked test ((key, ent) ∷ table) d =
    elim (Bool-cases (begins key d && test (drop (length key) d))) [
      | inl h ↦ rw h (0, refl, h)
      | inr h ↦ rw h (behind (find_sym test table d) h (find_sym-Picked test table d))
    ]
  where
    neither :
        (k : Bytes) (e : Entity) (i : ℕ)
        → (begins key d && test (drop (length key) d)) ≡ false
        → Picked test table d none
        → get_elem? ((key, ent) ∷ table) i ≡ some (k, e)
        → (begins k d && test (drop (length k) d)) ≡ false
    neither k e zero h p q =
        let same : key ≡ k = cc in
        subst (λ z. (begins z d && test (drop (length z) d)) ≡ false) same h
    neither k e (suc i) h p q = p k e i q

    behind :
        (o : Option (Bytes × Entity))
        → (begins key d && test (drop (length key) d)) ≡ false
        → Picked test table d o
        → Picked test ((key, ent) ∷ table) d o
    behind none h p = λ k e i q. neither k e i h p q
    behind (some (k, e)) h (i, p, q) = (suc i, p, q)

-- The first place of a symbol is the start of the text, or one behind it.
Clear-cons :
    (n c : ℕ) (cs : Bytes)
    → find_sym (λ _. true) syms (c ∷ cs) ≡ none
    → Clear n cs
    → Clear (suc n) (c ∷ cs)
unfolding Clear Picked
Clear-cons n c cs h p = λ a r key ent i e q. go a r key ent i e q
  where
    none_here : Picked (λ _. true) syms (c ∷ cs) none
    none_here =
        subst (Picked (λ _. true) syms (c ∷ cs)) h (find_sym-Picked (λ _. true) syms (c ∷ cs))

    go :
        (a r key : Bytes) (ent : Entity) (i : ℕ)
        → get_elem? syms i ≡ some (key, ent)
        → c ∷ cs ≡ a ++ (key ++ r)
        → suc n ≤ length a
    go [] r key ent i e q =
        let f = none_here key ent i e in
        let g = begins-append key r in
        let k : (begins key (c ∷ cs) && true) ≡ true = rw (ap (begins key) q ∙ g) in cc
    go (x ∷ a) r key ent i e q = omega (arith, p a r key ent i e (ap (drop 1) q))

Clear-nil : Clear 0 []
unfolding Clear
Clear-nil = λ a r key ent i e q. omega arith

-- What the switch on one byte chooses.
Chosen : Bytes → Option (Bytes × Entity × Bool) → Type 0
Chosen d none = find_sym (λ _. true) syms d ≡ none
Chosen d (some (key, ent, skip)) = (r : Bytes) × (d ≡ key ++ r) × Stands key ent

find_sym-other :
    (c : ℕ) (cs : Bytes)
    → (c == b'.' || c == b'(' || c == b'-') ≡ false
    → find_sym (λ _. true) syms (c ∷ cs) ≡ none
unfolding find_sym
find_sym-other c cs h = ground arith

plain-Chosen :
    (test : Bytes → Bool) (table : List (Bytes × Entity)) (d : Bytes)
    (stands : (key : Bytes) (ent : Entity) (i : ℕ)
      → get_elem? table i ≡ some (key, ent)
      → Stands key ent)
    → (find_sym test table d ≡ none → find_sym (λ _. true) syms d ≡ none)
    → Chosen d (plain (find_sym test table d))
unfolding Chosen plain Picked
plain-Chosen test table d stands other =
    by_pick (find_sym test table d) (find_sym-Picked test table d) other
  where
    by_pick :
        (o : Option (Bytes × Entity))
        → Picked test table d o
        → (o ≡ none → find_sym (λ _. true) syms d ≡ none)
        → Chosen d (plain o)
    by_pick none p f = f refl
    by_pick (some (key, ent)) (i, e, h) f =
        let b : begins key d ≡ true = ground arith in
        (drop (length key) d, begins→append key d b, stands key ent i e)

quote-Chosen :
    (c q : ℕ) (cs : Bytes) (ent : Entity) (skip : Bool)
    → (c == q) ≡ true
    → Stands (q ∷ []) ent
    → Chosen (c ∷ cs) (some (c ∷ [], ent, skip))
unfolding Chosen
quote-Chosen c q cs ent skip h s =
    (cs, refl, subst (λ z. Stands (z ∷ []) ent) (sym ((==_iff c q).0 h)) s)

Chosen-if :
    (d : Bytes) (x y : Option (Bytes × Entity × Bool)) (b : Bool)
    → (b ≡ true → Chosen d x)
    → (b ≡ false → Chosen d y)
    → Chosen d (if b then x else y)
Chosen-if d x y true p q = p refl
Chosen-if d x y false p q = q refl

symbol-Chosen :
    (left_wb next : Bool) (c : ℕ) (cs : Bytes) → Chosen (c ∷ cs) (symbol left_wb next c cs)
unfolding symbol Chosen
symbol-Chosen left_wb next c cs =
    Chosen-if (c ∷ cs) _ _ (c == b'.' || c == b'(' || c == b'-')
      (λ _. plain-Chosen (λ _. true) syms (c ∷ cs) (λ key ent i e. Stands.anywhere i e) (λ e. e))
      (λ h.
        let other = find_sym-other c cs h in
        Chosen-if (c ∷ cs) _ _ (c == b'"')
          (λ q.
            Chosen-if (c ∷ cs) _ _ left_wb
              (λ _. quote-Chosen c b'"' cs Entity.ldquo true q Stands.left_double)
              (λ _.
                Chosen-if (c ∷ cs) _ _ (smarty_right_wb cs next)
                  (λ _. quote-Chosen c b'"' cs Entity.rdquo false q Stands.right_double)
                  (λ _. other)))
          (λ _.
            Chosen-if (c ∷ cs) _ _ (c == b'\'')
              (λ q.
                Chosen-if (c ∷ cs) _ _ left_wb
                  (λ _. quote-Chosen c b'\'' cs Entity.lsquo true q Stands.left_single)
                  (λ _. quote-Chosen c b'\'' cs Entity.rsquo false q Stands.right_single))
              (λ _.
                Chosen-if (c ∷ cs) _ _ (c == b'1' || c == b'3')
                  (λ _.
                    Chosen-if (c ∷ cs) _ _ left_wb
                      (λ _.
                        plain-Chosen (λ d. smarty_right_wb d next) syms2 (c ∷ cs)
                          (λ key ent i e. Stands.fraction i e) (λ _. other))
                      (λ _. other))
                  (λ _. other))))

-- The leftmost symbol of a text and its place, or that no symbol stands in it.
unfoldable pub Cuts : ℕ → Bytes → Scan → Type 0
Cuts i d (clean left) = Clear (length d) d
Cuts i d (cut j key ent skip left) =
    (a r : Bytes) × (d ≡ a ++ (key ++ r)) × (j ≡ i + length a) × Stands key ent × Clear (length a) d

pub smarty_scan-Cuts :
    (left_wb next : Bool) (i : ℕ) (d : Bytes) → Cuts i d (smarty_scan left_wb next i d)
unfolding smarty_scan Cuts Chosen Clear
smarty_scan-Cuts left_wb next i [] = Clear-nil
smarty_scan-Cuts left_wb next i (c ∷ cs) =
    by_choice (symbol left_wb next c cs) (symbol-Chosen left_wb next c cs)
      (smarty_scan-Cuts (smarty_is_wb_l c) next (i + 1) cs)
  where
    later :
        (s : Scan)
        → find_sym (λ _. true) syms (c ∷ cs) ≡ none
        → Cuts (i + 1) cs s
        → Cuts i (c ∷ cs) s
    later (clean left) h p = Clear-cons (length cs) c cs h p
    later (cut j key ent skip left) h (a, r, e, f, s, n) =
        (c ∷ a, r, ap (◌∷◌ c) e, omega (arith, f), s, Clear-cons (length a) c cs h n)

    by_choice :
        (o : Option (Bytes × Entity × Bool))
        → Chosen (c ∷ cs) o
        → Cuts (i + 1) cs (smarty_scan (smarty_is_wb_l c) next (i + 1) cs)
        → Cuts i (c ∷ cs) (elim o [
          | some (key, ent, skip) ↦ cut i key ent skip left_wb
          | none ↦ smarty_scan (smarty_is_wb_l c) next (i + 1) cs
        ])
    by_choice none h p = later (smarty_scan (smarty_is_wb_l c) next (i + 1) cs) h p
    by_choice (some (key, ent, skip)) (r, e, s) p =
        ([], r, e, omega arith, s, λ a b k e i p q. omega arith)
