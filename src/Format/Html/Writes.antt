-- ===== src/Format/Html/Writes.antt =====
-- Each function of src/format/html/html_escape.c appends the text with each byte replaced.
use lowdown.Prelude.{
  ◌/◌, ◌%◌, ℕ, sym, Bool, [], ◌∷◌, ◌++◌, Bytes, codes, get_or, inl, inr, leb, ◌==◌, if◌then◌else◌,
  Bool-cases, flat_map, append_assoc, append-nil,
}
use lowdown.Buffer.{M, ◌>>◌}
use lowdown.Buffer.Writes.{Writes, Writes->>, Writes-cong, Writes-done}
use lowdown.Buffer.Put.{hbuf_put-Writes, hbuf_putc-Writes, hbuf_puts-Writes}
use lowdown.Format.Html.{
  put_run, esc_loop, attr_plain, attr_emit, lowdown_html_esc_attr, href_plain, href_emit, hex_chars,
  lowdown_html_esc_href, esc_max, esc_plain, esc_emit, lowdown_html_esc, esc_tbl, esc_num, esc_name,
}

-- What stands for one byte in the output.
abbrev pub replaced : (ℕ → Bool) → (ℕ → Bytes) → ℕ → Bytes
replaced plain rep c = if plain c then c ∷ [] else rep c

unfoldable pub escaped : (ℕ → Bool) → (ℕ → Bytes) → Bytes → Bytes
unfolding flat_map
escaped plain rep = flat_map (replaced plain rep)

put_run-Writes : (run : Bytes) → Writes (put_run run) run
unfolding put_run
put_run-Writes [] = Writes-done
put_run-Writes (c ∷ cs) = hbuf_put-Writes (c ∷ cs)

module _ (plain : ℕ → Bool) (emit : ℕ → M (Unit {0})) (rep : ℕ → Bytes)
    (emits : (c : ℕ) → Writes (emit c) (rep c)) where
  esc_loop-Writes :
      (run d : Bytes) → Writes (esc_loop plain emit run d) (run ++ escaped plain rep d)
  unfolding esc_loop escaped
  esc_loop-Writes run [] = Writes-cong (put_run run) (sym (append-nil run)) (put_run-Writes run)
  esc_loop-Writes run (c ∷ cs) = elim (Bool-cases (plain c)) [
    | inl t ↦
        rw (t, esc_loop)
          (Writes-cong (esc_loop plain emit (run ++ c ∷ []) cs)
            (append_assoc run (c ∷ []) (escaped plain rep cs)) (esc_loop-Writes (run ++ c ∷ []) cs))
    | inr t ↦
        rw (t, esc_loop)
          (Writes->> (put_run run) (emit c >> esc_loop plain emit [] cs) run
            (rep c ++ escaped plain rep cs) (put_run-Writes run)
            (Writes->> (emit c) (esc_loop plain emit [] cs) (rep c) (escaped plain rep cs) (emits c)
              (esc_loop-Writes [] cs)))
  ]

abbrev pub attr_rep : ℕ → Bytes
attr_rep c = if c == b'"' then codes "&quot;" else if c == b'&' then codes "&amp;" else []

attr_emit-Writes : (c : ℕ) → Writes (attr_emit c) (attr_rep c)
unfolding attr_emit
attr_emit-Writes c = elim (Bool-cases (c == b'"')) [
  | inl t ↦ rw t (hbuf_put-Writes (codes "&quot;"))
  | inr t ↦ elim (Bool-cases (c == b'&')) [
    | inl u ↦ rw (t, u) (hbuf_put-Writes (codes "&amp;"))
    | inr u ↦ rw (t, u) Writes-done
  ]
]

unfoldable pub attr_text : Bytes → Bytes
unfolding escaped attr_plain
attr_text = escaped attr_plain attr_rep

pub lowdown_html_esc_attr-Writes : (d : Bytes) → Writes (lowdown_html_esc_attr d) (attr_text d)
unfolding lowdown_html_esc_attr attr_text
lowdown_html_esc_attr-Writes [] = Writes-done
lowdown_html_esc_attr-Writes (c ∷ cs) =
    esc_loop-Writes attr_plain attr_emit attr_rep attr_emit-Writes [] (c ∷ cs)

abbrev pub href_rep : ℕ → Bytes
href_rep c =
    if c == b'&'
    then codes "&amp;"
    else if c == b'\''
    then codes "&#x27;"
    else b'%' ∷ get_or hex_chars (c / 16 % 16) 0 ∷ get_or hex_chars (c % 16) 0 ∷ []

href_emit-Writes : (c : ℕ) → Writes (href_emit c) (href_rep c)
unfolding href_emit
href_emit-Writes c = elim (Bool-cases (c == b'&')) [
  | inl t ↦ rw t (hbuf_put-Writes (codes "&amp;"))
  | inr t ↦ elim (Bool-cases (c == b'\'')) [
    | inl u ↦ rw (t, u) (hbuf_put-Writes (codes "&#x27;"))
    | inr u ↦ rw (t, u) (hbuf_put-Writes _)
  ]
]

unfoldable pub href_text : Bytes → Bytes
unfolding escaped href_plain
href_text = escaped href_plain href_rep

pub lowdown_html_esc_href-Writes : (d : Bytes) → Writes (lowdown_html_esc_href d) (href_text d)
unfolding lowdown_html_esc_href href_text
lowdown_html_esc_href-Writes [] = Writes-done
lowdown_html_esc_href-Writes (c ∷ cs) =
    esc_loop-Writes href_plain href_emit href_rep href_emit-Writes [] (c ∷ cs)

abbrev pub esc_rep : ℕ → Bool → ℕ → Bytes
esc_rep most num c =
    if leb (get_or esc_tbl c 0) most
    then c ∷ []
    else if num
    then get_or esc_num (get_or esc_tbl c 0) []
    else get_or esc_name (get_or esc_tbl c 0) []

esc_emit-Writes :
    (most : ℕ) (num : Bool) (c : ℕ) → Writes (esc_emit most num c) (esc_rep most num c)
unfolding esc_emit
esc_emit-Writes most num c = elim (Bool-cases (leb (get_or esc_tbl c 0) most)) [
  | inl t ↦ rw t (hbuf_putc-Writes c)
  | inr t ↦ rw t (hbuf_puts-Writes _)
]

unfoldable pub esc_text : Bool → Bool → Bool → Bytes → Bytes
unfolding escaped esc_plain esc_max
esc_text secure literal num = escaped esc_plain (esc_rep (esc_max secure literal) num)

pub lowdown_html_esc-Writes :
    (d : Bytes) (secure literal num : Bool)
    → Writes (lowdown_html_esc d secure literal num) (esc_text secure literal num d)
unfolding lowdown_html_esc esc_text
lowdown_html_esc-Writes [] secure literal num = Writes-done
lowdown_html_esc-Writes (c ∷ cs) secure literal num =
    esc_loop-Writes esc_plain (esc_emit (esc_max secure literal) num) _
      (esc_emit-Writes (esc_max secure literal) num) [] (c ∷ cs)
