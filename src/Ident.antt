-- ===== src/Ident.antt =====
-- The identifiers of sections: hbuf_extract_text and hbuf_id of src/buffer.c.
--
-- The queue of the identifiers given so far is a list of buffers. The number behind a name is
-- printed by `decimal`, which is `%zu` of printf.
pub mod Decimal
pub mod Extract
pub mod Seen
pub mod Count
pub mod Unique
use lowdown.Prelude.{
  ℕ, zero, suc, ◌+◌, ◌/◌, ◌%◌, Bool, true, false, ◌||◌, List, [], ◌∷◌, ◌++◌, Option, none, some,
  Bytes, length, ltb, if◌then◌else◌,
}
use lowdown.Tree.{Kind, Node, Nodes, node, nil, cons}
use lowdown.Buffer.{
  Buf, Sched, Out, Res, ok, failed, fault, M, ◌>>◌, done, granted, rest, hbuf_put, hbuf_putb,
  hbuf_printf, hbuf_truncate,
}
use lowdown.Buffer.Copy.{Made, made, broken, hbuf_new, run_new, hbuf_eq}
use lowdown.Buffer.Name.{hbuf_dupname}

-- The text of the node itself.
own_text : Kind → M (Unit {0})
own_text (Kind.normal_text _ text) = hbuf_put text
own_text (Kind.image _ _ _ alt _) = hbuf_put alt
own_text (Kind.link_auto link _) = hbuf_put link
own_text (Kind.codespan text) = hbuf_put text
own_text _ = done

is_footnote : Kind → Bool
is_footnote Kind.footnote = true
is_footnote _ = false

mutual
  unfolding own_text is_footnote

  pub hbuf_extract_text : Node → M (Unit {0})
  hbuf_extract_text (node id kind children) =
      let below = extract_children children in
      if is_footnote kind then done else (own_text kind >> below)

  pub extract_children : Nodes → M (Unit {0})
  extract_children nil = done
  extract_children (cons n ns) = hbuf_extract_text n >> extract_children ns

-- The digits of a number with fuel, before those in `acc`.
unfoldable pub digits_loop : ℕ → ℕ → Bytes → Bytes
digits_loop zero n acc = acc
digits_loop (suc fuel) n acc =
    let more = digits_loop fuel (n / 10) ((b'0' + n % 10) ∷ acc) in
    if ltb n 10 then (b'0' + n % 10) ∷ acc else more

unfoldable pub decimal : ℕ → Bytes
unfolding digits_loop
decimal n = digits_loop (n + 1) n []

-- Whether an entry of the queue has the text of the buffer.
pub seen : List Buf → Buf → Bool
seen [] buf = false
seen (entry ∷ q) buf = hbuf_eq entry buf || seen q buf

-- What hbuf_id leaves: the identifier or NULL, the queue and the schedule; or a fault.
pub data Ident : Type 0 where
  ident : Option Buf → List Buf → Sched → Ident
  undefined : Ident

-- calloc of an entry, and its place at the end of the queue.
pub insert_tail : List Buf → Buf → Sched → Ident
insert_tail q buf m =
    if granted m then ident (some buf) (q ++ buf ∷ []) (rest m) else ident none q (rest m)

-- The base, a dash and the number, in `nbuf`.
numbered : Buf → ℕ → M (Unit {0})
numbered buf count =
    (λ s. ok tt (record s { ob = hbuf_truncate s.ob }))
    >> (hbuf_putb buf >> hbuf_printf (some (b'-' ∷ decimal count)))

-- `for (count = 1;; count++)`
pub count_loop : ℕ → ℕ → Buf → List Buf → Out → Ident
unfolding numbered
count_loop zero count buf q s = undefined
count_loop (suc fuel) count buf q s = elim (numbered buf count s) [
  | fault ↦ undefined
  | failed t ↦ ident none q t.sched
  | ok _ t ↦ elim (seen q t.ob) [
    | true ↦ count_loop fuel (count + 1) buf q t
    | false ↦ insert_tail q t.ob t.sched
  ]
]

-- A loop over one number more than the queue has entries.
pub with_count : Buf → List Buf → Made → Ident
unfolding count_loop
with_count buf q (made (some nbuf) m) =
    count_loop (length q + 1) 1 buf q (record { ob = nbuf; sched = m })
with_count buf q (made none m) = ident none q m
with_count buf q broken = undefined

pub id_of : List Buf → Made → Ident
unfolding with_count insert_tail seen
id_of q (made (some buf) m) =
    if seen q buf then with_count buf q (hbuf_new 32 m) else insert_tail q buf m
id_of q (made none m) = ident none q m
id_of q broken = undefined

-- The name of the text that a buffer holds.
dup_text : Made → Made
dup_text (made (some nbuf) m) = hbuf_dupname nbuf m
dup_text (made none m) = made none m
dup_text broken = broken

-- The name of a header, given or from the children of its node.
pub id_name : Option Buf → Nodes → Sched → Made
unfolding dup_text extract_children
id_name (some header) children m = hbuf_dupname header m
id_name none children m = dup_text (run_new (extract_children children) (hbuf_new 32 m))

pub hbuf_id : Option Buf → Node → List Buf → Sched → Ident
unfolding id_name id_of
hbuf_id header (node id kind children) q m = id_of q (id_name header children m)
