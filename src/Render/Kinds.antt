-- ===== src/Render/Kinds.antt =====
-- Each kind of node writes well-formed HTML: the cases of rndr of src/format/html/html.c.
use lowdown.Prelude.{
  ℕ, ◌+◌, ◌*◌, ◌^◌, ◌≤◌, ◌<◌, ◌≡◌, ◌≢◌, refl, ap, ◌∙◌, true, false, not, ◌||◌, List, ◌∷◌, ◌++◌,
  Option, none, some, Bytes, codes, length, length-append, All, ltb, arith,
}
use lowdown.Tree.{Kind, Chng, Nodes, node}
use lowdown.Buffer.{Buf, Out, M, size, hbuf_put}
use lowdown.Format.Entity.{entity_find_iso}
use lowdown.Format.Entity.Lookup.{Small, entity_find_iso-Small}
use lowdown.Ident.{decimal}
use lowdown.Ident.Decimal.{decimal_short, decimal-All}
use lowdown.Render.{ℤ, Html, flag, skip_html, html_escape, html_hard_wrap, html_num_ent}
use lowdown.Render.Block.{is_callout}
use lowdown.Render.Link.{link_attrs, image_attrs}
use lowdown.Render.State.{lift}
use lowdown.Render.Walk.{numeric_entity, rndr_entity, rndr_kind}
use lowdown.Render.Change.{is_meta, is_doc_header, in_body}
use lowdown.Render.Scan.{Scan, scan, step, scan-append, scan_plain, IsWellFormed}
use lowdown.Render.Emits.{IsReady, IsReady-le, Renders, Emits-le, Emits-if, Emits-put, Emits-printf}
use lowdown.Render.Attributes.{AreNamed, entries}
use lowdown.Render.Links.{attrs_cost, rndr_link-Emits}
use lowdown.Render.Images.{dims_cost, rndr_image-Emits}
use lowdown.Render.Inline.{
  rndr_autolink-Emits, rndr_codespan-Emits, rndr_strikethrough-Emits, rndr_double_emphasis-Emits,
  rndr_emphasis-Emits, rndr_highlight-Emits, rndr_linebreak-Emits, rndr_triple_emphasis-Emits,
  rndr_raw_html-Emits, rndr_superscript-Emits, rndr_normal_text-Emits, rndr_math-Emits,
}
use lowdown.Render.Headings.{head_cost}
use lowdown.Render.Levels.{IsNear, near-overflows}
use lowdown.Render.Names.{heading_cost, rndr_header-Heading}
use lowdown.Ident.Extract.{texts_of}
use lowdown.Render.Blocks.{
  rndr_hrule-Emits, rndr_definition_data-Emits, rndr_table_row-Emits, rndr_definition-Emits,
  rndr_table-Emits, rndr_table_header-Emits, rndr_table_body-Emits, rndr_definition_title-Emits,
  rndr_paragraph-Emits,
}
use lowdown.Render.Cells.{rndr_blockcode-Emits, rndr_raw_block-Emits, rndr_tablecell-Emits}
use lowdown.Render.Items.{rndr_listitem-Emits, rndr_list-Emits}
use lowdown.Render.Quotes.{rndr_blockquote-Emits}
use lowdown.Render.Moves.{Moves, HasRoom, lift-Moves, Moves-le}

-- What a node may be, under the flags: raw HTML only where it is left out or escaped, no hard line
-- breaks, no callouts, no footnotes, and no title of an image with a
-- double quote. The root, the header of a document and metadata are not in its body.
unfoldable pub IsPlain : ℕ → Kind → Type 0
unfolding AreNamed
IsPlain flags Kind.root = ⊥
IsPlain flags (Kind.blockquote type admonition) = is_callout admonition ≡ false
IsPlain flags (Kind.header level a) = AreNamed a × (level < 2 ^ 62)
IsPlain flags (Kind.list fl start) = start < 10 ^ 20
IsPlain flags Kind.paragraph = flag flags html_hard_wrap ≡ false
IsPlain flags (Kind.blockhtml text) = (flag flags skip_html || flag flags html_escape) ≡ true
IsPlain flags (Kind.image link title dims alt a) = AreNamed a × All (λ c. c ≢ b'"') title
IsPlain flags (Kind.link link title a) = AreNamed a
IsPlain flags Kind.footnote = ⊥
IsPlain flags (Kind.raw_html text) = (flag flags skip_html || flag flags html_escape) ≡ true
IsPlain flags (Kind.entity text) = All (λ c. (c ≢ b'<') × (c ≢ b'>')) text
IsPlain flags Kind.doc_header = ⊥
IsPlain flags (Kind.meta key) = ⊥
IsPlain flags _ = Unit

-- How much is written of a node beside its content.
unfoldable pub own_cost : Kind → Nodes → ℕ
unfolding head_cost attrs_cost dims_cost entries
own_cost (Kind.blockcode text lang) children = 6 * length text + 6 * length lang
own_cost (Kind.header level a) children = head_cost a + 2 * length (texts_of children)
own_cost (Kind.blockhtml text) children = 6 * length text
own_cost (Kind.link_auto link type) children = 12 * length link
own_cost (Kind.codespan text) children = 6 * length text
own_cost (Kind.image link title dims alt a) children =
    6 * length link
    + 6 * length title
    + 6 * length alt
    + attrs_cost a image_attrs
    + dims_cost (entries a.array)
own_cost (Kind.link link title a) children =
    6 * length link + 6 * length title + attrs_cost a link_attrs
own_cost (Kind.math_block text blockmode) children = 6 * length text
own_cost (Kind.raw_html text) children = 6 * length text
own_cost (Kind.entity text) children = length text
own_cost (Kind.normal_text escaped text) children = 6 * length text
own_cost _ children = 0

pub IsPlain-is_meta : (flags : ℕ) (kind : Kind) → IsPlain flags kind → is_meta kind ≡ false
unfolding IsPlain is_meta
IsPlain-is_meta flags (Kind.meta key) h = absurd h
IsPlain-is_meta flags kind h = refl

pub IsPlain-in_body :
    (flags : ℕ) (kind : Kind) (above : List Kind)
    → IsPlain flags kind
    → in_body (kind ∷ above) ≡ true
unfolding IsPlain in_body is_doc_header
IsPlain-in_body flags Kind.doc_header above h = absurd h
IsPlain-in_body flags kind above h = refl

module _ (k : List Bytes) (text : Bytes) (h : All (λ c. (c ≢ b'<') × (c ≢ b'>')) text) where
  text-Emits : Renders (length text + 32) k (hbuf_put text)
  text-Emits =
      Emits-put (length text + 32) (Scan.text k) (Scan.text k) text (omega arith)
        (scan_plain k text h)

  numeric_entity-Emits :
      (o : Option ℕ) → Small o → Renders (length text + 32) k (numeric_entity o text)
  unfolding numeric_entity Small scan step
  numeric_entity-Emits none small = text-Emits
  numeric_entity-Emits (some ent) small =
      let p = Scan.text k in
      let d = decimal ent in
      Emits-if (length text + 32) p p (ltb 0 ent) _ (hbuf_put text)
        (λ t. Emits-le 32 (length text + 32) p p _ (omega arith) (
          Emits-printf 32 (omega arith) p p (codes "&#" ++ (d ++ codes ";"))
            (omega
              (arith, decimal_short ent 19 (omega (arith, small)), length-append d (codes ";")))
            (scan-append p d (codes ";")
              ∙ ap (λ q. scan q (codes ";"))
                  (scan_plain k d
                    (decimal-All (λ c. (c ≢ b'<') × (c ≢ b'>')) (λ x lt. ground arith) ent)))))
        (λ t. text-Emits)

  rndr_entity-Emits : (st : Html) → Renders (length text + 32) k (rndr_entity text st)
  unfolding rndr_entity
  rndr_entity-Emits st =
      Emits-if (length text + 32) (Scan.text k) (Scan.text k) (not (flag st.flags html_num_ent))
        (hbuf_put text) _ (λ t. text-Emits)
        (λ t. numeric_entity-Emits (entity_find_iso text) (entity_find_iso-Small text))

-- A writer within the bound.
by_lift :
    (n j : ℕ) (k : List Bytes) (m : M (Unit {0})) (st : Html) (s : Out)
    → n ≤ j
    → Renders n k m
    → IsReady j s
    → Moves j 1 (Scan.text k) (Scan.text k) st s (lift m st s)
by_lift n j k m st s le e r =
    lift-Moves j 1 (Scan.text k) (Scan.text k) m st s
      (Emits-le n j (Scan.text k) (Scan.text k) m le e) r

-- Numbers that sscanf() stores are those of unsigned int.
module _ (sscanf : Bytes → Bytes → List ℕ) (strtonum : Bytes → ℤ → ℤ → Option ℤ) (chng : ℕ → Chng)
    (reads : (d : Bytes) → All (λ x. x < 2 ^ 32) (sscanf (codes "%ux%u") d)) (k : List Bytes)
    (id : ℕ) (above : List Kind) (children : Nodes) (b : Buf) (st : Html) (s : Out)
    (w : IsWellFormed b.content) (more : HasRoom 1 st) (near : IsNear st.headers_offs) where
  pub rndr_kind-Moves :
      (kind : Kind)
      → IsPlain st.flags kind
      → IsReady (size b + own_cost kind children + 192) s
      → Moves
          (size b + own_cost kind children + 192)
          1
          (Scan.text k)
          (Scan.text k)
          st
          s
          (rndr_kind sscanf strtonum chng kind (node id kind children) above children b st s)
  unfolding rndr_kind IsPlain own_cost heading_cost
  rndr_kind-Moves (Kind.blockcode text lang) h r =
      by_lift _ _ k _ st s (omega arith) (rndr_blockcode-Emits k text lang st) r
  rndr_kind-Moves (Kind.blockquote type admonition) h r =
      by_lift _ _ k _ st s (omega arith) (rndr_blockquote-Emits k b w st type admonition h) r
  rndr_kind-Moves (Kind.definition flags) h r =
      by_lift _ _ k _ st s (omega arith) (rndr_definition-Emits k b w) r
  rndr_kind-Moves Kind.definition_title h r =
      by_lift _ _ k _ st s (omega arith) (rndr_definition_title-Emits k b w) r
  rndr_kind-Moves Kind.definition_data h r =
      by_lift _ _ k _ st s (omega arith) (rndr_definition_data-Emits k b w) r
  rndr_kind-Moves Kind.hrule h r = by_lift _ _ k _ st s (omega arith) (rndr_hrule-Emits k) r
  rndr_kind-Moves (Kind.list flags start) h r =
      by_lift _ _ k _ st s (omega arith) (rndr_list-Emits k b w flags start h) r
  rndr_kind-Moves (Kind.listitem flags) h r =
      by_lift _ _ k _ st s (omega arith) (rndr_listitem-Emits k b w flags above) r
  rndr_kind-Moves Kind.paragraph h r =
      by_lift _ _ k _ st s (omega arith) (rndr_paragraph-Emits k b w st h) r
  rndr_kind-Moves Kind.table_block h r =
      by_lift _ _ k _ st s (omega arith) (rndr_table-Emits k b w) r
  rndr_kind-Moves Kind.table_header h r =
      by_lift _ _ k _ st s (omega arith) (rndr_table_header-Emits k b w) r
  rndr_kind-Moves Kind.table_body h r =
      by_lift _ _ k _ st s (omega arith) (rndr_table_body-Emits k b w) r
  rndr_kind-Moves Kind.table_row h r =
      by_lift _ _ k _ st s (omega arith) (rndr_table_row-Emits k b w) r
  rndr_kind-Moves (Kind.table_cell flags) h r =
      by_lift _ _ k _ st s (omega arith) (rndr_tablecell-Emits k b w flags) r
  rndr_kind-Moves (Kind.blockhtml text) h r =
      by_lift _ _ k _ st s (omega arith) (rndr_raw_block-Emits k text st h) r
  rndr_kind-Moves (Kind.link_auto link type) h r =
      by_lift _ _ k _ st s (omega arith) (rndr_autolink-Emits k link type st) r
  rndr_kind-Moves (Kind.codespan text) h r =
      by_lift _ _ k _ st s (omega arith) (rndr_codespan-Emits k text st) r
  rndr_kind-Moves Kind.double_emphasis h r =
      by_lift _ _ k _ st s (omega arith) (rndr_double_emphasis-Emits k b w) r
  rndr_kind-Moves Kind.emphasis h r =
      by_lift _ _ k _ st s (omega arith) (rndr_emphasis-Emits k b w) r
  rndr_kind-Moves Kind.highlight h r =
      by_lift _ _ k _ st s (omega arith) (rndr_highlight-Emits k b w) r
  rndr_kind-Moves (Kind.image link title dims alt a) h r =
      by_lift _ _ k _ st s (omega arith)
        (rndr_image-Emits (sscanf (codes "%ux%u")) reads k link title dims alt a st (h.0) (h.1)) r
  rndr_kind-Moves Kind.linebreak h r = by_lift _ _ k _ st s (omega arith) (rndr_linebreak-Emits k) r
  rndr_kind-Moves (Kind.link link title a) h r =
      by_lift _ _ k _ st s (omega arith) (rndr_link-Emits k b link title a st w h) r
  rndr_kind-Moves Kind.triple_emphasis h r =
      by_lift _ _ k _ st s (omega arith) (rndr_triple_emphasis-Emits k b w) r
  rndr_kind-Moves Kind.strikethrough h r =
      by_lift _ _ k _ st s (omega arith) (rndr_strikethrough-Emits k b w) r
  rndr_kind-Moves Kind.superscript h r =
      by_lift _ _ k _ st s (omega arith) (rndr_superscript-Emits k b w true) r
  rndr_kind-Moves Kind.subscript h r =
      by_lift _ _ k _ st s (omega arith) (rndr_superscript-Emits k b w false) r
  rndr_kind-Moves (Kind.math_block text blockmode) h r =
      by_lift _ _ k _ st s (omega arith) (rndr_math-Emits k text st blockmode) r
  rndr_kind-Moves (Kind.raw_html text) h r =
      by_lift _ _ k _ st s (omega arith) (rndr_raw_html-Emits k text st h) r
  rndr_kind-Moves (Kind.entity text) h r =
      by_lift _ _ k _ st s (omega arith) (rndr_entity-Emits k text h st) r
  rndr_kind-Moves (Kind.normal_text escaped text) h r =
      by_lift _ _ k _ st s (omega arith) (rndr_normal_text-Emits k text st) r
  rndr_kind-Moves Kind.root h r = absurd h
  rndr_kind-Moves Kind.footnote h r = absurd h
  rndr_kind-Moves Kind.doc_header h r = absurd h
  rndr_kind-Moves (Kind.meta key) h r = absurd h
  rndr_kind-Moves (Kind.header level a) h r =
      let n = node id (Kind.header level a) children in
      let c = size b + (head_cost a + 2 * length (texts_of children) + 98) in
      Moves-le c _ 1 1 (Scan.text k) (Scan.text k) st s _ (omega arith) (omega arith) (
        rndr_header-Heading k b n level a st s w (h.0)
          (near-overflows level st.headers_offs (h.1) near) more (IsReady-le c _ s (omega arith) r))
