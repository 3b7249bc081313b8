-- ===== src/Tests/Renders.antt =====
-- Small runs of the HTML renderer.
use lowdown.Prelude.{
  ℕ, ◌+◌, ◌≤◌, ◌++◌, length, ◌^◌, ◌≡◌, ◌<◌, refl, true, false, List, [], ◌∷◌, Option, none, some,
  Bytes, codes, arith, isalnum, subst, take, drop, get_or, length-append, ap,
}
use lowdown.Tree.{Kind, Chng, Node, Nodes, node, nil, cons, BlockquoteType, AdmonitionType}
use lowdown.Buffer.{Buf, Out, granted}
use lowdown.Parse.Attrs.{Attrs}
use lowdown.Ident.Extract.{texts_of, label}
use lowdown.Render.{ℤ, pos, Html, flag, html_head_ids}
use lowdown.Render.Block.{is_callout, rndr_blockquote, rndr_listitem}
use lowdown.Render.Link.{slot_value, rndr_link, rndr_image}
use lowdown.Render.Meta.{rndr_meta_multi}
use lowdown.Render.State.{rendered, header_level, rndr_header}
use lowdown.Render.Levels.{IsLevel, IsNear}
use lowdown.Render.Foot.{rndr_doc_footer}
use lowdown.Render.Walk.{rndr, lowdown_html_rndr}
use lowdown.Render.Change.{in_body, is_doc_header}
use lowdown.Render.Scan.{Scan, scan, step, between, pop, name_byte, IsWellFormed}
use lowdown.Render.Emits.{IsReady, After}
use lowdown.Render.Attributes.{AreNamed, NamedArray, known_cost}
use lowdown.Render.Links.{attrs_cost}
use lowdown.Render.Moves.{Moves}
use lowdown.Render.Started.{Passes}
use lowdown.Ident.{decimal}
use lowdown.Render.Headings.{head_cost, own_id, end_cost}
use lowdown.Render.Names.{heading_cost}
use lowdown.Render.Notes.{IsNote, EndsInText, notes_cost}
use lowdown.Render.Images.{dim_cost, dims_cost}
use lowdown.Render.Kinds.{IsPlain, own_cost}
use lowdown.Render.Nodes.{PlainNode, IsDocument, node_cost, nodes_cost, node_ids}
use lowdown.Render.Document.{WritesHtml, rndr-WritesHtml, lowdown_html_rndr-WellFormed}
use lowdown.Render.Returns.{Returns, rndr-Returns}
use lowdown.Render.Parts.{
  rndr_link-After, rndr_image-After, rndr_listitem-After, rndr_blockquote-After, rndr_header-Moves,
  rndr_doc_footer-After, rndr_meta_multi-After,
}
use lowdown.Tests.{empty, empty-IsValid, holding}

-- No sscanf() stores anything, strtonum() reads nothing, and nothing is changed.
abbrev no_scan : Bytes → Bytes → List ℕ
no_scan format d = []

abbrev no_number : Bytes → ℤ → ℤ → Option ℤ
no_number d low high = none

abbrev no_change : ℕ → Chng
no_change id = Chng.none

abbrev no_attrs : Attrs
no_attrs = record { array = none; attrsz = 0 }

no_attrs-AreNamed : AreNamed no_attrs
unfolding AreNamed NamedArray
no_attrs-AreNamed = refl

abbrev state : Html
state = record { headers_used = []; headers_offs = pos 1; flags = 0; foots = []; metaq = [] }

-- A paragraph with a text and an emphasis.
abbrev paragraph : Node
paragraph = node 1 Kind.paragraph (
    cons (node 2 (Kind.normal_text false (codes "a<b ")) nil) (
      cons (node 3 Kind.emphasis (cons (node 4 (Kind.normal_text false (codes "c")) nil) nil)) nil))

paragraph-Plain : PlainNode 0 paragraph
unfolding PlainNode IsPlain flag
paragraph-Plain = (refl, ((tt, tt), ((tt, ((tt, tt), tt)), tt)))

empty-IsReady : (n : ℕ) → n < 2 ^ 20 → IsReady n empty
empty-IsReady n lt = record { valid = empty-IsValid; grants = tt; room = omega (arith, lt) }

-- With the header of the document.
abbrev whole : Nodes
whole = cons (node 9 Kind.doc_header nil) (cons paragraph nil)

whole-IsDocument : IsDocument 0 whole
unfolding IsDocument
whole-IsDocument = (paragraph-Plain, tt)

abbrev document : Node
document = node 0 Kind.root whole

lowdown_html_rndr-WellFormed_example :
    (t : Out) × (g : Bytes) × (st' : Html) × (lowdown_html_rndr no_scan no_number no_change document
        state empty
      ≡ rendered true st' t)
    × (t.ob.content ≡ empty.ob.content ++ g)
    × IsWellFormed g
    × (length g ≤ nodes_cost whole + 75)
    × (st'.flags ≡ state.flags)
    × (st'.foots ≡ [])
unfolding node_cost own_cost flag
lowdown_html_rndr-WellFormed_example =
    lowdown_html_rndr-WellFormed no_scan no_number no_change (λ d. tt) 0 whole state empty refl refl
      refl whole-IsDocument (empty-IsReady (nodes_cost whole + 75) (omega arith))

-- The identifier of the heading is made of its texts.
abbrev naming : Html
naming = record state { flags = html_head_ids }

abbrev heading : Node
heading =
    node 5 (Kind.header 1 no_attrs) (cons (node 6 (Kind.normal_text false (codes "T")) nil) nil)

heading-Plain : PlainNode html_head_ids heading
unfolding PlainNode IsPlain flag
heading-Plain = ((no_attrs-AreNamed, omega arith), ((tt, tt), tt))

naming-IsNear : IsNear naming.headers_offs
unfolding IsNear
naming-IsNear = omega arith

rndr-WritesHtml_example :
    WritesHtml
      (node_cost heading)
      (node_ids heading)
      naming
      empty
      (rndr no_scan no_number no_change (Kind.root ∷ []) heading naming empty)
unfolding node_cost own_cost in_body is_doc_header head_cost own_id end_cost texts_of label
rndr-WritesHtml_example =
    rndr-WritesHtml no_scan no_number no_change (λ d. tt) (Kind.root ∷ []) heading naming empty refl
      naming-IsNear heading-Plain (omega arith) (empty-IsReady (node_cost heading) (omega arith))

rndr-Returns_example :
    Returns
      (granted (false ∷ []))
      (rndr no_scan no_number no_change [] paragraph state (record empty { sched = false ∷ [] }))
rndr-Returns_example =
    rndr-Returns no_scan no_number no_change [] paragraph state
      (record empty { sched = false ∷ [] })

abbrev bold : Buf
bold = holding (codes "<em>x</em>")

bold-WellFormed : IsWellFormed bold.content
unfolding IsWellFormed scan step between pop name_byte isalnum
bold-WellFormed k = refl

rndr_link-After_example :
    After 116
      (Scan.text [])
      (Scan.text [])
      empty
      (rndr_link bold (codes "/a\"b") (codes "t\"u") no_attrs state empty)
unfolding attrs_cost known_cost
rndr_link-After_example =
    rndr_link-After [] state empty bold (codes "/a\"b") (codes "t\"u") no_attrs bold-WellFormed
      no_attrs-AreNamed (empty-IsReady _ (omega arith))

rndr_image-After_example : After 160 (Scan.text []) (Scan.text []) empty (
    rndr_image (no_scan []) (codes "/a") (codes "t") (codes "3x4") (codes "b") no_attrs state empty)
unfolding attrs_cost known_cost dims_cost dim_cost slot_value
rndr_image-After_example =
    rndr_image-After [] state empty (no_scan []) (codes "/a") (codes "t") (codes "3x4") (codes "b")
      no_attrs (λ d. tt) no_attrs-AreNamed (omega arith) (empty-IsReady _ (omega arith))

rndr_listitem-After_example :
    After 98 (Scan.text []) (Scan.text []) empty (rndr_listitem bold 16 (Kind.list 2 1 ∷ []) empty)
rndr_listitem-After_example =
    rndr_listitem-After [] state empty bold 16 (Kind.list 2 1 ∷ []) bold-WellFormed
      (empty-IsReady _ (omega arith))

rndr_blockquote-After_example :
    After 170
      (Scan.text [])
      (Scan.text [])
      empty
      (rndr_blockquote state BlockquoteType.admonition AdmonitionType.note bold empty)
unfolding is_callout
rndr_blockquote-After_example =
    rndr_blockquote-After [] state empty bold BlockquoteType.admonition AdmonitionType.note
      bold-WellFormed refl (empty-IsReady _ (omega arith))

rndr_header-Moves_example :
    Moves 118 1
      (Scan.text [])
      (Scan.text [])
      naming
      empty
      (rndr_header bold paragraph 2 no_attrs naming empty)
    × IsLevel 2 (pos 1) (header_level 2 (pos 1))
    × Passes
        (Scan.text [])
        (Scan.name [] (codes "h" ++ decimal (header_level 2 (pos 1))))
        (Scan.text [])
        empty
        (rndr_header bold paragraph 2 no_attrs naming empty)
unfolding heading_cost head_cost own_id end_cost texts_of label
rndr_header-Moves_example =
    rndr_header-Moves [] naming empty bold paragraph 2 no_attrs bold-WellFormed no_attrs-AreNamed
      (omega arith) naming-IsNear (omega arith) (empty-IsReady _ (omega arith))

abbrev noted : Html
noted = record state { foots = some (holding (codes "<p>x</p>")) ∷ [] }

copied-EndsInText : EndsInText (codes "<p>x</p>")
unfolding EndsInText scan step between pop name_byte isalnum
copied-EndsInText [] post e k = absurd (omega (arith, ap (λ d. get_or d 1 0) e))
copied-EndsInText (a ∷ []) post e k = absurd (omega (arith, ap (λ d. get_or d 2 0) e))
copied-EndsInText (a ∷ (b ∷ [])) post e k = absurd (omega (arith, ap (λ d. get_or d 3 0) e))
copied-EndsInText (a ∷ (b ∷ (c ∷ []))) post e k = absurd (omega (arith, ap (λ d. get_or d 4 0) e))
copied-EndsInText (a ∷ (b ∷ (c ∷ (f ∷ [])))) post e k =
    subst (λ d. (j : List Bytes) × (scan (Scan.text k) d ≡ Scan.text j)) (ap (take 4) e)
      (codes "p" ∷ k, refl)
copied-EndsInText (a ∷ (b ∷ (c ∷ (f ∷ (g ∷ []))))) post e k =
    absurd (omega (arith, ap (λ d. get_or d 6 0) e))
copied-EndsInText (a ∷ (b ∷ (c ∷ (f ∷ (g ∷ (h ∷ [])))))) post e k =
    absurd (omega (arith, ap (λ d. get_or d 7 0) e))
copied-EndsInText (a ∷ (b ∷ (c ∷ (f ∷ (g ∷ (h ∷ (i ∷ []))))))) post e k =
    absurd (omega (arith, ap (λ d. get_or d 8 0) e))
copied-EndsInText (a ∷ (b ∷ (c ∷ (f ∷ (g ∷ (h ∷ (i ∷ (p ∷ l)))))))) post e k =
    absurd (omega (arith, ap (λ d. length (drop 8 d)) e, length-append l (codes "</p>" ++ post)))

copied-IsNote : IsNote (some (holding (codes "<p>x</p>")))
unfolding IsNote IsWellFormed scan step between pop name_byte isalnum
copied-IsNote = ((λ k. refl), copied-EndsInText)

rndr_doc_footer-After_example :
    After 232 (Scan.text []) (Scan.text []) empty (rndr_doc_footer noted empty)
unfolding notes_cost
rndr_doc_footer-After_example =
    rndr_doc_footer-After [] noted empty (omega arith) (copied-IsNote, tt)
      (empty-IsReady _ (omega arith))

rndr_meta_multi-After_example : After 160 (Scan.text []) (Scan.text []) empty (
    rndr_meta_multi state
      (some (codes "a  b"))
      false
      true
      (codes "<meta name=\"author\" content=\"")
      (codes "\" />")
      empty)
unfolding scan step between pop name_byte isalnum
rndr_meta_multi-After_example =
    rndr_meta_multi-After [] state empty (codes "<meta name=\"author\" content=\"") (codes "\" />")
      (codes "a  b") (codes "meta") refl refl (empty-IsReady _ (omega arith))
