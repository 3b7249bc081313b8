-- ===== src/Render/Parts.antt =====
-- What the larger functions of src/format/html/html.c write. `k` are the elements that are open,
-- and each theorem holds for all of them.
use lowdown.Prelude.{
  ℕ, ◌+◌, ◌*◌, ◌^◌, ◌≤◌, ◌<◌, ◌≡◌, ◌≢◌, arith, true, false, List, some, Bytes, length, All, codes,
  ◌++◌,
}
use lowdown.Tree.{Kind, Node, BlockquoteType, AdmonitionType}
use lowdown.Buffer.{Buf, Out, size}
use lowdown.Parse.Attrs.{Attrs}
use lowdown.Render.{Html}
use lowdown.Render.Block.{is_callout, rndr_blockquote, rndr_listitem}
use lowdown.Render.Link.{link_attrs, image_attrs, rndr_link, rndr_image}
use lowdown.Render.Meta.{rndr_meta_multi}
use lowdown.Render.State.{header_level, rndr_header}
use lowdown.Render.Levels.{IsLevel, IsNear, near-overflows, header_level-IsLevel}
use lowdown.Render.Foot.{rndr_doc_footer}
use lowdown.Render.Scan.{Scan, scan, IsWellFormed}
use lowdown.Render.Emits.{IsReady, After, Emits}
use lowdown.Render.Attributes.{AreNamed, entries}
use lowdown.Render.Links.{attrs_cost, rndr_link-Emits}
use lowdown.Render.Images.{dims_cost, rndr_image-Emits}
use lowdown.Render.Items.{rndr_listitem-Emits}
use lowdown.Render.Quotes.{rndr_blockquote-Emits}
use lowdown.Render.Names.{heading_cost, rndr_header-Heading}
use lowdown.Render.Notes.{IsNote, notes_cost, rndr_doc_footer-Emits}
use lowdown.Render.Started.{Passes, rndr_header-Passes}
use lowdown.Ident.{decimal}
use lowdown.Render.Metas.{rndr_meta_multi-attr}
use lowdown.Render.Moves.{Moves}

module _ (k : List Bytes) (st : Html) (s : Out) where
  -- Where no allocation is refused and there is room, rndr_link succeeds and appends HTML that is
  -- complete and closes what it opens, if the content is well-formed and each attribute with a
  -- value has a key of fewer than 2^30 letters, digits and dashes: no link, title or value ends its
  -- attribute.
  pub rndr_link-After :
      (b : Buf) (link title : Bytes) (a : Attrs)
      → IsWellFormed b.content
      → AreNamed a
      → IsReady (6 * length link + 6 * length title + attrs_cost a link_attrs + size b + 64) s
      → After
          (6 * length link + 6 * length title + attrs_cost a link_attrs + size b + 64)
          (Scan.text k)
          (Scan.text k)
          s
          (rndr_link b link title a st s)
  unfolding Emits
  rndr_link-After b link title a w h r = rndr_link-Emits k b link title a st w h s r

  -- Where no allocation is refused and there is room, rndr_image succeeds and appends HTML that is
  -- complete, if each attribute with a value has a key of fewer than 2^30 letters, digits and
  -- dashes, sscanf() stores numbers of 32 bits, and the title holds no double quote: unlike that of
  -- a link, it is escaped as a text.
  pub rndr_image-After :
      (sscanf : Bytes → List ℕ) (link title dims alt : Bytes) (a : Attrs)
      → ((d : Bytes) → All (λ x. x < 2 ^ 32) (sscanf d))
      → AreNamed a
      → All (λ c. c ≢ b'"') title
      → IsReady
          (6 * length link
            + 6 * length title
            + 6 * length alt
            + attrs_cost a image_attrs
            + dims_cost (entries a.array)
            + 64)
          s
      → After
          (6 * length link
            + 6 * length title
            + 6 * length alt
            + attrs_cost a image_attrs
            + dims_cost (entries a.array)
            + 64)
          (Scan.text k)
          (Scan.text k)
          s
          (rndr_image sscanf link title dims alt a st s)
  unfolding Emits
  rndr_image-After sscanf link title dims alt a reads h q r =
      rndr_image-Emits sscanf reads k link title dims alt a st h q s r

  -- Where no allocation is refused and there is room, rndr_listitem succeeds and appends HTML that
  -- is complete and closes the item and the paragraph that it opens, with a check box or without,
  -- wherever the item stands, if the content is well-formed.
  pub rndr_listitem-After :
      (b : Buf) (flags : ℕ) (above : List Kind)
      → IsWellFormed b.content
      → IsReady (size b + 88) s
      → After (size b + 88) (Scan.text k) (Scan.text k) s (rndr_listitem b flags above s)
  unfolding Emits
  rndr_listitem-After b flags above w r = rndr_listitem-Emits k b w flags above s r

  -- Where no allocation is refused and there is room, rndr_blockquote succeeds and appends HTML
  -- that is complete and closes what it opens, for each type, admonition but a callout, and choice
  -- of the flags for callouts, if the content is well-formed.
  pub rndr_blockquote-After :
      (b : Buf) (type : BlockquoteType) (admonition : AdmonitionType)
      → IsWellFormed b.content
      → is_callout admonition ≡ false
      → IsReady (size b + 160) s
      → After (size b + 160) (Scan.text k) (Scan.text k) s (rndr_blockquote st type admonition b s)
  unfolding Emits
  rndr_blockquote-After b type admonition w h r =
      rndr_blockquote-Emits k b w st type admonition h s r

  -- Where no allocation is refused, there is room and at most 2^61 identifiers have been made,
  -- rndr_header succeeds and appends HTML that is complete and closes its element, for a level
  -- below 2^62 and an offset of at most 2^62, if the content is well-formed and each attribute with
  -- a value has a key of fewer than 2^30 letters, digits and dashes. It starts a tag where the
  -- elements `k` are open, whose name is `h` with the number header_level. That is from 1 to 6: the
  -- sum of the level and the offset where that is such a number, 1 where it is smaller and 6 where
  -- it is larger. The state is as it was but for one identifier at most behind those before: none
  -- if headings get no identifiers. If those before are pairwise different, all are afterwards.
  pub rndr_header-Moves :
      (b : Buf) (n : Node) (level : ℕ) (a : Attrs)
      → IsWellFormed b.content
      → AreNamed a
      → level < 2 ^ 62
      → IsNear st.headers_offs
      → length st.headers_used ≤ 2 ^ 61
      → IsReady (size b + heading_cost n a) s
      → Moves
          (size b + heading_cost n a)
          1
          (Scan.text k)
          (Scan.text k)
          st
          s
          (rndr_header b n level a st s)
        × IsLevel level st.headers_offs (header_level level st.headers_offs)
        × Passes
            (Scan.text k)
            (Scan.name k (codes "h" ++ decimal (header_level level st.headers_offs)))
            (Scan.text k)
            s
            (rndr_header b n level a st s)
  rndr_header-Moves b n level a w h low near few r = (
    rndr_header-Heading k b n level a st s w h (near-overflows level st.headers_offs low near)
        (omega (arith, few)) r,
    header_level-IsLevel level st.headers_offs,
    rndr_header-Passes k b n level a st w h s (near-overflows level st.headers_offs low near)
        (omega (arith, few)) r,
  )

  -- Where no allocation is refused and there is room, rndr_doc_footer succeeds and appends HTML
  -- that is complete and closes what it opens, if every footnote has been copied, is well-formed,
  -- and has no `</p>` inside of a tag: the links back then stand outside of the tags, too.
  pub rndr_doc_footer-After :
      length st.foots < 2 ^ 64
      → All IsNote st.foots
      → IsReady (notes_cost st.foots + 64) s
      → After (notes_cost st.foots + 64) (Scan.text k) (Scan.text k) s (rndr_doc_footer st s)
  unfolding Emits
  rndr_doc_footer-After lt h r = rndr_doc_footer-Emits k st lt h s r

  -- Where no allocation is refused and there is room, the loop of rndr_meta_multi ends for every
  -- text, and succeeds, with the values as attributes: it appends HTML that is complete, if the
  -- tags around a value begin and end one attribute.
  pub rndr_meta_multi-After :
      (starttag endtag b n : Bytes)
      → scan (Scan.text k) starttag ≡ Scan.value k n
      → scan (Scan.value k n) endtag ≡ Scan.text k
      → IsReady (length b * (length starttag + length endtag + 7)) s
      → After
          (length b * (length starttag + length endtag + 7))
          (Scan.text k)
          (Scan.text k)
          s
          (rndr_meta_multi st (some b) false true starttag endtag s)
  unfolding Emits
  rndr_meta_multi-After starttag endtag b n e f r =
      rndr_meta_multi-attr st starttag endtag b k n e f s r
