-- ===== src/Render/Quotes.antt =====
-- The functions of src/format/html/html.c for quotations write well-formed HTML.
use lowdown.Prelude.{
  ◌+◌, ◌≡◌, refl, Bool, true, false, List, [], ◌∷◌, ◌++◌, some, Bytes, codes, if◌then◌else◌,
  isalnum, arith,
}
use lowdown.Tree.{BlockquoteType, AdmonitionType}
use lowdown.Buffer.{Buf, done, size, hbuf_printf}
use lowdown.Render.{Html, flag, html_callout_gfm, html_callout_mdn}
use lowdown.Render.Block.{
  is_callout, mdn_class, gfm_class, put_quoted, callout_classes, rndr_blockquote,
}
use lowdown.Render.Blocks.{line-Emits}
use lowdown.Render.Scan.{Scan, scan, step, between, pop, name_byte, IsWellFormed}
use lowdown.Render.Emits.{
  Emits, Renders, Emits->>, Emits-le, Emits-done, Emits-put, Emits-printf, Emits-putb, Emits-if,
}
use lowdown.Render.Pieces.{Emits-around}

-- The names of the classes do not end the attribute.
module _ (k : List Bytes) where
  value : Scan
  value = Scan.value k (codes "div")

  mdn_class-Emits : (a : AdmonitionType) → Emits 32 value value (hbuf_printf (some (mdn_class a)))
  unfolding mdn_class value scan step
  mdn_class-Emits AdmonitionType.none =
      Emits-printf 32 (omega arith) value value _ (omega arith) refl
  mdn_class-Emits AdmonitionType.note =
      Emits-printf 32 (omega arith) value value _ (omega arith) refl
  mdn_class-Emits AdmonitionType.callout =
      Emits-printf 32 (omega arith) value value _ (omega arith) refl
  mdn_class-Emits AdmonitionType.warning =
      Emits-printf 32 (omega arith) value value _ (omega arith) refl

  gfm_class-Emits :
      (a : AdmonitionType)
      → Emits 32 value value (hbuf_printf (some (codes "markdown-alert-" ++ gfm_class a)))
  unfolding gfm_class value scan step
  gfm_class-Emits AdmonitionType.none =
      Emits-printf 32 (omega arith) value value _ (omega arith) refl
  gfm_class-Emits AdmonitionType.note =
      Emits-printf 32 (omega arith) value value _ (omega arith) refl
  gfm_class-Emits AdmonitionType.callout =
      Emits-printf 32 (omega arith) value value _ (omega arith) refl
  gfm_class-Emits AdmonitionType.warning =
      Emits-printf 32 (omega arith) value value _ (omega arith) refl

  alert-Emits :
      (c : Bool)
      → Emits 32 value value
          (hbuf_printf (some ((if c then codes " " else []) ++ codes "markdown-alert ")))
  unfolding value scan step
  alert-Emits true = Emits-printf 32 (omega arith) value value _ (omega arith) refl
  alert-Emits false = Emits-printf 32 (omega arith) value value _ (omega arith) refl

  callout_classes-Emits :
      (st : Html) (a : AdmonitionType) → Emits 96 value value (callout_classes st a)
  unfolding callout_classes
  callout_classes-Emits st a =
      Emits->> 32 64 value value value _ _
        (Emits-if 32 value value (flag st.flags html_callout_mdn) _ done (λ t. mdn_class-Emits a)
          (λ t. Emits-done 32 value))
        (Emits-if 64 value value (flag st.flags html_callout_gfm) _ done
          (λ t.
            Emits->> 32 32 value value value _ _ (alert-Emits (flag st.flags html_callout_mdn))
              (gfm_class-Emits a))
          (λ t. Emits-done 64 value))

-- A quotation or a note; not a callout, whose marker is cut off by its length.
module _ (k : List Bytes) (b : Buf) (w : IsWellFormed b.content) where
  put_quoted-Emits :
      (a : AdmonitionType)
      → is_callout a ≡ false
      → (j : List Bytes) → Renders (size b) j (put_quoted a b)
  unfolding put_quoted
  put_quoted-Emits a h j = rw h (Emits-putb j b w)

  pub rndr_blockquote-Emits :
      (st : Html) (type : BlockquoteType) (admonition : AdmonitionType)
      → is_callout admonition ≡ false
      → Renders (size b + 160) k (rndr_blockquote st type admonition b)
  unfolding rndr_blockquote value scan step between pop name_byte isalnum
  rndr_blockquote-Emits st type admonition h =
      let inner = Scan.text (codes "div" ∷ k) in
      let n = size b in
      Emits-le (1 + (n + 120)) (n + 160) (Scan.text k) (Scan.text k) _ (omega arith) (
        line-Emits (n + 120) k _ (
          Emits-if (n + 120) (Scan.text k) (Scan.text k) _ _ _
            (λ t. Emits-le (n + 64) (n + 120) (Scan.text k) (Scan.text k) _ (omega arith) (
              Emits-around k (codes "blockquote" ∷ []) (codes "<blockquote>\n")
                (codes "</blockquote>\n") b w refl refl (omega arith)))
            (λ t.
              Emits-le (12 + (96 + (3 + (n + 7)))) (n + 120) (Scan.text k) (Scan.text k) _
                (omega arith)
                (Emits->> 12 (96 + (3 + (n + 7))) (Scan.text k) (value k) (Scan.text k) _ _
                  (Emits-put 12 (Scan.text k) (value k) (codes "<div class=\"") (omega arith) refl)
                  (Emits->> 96 (3 + (n + 7)) (value k) (value k) (Scan.text k) _ _
                    (callout_classes-Emits k st admonition)
                    (Emits->> 3 (n + 7) (value k) inner (Scan.text k) _ _
                      (Emits-put 3 (value k) inner (codes "\">\n") (omega arith) refl)
                      (Emits->> n 7 inner inner (Scan.text k) (put_quoted admonition b) _
                        (put_quoted-Emits admonition h (codes "div" ∷ k))
                        (Emits-put 7 inner (Scan.text k) (codes "</div>\n") (omega arith)
                          refl))))))))
