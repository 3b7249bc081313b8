-- ===== src/Render/Images.antt =====
-- The images of src/format/html/html.c write well-formed HTML.
use lowdown.Prelude.{
  ℕ, ◌+◌, ◌-◌, ◌*◌, ◌^◌, ◌≤◌, ◌<◌, ◌≡◌, ◌≢◌, refl, sym, ap, subst, ◌∙◌, false, not, ◌&&◌, List, [],
  ◌∷◌, ◌++◌, Option, none, some, Bytes, codes, length, length-append, get_elem?, is_nil, All,
  All-map, c_string, ltb, isalnum, arith, inl, inr, Bool-cases,
}
use lowdown.Buffer.{Buf, size, hbuf_put, hbuf_puts, hbuf_printf}
use lowdown.Parse.Attrs.{Attr, Attrs, attr_custom}
use lowdown.Render.{Html, flag, html_owasp, html_num_ent, escape_attr, escape_href, escape_html}
use lowdown.Format.Html.Writes.{esc_text, lowdown_html_esc-Writes}
use lowdown.Format.Html.Sound.{length-esc_text, esc_text-no_quote}
use lowdown.Ident.{decimal}
use lowdown.Ident.Decimal.{decimal_short}
use lowdown.Ident.Count.{decimal-IsIdByte}
use lowdown.Render.Link.{
  with_attr, put_standard, numbers, put_custom, slot_value, image_attrs, attr_width, attr_height,
  put_dim, put_scanned, scan_dims, put_dims, put_image_title, rndr_image,
}
use lowdown.Render.Scan.{Scan, scan, step, scan-append, scan-value, between, pop, name_byte}
use lowdown.Render.Emits.{
  Emits, Emits->>, Emits-le, Emits-put, Emits-puts, Emits-Writes, Emits-printf, Emits-done, Renders,
}
use lowdown.Render.Pieces.{escape_attr-Emits, escape_href-Emits}
use lowdown.Render.Tags.{
  InTag, Attributes, Attributes-done, Attributes-le, Attributes-of, Attributes-Emits, Attributes->>,
  Attributes-if,
}
use lowdown.Render.Attributes.{IsNamed, NamedArray, AreNamed, known_cost, entries, quoted-InTag}
use lowdown.Render.Links.{
  found-Named, with_attr_found, put_standard-Attributes, put_custom-Attributes, attrs_cost,
}

unfoldable pub dim_cost : Option Buf → ℕ
dim_cost none = 0
dim_cost (some b) = 6 * size b + 8

module _ (k : List Bytes) where
  put_dim-Emits :
      (name : Bytes) (o : Option Buf)
      → length name ≤ 7
      → All (λ c. c ≢ b'"') name
      → Emits
          (dim_cost o)
          (Scan.value k (codes "img"))
          (Scan.value k (codes "img"))
          (put_dim name o)
  unfolding put_dim dim_cost scan step
  put_dim-Emits name none le a = Emits-done 0 (Scan.value k (codes "img"))
  put_dim-Emits name (some b) le a =
      let value = Scan.value k (codes "img") in
      let m = 6 * size b in
      Emits-le (7 + (m + 1)) (m + 8) value value _ (omega arith) (
        Emits->> 7 (m + 1) value value value (hbuf_put name) _
          (Emits-put 7 value value name le (scan-value k (codes "img") name a))
          (Emits->> m 1 value value value (escape_attr b.content) (hbuf_put (codes ";"))
            (escape_attr-Emits k b.content (codes "img"))
            (Emits-put 1 value value (codes ";") (omega arith) refl)))

  -- The width or the height, from the array.
  with_dim-Emits :
      (a : Attrs) (l : List Attr) (i : ℕ) (name : Bytes)
      → a.array ≡ some l
      → All (λ v. IsNamed v.key v.value) l
      → i < length l
      → length name ≤ 7
      → All (λ c. c ≢ b'"') name
      → Emits
          (dim_cost (slot_value (get_elem? l i)))
          (Scan.value k (codes "img"))
          (Scan.value k (codes "img"))
          (with_attr a i (λ v. put_dim name v.value))
  unfolding slot_value
  with_dim-Emits a l i name e d lt le q =
      let (v, f, _) = found-Named l i d lt in
      let value = Scan.value k (codes "img") in
      subst (Emits (dim_cost (slot_value (get_elem? l i))) value value)
        (sym (with_attr_found a l i v (λ v. put_dim name v.value) e f))
        (subst (λ o. Emits (dim_cost (slot_value o)) value value (put_dim name v.value)) (sym f)
          (put_dim-Emits name v.value le q))

  -- A number that is printed in quotes behind a text that ends with one.
  number-Emits :
      (before : Bytes) (x : ℕ) (p : Scan)
      → InTag k (codes "img") p
      → x < 10 ^ 20
      → length before ≤ 9
      → scan p before ≡ Scan.value k (codes "img")
      → Emits 31 p
          (Scan.quoted k (codes "img"))
          (hbuf_printf (some (before ++ (decimal x ++ codes "\""))))
  unfolding scan step
  number-Emits before x p i lt le e =
      let value = Scan.value k (codes "img") in
      Emits-printf 31 (omega arith) p (Scan.quoted k (codes "img"))
        (before ++ (decimal x ++ codes "\""))
        (omega (
          arith,
          le,
          decimal_short x 19 lt,
          length-append before (decimal x ++ codes "\""),
          length-append (decimal x) (codes "\""),
        ))
        (scan-append p before (decimal x ++ codes "\"")
          ∙ ap (λ q. scan q (decimal x ++ codes "\"")) e
          ∙ scan-append value (decimal x) (codes "\"")
          ∙ ap (λ q. scan q (codes "\""))
              (scan-value k (codes "img") (decimal x)
                (All-map (λ c h. ground arith) (decimal x) (decimal-IsIdByte x))))

  put_scanned-Attributes :
      (xs : List ℕ) → All (λ x. x < 2 ^ 32) xs → Attributes 62 k (codes "img") (put_scanned xs)
  unfolding put_scanned InTag scan step name_byte isalnum
  put_scanned-Attributes [] h = Attributes-done k (codes "img") 62
  put_scanned-Attributes (x ∷ []) (lt, _) = Attributes-le k (codes "img") 31 62 _ (omega arith) (
      Attributes-of k (codes "img") 31 _ (Scan.quoted k (codes "img"))
        (quoted-InTag k (codes "img"))
        (λ p i. number-Emits (codes " width=\"") x p i (omega arith) (omega arith) (rw (i.0) refl)))
  put_scanned-Attributes (x ∷ (y ∷ _)) (lt, (lu, _)) =
      Attributes->> k (codes "img") 31 31 _ _
        (Attributes-of k (codes "img") 31 _ (Scan.quoted k (codes "img"))
          (quoted-InTag k (codes "img"))
          (λ p i.
            number-Emits (codes " width=\"") x p i (omega arith) (omega arith) (rw (i.0) refl)))
        (Attributes-of k (codes "img") 31 _ (Scan.quoted k (codes "img"))
          (quoted-InTag k (codes "img"))
          (λ p i.
            number-Emits (codes " height=\"") y p i (omega arith) (omega arith) (rw (i.0) refl)))

  -- The title is escaped as a text, which leaves double quotes.
  put_image_title-Attributes :
      (title : Bytes) (st : Html)
      → All (λ c. c ≢ b'"') title
      → Attributes (6 * length title + 9) k (codes "img") (put_image_title title st)
  unfolding put_image_title escape_html InTag scan step name_byte isalnum
  put_image_title-Attributes [] st q = Attributes-done k (codes "img") 9
  put_image_title-Attributes (c ∷ cs) st q =
      let d = c ∷ cs in
      let n = codes "img" in
      let value = Scan.value k n in
      let secure = flag st.flags html_owasp in
      let num = flag st.flags html_num_ent in
      let m = 6 * length d in
      Attributes-of k n (m + 9) _ (Scan.quoted k n) (quoted-InTag k n) (λ p i.
        Emits-le (8 + (m + 1)) (m + 9) p (Scan.quoted k n) _ (omega arith) (
          Emits->> 8 (m + 1) p value (Scan.quoted k n) (hbuf_put (codes " title=\"")) _
            (Emits-put 8 p value (codes " title=\"") (omega arith) (rw (i.0) refl))
            (Emits->> m 1 value value (Scan.quoted k n) (escape_html d st) (hbuf_put (codes "\""))
              (Emits-Writes m value value (esc_text secure false num d) (escape_html d st)
                (lowdown_html_esc-Writes d secure false num) (length-esc_text d secure false num)
                (scan-value k n (esc_text secure false num d)
                  (esc_text-no_quote d secure false num q)))
              (Emits-put 1 value (Scan.quoted k n) (codes "\"") (omega arith) refl))))

-- How much is written of the dimensions.
unfoldable pub dims_cost : List Attr → ℕ
dims_cost l =
    dim_cost (slot_value (get_elem? l attr_width))
    + dim_cost (slot_value (get_elem? l attr_height))
    + 72

module _ (sscanf : Bytes → List ℕ) (reads : (d : Bytes) → All (λ x. x < 2 ^ 32) (sscanf d))
    (k : List Bytes) where
  scan_dims-Attributes :
      (dims : Bytes) → Attributes 62 k (codes "img") (put_scanned (scan_dims sscanf dims))
  unfolding scan_dims
  scan_dims-Attributes dims = elim (Bool-cases (not (is_nil dims) && ltb (length dims) 31)) [
    | inl t ↦ rw t (put_scanned-Attributes k (sscanf (c_string dims)) (reads (c_string dims)))
    | inr t ↦ rw t (put_scanned-Attributes k [] tt)
  ]

  put_dims-Attributes :
      (dims : Bytes) (a : Attrs) (o : Option (List Attr))
      → a.array ≡ o
      → NamedArray o a.attrsz
      → Attributes (dims_cost (entries o)) k (codes "img") (put_dims sscanf dims a)
  unfolding put_dims dims_cost NamedArray entries InTag scan step name_byte isalnum
  put_dims-Attributes dims a none e h =
      Attributes-if k (codes "img") (dims_cost []) (ltb 0 a.attrsz && _) _ _
        (λ t. absurd (ground arith))
        (λ t.
          Attributes-le k (codes "img") 62 (dims_cost []) _ (omega arith)
            (scan_dims-Attributes dims))
  put_dims-Attributes dims a (some l) e (len, le, d) =
      let n = codes "img" in
      let value = Scan.value k n in
      let w = dim_cost (slot_value (get_elem? l attr_width)) in
      let h = dim_cost (slot_value (get_elem? l attr_height)) in
      Attributes-if k n (dims_cost l) _ _ _
        (λ t. Attributes-of k n (dims_cost l) _ (Scan.quoted k n) (quoted-InTag k n) (λ p i.
          Emits-le (8 + (w + (h + 1))) (dims_cost l) p (Scan.quoted k n) _ (omega arith) (
            Emits->> 8 (w + (h + 1)) p value (Scan.quoted k n) (hbuf_put (codes " style=\"")) _
              (Emits-put 8 p value (codes " style=\"") (omega arith) (rw (i.0) refl))
              (Emits->> w (h + 1) value value (Scan.quoted k n)
                (with_attr a attr_width (λ v. put_dim (codes "width:") v.value)) _
                (with_dim-Emits k a l attr_width (codes "width:") e d (omega arith) (omega arith)
                  (omega arith))
                (Emits->> h 1 value value (Scan.quoted k n)
                  (with_attr a attr_height (λ v. put_dim (codes "height:") v.value)) _
                  (with_dim-Emits k a l attr_height (codes "height:") e d (omega arith)
                    (omega arith) (omega arith))
                  (Emits-put 1 value (Scan.quoted k n) (codes "\"") (omega arith) refl))))))
        (λ t. Attributes-le k n 62 (dims_cost l) _ (omega arith) (scan_dims-Attributes dims))

  -- A title without a double quote.
  pub rndr_image-Emits :
      (link title dims alt : Bytes) (a : Attrs) (st : Html)
      → AreNamed a
      → All (λ c. c ≢ b'"') title
      → Renders
          (6 * length link
            + 6 * length title
            + 6 * length alt
            + attrs_cost a image_attrs
            + dims_cost (entries a.array)
            + 64)
          k
          (rndr_image sscanf link title dims alt a st)
  unfolding rndr_image attrs_cost AreNamed scan step between pop name_byte isalnum InTag
  rndr_image-Emits link title dims alt a st named q =
      let p = Scan.text k in
      let n = codes "img" in
      let value = Scan.value k n in
      let quoted = Scan.quoted k n in
      let t = 6 * length title + 9 in
      let u = 6 * length link in
      let o = 6 * length alt in
      let x = known_cost (entries a.array) image_attrs in
      let z = dims_cost (entries a.array) in
      let y = known_cost (entries a.array) (numbers attr_custom (a.attrsz - attr_custom)) in
      Emits-le (10 + (u + (7 + (o + (1 + (x + (z + (y + (t + 3))))))))) _ p p _ (omega arith) (
        Emits->> 10 (u + (7 + (o + (1 + (x + (z + (y + (t + 3)))))))) p value p _ _
          (Emits-put 10 p value (codes "<img src=\"") (omega arith) refl)
          (Emits->> u (7 + (o + (1 + (x + (z + (y + (t + 3))))))) value value p
            (escape_href link st) _ (escape_href-Emits k link st n)
            (Emits->> 7 (o + (1 + (x + (z + (y + (t + 3)))))) value value p _ _
              (Emits-put 7 value value (codes "\" alt=\"") (omega arith) refl)
              (Emits->> o (1 + (x + (z + (y + (t + 3))))) value value p (escape_attr alt) _
                (escape_attr-Emits k alt n)
                (Emits->> 1 (x + (z + (y + (t + 3)))) value quoted p _ _
                  (Emits-put 1 value quoted (codes "\"") (omega arith) refl)
                  (Attributes-Emits k n x (z + (y + (t + 3))) (put_standard a image_attrs) _ quoted
                    p (quoted-InTag k n)
                    (put_standard-Attributes k n a named image_attrs (omega arith))
                    (λ q1 i.
                      Attributes-Emits k n z (y + (t + 3)) (put_dims sscanf dims a) _ q1 p i
                        (put_dims-Attributes dims a a.array refl named)
                        (λ q2 j.
                          Attributes-Emits k n y (t + 3) (put_custom a st) _ q2 p j
                            (put_custom-Attributes k n a st named)
                            (λ q3 j3.
                              Attributes-Emits k n t 3 (put_image_title title st)
                                (hbuf_puts (codes " />")) q3 p j3
                                (put_image_title-Attributes k title st q)
                                (λ q4 j4.
                                  Emits-puts 3 q4 p (codes " />") (omega arith)
                                    (rw (j4.0) refl)))))))))))
