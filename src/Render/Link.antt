-- ===== src/Render/Link.antt =====
-- The functions of src/format/html/html.c that print extended attributes: rndr_link and rndr_image,
-- and the attributes of rndr_header. A read outside the array of attributes is a fault, and so is
-- printing a NULL key.
use lowdown.Prelude.{
  ℕ, zero, suc, ◌-◌, Bool, true, false, not, ◌&&◌, ◌||◌, List, [], ◌∷◌, ◌++◌, Option, none, some,
  Bytes, codes, length, get_elem?, is_nil, c_string, leb, ltb, ◌==◌, if◌then◌else◌,
}
use lowdown.Buffer.{Buf, M, fault, ◌>>◌, done, size, hbuf_put, hbuf_putb, hbuf_puts, hbuf_printf}
use lowdown.Parse.Attrs.{Attr, Attrs, attr_custom}
use lowdown.Ident.{decimal}
use lowdown.Render.{Html, flag, html_custom_attrs, escape_html, escape_href, escape_attr}

-- The key of an attribute as `%s`, behind a space.
unfoldable pub put_key : Option Bytes → Bytes → M (Unit {0})
put_key none after = λ s. fault
put_key (some key) after = hbuf_printf (some (codes " " ++ (key ++ after)))

-- An attribute, alone or with a value.
unfoldable pub put_value : Attr → Option Buf → M (Unit {0})
unfolding put_key
put_value v none = done
put_value v (some value) =
    if size value == 0
    then put_key v.key []
    else put_key v.key (codes "=\"") >> (escape_attr value.content >> hbuf_put (codes "\""))

-- A read of the array.
unfoldable pub with_slot : Option Attr → (Attr → M (Unit {0})) → M (Unit {0})
with_slot none f = λ s. fault
with_slot (some v) f = f v

unfoldable pub with_array : Option (List Attr) → ℕ → (Attr → M (Unit {0})) → M (Unit {0})
unfolding with_slot
with_array none i f = λ s. fault
with_array (some l) i f = with_slot (get_elem? l i) f

unfoldable pub with_attr : Attrs → ℕ → (Attr → M (Unit {0})) → M (Unit {0})
unfolding with_array
with_attr a i f = with_array a.array i f

-- `for (i = 0; attrs[i] != LOWDOWN_ATTR_CUSTOM; i++)`
unfoldable pub put_known : Attrs → List ℕ → M (Unit {0})
unfolding put_value with_attr
put_known a [] = done
put_known a (i ∷ is) = with_attr a i (λ v. put_value v v.value) >> put_known a is

unfoldable pub put_standard : Attrs → List ℕ → M (Unit {0})
unfolding put_known
put_standard a is = if ltb 0 a.attrsz then put_known a is else done

-- The numbers from `i` on.
unfoldable pub numbers : ℕ → ℕ → List ℕ
numbers i zero = []
numbers i (suc n) = i ∷ numbers (suc i) n

-- `for (i = LOWDOWN_ATTR_CUSTOM; i < attrsz; i++)`
unfoldable pub put_custom : Attrs → Html → M (Unit {0})
unfolding put_known numbers
put_custom a st =
    if leb attr_custom a.attrsz && flag st.flags html_custom_attrs
    then put_known a (numbers attr_custom (a.attrsz - attr_custom))
    else done

-- A text as the value of an attribute, with what stands around it.
unfoldable pub put_title : Bytes → M (Unit {0})
put_title title =
    if is_nil title
    then done
    else hbuf_put (codes " title=\"") >> (escape_attr title >> hbuf_put (codes "\""))

abbrev pub link_attrs : List ℕ
link_attrs = 1 ∷ 0 ∷ 10 ∷ 12 ∷ 3 ∷ 14 ∷ []

unfoldable pub rndr_link : Buf → Bytes → Bytes → Attrs → Html → M (Unit {0})
unfolding put_title put_standard put_custom
rndr_link content link title a st =
    hbuf_put (codes "<a href=\"")
    >> (escape_href link st
        >> (hbuf_put (codes "\"")
            >> (put_title title
                >> (put_standard a link_attrs
                    >> (put_custom a st
                        >> (hbuf_put (codes ">")
                            >> (hbuf_putb content >> hbuf_put (codes "</a>"))))))))

abbrev pub image_attrs : List ℕ
image_attrs = 1 ∷ 0 ∷ 13 ∷ 4 ∷ 5 ∷ 2 ∷ 3 ∷ 6 ∷ 7 ∷ []

abbrev pub attr_width : ℕ
attr_width = 8

abbrev pub attr_height : ℕ
attr_height = 9

-- The value of an attribute in a style.
unfoldable pub put_dim : Bytes → Option Buf → M (Unit {0})
put_dim name none = done
put_dim name (some buf) = hbuf_put name >> (escape_attr buf.content >> hbuf_put (codes ";"))

-- Whether the value is not NULL; the reads before it say that it is in the array.
unfoldable pub slot_value : Option Attr → Option Buf
slot_value none = none
slot_value (some v) = v.value

unfoldable pub has_value : Attrs → ℕ → Bool
unfolding slot_value
has_value a i = elim (a.array) [
  | none ↦ false
  | some l ↦ elim (slot_value (get_elem? l i)) [ none ↦ false | some _ ↦ true ]
]

-- What sscanf() has stored of `%ux%u`.
unfoldable pub put_scanned : List ℕ → M (Unit {0})
put_scanned [] = done
put_scanned (x ∷ []) = hbuf_printf (some (codes " width=\"" ++ (decimal x ++ codes "\"")))
put_scanned (x ∷ (y ∷ _)) =
    hbuf_printf (some (codes " width=\"" ++ (decimal x ++ codes "\"")))
    >> hbuf_printf (some (codes " height=\"" ++ (decimal y ++ codes "\"")))

-- The escape of a text that is not an attribute.
unfoldable pub put_image_title : Bytes → Html → M (Unit {0})
put_image_title title st =
    if is_nil title
    then done
    else hbuf_put (codes " title=\"") >> (escape_html title st >> hbuf_put (codes "\""))

-- The numbers that sscanf(dimbuf, "%ux%u", &x, &y) stores are a parameter.
module _ (sscanf : Bytes → List ℕ) where
  unfoldable pub scan_dims : Bytes → List ℕ
  scan_dims dims = if not (is_nil dims) && ltb (length dims) 31 then sscanf (c_string dims) else []

  unfoldable pub put_dims : Bytes → Attrs → M (Unit {0})
  unfolding put_dim has_value put_scanned scan_dims with_attr
  put_dims dims a =
      if ltb 0 a.attrsz && (has_value a attr_width || has_value a attr_height)
      then hbuf_put (codes " style=\"")
        >> (with_attr a attr_width (λ v. put_dim (codes "width:") v.value)
            >> (with_attr a attr_height (λ v. put_dim (codes "height:") v.value)
                >> hbuf_put (codes "\"")))
      else put_scanned (scan_dims dims)

  unfoldable pub rndr_image : Bytes → Bytes → Bytes → Bytes → Attrs → Html → M (Unit {0})
  unfolding put_standard put_custom put_dims put_image_title
  rndr_image link title dims alt a st =
      hbuf_put (codes "<img src=\"")
      >> (escape_href link st
          >> (hbuf_put (codes "\" alt=\"")
              >> (escape_attr alt
                  >> (hbuf_put (codes "\"")
                      >> (put_standard a image_attrs
                          >> (put_dims dims a
                              >> (put_custom a st
                                  >> (put_image_title title st >> hbuf_puts (codes " />")))))))))
