-- ===== src/Render/State.antt =====
-- The outcome of a function of src/format/html/html.c that changes the state: its truth value, the
-- state and the output; and rndr_header.
use lowdown.Prelude.{
  ℕ, suc, ◌+◌, ◌-◌, Bool, true, false, List, ◌++◌, Option, none, some, Bytes, codes, get_elem?, ltb,
  leb, ◌^◌, if◌then◌else◌,
}
use lowdown.Tree.{Node}
use lowdown.Buffer.{
  Buf, Sched, Out, ok, failed, fault, M, ◌>>◌, done, hbuf_put, hbuf_putb, hbuf_printf,
}
use lowdown.Parse.Attrs.{Attr, Attrs, attr_id, attr_class}
use lowdown.Ident.{decimal, Ident, ident, undefined, hbuf_id}
use lowdown.Render.{ℤ, pos, negsuc, Html, flag, html_head_ids, escape_attr, newline}
use lowdown.Render.Link.{with_attr, put_custom}

pub data Rendered : Type 0 where
  rendered : Bool → Html → Out → Rendered
  lost : Rendered

-- A writer that leaves the state as it is.
unfoldable pub lift : M (Unit {0}) → Html → Out → Rendered
lift m st s = elim (m s) [
  | ok _ t ↦ rendered true st t
  | failed t ↦ rendered false st t
  | fault ↦ lost
]

-- What follows a success.
unfoldable pub on_success : Rendered → (Html → Out → Rendered) → Rendered
on_success (rendered true st t) k = k st t
on_success (rendered false st t) k = rendered false st t
on_success lost k = lost

-- The level with the offset, from 1 to 6. A sum below 0 is below 1.
unfoldable pub clamp : ℕ → ℕ
clamp n = if ltb n 1 then 1 else if ltb 6 n then 6 else n

unfoldable pub header_level : ℕ → ℤ → ℕ
unfolding clamp
header_level level (pos o) = clamp (level + o)
header_level level (negsuc o) = clamp (level - suc o)

-- Whether the level or the sum is above the range of ssize_t, which is undefined.
unfoldable pub overflows : ℕ → ℤ → Bool
overflows level (pos o) = leb (2 ^ 63) (level + o)
overflows level (negsuc o) = leb (2 ^ 63) level

-- A value of the array as an attribute, where it is not NULL.
unfoldable pub put_named : Bytes → Option Buf → M (Unit {0})
put_named before none = done
put_named before (some buf) = hbuf_put before >> (escape_attr buf.content >> hbuf_put (codes "\""))

-- The identifier that hbuf_id has made.
unfoldable pub put_ident : Html → Buf → Sched → Ident → Rendered
put_ident st ob m (ident (some buf) q t) =
    lift (hbuf_putb buf >> hbuf_put (codes "\"")) (record st { headers_used = q })
      (record { ob = ob; sched = t })
put_ident st ob m (ident none q t) =
    rendered false (record st { headers_used = q }) (record { ob = ob; sched = t })
put_ident st ob m undefined = lost

unfoldable pub new_ident : Node → Html → Out → Rendered
unfolding put_ident lift on_success
new_ident n st s =
    on_success (lift (hbuf_put (codes " id=\"")) st s)
      (λ st t. put_ident st t.ob t.sched (hbuf_id none n st.headers_used t.sched))

-- The identifier from the attributes, or a new one.
unfoldable pub id_or_new : Node → Option Buf → Html → Out → Rendered
unfolding new_ident put_named lift
id_or_new n (some buf) st s = lift (put_named (codes " id=\"") (some buf)) st s
id_or_new n none st s = if flag st.flags html_head_ids then new_ident n st s else lift done st s

-- A value in the array; a read outside of it has none.
unfoldable pub found_value : Option Attr → Option (Option Buf)
found_value none = none
found_value (some v) = some v.value

unfoldable pub array_value : Option (List Attr) → ℕ → Option (Option Buf)
unfolding found_value
array_value none i = none
array_value (some l) i = found_value (get_elem? l i)

unfoldable pub id_slot : Node → Option (Option Buf) → Html → Out → Rendered
unfolding id_or_new
id_slot n none st s = lost
id_slot n (some v) st s = id_or_new n v st s

unfoldable pub put_id : Node → Attrs → Html → Out → Rendered
unfolding id_slot array_value
put_id n a st s =
    if ltb 0 a.attrsz then id_slot n (array_value a.array attr_id) st s else id_or_new n none st s

unfoldable pub put_class : Attrs → M (Unit {0})
unfolding put_named
put_class a =
    if ltb 0 a.attrsz
    then with_attr a attr_class (λ v. put_named (codes " class=\"") v.value)
    else done

-- The start tag up to its name, and what follows the identifier.
unfoldable pub head_start : Bytes → M (Unit {0})
head_start digit = newline >> hbuf_printf (some (codes "<h" ++ digit))

unfoldable pub head_end : Buf → Bytes → Attrs → Html → M (Unit {0})
unfolding put_class
head_end content digit a st =
    put_class a
    >> (put_custom a st
        >> (hbuf_put (codes ">")
            >> (hbuf_putb content >> hbuf_printf (some (codes "</h" ++ (digit ++ codes ">\n"))))))

unfoldable pub rndr_header : Buf → Node → ℕ → Attrs → Html → Out → Rendered
unfolding on_success lift header_level overflows put_id head_start head_end
rndr_header content n level a st s =
    let digit = decimal (header_level level st.headers_offs) in
    if overflows level st.headers_offs
    then lost
    else on_success (lift (head_start digit) st s)
        (λ st t. on_success (put_id n a st t) (λ st t. lift (head_end content digit a st) st t))
