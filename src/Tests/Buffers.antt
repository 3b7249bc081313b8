-- ===== src/Tests/Buffers.antt =====
-- The functions of src/buffer.c on small buffers.
use lowdown.Prelude.{length, ◌≤◌, ◌≡◌, ◌≢◌, refl, true, false, [], Bytes, codes, All, arith}
use lowdown.Buffer.{fault, hbuf_grow, hbuf_put, hbuf_putf, File}
use lowdown.Buffer.Writes.{IsValid, Appends, Grows, hbuf_grow-Grows}
use lowdown.Buffer.Put.{hbuf_put-Writes}
use lowdown.Buffer.Print.{hbuf_putf-Appends}
use lowdown.Buffer.Copy.{hbuf_clone}
use lowdown.Buffer.Copy.Laws.{Holds, hbuf_clone-put}
use lowdown.Buffer.Name.{hbuf_dupname}
use lowdown.Buffer.Name.Sound.{IsIdByte, hbuf_dupname-IsIdByte}
use lowdown.Tests.{empty, empty-IsValid, holding}

hbuf_grow-Grows_example : Grows empty 65 (hbuf_grow 65 empty)
hbuf_grow-Grows_example = hbuf_grow-Grows 65 empty empty-IsValid (omega arith)

hbuf_put-Writes_example : Appends empty (codes "abc") (hbuf_put (codes "abc") empty)
hbuf_put-Writes_example = hbuf_put-Writes (codes "abc") empty empty-IsValid (omega arith)

abbrev stream : File
stream = record { bytes = codes "abc"; error = false }

hbuf_putf-Appends_example : Appends empty (codes "abc") (hbuf_putf stream empty)
hbuf_putf-Appends_example = hbuf_putf-Appends empty stream empty-IsValid (omega arith) refl

pub holding-IsValid : IsValid (holding (codes "abc"))
holding-IsValid = record { unit_pos = omega arith; size_le = omega arith; backed = refl }

hbuf_clone-put_example :
    hbuf_put (codes "d") (record {
      ob = record { content = codes "abc"; alloc = 3; maxsize = 64; unit = 64; buffer_free = true };
      sched = [];
    })
    ≡ fault
hbuf_clone-put_example =
    hbuf_clone-put (holding (codes "abc"))
      (record { content = codes "abc"; alloc = 3; maxsize = 64; unit = 64; buffer_free = true }) []
      [] [] (codes "d") holding-IsValid (unfold hbuf_clone in refl) (λ h. cc) (omega arith)
      (omega arith)

hbuf_dupname-IsIdByte_example :
    (g : Bytes) × Holds g [] (hbuf_dupname (holding (codes "Foo  bar?")) [])
    × All IsIdByte g
    × (g ≢ [])
    × (length g ≤ 16)
hbuf_dupname-IsIdByte_example = hbuf_dupname-IsIdByte (holding (codes "Foo  bar?")) [] (omega arith)
