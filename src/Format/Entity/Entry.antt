-- ===== src/Format/Entity/Entry.antt =====
-- struct ent of src/format/entity.c.
use lowdown.Prelude.{ℕ, Option, Bytes}

-- A NULL is `none`. The flags are TEX_ENT_MATH, which is 1, and TEX_ENT_ASCII, which is 2.
pub record Ent : Type 0 where
  pub iso : Bytes
  pub unicode : ℕ
  pub nroff : Option Bytes
  pub tex : Option Bytes
  pub texflags : ℕ

abbrev pub ent : Bytes → ℕ → Option Bytes → Option Bytes → ℕ → Ent
ent iso unicode nroff tex texflags = record {
  iso = iso;
  unicode = unicode;
  nroff = nroff;
  tex = tex;
  texflags = texflags;
}
