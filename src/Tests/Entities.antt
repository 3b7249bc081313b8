-- ===== src/Tests/Entities.antt =====
-- Entities by number and by name.
use lowdown.Prelude.{◌≡◌, refl, [], ◌∷◌, ◌++◌, some, codes, arith}
use lowdown.Ident.{decimal}
use lowdown.Format.Entity.{entity_find_iso, entity_find_nroff, entity_find_tex}
use lowdown.Format.Entity.Lookup.{Agrees, entity_find_nroff-iso}
use lowdown.Format.Entity.Names.{reference, find-ents}
use lowdown.Format.Entity.Numbers.{entity_find_iso-decimal}
use lowdown.Format.Entity.Entry.{ent}

entity_find_nroff-iso_example :
    Agrees
      (entity_find_nroff (codes "&#38;"))
      (entity_find_tex (codes "&#38;"))
      (entity_find_iso (codes "&#38;"))
entity_find_nroff-iso_example = entity_find_nroff-iso (codes "&#38;")

find-ents_example :
    (entity_find_iso (reference (codes "Aacute")) ≡ some 193)
    × (entity_find_nroff (reference (codes "Aacute")) ≡ (some (codes "'A"), some 193))
    × (entity_find_tex (reference (codes "Aacute")) ≡ (some (codes "'{A}"), some 0))
find-ents_example =
    find-ents 1 (ent (codes "Aacute") 193 (some (codes "'A")) (some (codes "'{A}")) 0) refl

entity_find_iso-decimal_example :
    entity_find_iso (b'&' ∷ b'#' ∷ (decimal 8212 ++ (b';' ∷ []))) ≡ some 8212
entity_find_iso-decimal_example = entity_find_iso-decimal 8212 (omega arith)
