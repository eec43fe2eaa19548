-- ===== src/Description/Examples.antt =====
-- A table with columns of two and three bytes, and one with a column of varying width.
use tinydbpp.Base.{ℕ, ◌+◌, ◌≡◌, refl, List, [], ◌∷◌, Bool, length, ok, arith}
use tinydbpp.Base.Bytes.{Bytes, memcpy}
use tinydbpp.Description.{
  Width, bytes, varying, Item, Pattern, no_pattern, add_pattern, read, embed,
}
use tinydbpp.Description.RoundTrip.{
  Conforms, fixed_length, pattern_of, IsPattern, pattern_of-IsPattern, embed-read,
}

abbrev widths : List Width
widths = bytes 2 ∷ varying ∷ []

no_pattern-IsPattern : IsPattern no_pattern
unfolding fixed_length
no_pattern-IsPattern = refl

abbrev columns : Pattern
columns = pattern_of no_pattern widths

abbrev values : Item
values = (1 ∷ 2 ∷ []) ∷ (7 ∷ 8 ∷ 9 ∷ []) ∷ []

abbrev zeros : Bytes
zeros i = 0

values-Conforms : Conforms columns.widths values
unfolding pattern_of add_pattern
values-Conforms = (refl, omega arith, (omega arith, tt))

embed-read_example :
    (rec : List ℕ) × (fixed : Bool) × (embed columns values ≡ ok (rec, fixed))
    × (read columns (memcpy zeros 10 rec) (10 + length rec) 10 fixed ≡ ok (values, 10 + length rec))
embed-read_example =
    embed-read columns values zeros 10 (pattern_of-IsPattern no_pattern widths no_pattern-IsPattern)
      values-Conforms
