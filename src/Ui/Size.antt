-- ===== src/Ui/Size.antt =====
-- app/static/js/utils.js: sizes of files as texts.
use fetchly.Common.{ℕ, ◌*◌, String, none, some, List, [], ◌∷◌, if◌then◌else◌, leb, ltb}
use fetchly.Common.Int.{pos}
use fetchly.Ecma.{Number, finite, Value, number_of, unit}
use fetchly.Times.{empty_value}
use fetchly.Site.{Site, ecma_of}
use Prim.Native.String

pub record SizeUnit : Type 0 where
  pub name : String
  pub divisor : ℕ
  pub precision : ℕ

abbrev pub size_units : List SizeUnit
size_units =
    record { name = "TiB"; divisor = 1_099_511_627_776; precision = 1 }
    ∷ record { name = "GiB"; divisor = 1_073_741_824; precision = 1 }
    ∷ record { name = "MiB"; divisor = 1_048_576; precision = 1 }
    ∷ record { name = "KiB"; divisor = 1_024; precision = 1 }
    ∷ record { name = "B"; divisor = 1; precision = 0 }
    ∷ []

module _ (site : Site) where
  -- The loop over the units, for a size in millionths of a byte.
  unfoldable pub size_in : ℕ → List SizeUnit → String
  size_in n [] = empty_value
  size_in n (u ∷ us) =
      let smaller = size_in n us in
      if leb (u.divisor * unit) n
      then String.◌++◌ (site.format_ratio (some u.precision) n (u.divisor * unit))
          (String.◌++◌ " " u.name)
      else smaller

  abbrev pub size_of_number : Number → String
  size_of_number (finite (pos n)) =
      if ltb n unit then String.◌++◌ (site.format_ratio none 0 1) " B" else size_in n size_units
  size_of_number _ = empty_value

  unfoldable pub human_size : Value → String
  human_size bytes = size_of_number (number_of (ecma_of site) bytes)
