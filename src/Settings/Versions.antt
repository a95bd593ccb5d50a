-- ===== src/Settings/Versions.antt =====
-- app/static/js/settings.js: versions as lists of numbers, and which of two is newer. A number of a version is
-- exact here; the language rounds one of more than fifteen digits.
use fetchly.Common.{
  ℕ, ◌+◌, ◌-◌, ◌*◌, String, Bool, false, ◌&&◌, ◌||◌, Option, none, some, List, [], ◌∷◌, ◌==◌,
  if◌then◌else◌, eqb, leb, ltb,
}
use fetchly.Common.Int.{ℤ, pos, negsuc}
use fetchly.Ecma.{Ecma, Value, text, or_truthy, string_of}
use fetchly.Ui.{append}
use Prim.Native.Char.{code}

abbrev pub is_digit : ℕ → Bool
is_digit n = leb 48 n && leb n 57

abbrev pub starts_with_digit : String → Bool
starts_with_digit String.[] = false
starts_with_digit (String.◌∷◌ c s) = is_digit (code c)

-- The numbers of `/^\d+(?:\.\d+)*/` in a text, the first of which has begun with `n`.
unfoldable pub numbers_from : ℕ → String → List ℕ
numbers_from n String.[] = n ∷ []
numbers_from n (String.◌∷◌ c s) =
    let same = numbers_from (n * 10 + (code c - 48)) s in
    let next = numbers_from 0 s in
    if is_digit (code c)
    then same
    else if eqb (code c) 46 && starts_with_digit s
    then n ∷ next
    else n ∷ []

-- `replace(/^[vn]/i, "")`
abbrev pub without_mark : String → String
without_mark String.[] = String.[]
without_mark (String.◌∷◌ c s) =
    if eqb (code c) 118 || eqb (code c) 110 || eqb (code c) 86 || eqb (code c) 78
    then s
    else String.◌∷◌ c s

-- `replace(/^v?/i, "v")`
abbrev pub with_v : String → String
with_v String.[] = "v"
with_v (String.◌∷◌ c s) =
    if eqb (code c) 118 || eqb (code c) 86 then append "v" s else append "v" (String.◌∷◌ c s)

-- The loop of `compareVersions`, where a missing number is zero.
unfoldable pub compare_parts : List ℕ → List ℕ → ℤ
compare_parts [] [] = pos 0
compare_parts [] (b ∷ ys) = let rest = compare_parts [] ys in if ltb 0 b then negsuc 0 else rest
compare_parts (a ∷ xs) [] = let rest = compare_parts xs [] in if ltb 0 a then pos 1 else rest
compare_parts (a ∷ xs) (b ∷ ys) =
    let rest = compare_parts xs ys in if ltb b a then pos 1 else if ltb a b then negsuc 0 else rest

module _ (js : Ecma) where
  abbrev pub raw_text : Value → String
  raw_text value = js.trim (string_of js (or_truthy value (text "")))

  unfoldable pub parse_version_parts : Value → Option (List ℕ)
  unfolding numbers_from
  parse_version_parts value =
      let digits = without_mark (raw_text value) in
      if starts_with_digit digits then some (numbers_from 0 digits) else none

  unfoldable pub format_version : Value → String
  format_version value = let raw = raw_text value in if raw == "" then "" else with_v raw

  abbrev pub compared : Option (List ℕ) → Option (List ℕ) → ℤ
  compared (some a) (some b) = compare_parts a b
  compared _ _ = pos 0

  unfoldable pub compare_versions : Value → Value → ℤ
  compare_versions a b = compared (parse_version_parts a) (parse_version_parts b)
