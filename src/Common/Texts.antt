-- ===== src/Common/Texts.antt =====
-- Texts by their characters: prefixes, suffixes, and the parts between slashes.
use Prim.Native.Nat.{ℕ, zero, suc, ◌+◌}
use Prim.Native.Char.{code}
use Prim.Native.String.{String}
use Prim.Native.String
use mathlib.Core.Bool.{Bool, true, false, ◌&&◌, ◌||◌}
use mathlib.Core.List.{List, [], ◌∷◌}
use text.Mathlib.Text.{◌==◌}
use fetchly.Common.Tests.{if◌then◌else◌, eqb, leb}

unfoldable pub starts_with : String → String → Bool
starts_with String.[] s = true
starts_with (String.◌∷◌ c p) String.[] = false
starts_with (String.◌∷◌ c p) (String.◌∷◌ d s) = eqb (code c) (code d) && starts_with p s

-- The small letter of an ASCII capital.
abbrev pub fold_code : ℕ → ℕ
fold_code n = if leb 65 n && leb n 90 then n + 32 else n

-- A prefix of small ASCII letters and signs, whatever the case of the text.
unfoldable pub starts_with_folded : String → String → Bool
starts_with_folded String.[] s = true
starts_with_folded (String.◌∷◌ c p) String.[] = false
starts_with_folded (String.◌∷◌ c p) (String.◌∷◌ d s) =
    eqb (code c) (fold_code (code d)) && starts_with_folded p s

unfoldable pub ends_with : String → String → Bool
ends_with p String.[] = p == ""
ends_with p (String.◌∷◌ c s) = (String.◌∷◌ c s) == p || ends_with p s

-- The length in UTF-16 units.
unfoldable pub text_length : String → ℕ
text_length String.[] = 0
text_length (String.◌∷◌ c s) = (if leb 65536 (code c) then 2 else 1) + text_length s

-- Every occurrence of a pattern of some length and one more becomes `with`; the first argument counts
-- the characters of an occurrence that are still to be left out.
unfoldable pub replace_all : ℕ → String → ℕ → String → String → String
replace_all skip pattern size with String.[] = String.[]
replace_all (suc skip) pattern size with (String.◌∷◌ c s) = replace_all skip pattern size with s
replace_all zero pattern size with (String.◌∷◌ c s) =
    let found = replace_all size pattern size with s in
    let other = replace_all zero pattern size with s in
    if starts_with pattern (String.◌∷◌ c s) then String.◌++◌ with found else String.◌∷◌ c other

unfoldable pub filter_text : (ℕ → Bool) → String → String
filter_text p String.[] = String.[]
filter_text p (String.◌∷◌ c s) =
    let rest = filter_text p s in if p (code c) then String.◌∷◌ c rest else rest

unfoldable pub all_codes : (ℕ → Bool) → String → Bool
all_codes p String.[] = true
all_codes p (String.◌∷◌ c s) = p (code c) && all_codes p s

abbrev pub on_first : (String → String) → List String → List String
on_first f [] = []
on_first f (x ∷ xs) = f x ∷ xs

unfoldable pub split_at : ℕ → String → List String
split_at d String.[] = "" ∷ []
split_at d (String.◌∷◌ c s) =
    let rest = split_at d s in if eqb (code c) d then "" ∷ rest else on_first (String.◌∷◌ c) rest
