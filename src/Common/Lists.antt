-- ===== src/Common/Lists.antt =====
-- Lists measured by native numbers, and sets of texts as lists.
use Prim.Native.Nat.{ℕ, zero, suc, ◌+◌, ◌≤◌, min}
use Prim.Native.String.{String}
use mathlib.Core.Path.{◌≡◌, refl, ap}
use mathlib.Core.Bool.{Bool, true, false, not, ◌&&◌, ◌||◌}
use mathlib.Core.List.{List, [], ◌∷◌, ◌++◌, reverse, reverse-cons}
use native.Mathlib.Omega.{arith}
use text.Mathlib.Text.{◌==◌}
use text.Mathlib.TextEquality.{eq_iff}
use fetchly.Common.Tests.{if◌then◌else◌}

module _ {ℓ} {A : Type ℓ} where
  abbrev pub length : List A → ℕ
  length [] = 0
  length (x ∷ xs) = suc (length xs)

  abbrev pub take : ℕ → List A → List A
  take zero xs = []
  take (suc n) [] = []
  take (suc n) (x ∷ xs) = x ∷ take n xs

  abbrev pub drop : ℕ → List A → List A
  drop zero xs = xs
  drop (suc n) [] = []
  drop (suc n) (x ∷ xs) = drop n xs

  abbrev pub filter : (A → Bool) → List A → List A
  filter p [] = []
  filter p (x ∷ xs) = if p x then x ∷ filter p xs else filter p xs

  pub length-append : (xs ys : List A) → length (xs ++ ys) ≡ length xs + length ys
  length-append [] ys = omega arith
  length-append (x ∷ xs) ys = omega (arith, length-append xs ys)

  pub length-reverse : (items : List A) → length (reverse items) ≡ length items
  length-reverse [] = refl
  length-reverse (first ∷ rest) = omega (
    arith,
    length-reverse rest,
    length-append (reverse rest) (first ∷ []),
    ap length (reverse-cons first rest),
  )

  pub length-take : (n : ℕ) (xs : List A) → length (take n xs) ≡ min n (length xs)
  length-take zero xs = omega arith
  length-take (suc n) [] = omega arith
  length-take (suc n) (x ∷ xs) = omega (arith, length-take n xs)

  pub take_all : (n : ℕ) (xs : List A) → length xs ≤ n → take n xs ≡ xs
  take_all zero [] h = refl
  take_all zero (x ∷ xs) h = absurd (omega arith)
  take_all (suc n) [] h = refl
  take_all (suc n) (x ∷ xs) h = ap (◌∷◌ x) (take_all n xs (omega arith))

  pub length-filter-le : (p : A → Bool) (xs : List A) → length (filter p xs) ≤ length xs
  length-filter-le p [] = omega arith
  length-filter-le p (x ∷ xs) = ground (arith, length-filter-le p xs)

  -- A prefix, filtered, is a prefix of the filtered list.
  pub filter-take :
      (p : A → Bool) (n : ℕ) (xs : List A)
      → filter p (take n xs) ≡ take (length (filter p (take n xs))) (filter p xs)
  filter-take p zero xs = refl
  filter-take p (suc n) [] = refl
  filter-take p (suc n) (x ∷ xs) = ground (arith, filter-take p n xs)

-- A `Set` of texts. Nothing here reads its order.
abbrev pub contains : String → List String → Bool
contains k [] = false
contains k (x ∷ xs) = x == k || contains k xs

abbrev pub remove : String → List String → List String
remove k [] = []
remove k (x ∷ xs) = if x == k then xs else x ∷ remove k xs

abbrev pub add : String → List String → List String
add k xs = if contains k xs then xs else xs ++ k ∷ []

-- No text occurs twice.
abbrev pub Distinct : List String → Type 0
Distinct [] = Unit {0}
Distinct (x ∷ xs) = (contains x xs ≡ false) × Distinct xs

pub contains-append :
    (k : String) (xs ys : List String) → contains k (xs ++ ys) ≡ (contains k xs || contains k ys)
contains-append k [] ys = refl
contains-append k (x ∷ xs) ys = ground (arith, contains-append k xs ys)

pub contains-add :
    (k j : String) (xs : List String) → contains j (add k xs) ≡ (contains j xs || k == j)
contains-add k j xs = ground (arith, contains-append j xs (k ∷ []), eq_iff k j)

pub contains-remove :
    (k j : String) (xs : List String)
    → Distinct xs
    → contains j (remove k xs) ≡ (contains j xs && not (k == j))
contains-remove k j [] d = refl
contains-remove k j (x ∷ xs) d =
    ground (arith, contains-remove k j xs d.1, eq_iff x k, eq_iff x j, eq_iff k j)

pub Distinct-remove : (k : String) (xs : List String) → Distinct xs → Distinct (remove k xs)
Distinct-remove k [] d = tt
Distinct-remove k (x ∷ xs) d = ground (arith, Distinct-remove k xs d.1, contains-remove k x xs d.1)

pub remove_absent : (k : String) (xs : List String) → contains k xs ≡ false → remove k xs ≡ xs
remove_absent k [] h = refl
remove_absent k (x ∷ xs) h = ground (arith, remove_absent k xs)

pub length-remove :
    (k : String) (xs : List String) → contains k xs ≡ true → suc (length (remove k xs)) ≡ length xs
length-remove k [] h = ground arith
length-remove k (x ∷ xs) h = ground (arith, length-remove k xs)
