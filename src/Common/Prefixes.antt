-- ===== src/Common/Prefixes.antt =====
-- Lists of texts without repetition, split into a prefix and the rest.
use Prim.Native.Nat.{ℕ, zero, suc}
use Prim.Native.String.{String}
use mathlib.Core.Path.{◌≡◌, refl}
use mathlib.Core.Bool.{false, not, ◌&&◌, ◌||◌}
use text.Mathlib.Text.{◌==◌}
use mathlib.Core.List.{List, [], ◌∷◌, ◌++◌}
use native.Mathlib.Omega.{arith}
use text.Mathlib.TextEquality.{eq_iff}
use fetchly.Common.Lists.{
  take, drop, contains, add, remove, Distinct, contains-append, contains-remove, Distinct-remove,
}

pub contains-take-false :
    (n : ℕ) (k : String) (xs : List String) → contains k xs ≡ false → contains k (take n xs) ≡ false
contains-take-false zero k xs h = refl
contains-take-false (suc n) k [] h = refl
contains-take-false (suc n) k (x ∷ xs) h = ground (arith, contains-take-false n k xs)

pub Distinct-take : (n : ℕ) (xs : List String) → Distinct xs → Distinct (take n xs)
Distinct-take zero xs d = tt
Distinct-take (suc n) [] d = tt
Distinct-take (suc n) (x ∷ xs) d = (contains-take-false n x xs d.0, Distinct-take n xs d.1)

pub contains-drop-false :
    (n : ℕ) (k : String) (xs : List String) → contains k xs ≡ false → contains k (drop n xs) ≡ false
contains-drop-false zero k xs h = h
contains-drop-false (suc n) k [] h = refl
contains-drop-false (suc n) k (x ∷ xs) h = ground (arith, contains-drop-false n k xs)

-- What is not in the rest is in the prefix.
pub contains-take :
    (n : ℕ) (k : String) (xs : List String)
    → Distinct xs
    → contains k (take n xs) ≡ (contains k xs && not (contains k (drop n xs)))
contains-take zero k xs d = ground arith
contains-take (suc n) k [] d = refl
contains-take (suc n) k (x ∷ xs) d =
    ground (arith, contains-take n k xs d.1, contains-drop-false n x xs d.0, eq_iff x k)

pub Distinct-append_one :
    (k : String) (xs : List String) → Distinct xs → contains k xs ≡ false → Distinct (xs ++ k ∷ [])
Distinct-append_one k [] d h = (refl, tt)
Distinct-append_one k (x ∷ xs) d h =
    ground
      (arith, Distinct-append_one k xs d.1, contains-append x xs (k ∷ []), eq_iff x k, eq_iff k x)

pub Distinct-add : (k : String) (xs : List String) → Distinct xs → Distinct (add k xs)
Distinct-add k xs d = ground (arith, Distinct-append_one k xs d)

-- Moved to the front or put there.
pub contains-move_front :
    (k j : String) (xs : List String)
    → Distinct xs
    → contains j (k ∷ remove k xs) ≡ (contains j xs || k == j)
contains-move_front k j xs d = rw (contains-remove k j xs d) (ground arith)

pub Distinct-move_front : (k : String) (xs : List String) → Distinct xs → Distinct (k ∷ remove k xs)
Distinct-move_front k xs d =
    (rw (contains-remove k k xs d) (ground (arith, eq_iff k k)), Distinct-remove k xs d)
