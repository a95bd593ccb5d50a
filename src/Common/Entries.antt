-- ===== src/Common/Entries.antt =====
-- A JavaScript `Map` from texts: pairs in insertion order, where writing a key again keeps its place.
use Prim.Native.Nat.{◌+◌, ◌≤◌}
use Prim.Native.String.{String}
use mathlib.Core.Path.{◌≡◌, refl}
use mathlib.Core.List.{List, [], ◌∷◌, map}
use mathlib.Core.Option.{Option, none, some}
use native.Mathlib.Omega.{arith}
use text.Mathlib.Text.{◌==◌}
use text.Mathlib.TextEquality.{eq_iff}
use fetchly.Common.Tests.{if◌then◌else◌}
use fetchly.Common.Lists.{length}

abbrev pub Dict {ℓ} : Type ℓ → Type ℓ
Dict V = List (String × V)

module _ {ℓ} {V : Type ℓ} where
  unfoldable pub lookup : String → Dict V → Option V
  lookup sought [] = none
  lookup sought ((key, value) ∷ rest) = if key == sought then some value else lookup sought rest

  unfoldable pub insert : String → V → Dict V → Dict V
  insert new value [] = (new, value) ∷ []
  insert new value ((key, old) ∷ rest) =
      if key == new then (key, value) ∷ rest else (key, old) ∷ insert new value rest

  unfoldable pub delete : String → Dict V → Dict V
  delete gone [] = []
  delete gone ((key, value) ∷ rest) =
      if key == gone then delete gone rest else (key, value) ∷ delete gone rest

  abbrev pub values : Dict V → List V
  values = map (λ p. p.1)

  pub lookup-insert :
      (new sought : String) (value : V) (d : Dict V)
      → lookup sought (insert new value d) ≡ (if new == sought then some value else lookup sought d)
  unfolding lookup insert
  lookup-insert new sought value [] = refl
  lookup-insert new sought value ((key, old) ∷ rest) = ground (
    arith,
    lookup-insert new sought value rest,
    eq_iff key sought,
    eq_iff key new,
    eq_iff new sought,
  )

  pub lookup-delete :
      (gone sought : String) (d : Dict V)
      → lookup sought (delete gone d) ≡ (if gone == sought then none else lookup sought d)
  unfolding lookup delete
  lookup-delete gone sought [] = ground arith
  lookup-delete gone sought ((key, value) ∷ rest) = ground (
    arith,
    lookup-delete gone sought rest,
    eq_iff key sought,
    eq_iff key gone,
    eq_iff gone sought,
  )

  pub length-insert-le :
      (new : String) (value : V) (d : Dict V) → length (insert new value d) ≤ length d + 1
  unfolding insert
  length-insert-le new value [] = omega arith
  length-insert-le new value ((key, old) ∷ rest) = ground (arith, length-insert-le new value rest)
