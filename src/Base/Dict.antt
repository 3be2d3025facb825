-- ===== src/Base/Dict.antt =====
-- A hash map with number keys, as an association list: what `std::collections::HashMap` does
-- on `get`, `insert`, `remove` and `contains_key`.
use Prim.Native.Nat.{ℕ, ◌≤◌, ◌<◌}
use mathlib.Core.Path.{◌≡◌, refl}
use mathlib.Core.Bool.{Bool, true, false}
use mathlib.Core.List.{List, [], ◌∷◌}
use mathlib.Core.Option.{Option, none, some}
use native.Mathlib.Omega.{arith}
use thrussh_mod.Base.Tests.{◌==◌, if◌then◌else◌}
use thrussh_mod.Base.Lists.{length}

abbrev pub Dict {ℓ} : Type ℓ → Type ℓ
Dict V = List (ℕ × V)

module _ {ℓ} {V : Type ℓ} where
  unfoldable pub lookup : ℕ → Dict V → Option V
  lookup k [] = none
  lookup k ((j, v) ∷ m) = if j == k then some v else lookup k m

  unfoldable pub insert : ℕ → V → Dict V → Dict V
  insert key value [] = (key, value) ∷ []
  insert key value (entry ∷ entries) =
      if entry.0 == key then (key, value) ∷ entries else entry ∷ insert key value entries

  unfoldable pub remove : ℕ → Dict V → Dict V
  remove k [] = []
  remove k ((j, w) ∷ m) = if j == k then remove k m else (j, w) ∷ remove k m

  abbrev pub is_some : Option V → Bool
  is_some none = false
  is_some (some v) = true

  abbrev pub contains_key : ℕ → Dict V → Bool
  contains_key k m = is_some (lookup k m)

  pub lookup-insert :
      (key other : ℕ) (value : V) (entries : Dict V)
      → lookup other (insert key value entries)
        ≡ (if key == other then some value else lookup other entries)
  unfolding insert lookup
  lookup-insert key other value [] = refl
  lookup-insert key other value ((first, w) ∷ entries) =
      ground (arith, lookup-insert key other value entries)

  pub lookup-remove :
      (k j : ℕ) (m : Dict V) → lookup j (remove k m) ≡ (if k == j then none else lookup j m)
  unfolding lookup remove
  lookup-remove k j [] = ground arith
  lookup-remove k j ((i, w) ∷ m) = ground (arith, lookup-remove k j m)

  pub length-remove-le : (k : ℕ) (m : Dict V) → length (remove k m) ≤ length m
  unfolding remove
  length-remove-le k [] = omega arith
  length-remove-le k ((j, w) ∷ m) = ground (arith, length-remove-le k m)

  -- Removing a key that is there makes the map smaller.
  pub length-remove-lt :
      (k : ℕ) (m : Dict V) → contains_key k m ≡ true → length (remove k m) < length m
  unfolding lookup remove
  length-remove-lt k [] h = cc
  length-remove-lt k ((j, w) ∷ m) h = ground (arith, length-remove-lt k m, length-remove-le k m)
