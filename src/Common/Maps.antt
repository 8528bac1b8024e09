-- ===== src/Common/Maps.antt =====
-- Maps with numbers for keys, as association lists without repeated keys.
use Prim.Native.Nat.{ℕ, ◌≤◌, ◌<◌}
use mathlib.Core.Path.{◌≡◌}
use mathlib.Core.Bool.{Bool, true, false}
use mathlib.Core.Option.{Option, none, some}
use mathlib.Core.List.{List, [], ◌∷◌}
use native.Mathlib.Omega.{arith}
use round_robin.Common.Tests.{◌==◌, if◌then◌else◌}
use round_robin.Common.Lists.{length}

module _ {ℓ} {V : Type ℓ} where
  abbrev pub lookup : ℕ → List (ℕ × V) → Option V
  lookup k [] = none
  lookup k ((j, v) ∷ m) = if j == k then some v else lookup k m

  abbrev pub remove : ℕ → List (ℕ × V) → List (ℕ × V)
  remove k [] = []
  remove k ((j, v) ∷ m) = if j == k then remove k m else (j, v) ∷ remove k m

  abbrev pub insert : ℕ → V → List (ℕ × V) → List (ℕ × V)
  insert k v m = (k, v) ∷ remove k m

  pub lookup-remove :
      (k j : ℕ) (m : List (ℕ × V)) → lookup j (remove k m) ≡ (if k == j then none else lookup j m)
  lookup-remove k j [] = ground arith
  lookup-remove k j ((i, v) ∷ m) = ground (arith, lookup-remove k j m)

  pub lookup-insert :
      (k j : ℕ) (v : V) (m : List (ℕ × V))
      → lookup j (insert k v m) ≡ (if k == j then some v else lookup j m)
  lookup-insert k j v m = ground (arith, lookup-remove k j m)

  pub length-remove_le : (k : ℕ) (m : List (ℕ × V)) → length (remove k m) ≤ length m
  length-remove_le k [] = omega arith
  length-remove_le k ((i, v) ∷ m) = ground (arith, length-remove_le k m)

  pub length-remove_lt :
      (k : ℕ) (m : List (ℕ × V)) (v : V) → lookup k m ≡ some v → length (remove k m) < length m
  length-remove_lt k [] v h = cc
  length-remove_lt k ((i, w) ∷ m) v h = ground (arith, length-remove_lt k m v, length-remove_le k m)

  abbrev pub contains_key : ℕ → List (ℕ × V) → Bool
  contains_key k m = elim (lookup k m) [ none ↦ false | some v ↦ true ]
