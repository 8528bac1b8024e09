-- ===== src/Common/Keys.antt =====
-- Maps without repeated keys: the sum of a measure over the values, and what holds of every value.
use Prim.Native.Nat.{ℕ, ◌+◌}
use mathlib.Core.Path.{◌≡◌, refl, sym, ap, subst, ◌∙◌}
use mathlib.Core.Logic.{inl, inr}
use mathlib.Core.Option.{none, some}
use mathlib.Core.List.{List, [], ◌∷◌}
use native.Mathlib.Omega.{arith}
use round_robin.Common.Tests.{Bool-cases, some-injective, ==→eq, ◌==◌}
use round_robin.Common.Maps.{lookup, remove, insert, lookup-remove}

module _ {V : Type 0} where
  abbrev pub HasUniqueKeys : List (ℕ × V) → Type 0
  HasUniqueKeys [] = Unit
  HasUniqueKeys ((k, v) ∷ m) = (lookup k m ≡ none) × HasUniqueKeys m

  pub remove_absent : (k : ℕ) (m : List (ℕ × V)) → lookup k m ≡ none → remove k m ≡ m
  remove_absent k [] h = refl
  remove_absent k ((j, v) ∷ m) h = ground (arith, remove_absent k m)

  pub HasUniqueKeys-remove :
      (k : ℕ) (m : List (ℕ × V)) → HasUniqueKeys m → HasUniqueKeys (remove k m)
  HasUniqueKeys-remove k [] u = u
  HasUniqueKeys-remove k ((j, v) ∷ m) u =
      ground (arith, HasUniqueKeys-remove k m, lookup-remove k j m)

  pub HasUniqueKeys-insert :
      (k : ℕ) (v : V) (m : List (ℕ × V)) → HasUniqueKeys m → HasUniqueKeys (insert k v m)
  HasUniqueKeys-insert k v m u = (ground (arith, lookup-remove k k m), HasUniqueKeys-remove k m u)

  -- The sum of a measure over the values.
  abbrev pub weigh : (V → ℕ) → List (ℕ × V) → ℕ
  weigh w [] = 0
  weigh w ((k, v) ∷ m) = w v + weigh w m

  pub weigh-remove :
      (w : V → ℕ) (k : ℕ) (v : V) (m : List (ℕ × V))
      → HasUniqueKeys m
      → lookup k m ≡ some v
      → weigh w (remove k m) + w v ≡ weigh w m
  weigh-remove w k v [] u h = cc
  weigh-remove w k v ((j, d) ∷ m) u h = elim (Bool-cases (j == k)) [
    | inl e ↦
        let same : d ≡ v = some-injective (sym (rw e refl) ∙ h) in
        let gone : remove k m ≡ m =
          remove_absent k m (ap (λ t. lookup t m) (sym (==→eq j k e)) ∙ u.0) in
        rw (e, gone) (omega (arith, ap w same))
    | inr e ↦
        let more : lookup k m ≡ some v = sym (rw e refl) ∙ h in
        let ih = weigh-remove w k v m u.1 more in rw e (omega arith)
  ]

  -- What holds of every value.
  abbrev pub AllValues : (V → Type 0) → List (ℕ × V) → Type 0
  AllValues P [] = Unit
  AllValues P ((k, v) ∷ m) = P v × AllValues P m

  pub AllValues-lookup :
      (P : V → Type 0) (k : ℕ) (v : V) (m : List (ℕ × V))
      → AllValues P m
      → lookup k m ≡ some v
      → P v
  AllValues-lookup P k v [] a h = cc
  AllValues-lookup P k v ((j, d) ∷ m) a h = elim (Bool-cases (j == k)) [
    | inl e ↦ subst P (some-injective (sym (rw e refl) ∙ h)) a.0
    | inr e ↦ AllValues-lookup P k v m a.1 (sym (rw e refl) ∙ h)
  ]

  pub AllValues-remove :
      (P : V → Type 0) (k : ℕ) (m : List (ℕ × V)) → AllValues P m → AllValues P (remove k m)
  AllValues-remove P k [] a = tt
  AllValues-remove P k ((j, d) ∷ m) a = elim (Bool-cases (j == k)) [
    | inl e ↦ rw e (AllValues-remove P k m a.1)
    | inr e ↦ rw e (a.0, AllValues-remove P k m a.1)
  ]

  pub AllValues-insert :
      (P : V → Type 0) (k : ℕ) (v : V) (m : List (ℕ × V))
      → P v
      → AllValues P m
      → AllValues P (insert k v m)
  AllValues-insert P k v m p a = (p, AllValues-remove P k m a)
