-- ===== src/Config/Ports/Distinct.antt =====
-- The ports of a list, each once, as `retain` keeps them.
use round_robin.Common.{
  ◌&&◌, not, ℕ, ◌≤◌, ◌≡◌, refl, inl, inr, false, List, [], ◌∷◌, length, contains, ◌==◌, Bool-cases,
  arith,
}
use round_robin.Config.Ports.{retain_new}

-- No port stands twice.
abbrev pub NoRepeats : List ℕ → Type 0
NoRepeats [] = Unit
NoRepeats (p ∷ ps) = (contains p ps ≡ false) × NoRepeats ps

pub contains-retain_new :
    (q : ℕ) (seen ps : List ℕ)
    → contains q (retain_new seen ps) ≡ (contains q ps && not (contains q seen))
unfolding retain_new
contains-retain_new q seen [] = refl
contains-retain_new q seen (p ∷ ps) =
    ground (arith, contains-retain_new q seen ps, contains-retain_new q (p ∷ seen) ps)

pub retain_new-NoRepeats : (seen ps : List ℕ) → NoRepeats (retain_new seen ps)
unfolding retain_new
retain_new-NoRepeats seen [] = tt
retain_new-NoRepeats seen (p ∷ ps) = elim (Bool-cases (contains p seen)) [
  | inl s ↦ rw s (retain_new-NoRepeats seen ps)
  | inr s ↦
      rw s (ground (arith, contains-retain_new p (p ∷ seen) ps), retain_new-NoRepeats (p ∷ seen) ps)
]

pub length-retain_new_le : (seen ps : List ℕ) → length (retain_new seen ps) ≤ length ps
unfolding retain_new
length-retain_new_le seen [] = omega arith
length-retain_new_le seen (p ∷ ps) =
    ground (arith, length-retain_new_le seen ps, length-retain_new_le (p ∷ seen) ps)

pub retain_new_some : (ps : List ℕ) → (length (retain_new [] ps) == 0) ≡ (length ps == 0)
unfolding retain_new
retain_new_some [] = refl
retain_new_some (p ∷ ps) = ground arith
