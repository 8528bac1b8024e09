-- ===== src/Reorder/Window.antt =====
-- The window's contents: keys without repetition, the bytes that they hold, and their removal.
use round_robin.Common.{
  HasUniqueKeys, remove_absent, ℕ, ◌+◌, ◌≡◌, some, List, [], ◌∷◌, length, lookup, remove, arith,
}

abbrev pub bytes_of : List (ℕ × List ℕ) → ℕ
bytes_of [] = 0
bytes_of ((k, c) ∷ m) = length c + bytes_of m

pub bytes_of-remove :
    (k : ℕ) (m : List (ℕ × List ℕ)) (c : List ℕ)
    → HasUniqueKeys m
    → lookup k m ≡ some c
    → bytes_of (remove k m) + length c ≡ bytes_of m
bytes_of-remove k [] c u h = cc
bytes_of-remove k ((j, d) ∷ m) c u h = ground (arith, bytes_of-remove k m c, remove_absent k m)
