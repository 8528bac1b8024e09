-- ===== src/Config/Ports/Split.antt =====
-- The two sides of the first dash, and the numbers of a range.
use round_robin.Common.{
  ◌&&◌, ℕ, zero, suc, ◌+◌, ◌≡◌, refl, ap, ◌⊎◌, inl, inr, true, false, none, some, List, [], ◌∷◌,
  ◌++◌, length, contains, ltb, leb, ◌==◌, ==→eq, Bool-cases, arith,
}
use round_robin.Config.Ports.{split_once, from_start}

pub split_once-cases :
    (c : ℕ) (s : List ℕ)
    → ((before after : List ℕ) × (split_once c s ≡ some (before, after))
        × (s ≡ before ++ c ∷ after)
        × (contains c before ≡ false))
      ⊎ (split_once c s ≡ none) × (contains c s ≡ false)
unfolding split_once
split_once-cases c [] = inr (refl, refl)
split_once-cases c (x ∷ xs) = elim (Bool-cases (x == c)) [
  | inl e ↦ inl ([], xs, rw (e, split_once) refl, ap (λ y. y ∷ xs) (==→eq x c e), refl)
  | inr e ↦ elim (split_once-cases c xs) [
    | inl (before, after, found, text, none_before) ↦
        inl (x ∷ before, after, rw (e, found, split_once) refl, ap (◌∷◌ x) text, rw e none_before)
    | inr (none_, none_left) ↦ inr (rw (e, none_, split_once) refl, rw e none_left)
  ]
]

pub split_once-append :
    (c : ℕ) (before after : List ℕ)
    → contains c before ≡ false
    → split_once c (before ++ c ∷ after) ≡ some (before, after)
unfolding split_once
split_once-append c [] after none_before = let e : (c == c) ≡ true = ground arith in rw e refl
split_once-append c (x ∷ before) after none_before =
    let e : (x == c) ≡ false = ground arith in
    rw (e, split_once-append c before after (ground arith)) refl

pub contains-from_start :
    (q start count : ℕ)
    → contains q (from_start start count) ≡ (leb start q && ltb q (start + count))
contains-from_start q start zero = ground arith
contains-from_start q start (suc count) = ground (arith, contains-from_start q (suc start) count)

pub length-from_start : (start count : ℕ) → length (from_start start count) ≡ count
length-from_start start zero = refl
length-from_start start (suc count) = ap suc (length-from_start (suc start) count)

pub split_once-none : (c : ℕ) (s : List ℕ) → contains c s ≡ false → split_once c s ≡ none
unfolding split_once
split_once-none c [] h = refl
split_once-none c (x ∷ xs) h = ground (arith, split_once-none c xs)
