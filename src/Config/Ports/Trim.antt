-- ===== src/Config/Ports/Trim.antt =====
-- What `trim` takes off a text, and what it leaves.
use round_robin.Common.{
  ℕ, ◌≡◌, refl, ap, inl, inr, true, false, List, [], ◌∷◌, ◌++◌, if◌then◌else◌, Bool-cases, All,
}
use round_robin.Config.Ports.{is_whitespace, trim_start, trim_end}

abbrev pub IsWhite : ℕ → Type 0
IsWhite c = is_whitespace c ≡ true

pub trim_start_split :
    (s : List ℕ) → (left : List ℕ) × (s ≡ left ++ trim_start s) × All IsWhite left
trim_start_split [] = ([], refl, tt)
trim_start_split (c ∷ cs) = elim (Bool-cases (is_whitespace c)) [
  | inr b ↦ ([], rw b refl, tt)
  | inl w ↦ let (left, e, a) = trim_start_split cs in (c ∷ left, rw w (ap (◌∷◌ c) e), (w, a))
]

pub trim_end_split : (s : List ℕ) → (right : List ℕ) × (s ≡ trim_end s ++ right) × All IsWhite right
trim_end_split [] = ([], refl, tt)
trim_end_split (c ∷ cs) = let (right, e, a) = trim_end_split cs in go (trim_end cs) right e a
  where
    go :
        (t right : List ℕ)
        → cs ≡ t ++ right
        → All IsWhite right
        → (right' : List ℕ) × (c ∷ cs
            ≡ (elim t as (λ x. List ℕ) [
              | [] ↦ if is_whitespace c then [] else c ∷ []
              | d ∷ ds ↦ c ∷ d ∷ ds
            ])
              ++ right')
          × All IsWhite right'
    go [] right e a = elim (Bool-cases (is_whitespace c)) [
      | inl w ↦ (c ∷ right, rw w (ap (◌∷◌ c) e), (w, a))
      | inr b ↦ (right, rw b (ap (◌∷◌ c) e), a)
    ]
    go (d ∷ ds) right e a = (right, ap (◌∷◌ c) e, a)

pub trim_start_white :
    (left : List ℕ) (c : ℕ) (rest : List ℕ)
    → All IsWhite left
    → is_whitespace c ≡ false
    → trim_start (left ++ c ∷ rest) ≡ c ∷ rest
trim_start_white [] c rest a b = rw b refl
trim_start_white (w ∷ left) c rest (h, a) b = rw h (trim_start_white left c rest a b)

pub trim_end_white : (right : List ℕ) → All IsWhite right → trim_end right ≡ []
trim_end_white [] a = refl
trim_end_white (w ∷ right) (h, a) = rw (trim_end_white right a, h) refl

pub trim_end_core :
    (core right : List ℕ)
    → All (λ c. is_whitespace c ≡ false) core
    → All IsWhite right
    → trim_end (core ++ right) ≡ core
trim_end_core [] right b a = trim_end_white right a
trim_end_core (c ∷ []) right (b, bs) a = rw (trim_end_white right a, b) refl
trim_end_core (c ∷ d ∷ core) right (b, bs) a = rw (trim_end_core (d ∷ core) right bs a) refl
