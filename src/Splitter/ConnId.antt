-- ===== src/Splitter/ConnId.antt =====
-- src/splitter.rs, `alloc_conn_id`: the choice of a fresh conn_id. `draw i` is the random number of
-- round `i`.
use round_robin.Common.{
  contains_key, ℕ, zero, suc, ◌+◌, ◌≤◌, ◌<◌, ◌≡◌, ◌≢◌, refl, ◌⊎◌, inl, inr, false, not, ◌&&◌,
  Option, none, some, List, lookup, subst, sym, ◌==◌, if◌then◌else◌, arith, Bool-cases,
  Option-cases, ==→eq, ◌∙◌,
}
use native.Mathlib.Decide.{ℕ_discrete}

abbrev pub attempts : ℕ
attempts = 1024

-- One round: the id, if it is free, and else what the rest of the loop answers.
abbrev pub pick : List (ℕ × ℕ) → List (ℕ × ℕ) → ℕ → Option ℕ → Option ℕ
pick conns time_wait id rest =
    if id == 0
    then rest
    else if not (contains_key id conns) && not (contains_key id time_wait)
    then some id
    else rest

-- The rest of the loop: `rounds` rounds from round `i` on.
unfoldable pub alloc_loop : ℕ → ℕ → List (ℕ × ℕ) → List (ℕ × ℕ) → (ℕ → ℕ) → Option ℕ
alloc_loop zero i conns time_wait draw = none
alloc_loop (suc rounds) i conns time_wait draw =
    let rest = alloc_loop rounds (suc i) conns time_wait draw in pick conns time_wait (draw i) rest

unfoldable pub alloc_conn_id : List (ℕ × ℕ) → List (ℕ × ℕ) → (ℕ → ℕ) → Option ℕ
unfolding alloc_loop
alloc_conn_id conns time_wait draw = alloc_loop attempts 0 conns time_wait draw

-- An id that may be given to a new connection.
abbrev pub IsFresh : List (ℕ × ℕ) → List (ℕ × ℕ) → ℕ → Type 0
IsFresh conns time_wait id = (id ≢ 0) × (lookup id conns ≡ none) × (lookup id time_wait ≡ none)

module _ (conns time_wait : List (ℕ × ℕ)) (draw : ℕ → ℕ) where
  -- What the loop answers, from round `i` on.
  abbrev pub Answers : ℕ → ℕ → Option ℕ → Type 0
  Answers rounds i (some id) =
      IsFresh conns time_wait id
      × ((j : ℕ) × (i ≤ j)
          × (j < i + rounds)
          × (draw j ≡ id)
          × ((l : ℕ) → i ≤ l → l < j → ¬ IsFresh conns time_wait (draw l)))
  Answers rounds i none = (l : ℕ) → i ≤ l → l < i + rounds → ¬ IsFresh conns time_wait (draw l)

  pick-IsFresh :
      (id : ℕ) (rest : Option ℕ)
      → (pick conns time_wait id rest ≡ some id) × IsFresh conns time_wait id
        ⊎ (pick conns time_wait id rest ≡ rest) × ¬ IsFresh conns time_wait id
  pick-IsFresh id rest = elim (Bool-cases (id == 0)) [
    | inl z ↦ inr (rw z refl, (λ f. f.0 (==→eq id 0 z)))
    | inr z ↦ elim (Option-cases (lookup id conns)) [
      | inr (at, c) ↦ inr (ground arith, (λ f. not_none (sym c ∙ f.1)))
      | inl c ↦ elim (Option-cases (lookup id time_wait)) [
        | inr (since, t) ↦ inr (ground arith, (λ f. not_none (sym t ∙ f.2)))
        | inl t ↦ inl (ground arith, ((λ p. not_zero z p), c, t))
      ]
    ]
  ]
    where
      not_none : {a : ℕ} → ¬ (some a ≡ none)
      not_none p = cc

      not_zero : (id == 0) ≡ false → ¬ (id ≡ 0)
      not_zero z p = ground arith

  Answers-step :
      (rounds i : ℕ) (r : Option ℕ)
      → ¬ IsFresh conns time_wait (draw i)
      → Answers rounds (suc i) r
      → Answers (suc rounds) i r
  Answers-step rounds i none stale h = λ l lo hi. elim (ℕ_discrete l i) [
    | yes p ↦ subst (λ t. ¬ IsFresh conns time_wait (draw t)) (sym p) stale
    | no p ↦ h l (omega arith) (omega arith)
  ]
  Answers-step rounds i (some id) stale (fresh, (j, lo, hi, e, before)) =
      (fresh, (j, omega arith, omega arith, e, earlier))
    where
      earlier : (l : ℕ) → i ≤ l → l < j → ¬ IsFresh conns time_wait (draw l)
      earlier l lo' hi' = elim (ℕ_discrete l i) [
        | yes p ↦ subst (λ t. ¬ IsFresh conns time_wait (draw t)) (sym p) stale
        | no p ↦ before l (omega arith) hi'
      ]

  alloc_loop-Answers : (rounds i : ℕ) → Answers rounds i (alloc_loop rounds i conns time_wait draw)
  unfolding alloc_loop
  alloc_loop-Answers zero i = λ l lo hi. absurd (omega arith)
  alloc_loop-Answers (suc rounds) i =
      elim (pick-IsFresh (draw i) (alloc_loop rounds (suc i) conns time_wait draw)) [
        | inl (e, fresh) ↦
            rw e (fresh, (i, omega arith, omega arith, refl, (λ l lo hi. absurd (omega arith))))
        | inr (e, stale) ↦ rw e (Answers-step rounds i _ stale (alloc_loop-Answers rounds (suc i)))
      ]

  -- The allocation answers with the first of 1024 draws that is not 0, not in use and not in
  -- TIME_WAIT, and with nothing only if none of them is such an id.
  pub alloc_conn_id-Answers : Answers attempts 0 (alloc_conn_id conns time_wait draw)
  unfolding alloc_conn_id
  alloc_conn_id-Answers = alloc_loop-Answers attempts 0
