-- ===== src/Pool/Candidates.antt =====
-- The links among which `weighted_pick` chooses, and what it chooses.
use round_robin.Common.{
  ℕ, zero, suc, ◌+◌, ◌%◌, ◌≤◌, ◌<◌, ◌≡◌, refl, sym, ap, subst, ◌∙◌, ◌⊎◌, inl, inr, Bool, true,
  false, not, ◌&&◌, ◌||◌, none, some, List, [], ◌∷◌, length, get_elem?, set, ◌==◌, if◌then◌else◌,
  if_cases, some-injective, arith, All,
}
use round_robin.Pool.{TunnelLink, TunnelPool}
use round_robin.Pool.Rates.{Float}
use round_robin.Pool.Schedule.{
  is_skipped, last_of, candidates, walk, weights, raw_rates, total_of, weight_grid, weighted_pick,
}

abbrev one_if : Bool → ℕ
one_if true = 1
one_if false = 0

length-if :
    {A : Type 0} (b : Bool) (x : A) (xs : List A)
    → length (if b then x ∷ xs else xs) ≡ one_if b + length xs
length-if true x xs = omega arith
length-if false x xs = omega arith

none_if :
    {A : Type 0} (b : Bool) (x : A) (xs : List A)
    → (if b then x ∷ xs else xs) ≡ []
    → (b ≡ false) × (xs ≡ [])
none_if true x xs h = cc
none_if false x xs h = (refl, h)

added : (a e s : Bool) (m n : ℕ) → m ≤ n → one_if (a && not (e || s)) + m ≤ one_if (a && not s) + n
added a e s m n h = ground arith

added_lt :
    (a e s : Bool) (m n : ℕ) → m < n → one_if (a && not (e || s)) + m < one_if (a && not s) + n
added_lt a e s m n h = ground arith

module _ {S : Type 0} where
  -- A link that may be picked, at an index counted from `from`.
  pub record IsCandidate (from : ℕ) (ls : List (TunnelLink S)) (skip : List ℕ) (at : ℕ)
      (l : TunnelLink S) : Type 0 where
    pub place : ℕ
    pub counted : at ≡ from + place
    pub found : get_elem? ls place ≡ some l
    pub alive : l.alive ≡ true
    pub not_skipped : is_skipped at skip ≡ false

  IsCandidate-later :
      (from : ℕ) (k : TunnelLink S) (ls : List (TunnelLink S)) (skip : List ℕ) (at : ℕ)
      (l : TunnelLink S)
      → IsCandidate (suc from) ls skip at l
      → IsCandidate from (k ∷ ls) skip at l
  IsCandidate-later from k ls skip at l c = record {
    place = suc c.place;
    counted = c.counted ∙ omega arith;
    found = c.found;
    alive = c.alive;
    not_skipped = c.not_skipped;
  }

  abbrev AllCandidates : ℕ → List (TunnelLink S) → List ℕ → List (ℕ × TunnelLink S) → Type 0
  AllCandidates from ls skip cs =
      All (λ (c : ℕ × TunnelLink S). IsCandidate from ls skip c.0 c.1) cs

  All-later :
      (from : ℕ) (k : TunnelLink S) (ls : List (TunnelLink S)) (skip : List ℕ)
      (cs : List (ℕ × TunnelLink S))
      → AllCandidates (suc from) ls skip cs
      → AllCandidates from (k ∷ ls) skip cs
  All-later from k ls skip [] a = tt
  All-later from k ls skip (c ∷ cs) a =
      (IsCandidate-later from k ls skip c.0 c.1 a.0, All-later from k ls skip cs a.1)

  candidates-AllCandidates :
      (from : ℕ) (ls : List (TunnelLink S)) (skip : List ℕ)
      → AllCandidates from ls skip (candidates from ls skip)
  candidates-AllCandidates from [] skip = tt
  candidates-AllCandidates from (l ∷ ls) skip =
      let rest = All-later from l ls skip _ (candidates-AllCandidates (suc from) ls skip) in
      if_cases (AllCandidates from (l ∷ ls) skip) (l.alive && not (is_skipped from skip)) _ _
        (λ h. (
          record {
            place = 0;
            counted = omega arith;
            found = refl;
            alive = ground arith;
            not_skipped = ground arith;
          },
          rest,
        ))
        (λ h. rest)

  -- Without a candidate, each link is dead or skipped.
  pub no_candidates :
      (from : ℕ) (ls : List (TunnelLink S)) (skip : List ℕ)
      → candidates from ls skip ≡ []
      → (k : ℕ) (l : TunnelLink S) → get_elem? ls k ≡ some l
      → (l.alive ≡ false) ⊎ (is_skipped (from + k) skip ≡ true)
  no_candidates from [] skip h k l e = cc
  no_candidates from (j ∷ ls) skip h zero l e =
      let (b, rest) = none_if (j.alive && not (is_skipped from skip)) (from, j) _ h in
      let here : from + 0 ≡ from = omega arith in
      let same : j.alive ≡ l.alive = ap (λ (x : TunnelLink S). x.alive) (some-injective e) in
      rw (here, sym same) (ground arith)
  no_candidates from (j ∷ ls) skip h (suc k) l e =
      let (b, rest) = none_if (j.alive && not (is_skipped from skip)) (from, j) _ h in
      let next : from + suc k ≡ suc from + k = omega arith in
      rw next (no_candidates (suc from) ls skip rest k l e)

  picked :
      (from : ℕ) (j : TunnelLink S) (skip : List ℕ) (l : TunnelLink S)
      → some j ≡ some l
      → l.alive ≡ true
      → is_skipped (from + 0) skip ≡ false
      → (j.alive && not (is_skipped from skip)) ≡ true
  picked from j skip l e a s =
      let same : j.alive ≡ l.alive = ap (λ (x : TunnelLink S). x.alive) (some-injective e) in
      let t : is_skipped from skip ≡ false = ap (λ i. is_skipped i skip) (omega arith) ∙ s in
      rw (same, a, t) refl

  itself :
      (from : ℕ) (j : TunnelLink S) (skip : List ℕ)
      → (j.alive && not (is_skipped from ((from + 0) ∷ skip))) ≡ false
  itself from j skip = let here : (from + 0 == from) ≡ true = ground arith in rw here (ground arith)

  -- Fewer candidates are left when one is marked dead or skipped.
  pub fewer_marked :
      (from : ℕ) (ls : List (TunnelLink S)) (skip : List ℕ) (k : ℕ) (l : TunnelLink S)
      → get_elem? ls k ≡ some l
      → l.alive ≡ true
      → is_skipped (from + k) skip ≡ false
      → length (candidates from (set ls k (record l { alive = false })) skip)
        < length (candidates from ls skip)
  fewer_marked from [] skip k l e a s = cc
  fewer_marked from (j ∷ ls) skip zero l e a s =
      let b : (j.alive && not (is_skipped from skip)) ≡ true = picked from j skip l e a s in
      let n =
        length-if (j.alive && not (is_skipped from skip)) (from, j)
          (candidates (suc from) ls skip) in
      rw (n, b) (omega arith)
  fewer_marked from (j ∷ ls) skip (suc k) l e a s =
      let more =
        fewer_marked (suc from) ls skip k l e a (ap (λ t. is_skipped t skip) (omega arith) ∙ s) in
      let b = j.alive && not (is_skipped from skip) in
      rw
        (
          length-if b (from, j)
              (candidates (suc from) (set ls k (record l { alive = false })) skip),
          length-if b (from, j) (candidates (suc from) ls skip),
        )
        (omega (arith, more))

  no_more_skipped :
      (from at : ℕ) (ls : List (TunnelLink S)) (skip : List ℕ)
      → length (candidates from ls (at ∷ skip)) ≤ length (candidates from ls skip)
  no_more_skipped from at [] skip = omega arith
  no_more_skipped from at (j ∷ ls) skip =
      let more = no_more_skipped (suc from) at ls skip in
      rw
        (
          length-if (j.alive && not (is_skipped from (at ∷ skip))) (from, j)
              (candidates (suc from) ls (at ∷ skip)),
          length-if (j.alive && not (is_skipped from skip)) (from, j)
              (candidates (suc from) ls skip),
        )
        (added j.alive (at == from) (is_skipped from skip) _ _ more)

  pub fewer_skipped :
      (from : ℕ) (ls : List (TunnelLink S)) (skip : List ℕ) (k : ℕ) (l : TunnelLink S)
      → get_elem? ls k ≡ some l
      → l.alive ≡ true
      → is_skipped (from + k) skip ≡ false
      → length (candidates from ls ((from + k) ∷ skip)) < length (candidates from ls skip)
  fewer_skipped from [] skip k l e a s = cc
  fewer_skipped from (j ∷ ls) skip zero l e a s =
      let more = no_more_skipped (suc from) (from + 0) ls skip in
      let b : (j.alive && not (is_skipped from skip)) ≡ true = picked from j skip l e a s in
      let c : (j.alive && not (is_skipped from ((from + 0) ∷ skip))) ≡ false = itself from j skip in
      rw
        (
          length-if (j.alive && not (is_skipped from ((from + 0) ∷ skip))) (from, j)
              (candidates (suc from) ls ((from + 0) ∷ skip)),
          length-if (j.alive && not (is_skipped from skip)) (from, j)
              (candidates (suc from) ls skip),
          b,
          c,
        )
        (omega (arith, more))
  fewer_skipped from (j ∷ ls) skip (suc k) l e a s =
      let more =
        fewer_skipped (suc from) ls skip k l e a (ap (λ t. is_skipped t skip) (omega arith) ∙ s) in
      let next : suc from + k ≡ from + suc k = omega arith in
      let more' =
        subst
          (λ t.
            length (candidates (suc from) ls (t ∷ skip)) < length (candidates (suc from) ls skip))
          next more in
      rw
        (
          length-if (j.alive && not (is_skipped from ((from + suc k) ∷ skip))) (from, j)
              (candidates (suc from) ls ((from + suc k) ∷ skip)),
          length-if (j.alive && not (is_skipped from skip)) (from, j)
              (candidates (suc from) ls skip),
        )
        (added_lt j.alive (from + suc k == from) (is_skipped from skip) _ _ more')

  pub length-candidates :
      (from : ℕ) (ls : List (TunnelLink S)) (skip : List ℕ)
      → length (candidates from ls skip) ≤ length ls
  length-candidates from [] skip = omega arith
  length-candidates from (l ∷ ls) skip =
      let more = length-candidates (suc from) ls skip in ground arith

module _ (float : Float) {S : Type 0} where
  open float use {F}

  walk_All :
      (P : ℕ × TunnelLink S → Type 0) (fallback : ℕ × TunnelLink S) (anchor acc : F)
      (cs : List (ℕ × TunnelLink S)) (ws : List F)
      → P fallback
      → All P cs
      → P (walk float fallback anchor acc cs ws)
  walk_All P fallback anchor acc [] ws p a = p
  walk_All P fallback anchor acc (c ∷ cs) [] p a = p
  walk_All P fallback anchor acc (c ∷ cs) (w ∷ ws) p a =
      let sum = float.add acc w in
      if_cases P (float.less anchor sum) c (walk float fallback anchor sum cs ws) (λ h. a.0)
        (λ h. walk_All P fallback anchor sum cs ws p a.1)

  last_All :
      (P : ℕ × TunnelLink S → Type 0) (c : ℕ × TunnelLink S) (cs : List (ℕ × TunnelLink S))
      → P c
      → All P cs
      → P (last_of c cs)
  last_All P c [] p a = p
  last_All P c (d ∷ cs) p a = last_All P d cs a.0 a.1

  -- The choice is a candidate, and there is none only if there is no candidate.
  pub weighted_pick_cases :
      (p : TunnelPool S) (skip : List ℕ)
      → (((weighted_pick float p skip).0 ≡ none) × (candidates 0 p.links skip ≡ []))
        ⊎ ((at : ℕ) × (l : TunnelLink S) × ((weighted_pick float p skip).0 ≡ some (at, l))
            × IsCandidate 0 p.links skip at l)
  unfolding weighted_pick
  weighted_pick_cases p skip =
      go (candidates 0 p.links skip) refl (candidates-AllCandidates 0 p.links skip)
    where
      go :
          (cs : List (ℕ × TunnelLink S))
          → candidates 0 p.links skip ≡ cs
          → AllCandidates 0 p.links skip cs
          → (((weighted_pick float p skip).0 ≡ none) × (candidates 0 p.links skip ≡ []))
            ⊎ ((at : ℕ) × (l : TunnelLink S) × ((weighted_pick float p skip).0 ≡ some (at, l))
                × IsCandidate 0 p.links skip at l)
      go [] e a = inl (rw (e, weighted_pick) refl, e)
      go (c ∷ cs) e a =
          let ws = weights float (raw_rates float (c ∷ cs)) in
          let anchor =
            float.mul (float.div (float.of_nat (p.rr % weight_grid)) (float.of_nat weight_grid))
              (total_of float ws) in
          let x = walk float (last_of c cs) anchor (float.of_nat 0) (c ∷ cs) ws in
          inr (
            x.0,
            x.1,
            rw (e, weighted_pick) refl,
            walk_All (λ (y : ℕ × TunnelLink S). IsCandidate 0 p.links skip y.0 y.1) (last_of c cs)
                anchor (float.of_nat 0) (c ∷ cs) ws
                (last_All (λ (y : ℕ × TunnelLink S). IsCandidate 0 p.links skip y.0 y.1) c cs a.0
                  a.1)
                a,
          )
