-- ===== src/Pool/Async.antt =====
-- `TunnelPool::send_async`: an attempt ends, and what it ends with.
use round_robin.Common.{
  ℕ, zero, suc, ◌+◌, ◌<◌, ◌≡◌, ◌≢◌, refl, sym, ap, subst, ◌∙◌, ◌⊎◌, inl, inr, Bool, true, false,
  Option, none, some, some-injective, List, [], ◌∷◌, length, get_elem?, get_elem?_lt, lt_get_elem?,
  set, ◌==◌, ==→eq, Bool-cases, arith,
}
use round_robin.Frame.{Frame}
use round_robin.Pool.{Mpsc, TunnelLink, TunnelPool, sent, full, live}
use round_robin.Pool.Round.{Refuses, TrySend-cases}
use round_robin.Pool.Send.{AllPassed, Lands, mark-AllPassed, land-Lands}
use round_robin.Pool.Rates.{Float}
use round_robin.Pool.Schedule.{
  is_skipped, candidates, weighted_pick, Attempt, delivered, sleeps, awaits_link, attempt,
  send_attempt, send_async,
}
use round_robin.Pool.Candidates.{
  no_candidates, fewer_marked, fewer_skipped, length-candidates, weighted_pick_cases,
}

module _ (m : Mpsc Frame) (f : Frame) where
  open m use {Sender, try_send}

  -- Each link cannot take the frame.
  abbrev pub AllRefuse : List (TunnelLink Sender) → Type 0
  AllRefuse ls = (at : ℕ) (l : TunnelLink Sender) → get_elem? ls at ≡ some l → Refuses m f l

  -- How an attempt ends that found the links `ls`.
  abbrev pub Ends : List (TunnelLink Sender) → Option (TunnelPool Sender × Attempt) → Type 0
  Ends ls none = ⊥
  Ends ls (some (p, delivered)) = (at : ℕ) × Lands m f ls p.links at
  Ends ls (some (p, sleeps)) = AllPassed m f ls p.links × AllRefuse ls × (live p.links ≢ [])
  Ends ls (some (p, awaits_link)) = AllPassed m f ls p.links × AllRefuse ls × (live p.links ≡ [])

  -- The skipped links are live, and their channels are full.
  abbrev SkipsFull : List (TunnelLink Sender) → List ℕ → Type 0
  SkipsFull ls skip =
      (at : ℕ) (l : TunnelLink Sender)
      → is_skipped at skip ≡ true
      → get_elem? ls at ≡ some l
      → try_send l.tx f ≡ full

  -- A link that is live in the pool is the one that was found.
  found_link :
      (ls cur : List (TunnelLink Sender)) (at : ℕ) (l : TunnelLink Sender)
      → AllPassed m f ls cur
      → get_elem? cur at ≡ some l
      → l.alive ≡ true
      → get_elem? ls at ≡ some l
  found_link ls cur at l p e a =
      let (l0, e0) = get_elem?_lt ls at (omega (arith, lt_get_elem? cur at l e, p.same_length)) in
      let (l1, e1, q) = p.passed at l0 e0 in
      let same : l1 ≡ l = some-injective (sym e1 ∙ e) in
      elim q [
        | inl s ↦ e0 ∙ ap some (sym s ∙ same)
        | inr (a0, t, dead) ↦
            absurd (differs (sym (ap (λ (x : TunnelLink Sender). x.alive) (sym same ∙ dead)) ∙ a))
      ]
    where
      differs : ¬ (false ≡ true)
      differs x = cc

  -- When no link is left to pick, every link refused the frame.
  exhausted :
      (ls cur : List (TunnelLink Sender)) (skip : List ℕ)
      → AllPassed m f ls cur
      → SkipsFull ls skip
      → candidates 0 cur skip ≡ []
      → AllRefuse ls
  exhausted ls cur skip p s none_left at l e =
      let (l', e', q) = p.passed at l e in
      elim q [
        | inr (a, t, dead) ↦ inr (inl t)
        | inl same ↦ elim (no_candidates 0 cur skip none_left at l' e') [
          | inl a ↦ inl (ap (λ (x : TunnelLink Sender). x.alive) (sym same) ∙ a)
          | inr k ↦ inr (inr (s at l (ap (λ i. is_skipped i skip) (omega arith) ∙ k) e))
        ]
      ]

  SkipsFull-more :
      (ls : List (TunnelLink Sender)) (skip : List ℕ) (at : ℕ) (l : TunnelLink Sender)
      → SkipsFull ls skip
      → get_elem? ls at ≡ some l
      → try_send l.tx f ≡ full
      → SkipsFull ls (at ∷ skip)
  SkipsFull-more ls skip at l s e t k j h e' = elim (Bool-cases (at == k)) [
    | inl same ↦
        let here = ==→eq at k same in
        let l-same : l ≡ j = some-injective (sym e ∙ ap (get_elem? ls) here ∙ e') in
        ap (λ (x : TunnelLink Sender). try_send x.tx f) (sym l-same) ∙ t
    | inr other ↦ s k j (ground arith) e'
  ]

module _ (float : Float) (m : Mpsc Frame) (f : Frame) where
  open m use {Sender, try_send}

  waits_Ends :
      (ls cur : List (TunnelLink Sender)) (p : TunnelPool Sender) (skip : List ℕ)
      → p.links ≡ cur
      → AllPassed m f ls cur
      → AllRefuse m f ls
      → Ends m f ls (
          some
            (p, elim (live p.links) as (λ x. Attempt) [ [] ↦ awaits_link | best ∷ rest ↦ sleeps ]))
  waits_Ends ls cur p skip same passed refused = go (live p.links) refl
    where
      passed' : AllPassed m f ls p.links
      passed' = subst (AllPassed m f ls) (sym same) passed

      go :
          (ks : List (TunnelLink Sender))
          → live p.links ≡ ks
          → Ends m f ls
              (some (p, elim ks as (λ x. Attempt) [ [] ↦ awaits_link | best ∷ rest ↦ sleeps ]))
      go [] e = (passed', refused, e)
      go (k ∷ ks) e = (passed', refused, (λ h. cons_is_not (sym e ∙ h)))
        where
          cons_is_not : ¬ (k ∷ ks ≡ [])
          cons_is_not x = cc

  attempt-Ends :
      (fuel : ℕ) (ls : List (TunnelLink Sender)) (p : TunnelPool Sender) (skip : List ℕ)
      → AllPassed m f ls p.links
      → SkipsFull m f ls skip
      → length (candidates 0 p.links skip) < fuel
      → Ends m f ls (attempt float m fuel p skip f)
  unfolding attempt
  attempt-Ends zero ls p skip passed s enough = absurd (omega arith)
  attempt-Ends (suc fuel) ls p skip passed s enough = elim (weighted_pick_cases float p skip) [
    | inl (e, none_left) ↦
        rw (e, attempt)
          (waits_Ends ls p.links p skip refl passed
            (exhausted m f ls p.links skip passed s none_left))
    | inr (at, l, e, c) ↦
        let rr = (weighted_pick float p skip).1 in
        let place : c.place ≡ at = omega arith in
        let found : get_elem? p.links at ≡ some l =
          subst (λ k. get_elem? p.links k ≡ some l) place c.found in
        let there = found_link m f ls p.links at l passed found c.alive in
        let open_ : is_skipped (0 + at) skip ≡ false =
          ap (λ k. is_skipped k skip) (omega arith) ∙ c.not_skipped in
        let fewer : length (candidates 0 p.links (at ∷ skip)) < length (candidates 0 p.links skip) =
          subst (λ k. length (candidates 0 p.links (k ∷ skip)) < length (candidates 0 p.links skip))
            (omega arith) (fewer_skipped 0 p.links skip at l found c.alive open_) in
        elim (TrySend-cases m f (try_send l.tx f)) [
          | inl (tx, t) ↦
              rw (e, t, attempt) (at, land-Lands m f ls p.links at l tx passed there c.alive t)
          | inr (inl t) ↦
              rw (e, t, attempt)
                (attempt-Ends fuel ls
                  (record p { rr = rr; links = set p.links at (record l { alive = false }) }) skip
                  (mark-AllPassed m f ls p.links at l passed there c.alive t) s
                  (omega (arith, fewer_marked 0 p.links skip at l found c.alive open_)))
          | inr (inr t) ↦
              rw (e, t, attempt)
                (attempt-Ends fuel ls (record p { rr = rr }) (at ∷ skip) passed
                  (SkipsFull-more m f ls skip at l s there t) (omega (arith, fewer)))
        ]
  ]

  -- An attempt of `send_async` ends, and it waits only if every link is dead, closed or full: then it sleeps
  -- if some link is live, and else waits for a link. Otherwise the frame went into the queue of exactly one
  -- live link. Other links stay as they were, but for those found closed, which are dead now.
  pub send_attempt-Ends :
      (p : TunnelPool Sender) → Ends m f p.links (some (send_attempt float m p f))
  unfolding send_attempt
  send_attempt-Ends p = go (attempt float m (suc (length p.links)) p [] f) (
      attempt-Ends (suc (length p.links)) p.links p []
        (record { same_length = refl; passed = λ at l e. (l, e, inl refl) }) (λ at l h e. cc)
        (omega (arith, length-candidates 0 p.links [])))
    where
      go :
          (r : Option (TunnelPool Sender × Attempt))
          → Ends m f p.links r
          → Ends m f p.links (
              some
                (elim r as (λ x. TunnelPool Sender × Attempt) [ none ↦ (p, sleeps) | some x ↦ x ]))
      go none a = absurd a
      go (some x) a = a

  -- Some live link would take the frame.
  abbrev pub HasRoom : TunnelPool Sender → Type 0
  HasRoom p =
      (at : ℕ) × (l : TunnelLink Sender) × (get_elem? p.links at ≡ some l)
      × (l.alive ≡ true)
      × (tx : Sender) × (try_send l.tx f ≡ sent tx)

  -- The pool that one of the attempts finds has room.
  abbrev pub FindsRoom : TunnelPool Sender → List (TunnelPool Sender → TunnelPool Sender) → Type 0
  FindsRoom p [] = HasRoom p
  FindsRoom p (others ∷ waits) = HasRoom p ⊎ FindsRoom (others (send_attempt float m p f).0) waits

  HasRoom-delivered : (p : TunnelPool Sender) → HasRoom p → (send_attempt float m p f).1 ≡ delivered
  HasRoom-delivered p (at, l, e, a, tx, t) = go (send_attempt float m p f) (send_attempt-Ends p)
    where
      takes : ¬ Refuses m f l
      takes (inl dead) = cc
      takes (inr (inl shut)) = cc
      takes (inr (inr crowded)) = cc

      go : (r : TunnelPool Sender × Attempt) → Ends m f p.links (some r) → r.1 ≡ delivered
      go (p', delivered) h = refl
      go (p', sleeps) h = absurd (takes (h.1 at l e))
      go (p', awaits_link) h = absurd (takes (h.1 at l e))

  -- A send delivers its frame as soon as one of its attempts finds a live link whose channel has room,
  -- whatever the floating-point rates are and whatever the other tasks do to the pool between two attempts.
  pub send_async_delivers :
      (p : TunnelPool Sender) (waits : List (TunnelPool Sender → TunnelPool Sender))
      → FindsRoom p waits
      → (send_async float m p waits f).1 ≡ true
  unfolding send_async
  send_async_delivers p [] h = rw (HasRoom-delivered p h, send_async) refl
  send_async_delivers p (others ∷ waits) (inl h) = rw (HasRoom-delivered p h, send_async) refl
  send_async_delivers p (others ∷ waits) (inr h) =
      go (send_attempt float m p f)
        (send_async_delivers (others (send_attempt float m p f).0) waits h)
    where
      go :
          (r : TunnelPool Sender × Attempt)
          → (send_async float m (others r.0) waits f).1 ≡ true
          → (elim r.1 as (λ x. TunnelPool Sender × Bool) [
            | delivered ↦ (r.0, true)
            | waiting ↦ send_async float m (others r.0) waits f
          ]).1
            ≡ true
      go (p', delivered) more = refl
      go (p', sleeps) more = more
      go (p', awaits_link) more = more
