-- ===== src/Pool/Upkeep.antt =====
-- The heartbeat's upkeep of the pool: `sweep_idle`, `compact` and the counts.
use round_robin.Common.{
  ℕ, zero, suc, ◌+◌, ◌-◌, ◌≤◌, ◌<◌, ◌≡◌, refl, ◌⊎◌, inl, inr, Bool-cases, ltb, true, false, some,
  List, [], ◌∷◌, length, get_elem?, if◌then◌else◌, arith,
}
use round_robin.Pool.{
  TunnelLink, TunnelPool, live, is_idle, sweep, sweep_idle, compact, alive_count, link_count, stats,
}

module _ {S : Type 0} where
  -- A link after the sweep.
  abbrev pub swept_link : ℕ → ℕ → TunnelLink S → TunnelLink S
  swept_link now limit l =
      if is_idle now limit l then record l { alive = false; stop = true } else l

  sweep_at :
      (now limit : ℕ) (ls : List (TunnelLink S)) (at : ℕ) (l : TunnelLink S)
      → get_elem? ls at ≡ some l
      → get_elem? (sweep now limit ls).0 at ≡ some (swept_link now limit l)
  sweep_at now limit [] at l e = cc
  sweep_at now limit (x ∷ ls) zero l e = ground arith
  sweep_at now limit (x ∷ ls) (suc at) l e = ground (arith, sweep_at now limit ls at l e)

  length-sweep :
      (now limit : ℕ) (ls : List (TunnelLink S)) → length (sweep now limit ls).0 ≡ length ls
  length-sweep now limit [] = refl
  length-sweep now limit (x ∷ ls) = ground (arith, length-sweep now limit ls)

  live-sweep :
      (now limit : ℕ) (ls : List (TunnelLink S))
      → length (live (sweep now limit ls).0) + (sweep now limit ls).1 ≡ length (live ls)
  live-sweep now limit [] = omega arith
  live-sweep now limit (x ∷ ls) = ground (arith, live-sweep now limit ls)

  -- A link that no heartbeat may recycle: it was active within the limit, or is dead already.
  abbrev pub Stays : ℕ → ℕ → TunnelLink S → Type 0
  Stays now limit l = (l.alive ≡ false) ⊎ (now ≤ l.last_active_ms + limit)

  -- A link that is live and was silent for longer than the limit.
  abbrev pub Silent : ℕ → ℕ → TunnelLink S → Type 0
  Silent now limit l = (l.alive ≡ true) × (l.last_active_ms + limit < now)

  -- The links after a sweep, and how many of them it killed.
  pub data Swept (now limit : ℕ) : List (TunnelLink S) → List (TunnelLink S) → ℕ → Type 0 where
    nil : Swept now limit [] [] 0
    stays :
        (l : TunnelLink S) (ls ls' : List (TunnelLink S)) (n : ℕ)
        → Stays now limit l
        → Swept now limit ls ls' n
        → Swept now limit (l ∷ ls) (l ∷ ls') n
    killed :
        (l : TunnelLink S) (ls ls' : List (TunnelLink S)) (n : ℕ)
        → Silent now limit l
        → Swept now limit ls ls' n
        → Swept now limit (l ∷ ls) (record l { alive = false; stop = true } ∷ ls') (suc n)

  -- The links that stay in the pool: the live ones that were active within the limit, as they were.
  pub data Kept (now limit : ℕ) : List (TunnelLink S) → List (TunnelLink S) → Type 0 where
    nil : Kept now limit [] []
    keeps :
        (l : TunnelLink S) (ls kept : List (TunnelLink S))
        → l.alive ≡ true
        → now ≤ l.last_active_ms + limit
        → Kept now limit ls kept
        → Kept now limit (l ∷ ls) (l ∷ kept)
    drops :
        (l : TunnelLink S) (ls kept : List (TunnelLink S))
        → (l.alive ≡ false) ⊎ (l.last_active_ms + limit < now)
        → Kept now limit ls kept
        → Kept now limit (l ∷ ls) kept

  idle-cases :
      (now limit : ℕ) (l : TunnelLink S)
      → ((is_idle now limit l ≡ true) × Silent now limit l)
        ⊎ ((is_idle now limit l ≡ false) × Stays now limit l)
  idle-cases now limit l = elim (Bool-cases l.alive) [
    | inr dead ↦ inr (ground arith, inl dead)
    | inl alive ↦ elim (Bool-cases (ltb limit (now - l.last_active_ms))) [
      | inl silent ↦ inl (ground arith, (alive, ground arith))
      | inr active ↦ inr (ground arith, inr (ground arith))
    ]
  ]

  sweep-Swept :
      (now limit : ℕ) (ls : List (TunnelLink S))
      → Swept now limit ls (sweep now limit ls).0 (sweep now limit ls).1
  sweep-Swept now limit [] = nil
  sweep-Swept now limit (l ∷ ls) = elim (idle-cases now limit l) [
    | inl (e, silent) ↦ rw e (killed l ls _ _ silent (sweep-Swept now limit ls))
    | inr (e, keep) ↦ rw e (stays l ls _ _ keep (sweep-Swept now limit ls))
  ]

  live-Kept :
      (now limit : ℕ) (ls ls' : List (TunnelLink S)) (n : ℕ)
      → Swept now limit ls ls' n
      → Kept now limit ls (live ls')
  live-Kept now limit ls ls' n nil = nil
  live-Kept now limit ls ls' n (killed l ms ms' k silent w) =
      drops l ms _ (inr silent.1) (live-Kept now limit ms ms' k w)
  live-Kept now limit ls ls' n (stays l ms ms' k (inl dead) w) =
      simp dead (drops l ms _ (inl dead) (live-Kept now limit ms ms' k w))
  live-Kept now limit ls ls' n (stays l ms ms' k (inr active) w) = elim (Bool-cases l.alive) [
    | inl alive ↦ simp alive (keeps l ms _ alive active (live-Kept now limit ms ms' k w))
    | inr dead ↦ simp dead (drops l ms _ (inl dead) (live-Kept now limit ms ms' k w))
  ]

  -- The sweep kills and stops the live links without activity for longer than the limit, leaves all
  -- others as they are, and returns how many it killed.
  pub sweep_idle_lem :
      (p : TunnelPool S) (now limit : ℕ)
      → let r = sweep_idle p now limit in
        ((at : ℕ) (l : TunnelLink S)
          → get_elem? p.links at ≡ some l
          → get_elem? r.0.links at ≡ some (swept_link now limit l))
        × (link_count r.0 ≡ link_count p)
        × (alive_count r.0 + r.1 ≡ alive_count p)
  unfolding sweep_idle alive_count link_count
  sweep_idle_lem p now limit =
      (sweep_at now limit p.links, length-sweep now limit p.links, live-sweep now limit p.links)

  -- The sweep kills and stops just the live links that were silent for longer than the limit, leaves all
  -- others as they are, and returns how many it killed. After a compaction the pool holds just the live links
  -- that were active within the limit, as they were and in their order, and the two counts of `stats` are
  -- their number.
  pub compact-sweep_idle :
      (p : TunnelPool S) (now limit : ℕ)
      → let r = sweep_idle p now limit in
        let c = compact r.0 in
        Swept now limit p.links r.0.links r.1
        × Kept now limit p.links c.links
        × (link_count c + r.1 ≡ alive_count p)
        × (stats c ≡ (link_count c, link_count c))
  unfolding sweep_idle compact alive_count link_count stats
  compact-sweep_idle p now limit = (
    sweep-Swept now limit p.links,
    live-Kept now limit p.links _ _ (sweep-Swept now limit p.links),
    live-sweep now limit p.links,
    λ i.
        (length-live_live (sweep now limit p.links).0 i, length (live (sweep now limit p.links).0)),
  )
    where
      length-live_live : (ls : List (TunnelLink S)) → length (live (live ls)) ≡ length (live ls)
      length-live_live [] = refl
      length-live_live (x ∷ ls) = ground (arith, length-live_live ls)
