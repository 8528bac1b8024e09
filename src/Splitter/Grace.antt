-- ===== src/Splitter/Grace.antt =====
-- src/splitter.rs, `handle_tcp_client`: the wait after the FIN of a client for the rest of the answer.
pub mod Bound
use round_robin.Common.{
  ℕ, zero, suc, ap, ◌∙◌, ◌+◌, ◌-◌, ◌*◌, ◌≤◌, ◌<◌, ◌≡◌, refl, get_elem?, some-injective, sym, subst,
  ◌⊎◌, inl, inr, Bool, true, false, Option, none, some, List, [], ◌∷◌, leb, if◌then◌else◌,
  Bool-cases, Option-cases, arith,
}
use round_robin.Reorder.{is_complete_through}
use round_robin.Splitter.{VirtConn}

abbrev pub close_grace_max : ℕ
close_grace_max = 15 * 1000000000

abbrev pub close_quiet_timeout : ℕ
close_quiet_timeout = 60 * 1000000000

-- Why the wait ended.
pub data GraceEnd : Type 0 where
  closed delivered grace_expired quiet_expired : GraceEnd

-- A turn of the wait sees the connection and the clock.
pub record Poll (C : Type 0) : Type 0 where
  pub vconn : VirtConn C
  pub now : ℕ

-- The time of the first turn that saw the FIN.
abbrev pub seen_at : Option ℕ → ℕ → ℕ
seen_at none now = now
seen_at (some seen) now = seen

module _ {C : Type 0} where
  abbrev pub is_complete : VirtConn C → Bool
  is_complete vc = is_complete_through vc.reorder vc.fin_seq

  -- The wait over the turns so far; `none` is a wait that goes on.
  unfoldable pub grace_wait : Option ℕ → List (Poll C) → Option GraceEnd
  grace_wait seen [] = none
  grace_wait seen (p ∷ ps) =
      let fin_waits = grace_wait (some (seen_at seen p.now)) ps in
      let waits = grace_wait seen ps in
      if p.vconn.closed
      then some closed
      else if p.vconn.fin_received
      then (if is_complete p.vconn
          then some delivered
          else if leb close_grace_max (p.now - seen_at seen p.now)
          then some grace_expired
          else fin_waits)
      else if leb close_quiet_timeout (p.now - p.vconn.last_active)
      then some quiet_expired
      else waits

  -- A turn that lets the wait go on, where the FIN was seen first at `seen`.
  abbrev pub GoesOn : ℕ → Poll C → Type 0
  GoesOn seen p =
      (p.vconn.closed ≡ false)
      × ((p.vconn.fin_received ≡ true)
            × (is_complete p.vconn ≡ false)
            × (p.now < seen + close_grace_max)
          ⊎ (p.vconn.fin_received ≡ false) × (p.now < p.vconn.last_active + close_quiet_timeout))

  -- A turn that ends the wait.
  abbrev pub Ends : ℕ → Poll C → GraceEnd → Type 0
  Ends seen p closed = p.vconn.closed ≡ true
  Ends seen p delivered =
      (p.vconn.closed ≡ false) × (p.vconn.fin_received ≡ true) × (is_complete p.vconn ≡ true)
  Ends seen p grace_expired =
      (p.vconn.closed ≡ false)
      × (p.vconn.fin_received ≡ true)
      × (is_complete p.vconn ≡ false)
      × (seen + close_grace_max ≤ p.now)
  Ends seen p quiet_expired =
      (p.vconn.closed ≡ false)
      × (p.vconn.fin_received ≡ false)
      × (p.vconn.last_active + close_quiet_timeout ≤ p.now)

  -- The time at which the turns saw the FIN first, from one that is known on; 0 if none did.
  abbrev pub first_seen : Option ℕ → List (Poll C) → ℕ
  first_seen (some seen) ps = seen
  first_seen none [] = 0
  first_seen none (p ∷ ps) = if p.vconn.fin_received then p.now else first_seen none ps

  -- A wait over the turns, and what it has come to.
  pub data Waited (seen : ℕ) : List (Poll C) → Option GraceEnd → Type 0 where
    starts : Waited seen [] none
    goes_on :
        (p : Poll C) (ps : List (Poll C)) (r : Option GraceEnd)
        → GoesOn seen p
        → Waited seen ps r
        → Waited seen (p ∷ ps) r
    ends :
        (p : Poll C) (ps : List (Poll C)) (e : GraceEnd)
        → Ends seen p e
        → Waited seen (p ∷ ps) (some e)

  pub seen_first :
      (seen : Option ℕ) (p : Poll C) (ps : List (Poll C))
      → p.vconn.fin_received ≡ true
      → first_seen seen (p ∷ ps) ≡ seen_at seen p.now
  seen_first none p ps e = rw e refl
  seen_first (some t) p ps e = refl

  pub seen_later :
      (seen : Option ℕ) (p : Poll C) (ps : List (Poll C))
      → p.vconn.fin_received ≡ false
      → first_seen seen (p ∷ ps) ≡ first_seen seen ps
  seen_later none p ps e = rw e refl
  seen_later (some t) p ps e = refl

  pub grace_wait_from :
      (seen : Option ℕ) (ps : List (Poll C)) → Waited (first_seen seen ps) ps (grace_wait seen ps)
  unfolding grace_wait
  grace_wait_from none [] = starts
  grace_wait_from (some t) [] = starts
  grace_wait_from seen (p ∷ ps) = elim (Bool-cases p.vconn.closed) [
    | inl c ↦ by_turn (grace_wait seen (p ∷ ps)) (some closed) (ground arith) (ends p ps closed c)
    | inr c ↦ elim (Bool-cases p.vconn.fin_received) [
      | inl f ↦
          let here = seen_first seen p ps f in
          elim (Bool-cases (is_complete p.vconn)) [
            | inl d ↦
                by_turn (grace_wait seen (p ∷ ps)) (some delivered) (ground arith)
                  (ends p ps delivered (c, f, d))
            | inr d ↦ elim (Bool-cases (leb close_grace_max (p.now - seen_at seen p.now))) [
              | inl l ↦
                  by_turn (grace_wait seen (p ∷ ps)) (some grace_expired) (ground arith)
                    (ends p ps grace_expired (c, f, d, ground (arith, here)))
              | inr l ↦
                  by_turn (grace_wait seen (p ∷ ps)) (grace_wait (some (seen_at seen p.now)) ps)
                    (ground arith)
                    (goes_on p ps _ (c, inl (f, d, ground (arith, here)))
                      (subst (λ s. Waited s ps (grace_wait (some (seen_at seen p.now)) ps))
                        (sym here) (grace_wait_from (some (seen_at seen p.now)) ps)))
            ]
          ]
      | inr f ↦ elim (Bool-cases (leb close_quiet_timeout (p.now - p.vconn.last_active))) [
        | inl l ↦
            by_turn (grace_wait seen (p ∷ ps)) (some quiet_expired) (ground arith)
              (ends p ps quiet_expired (c, f, ground arith))
        | inr l ↦ by_turn (grace_wait seen (p ∷ ps)) (grace_wait seen ps) (ground arith) (
            goes_on p ps _ (c, inr (f, ground arith))
              (subst (λ s. Waited s ps (grace_wait seen ps)) (sym (seen_later seen p ps f))
                (grace_wait_from seen ps)))
      ]
    ]
  ]
    where
      by_turn :
          (x y : Option GraceEnd)
          → x ≡ y
          → Waited (first_seen seen (p ∷ ps)) (p ∷ ps) y
          → Waited (first_seen seen (p ∷ ps)) (p ∷ ps) x
      by_turn x y e w = subst (Waited (first_seen seen (p ∷ ps)) (p ∷ ps)) (sym e) w
