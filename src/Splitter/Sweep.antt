-- ===== src/Splitter/Sweep.antt =====
-- src/splitter.rs: the heartbeat's sweep of the connections, and `fin_sweep_decision`.
-- `holders` stands for `Arc::strong_count`, by address: the map is one holder of a connection and its
-- handler another. The clock stands still during one sweep.
use round_robin.Common.{
  ℕ, ◌+◌, ◌-◌, ◌*◌, ◌/◌, ◌≤◌, ◌<◌, ◌≡◌, ◌≢◌, refl, sym, ap, ◌∙◌, ◌⊎◌, inl, inr, Bool, true, ◌&&◌,
  none, some, List, [], ◌∷◌, lookup, remove, insert, lookup-remove, lookup-insert, some-injective,
  ltb, leb, ◌==◌, ==→eq, if◌then◌else◌, arith, Option-cases, Bool-cases,
}
use round_robin.Frame.{Frame}
use round_robin.Frame.New.{rst_frame}
use round_robin.Reorder.{is_complete_through}
use round_robin.Pool.{Mpsc}
use round_robin.Splitter.{VirtConn, State, find_conn, write_conn, torn_down, send_frame}

abbrev pub tcp_idle_secs : ℕ
tcp_idle_secs = 300

abbrev pub udp_idle_secs : ℕ
udp_idle_secs = 60

abbrev pub fin_complete_idle_secs : ℕ
fin_complete_idle_secs = 30

unfoldable pub fin_sweep_decision : Bool → ℕ → Bool → Bool
fin_sweep_decision complete fin_idle handler_alive =
    let limit = if handler_alive then tcp_idle_secs else 30 in
    if ltb limit fin_idle then true else complete && ltb fin_complete_idle_secs fin_idle

-- What the closure of `retain` decides on a connection.
pub data Verdict : Type 0 where
  keeps orphaned expires : Verdict

module _ {C : Type 0} where
  -- `now.duration_since(last_active).as_secs()`, which is 0 for a time that is not past.
  abbrev pub idle_secs : VirtConn C → ℕ → ℕ
  idle_secs vc now = (now - vc.last_active) / 1000000000

  unfoldable pub verdict : VirtConn C → ℕ → ℕ → Verdict
  unfolding fin_sweep_decision
  verdict vc holders now =
      if leb holders 1
      then orphaned
      else if vc.fin_received
      then if vc.grace_waiting
        then keeps
        else if fin_sweep_decision (is_complete_through vc.reorder vc.fin_seq) (idle_secs vc now)
            (ltb 1 holders)
        then expires
        else keeps
      else if ltb (if vc.is_udp then udp_idle_secs else tcp_idle_secs) (idle_secs vc now)
      then expires
      else keeps

  -- A connection that was active within the last 30 seconds and has its handler is kept.
  verdict_active :
      (vc : VirtConn C) (holders now : ℕ)
      → 1 < holders
      → now < vc.last_active + 31 * 1000000000
      → verdict vc holders now ≡ keeps
  unfolding verdict fin_sweep_decision
  verdict_active vc holders now h lt =
      let idle : idle_secs vc now ≤ 30 = omega arith in go (idle_secs vc now) idle
    where
      go :
          (idle : ℕ)
          → idle ≤ 30
          → (if leb holders 1
              then orphaned
              else if vc.fin_received
              then if vc.grace_waiting
                then keeps
                else if fin_sweep_decision
                    (is_complete_through vc.reorder vc.fin_seq)
                    idle
                    (ltb 1 holders)
                then expires
                else keeps
              else if ltb (if vc.is_udp then udp_idle_secs else tcp_idle_secs) idle
              then expires
              else keeps)
            ≡ keeps
      go idle le = ground arith

module _ (client : Mpsc (List ℕ)) (tunnel : Mpsc Frame) where
  -- The end of the closure for a connection that is not kept.
  abbrev pub sweep_out :
      State client.Sender tunnel.Sender → ℕ → ℕ → State client.Sender tunnel.Sender
  sweep_out st cid now = record (send_frame client tunnel st (rst_frame cid)) {
    time_wait = insert cid now st.time_wait;
    conns = remove cid st.conns;
  }

  unfoldable pub sweep_conn :
      State client.Sender tunnel.Sender → (ℕ → ℕ) → ℕ → ℕ → State client.Sender tunnel.Sender
  unfolding verdict
  sweep_conn st holders cid now = elim (find_conn st cid) [
    | none ↦ st
    | some (at, vc) ↦ elim (verdict vc (holders at) now) [
      | keeps ↦ st
      | orphaned ↦ sweep_out (write_conn st at (record vc { rst = true })) cid now
      | expires ↦ sweep_out (write_conn st at (torn_down vc)) cid now
    ]
  ]

  -- `hb_conns.retain(…)` over the ids of the map in some order.
  unfoldable pub sweep_conns :
      State client.Sender tunnel.Sender → (ℕ → ℕ) → List ℕ → ℕ → State client.Sender tunnel.Sender
  unfolding sweep_conn
  sweep_conns st holders [] now = st
  sweep_conns st holders (cid ∷ cids) now =
      sweep_conns (sweep_conn st holders cid now) holders cids now

  Verdict-cases : (v : Verdict) → (v ≡ keeps) ⊎ (v ≡ orphaned) ⊎ (v ≡ expires)
  Verdict-cases keeps = inl refl
  Verdict-cases orphaned = inr (inl refl)
  Verdict-cases expires = inr (inr refl)

  -- What one round of the sweep does: nothing, or a connection that is not kept goes.
  pub record Sweeps (st st' : State client.Sender tunnel.Sender) (holders : ℕ → ℕ) (cid now : ℕ)
      : Type 0 where
    pub at : ℕ
    pub vc : VirtConn client.Sender
    pub mapped : lookup cid st.conns ≡ some at
    pub found : lookup at st.heap ≡ some vc
    pub not_kept : verdict vc (holders at) now ≢ keeps
    pub unmapped : (k : ℕ) → lookup k st'.conns ≡ (if cid == k then none else lookup k st.conns)
    pub tombstone :
        (k : ℕ) → lookup k st'.time_wait ≡ (if cid == k then some now else lookup k st.time_wait)
    pub others : (a : ℕ) → a ≢ at → lookup a st'.heap ≡ lookup a st.heap

  find_conn-cases :
      (st : State client.Sender tunnel.Sender) (cid : ℕ)
      → (find_conn st cid ≡ none)
        ⊎ ((at : ℕ) × (vc : VirtConn client.Sender) × (find_conn st cid ≡ some (at, vc))
            × (lookup cid st.conns ≡ some at)
            × (lookup at st.heap ≡ some vc))
  find_conn-cases st cid = elim (Option-cases (lookup cid st.conns)) [
    | inl e ↦ inl (rw (e, find_conn))
    | inr (at, e) ↦ elim (Option-cases (lookup at st.heap)) [
      | inl h ↦ inl (rw (e, h, find_conn))
      | inr (vc, h) ↦ inr (at, vc, rw (e, h, find_conn), e, h)
    ]
  ]

  swept_out :
      (st : State client.Sender tunnel.Sender) (holders : ℕ → ℕ) (cid now at : ℕ)
      (vc left : VirtConn client.Sender)
      → lookup cid st.conns ≡ some at
      → lookup at st.heap ≡ some vc
      → verdict vc (holders at) now ≢ keeps
      → Sweeps st (sweep_out (write_conn st at left) cid now) holders cid now
  swept_out st holders cid now at vc left e h v = record {
    at = at;
    vc = vc;
    mapped = e;
    found = h;
    not_kept = v;
    unmapped = λ k. lookup-remove cid k st.conns;
    tombstone = λ k. lookup-insert cid k now st.time_wait;
    others = λ a ne. elim (Bool-cases (at == a)) [
      | inl same ↦ absurd (ne (sym (==→eq at a same)))
      | inr other ↦ lookup-insert at a left st.heap ∙ rw other refl
    ];
  }

  sweep_conn-Sweeps :
      (st : State client.Sender tunnel.Sender) (holders : ℕ → ℕ) (cid now : ℕ)
      → (sweep_conn st holders cid now ≡ st)
        ⊎ Sweeps st (sweep_conn st holders cid now) holders cid now
  unfolding sweep_conn
  sweep_conn-Sweeps st holders cid now = elim (find_conn-cases st cid) [
    | inl e ↦ inl (rw (e, sweep_conn))
    | inr (at, vc, f, e, h) ↦ elim (Verdict-cases (verdict vc (holders at) now)) [
      | inl v ↦ inl (rw (f, v, sweep_conn))
      | inr (inl v) ↦ inr (
          rw (f, v, sweep_conn)
            (swept_out st holders cid now at vc _ e h (λ k. orphaned_not (sym v ∙ k))))
      | inr (inr v) ↦ inr (
          rw (f, v, sweep_conn)
            (swept_out st holders cid now at vc _ e h (λ k. expires_not (sym v ∙ k))))
    ]
  ]
    where
      orphaned_not : ¬ (orphaned ≡ keeps)
      orphaned_not p = cc

      expires_not : ¬ (expires ≡ keeps)
      expires_not p = cc

  sweep_conns_keep :
      (st : State client.Sender tunnel.Sender) (holders : ℕ → ℕ) (cids : List ℕ) (now k at : ℕ)
      (vc : VirtConn client.Sender)
      → lookup k st.conns ≡ some at
      → lookup at st.heap ≡ some vc
      → verdict vc (holders at) now ≡ keeps
      → let st' = sweep_conns st holders cids now in
        (lookup k st'.conns ≡ some at) × (lookup at st'.heap ≡ some vc)
  unfolding sweep_conns
  sweep_conns_keep st holders [] now k at vc e h v = (e, h)
  sweep_conns_keep st holders (cid ∷ cids) now k at vc e h v =
      let (e', h') = step (sweep_conn-Sweeps st holders cid now) in
      sweep_conns_keep (sweep_conn st holders cid now) holders cids now k at vc e' h' v
    where
      step :
          {st' : State client.Sender tunnel.Sender}
          → (st' ≡ st) ⊎ Sweeps st st' holders cid now
          → (lookup k st'.conns ≡ some at) × (lookup at st'.heap ≡ some vc)
      step (inl same) = (
        ap (λ (s : State client.Sender tunnel.Sender). lookup k s.conns) same ∙ e,
        ap (λ (s : State client.Sender tunnel.Sender). lookup at s.heap) same ∙ h,
      )
      step (inr s) =
          let apart : at ≢ s.at = λ p. s.not_kept (
            ap (λ a. verdict s.vc (holders a) now) (sym p)
            ∙ ap (λ w. verdict w (holders at) now)
                (some-injective (sym s.found ∙ ap (λ a. lookup a st.heap) (sym p) ∙ h))
            ∙ v) in
          elim (Bool-cases (cid == k)) [
            | inl p ↦ absurd (
                apart (
                  some-injective
                    (sym e ∙ ap (λ j. lookup j st.conns) (sym (==→eq cid k p)) ∙ s.mapped)))
            | inr p ↦ (s.unmapped k ∙ rw p e, s.others at apart ∙ h)
          ]

  -- A sweep keeps every connection that has its handler and was active within the last 30 seconds,
  -- and does not touch it.
  pub sweep_conns_active :
      (st : State client.Sender tunnel.Sender) (holders : ℕ → ℕ) (cids : List ℕ) (now k at : ℕ)
      (vc : VirtConn client.Sender)
      → lookup k st.conns ≡ some at
      → lookup at st.heap ≡ some vc
      → 1 < holders at
      → now < vc.last_active + 31 * 1000000000
      → let st' = sweep_conns st holders cids now in
        (lookup k st'.conns ≡ some at) × (lookup at st'.heap ≡ some vc)
  sweep_conns_active st holders cids now k at vc e h two recent =
      sweep_conns_keep st holders cids now k at vc e h
        (verdict_active vc (holders at) now two recent)

  -- An id leaves the map in a sweep only into TIME_WAIT, with the time of the sweep; every other id
  -- stays as it is in both.
  pub sweep_conns_tombstone :
      (st : State client.Sender tunnel.Sender) (holders : ℕ → ℕ) (cids : List ℕ) (now k : ℕ)
      → let st' = sweep_conns st holders cids now in
        ((lookup k st'.conns ≡ lookup k st.conns)
          × (lookup k st'.time_wait ≡ lookup k st.time_wait))
        ⊎ ((lookup k st'.conns ≡ none) × (lookup k st'.time_wait ≡ some now))
  unfolding sweep_conns
  sweep_conns_tombstone st holders [] now k = inl (refl, refl)
  sweep_conns_tombstone st holders (cid ∷ cids) now k =
      let mid = sweep_conn st holders cid now in
      let rest = sweep_conns_tombstone mid holders cids now k in
      elim rest [
        | inr gone ↦ inr gone
        | inl (c, t) ↦ elim (sweep_conn-Sweeps st holders cid now) [
          | inl same ↦ inl (
            c ∙ ap (λ (s : State client.Sender tunnel.Sender). lookup k s.conns) same,
            t ∙ ap (λ (s : State client.Sender tunnel.Sender). lookup k s.time_wait) same,
          )
          | inr s ↦ elim (Bool-cases (cid == k)) [
            | inl p ↦ inr (c ∙ s.unmapped k ∙ rw p refl, t ∙ s.tombstone k ∙ rw p refl)
            | inr p ↦ inl (c ∙ s.unmapped k ∙ rw p refl, t ∙ s.tombstone k ∙ rw p refl)
          ]
        ]
      ]
