-- ===== src/Splitter/Reset.antt =====
-- `reset_conn`: what it does to the connection, and that it touches no other.
use round_robin.Common.{
  add_u64, ℕ, ◌≡◌, refl, ap, ◌∙◌, ◌⊎◌, inl, inr, none, some, List, lookup, insert, lookup-remove,
  lookup-insert, ◌==◌, if◌then◌else◌, arith, Option-cases, Bool-cases,
}
use round_robin.Frame.{Frame}
use round_robin.Frame.New.{rst_frame}
use round_robin.Pool.{Mpsc, send}
use round_robin.Splitter.{VirtConn, State, find_conn, torn_down, reset_conn}

module _ {C S : Type 0} where
  -- Every connection of the map is on the heap.
  pub record IsLinked (st : State C S) : Type 0 where
    pub linked :
        (cid at : ℕ)
        → lookup cid st.conns ≡ some at
        → (vc : VirtConn C) × (lookup at st.heap ≡ some vc)

  -- The two lookups of `find_conn`.
  pub find_conn-some :
      (st : State C S) (cid at : ℕ) (vc : VirtConn C)
      → lookup cid st.conns ≡ some at
      → lookup at st.heap ≡ some vc
      → find_conn st cid ≡ some (at, vc)
  find_conn-some st cid at vc e h = rw (e, h, find_conn)

  pub find_conn-none :
      (st : State C S) (cid : ℕ) → lookup cid st.conns ≡ none → find_conn st cid ≡ none
  find_conn-none st cid e = rw (e, find_conn)

  -- The state with the id forgotten: in TIME_WAIT, and no longer in the map.
  pub record Forgets (st st' : State C S) (cid now : ℕ) : Type 0 where
    pub unmapped : (k : ℕ) → lookup k st'.conns ≡ (if cid == k then none else lookup k st.conns)
    pub tombstone :
        (k : ℕ) → lookup k st'.time_wait ≡ (if cid == k then some now else lookup k st.time_wait)

  -- The heap with the connection at `at` torn down.
  abbrev pub TearsDown : State C S → State C S → ℕ → VirtConn C → Type 0
  TearsDown st st' at vc =
      (k : ℕ) → lookup k st'.heap ≡ (if at == k then some (torn_down vc) else lookup k st.heap)

  was_mapped :
      (st st' : State C S) (cid now k a : ℕ)
      → Forgets st st' cid now
      → lookup k st'.conns ≡ some a
      → lookup k st.conns ≡ some a
  was_mapped st st' cid now k a forgets m = ground (arith, forgets.unmapped k)

  linked_still :
      (st st' : State C S) (cid now at a : ℕ) (vc : VirtConn C) (k : ℕ)
      → IsLinked st
      → Forgets st st' cid now
      → TearsDown st st' at vc
      → lookup k st'.conns ≡ some a
      → (w : VirtConn C) × (lookup a st'.heap ≡ some w)
  linked_still st st' cid now at a vc k v forgets down m =
      let (w, h) = v.linked k a (was_mapped st st' cid now k a forgets m) in
      elim (Bool-cases (at == a)) [
        | inl e ↦ (torn_down vc, down a ∙ rw e refl)
        | inr e ↦ (w, down a ∙ rw e h)
      ]

module _ (client : Mpsc (List ℕ)) (tunnel : Mpsc Frame) where
  -- A reset of a connection that is there: the id leaves the map and enters TIME_WAIT, its handler
  -- finds the connection closed and reset and is woken, an RST for the id is sent, the counter moves
  -- on by one, and no other id and no other connection is touched.
  pub reset_conn_present :
      (st : State client.Sender tunnel.Sender) (cid now at : ℕ) (vc : VirtConn client.Sender)
      → lookup cid st.conns ≡ some at
      → lookup at st.heap ≡ some vc
      → let st' = reset_conn client tunnel st cid now in
        Forgets st st' cid now
        × TearsDown st st' at vc
        × (st'.pool ≡ (send tunnel st.pool (rst_frame cid)).0)
        × (st'.resets ≡ add_u64 st.resets 1)
  unfolding reset_conn
  reset_conn_present st cid now at vc e h =
      rw
        (
          find_conn-some (record st { time_wait = insert cid now st.time_wait }) cid at vc e h,
          reset_conn,
        )
        (
          record {
            unmapped = λ k. lookup-remove cid k st.conns;
            tombstone = λ k. lookup-insert cid k now st.time_wait;
          },
          (λ k. lookup-insert at k (torn_down vc) st.heap),
          refl,
          refl,
        )

  -- A reset of an id that has no connection leaves a tombstone and sends the RST, and does no more.
  pub reset_conn_absent :
      (st : State client.Sender tunnel.Sender) (cid now : ℕ)
      → lookup cid st.conns ≡ none
      → let st' = reset_conn client tunnel st cid now in
        Forgets st st' cid now
        × (st'.heap ≡ st.heap)
        × (st'.pool ≡ (send tunnel st.pool (rst_frame cid)).0)
        × (st'.resets ≡ add_u64 st.resets 1)
  unfolding reset_conn
  reset_conn_absent st cid now e =
      rw (find_conn-none (record st { time_wait = insert cid now st.time_wait }) cid e, reset_conn)
        (
          record {
            unmapped = λ k. ground arith;
            tombstone = λ k. lookup-insert cid k now st.time_wait;
          },
          refl,
          refl,
          refl,
        )

  -- A reset of any id: it leaves the map and enters TIME_WAIT, other ids stay as they are in both,
  -- an RST for it is sent, and the counter moves on by one. If it had a connection, the handler finds
  -- that one closed and reset and is woken; no other connection is touched.
  pub reset_conn_lem :
      (st : State client.Sender tunnel.Sender) (cid now : ℕ)
      → IsLinked st
      → let st' = reset_conn client tunnel st cid now in
        IsLinked st'
        × Forgets st st' cid now
        × (st'.pool ≡ (send tunnel st.pool (rst_frame cid)).0)
        × (st'.resets ≡ add_u64 st.resets 1)
        × (((lookup cid st.conns ≡ none) × (st'.heap ≡ st.heap))
            ⊎ ((at : ℕ) × (vc : VirtConn client.Sender) × (lookup cid st.conns ≡ some at)
                × (lookup at st.heap ≡ some vc)
                × TearsDown st st' at vc))
  reset_conn_lem st cid now v = elim (Option-cases (lookup cid st.conns)) [
    | inl e ↦
        let (forgets, heap, pool, resets) = reset_conn_absent st cid now e in
        (
          record {
            linked = λ k a m.
                let (w, h) = v.linked k a (was_mapped st _ cid now k a forgets m) in
                (w, ap (lookup a) heap ∙ h);
          },
          forgets,
          pool,
          resets,
          inl (e, heap),
        )
    | inr (at, e) ↦
        let (vc, h) = v.linked cid at e in
        let (forgets, down, pool, resets) = reset_conn_present st cid now at vc e h in
        (
          record { linked = λ k a m. linked_still st _ cid now at a vc k v forgets down m },
          forgets,
          pool,
          resets,
          inr (at, vc, e, h, down),
        )
  ]
