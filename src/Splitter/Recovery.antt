-- ===== src/Splitter/Recovery.antt =====
-- src/splitter.rs: what follows when a tunnel dies with frames in its queue, and the pause before it
-- connects again.
use Prim.Native.Nat.{bit_or}
use round_robin.Common.{
  ℕ, zero, suc, ◌*◌, ◌^◌, ◌≤◌, ◌≡◌, ◌≢◌, refl, sym, ap, ◌∙◌, ◌⊎◌, inl, inr, false, none, some, List,
  [], ◌∷◌, lookup, min, ◌==◌, ==→eq, if◌then◌else◌, arith, Option-cases, Bool-cases,
}
use round_robin.Frame.{has_flag, Frame, flag_syn, flag_fin, flag_rst}
use round_robin.Pool.{Mpsc}
use round_robin.Splitter.{State, send_frame, reset_conn}
use round_robin.Splitter.Reset.{IsLinked, reset_conn_lem}

-- `FLAG_SYN | FLAG_FIN | FLAG_RST`
abbrev pub control_flags : ℕ
control_flags = bit_or flag_syn (bit_or flag_fin flag_rst)

-- The seconds before the next attempt, after `retry_count` failures on end.
unfoldable pub delay_secs : ℕ → ℕ
delay_secs retry_count = if retry_count == 0 then 3 else min 24 (3 * 2 ^ min retry_count 3)

module _ (client : Mpsc (List ℕ)) (tunnel : Mpsc Frame) where
  -- A lost control frame is sent again; a connection that lost DATA is reset.
  unfoldable pub recover_frame :
      State client.Sender tunnel.Sender → Frame → ℕ → State client.Sender tunnel.Sender
  recover_frame st f now =
      if has_flag f.flags control_flags
      then send_frame client tunnel st f
      else elim (lookup f.conn_id st.conns) [
        | none ↦ st
        | some at ↦ reset_conn client tunnel st f.conn_id now
      ]

  -- The `for f in lost` loop.
  unfoldable pub recover :
      State client.Sender tunnel.Sender → List Frame → ℕ → State client.Sender tunnel.Sender
  unfolding recover_frame
  recover st [] now = st
  recover st (f ∷ lost) now = recover (recover_frame st f now) lost now

  -- Some frame of the list is DATA of the connection.
  abbrev pub LostData : ℕ → List Frame → Type 0
  LostData k [] = ⊥
  LostData k (f ∷ lost) =
      ((f.conn_id ≡ k) × (has_flag f.flags control_flags ≡ false)) ⊎ LostData k lost

  -- What one lost frame does to the map and to TIME_WAIT at an id.
  abbrev pub Recovered :
      State client.Sender tunnel.Sender → State client.Sender tunnel.Sender → ℕ → ℕ → Type 0
  Recovered st st' now k =
      ((lookup k st'.conns ≡ lookup k st.conns) × (lookup k st'.time_wait ≡ lookup k st.time_wait))
      ⊎ ((lookup k st'.conns ≡ none) × (lookup k st'.time_wait ≡ some now))

  reset_recovers :
      (st : State client.Sender tunnel.Sender) (cid now k : ℕ)
      → IsLinked st
      → let st' = reset_conn client tunnel st cid now in
        IsLinked st'
        × Recovered st st' now k
        × (cid ≡ k → lookup k st'.conns ≡ none)
        × (cid ≢ k
            → (lookup k st'.conns ≡ lookup k st.conns)
              × (lookup k st'.time_wait ≡ lookup k st.time_wait))
  reset_recovers st cid now k v =
      let (v', forgets, _, _, _) = reset_conn_lem client tunnel st cid now v in
      elim (Bool-cases (cid == k)) [
        | inl e ↦ (
          v',
          inr (forgets.unmapped k ∙ rw e refl, forgets.tombstone k ∙ rw e refl),
          (λ p. forgets.unmapped k ∙ rw e refl),
          (λ ne. absurd (ne (==→eq cid k e))),
        )
        | inr e ↦
            let conns : lookup k (reset_conn client tunnel st cid now).conns ≡ lookup k st.conns =
              forgets.unmapped k ∙ rw e refl in
            let waits : lookup k (reset_conn client tunnel st cid now).time_wait
                ≡ lookup k st.time_wait =
              forgets.tombstone k ∙ rw e refl in
            (v', inl (conns, waits), (λ p. absurd (differs e p)), (λ ne. (conns, waits)))
      ]
    where
      differs : (cid == k) ≡ false → ¬ (cid ≡ k)
      differs e p = ground arith

  recover_frame_lem :
      (st : State client.Sender tunnel.Sender) (f : Frame) (now k : ℕ)
      → IsLinked st
      → let st' = recover_frame st f now in
        IsLinked st'
        × Recovered st st' now k
        × ((f.conn_id ≡ k) × (has_flag f.flags control_flags ≡ false) → lookup k st'.conns ≡ none)
        × (¬ ((f.conn_id ≡ k) × (has_flag f.flags control_flags ≡ false))
            → (lookup k st'.conns ≡ lookup k st.conns)
              × (lookup k st'.time_wait ≡ lookup k st.time_wait))
  unfolding recover_frame
  recover_frame_lem st f now k v = elim (Bool-cases (has_flag f.flags control_flags)) [
    | inl c ↦
        rw (c, recover_frame)
          (record { linked = v.linked }, inl (refl, refl), (λ h. cc), (λ h. (refl, refl)))
    | inr c ↦ elim (Option-cases (lookup f.conn_id st.conns)) [
      | inl e ↦
          rw (c, e, recover_frame)
            (
              v,
              inl (refl, refl),
              (λ h. ap (λ j. lookup j st.conns) (sym h.0) ∙ e),
              (λ h. (refl, refl)),
            )
      | inr (at, e) ↦
          let (v', r, hit, miss) = reset_recovers st f.conn_id now k v in
          rw (c, e, recover_frame) (v', r, (λ h. hit h.0), (λ h. miss (λ p. h (p, refl))))
    ]
  ]

  -- After the recovery from a dead tunnel no connection that lost DATA is in the map, every id that
  -- left the map is in TIME_WAIT, and an id that lost no DATA stays as it is in both.
  pub recover_lem :
      (st : State client.Sender tunnel.Sender) (lost : List Frame) (now k : ℕ)
      → IsLinked st
      → let st' = recover st lost now in
        IsLinked st'
        × Recovered st st' now k
        × (LostData k lost → lookup k st'.conns ≡ none)
        × (¬ LostData k lost
            → (lookup k st'.conns ≡ lookup k st.conns)
              × (lookup k st'.time_wait ≡ lookup k st.time_wait))
  unfolding recover
  recover_lem st [] now k v = (v, inl (refl, refl), (λ h. absurd h), (λ h. (refl, refl)))
  recover_lem st (f ∷ lost) now k v =
      let mid = recover_frame st f now in
      let last = recover mid lost now in
      let (v1, r1, hit1, miss1) = recover_frame_lem st f now k v in
      let (v2, r2, hit2, miss2) = recover_lem mid lost now k v1 in
      (
        v2,
        after st mid last r1 r2,
        (λ h. elim h [ inl here ↦ gone mid last r2 (hit1 here) | inr there ↦ hit2 there ]),
        (λ h.
            let (c1, t1) = miss1 (λ here. h (inl here)) in
            let (c2, t2) = miss2 (λ there. h (inr there)) in (c2 ∙ c1, t2 ∙ t1)),
      )
    where
      after :
          (a b c : State client.Sender tunnel.Sender)
          → Recovered a b now k
          → Recovered b c now k
          → Recovered a c now k
      after a b c r (inr q) = inr q
      after a b c (inl (c1, t1)) (inl (c2, t2)) = inl (c2 ∙ c1, t2 ∙ t1)
      after a b c (inr (c1, t1)) (inl (c2, t2)) = inr (c2 ∙ c1, t2 ∙ t1)

      gone :
          (b c : State client.Sender tunnel.Sender)
          → Recovered b c now k
          → lookup k b.conns ≡ none
          → lookup k c.conns ≡ none
      gone b c (inl (same, t)) e = same ∙ e
      gone b c (inr (none_, t)) e = none_

delay_secs-cases :
    (n : ℕ)
    → ((n ≡ 0) × (delay_secs n ≡ 3))
      ⊎ ((n ≡ 1) × (delay_secs n ≡ 6))
      ⊎ ((n ≡ 2) × (delay_secs n ≡ 12))
      ⊎ ((3 ≤ n) × (delay_secs n ≡ 24))
unfolding delay_secs
delay_secs-cases zero = inl (refl, refl)
delay_secs-cases (suc zero) = inr (inl (refl, refl))
delay_secs-cases (suc (suc zero)) = inr (inr (inl (refl, refl)))
delay_secs-cases (suc (suc (suc n))) = inr (inr (inr (omega arith, ground arith)))

-- The pause lies between 3 and 24 seconds, and more failures never make it shorter.
pub delay_secs_grows :
    (m n : ℕ) → m ≤ n → (3 ≤ delay_secs m) × (delay_secs m ≤ delay_secs n) × (delay_secs n ≤ 24)
delay_secs_grows m n h = omega (arith, delay_secs-cases m, delay_secs-cases n)
