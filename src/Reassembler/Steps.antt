-- ===== src/Reassembler/Steps.antt =====
-- The runs of the reassembler: each step is one frame, one answer for which a handler waited, one chunk
-- or the end of an egress task, one timer, one heartbeat, or a change of the tunnels, in any order.
use round_robin.Common.{
  ℕ, ◌+◌, ◌-◌, ◌/◌, ◌^◌, ◌≤◌, ◌<◌, ◌≡◌, refl, sym, subst, inl, inr, Bool, true, false, none, some,
  List, [], ◌∷◌, length, lookup, if_both, ltb, if◌then◌else◌, Bool-cases, weigh, HasUniqueKeys,
  AllValues, arith,
}
use round_robin.Frame.{Frame}
use round_robin.Pool.{Mpsc, TunnelPool}
use round_robin.Reassembler.{
  VirtConnDe, PendingEntry, ReadLoopCtx, write_vconn, tombstone, fire, send_rst, pending_ttl_secs,
}
use round_robin.Reassembler.Pending.{split_stale, fail_swept, sweep_stale_pending}
use round_robin.Reassembler.HalfClose.{close_write_half}
use round_robin.Reassembler.Handler.{handle_frame}
use round_robin.Reassembler.Handshake.{Connect, syn_start, udp_bound, connected}
use round_robin.Reassembler.Heartbeat.{is_expired, sweep_vconn, sweep_vconns, heartbeat}
use round_robin.Reassembler.Egress.{
  Ending, torn_down, stream_over, send_failed, note_sent, end_of_egress,
}
use round_robin.Reassembler.Budget.{IsEntry, bytes_in}
use round_robin.Reassembler.Wired.{HasEgress, found_vconn}
use round_robin.Reassembler.Kinds.{same_channel, close_write_half-SameKind}
use round_robin.Reassembler.Invariant.{
  IsConsistent, IsConsistent-write, tear_out-IsConsistent, finish_if_done-IsConsistent,
  handle_frame-IsConsistent,
}
use round_robin.Reassembler.Setup.{
  syn_start-IsConsistent, udp_bound-IsConsistent, connected-IsConsistent,
}

-- The entries that are kept and those that are swept are those of the map.
split_stale-IsBudgeted :
    (now ttl : ℕ) (m : List (ℕ × PendingEntry))
    → HasUniqueKeys m
    → AllValues IsEntry m
    → let s = split_stale now ttl m in
      HasUniqueKeys s.0
      × AllValues IsEntry s.0
      × (weigh bytes_in m < 2 ^ 63 → weigh bytes_in s.0 + s.2 ≡ weigh bytes_in m)
      × ((k : ℕ) → lookup k m ≡ none → lookup k s.0 ≡ none)
split_stale-IsBudgeted now ttl [] u a = (tt, tt, (λ h. omega arith), (λ k h. refl))
split_stale-IsBudgeted now ttl ((k, e) ∷ m) u a =
    let (u', a', sum, absent) = split_stale-IsBudgeted now ttl m u.1 a.1 in
    elim (Bool-cases (ltb ((now - e.since) / 1000000000) ttl)) [
      | inl p ↦ rw p (
        (absent k u.0, u'),
        (a.0, a'),
        (λ h. omega (arith, sum (omega arith))),
        (λ j h. kept j h (absent j)),
      )
      | inr p ↦
          rw p (u', a', (λ h. omega (arith, sum (omega arith))), (λ j h. absent j (later j h)))
    ]
  where
    later : (j : ℕ) → lookup j ((k, e) ∷ m) ≡ none → lookup j m ≡ none
    later j h = ground arith

    kept :
        (j : ℕ)
        → lookup j ((k, e) ∷ m) ≡ none
        → (lookup j m ≡ none → lookup j (split_stale now ttl m).0 ≡ none)
        → lookup j ((k, e) ∷ (split_stale now ttl m).0) ≡ none
    kept j h f = ground (arith, f (later j h))

module _ {E : Type 0} (tunnel : Mpsc Frame) where
  fail_swept-IsConsistent :
      (ctx : ReadLoopCtx E tunnel.Sender) (swept : List (ℕ × PendingEntry)) (now : ℕ)
      → IsConsistent ctx
      → IsConsistent (fail_swept tunnel ctx swept now)
  fail_swept-IsConsistent ctx [] now v = v
  fail_swept-IsConsistent ctx ((cid, entry) ∷ swept) now v =
      fail_swept-IsConsistent (send_rst tunnel (tombstone (fire ctx entry.cancel) cid now) cid)
        swept now (record { wired = v.wired; budgeted = v.budgeted })

  pub sweep_stale_pending-IsConsistent :
      (ctx : ReadLoopCtx E tunnel.Sender) (now ttl : ℕ)
      → IsConsistent ctx
      → IsConsistent (sweep_stale_pending tunnel ctx now ttl)
  unfolding sweep_stale_pending
  sweep_stale_pending-IsConsistent ctx now ttl v =
      let b = v.budgeted in
      let (u, a, sum, absent) = split_stale-IsBudgeted now ttl ctx.pending b.unique b.entries in
      let counts = b.counts in
      let within = b.within in
      let exact = sum (omega arith) in
      fail_swept-IsConsistent _ (split_stale now ttl ctx.pending).1 now (record {
        wired = v.wired;
        budgeted = record { unique = u; counts = omega arith; within = omega arith; entries = a };
      })

  sweep_vconn-IsConsistent :
      (ctx : ReadLoopCtx E tunnel.Sender) (cid now : ℕ)
      → IsConsistent ctx
      → IsConsistent (sweep_vconn tunnel ctx cid now)
  unfolding sweep_vconn
  sweep_vconn-IsConsistent ctx cid now v = elim (found_vconn ctx cid v.wired) [
    | inl (f, e) ↦ rw (f, sweep_vconn) v
    | inr (at, vc, f, e, h, lt, g) ↦
        let t =
          tear_out-IsConsistent (tombstone ctx cid now) cid
            (record { wired = v.wired; budgeted = v.budgeted }) in
        rw (f, sweep_vconn)
          (if_both IsConsistent (is_expired tunnel vc now) _ _
            (record { wired = t.wired; budgeted = t.budgeted }) v)
  ]

  sweep_vconns-IsConsistent :
      (ctx : ReadLoopCtx E tunnel.Sender) (cids : List ℕ) (now : ℕ)
      → IsConsistent ctx
      → IsConsistent (sweep_vconns tunnel ctx cids now)
  unfolding sweep_vconns
  sweep_vconns-IsConsistent ctx [] now v = v
  sweep_vconns-IsConsistent ctx (cid ∷ cids) now v =
      sweep_vconns-IsConsistent (sweep_vconn tunnel ctx cid now) cids now
        (sweep_vconn-IsConsistent ctx cid now v)

  heartbeat-IsConsistent :
      (ctx : ReadLoopCtx E tunnel.Sender) (cids : List ℕ) (now now_ms : ℕ)
      → IsConsistent ctx
      → IsConsistent (heartbeat tunnel ctx cids now now_ms)
  unfolding heartbeat
  heartbeat-IsConsistent ctx cids now now_ms v =
      let s =
        sweep_vconns-IsConsistent (record ctx { pool = _ }) cids now
          (record { wired = v.wired; budgeted = v.budgeted }) in
      let p =
        sweep_stale_pending-IsConsistent _ now pending_ttl_secs
          (record { wired = s.wired; budgeted = s.budgeted }) in
      record { wired = p.wired; budgeted = p.budgeted }

  end_of_egress-IsConsistent :
      (ctx : ReadLoopCtx E tunnel.Sender) (at : ℕ) (vc : VirtConnDe E) (cid : ℕ) (ending : Ending)
      (fin_sent : Bool) (now : ℕ)
      → IsConsistent ctx
      → at < ctx.next
      → HasEgress vc
      → IsConsistent (end_of_egress tunnel ctx at vc cid ending fin_sent now)
  unfolding end_of_egress
  end_of_egress-IsConsistent ctx at vc cid torn_down fin_sent now v lt h = v
  end_of_egress-IsConsistent ctx at vc cid send_failed fin_sent now v lt h =
      let t =
        tear_out-IsConsistent (tombstone ctx cid now) cid
          (record { wired = v.wired; budgeted = v.budgeted }) in
      record { wired = t.wired; budgeted = t.budgeted }
  end_of_egress-IsConsistent ctx at vc cid stream_over fin_sent now v lt h =
      let over = record vc { egress_eof = true } in
      finish_if_done-IsConsistent _ over cid now (
        IsConsistent-write (if fin_sent then ctx else send_rst tunnel ctx cid) at vc over
          (told fin_sent) (told_next fin_sent) h (same_channel vc over refl refl))
    where
      told : (b : Bool) → IsConsistent (if b then ctx else send_rst tunnel ctx cid)
      told true = v
      told false = record { wired = v.wired; budgeted = v.budgeted }

      told_next : (b : Bool) → at < (if b then ctx else send_rst tunnel ctx cid).next
      told_next true = lt
      told_next false = lt

module _ (egress : Mpsc (List ℕ)) (tunnel : Mpsc Frame) where
  -- One step, whoever takes it. The tasks of a connection work on its address, also when the map no
  -- longer leads there.
  pub data Step (ctx ctx' : ReadLoopCtx egress.Sender tunnel.Sender) : Type 0 where
    frame_arrives :
        (f : Frame) (now : ℕ)
        → length f.payload ≤ 65535
        → ctx' ≡ handle_frame egress tunnel ctx f now
        → Step ctx ctx'
    syn_arrives : (f : Frame) (now : ℕ) → ctx' ≡ (syn_start tunnel ctx f now).0 → Step ctx ctx'
    sockets_bound :
        (cid : ℕ) (bound : Bool) (now : ℕ)
        → ctx' ≡ udp_bound egress tunnel ctx cid bound now
        → Step ctx ctx'
    target_answers :
        (cid : ℕ) (c : Connect egress.Sender) (now : ℕ)
        → ctx' ≡ connected egress tunnel ctx cid c now
        → Step ctx ctx'
    reader_ends :
        (at : ℕ) (vc : VirtConnDe egress.Sender) (cid : ℕ) (ending : Ending) (fin_sent : Bool)
        (now : ℕ)
        → lookup at ctx.heap ≡ some vc
        → ctx' ≡ end_of_egress tunnel ctx at vc cid ending fin_sent now
        → Step ctx ctx'
    chunk_sent :
        (at : ℕ) (vc : VirtConnDe egress.Sender) (n now : ℕ)
        → lookup at ctx.heap ≡ some vc
        → ctx' ≡ write_vconn ctx at (note_sent vc n now)
        → Step ctx ctx'
    channel_drains :
        (at : ℕ) (vc : VirtConnDe egress.Sender) (tx : egress.Sender)
        → lookup at ctx.heap ≡ some vc
        → ctx' ≡ write_vconn ctx at (record vc { egress = some tx })
        → Step ctx ctx'
    tunnels_change :
        (pool : TunnelPool tunnel.Sender) → ctx' ≡ record ctx { pool = pool } → Step ctx ctx'
    timer_fires :
        (at : ℕ) (vc : VirtConnDe egress.Sender)
        → lookup at ctx.heap ≡ some vc
        → ctx' ≡ write_vconn ctx at (close_write_half vc true)
        → Step ctx ctx'
    heart_beats :
        (cids : List ℕ) (now now_ms : ℕ)
        → ctx' ≡ heartbeat tunnel ctx cids now now_ms
        → Step ctx ctx'

  pub data Reach (ctx : ReadLoopCtx egress.Sender tunnel.Sender)
      : ReadLoopCtx egress.Sender tunnel.Sender → Type 0 where
    here : Reach ctx ctx
    next :
        {mid last : ReadLoopCtx egress.Sender tunnel.Sender}
        → Reach ctx mid
        → Step mid last
        → Reach ctx last

  Step-IsConsistent :
      (ctx ctx' : ReadLoopCtx egress.Sender tunnel.Sender)
      → Step ctx ctx'
      → IsConsistent ctx
      → IsConsistent ctx'
  Step-IsConsistent ctx ctx' (frame_arrives f now small e) v =
      subst IsConsistent (sym e) (handle_frame-IsConsistent egress tunnel ctx f now v (omega arith))
  Step-IsConsistent ctx ctx' (syn_arrives f now e) v =
      subst IsConsistent (sym e) (syn_start-IsConsistent tunnel ctx f now v)
  Step-IsConsistent ctx ctx' (sockets_bound cid bound now e) v =
      subst IsConsistent (sym e) (udp_bound-IsConsistent egress tunnel ctx cid bound now v)
  Step-IsConsistent ctx ctx' (target_answers cid c now e) v =
      subst IsConsistent (sym e) (connected-IsConsistent egress tunnel ctx cid c now v)
  Step-IsConsistent ctx ctx' (reader_ends at vc cid ending fin_sent now h e) v =
      let (lt, g) = v.wired.old at vc h in
      subst IsConsistent (sym e)
        (end_of_egress-IsConsistent tunnel ctx at vc cid ending fin_sent now v lt g)
  Step-IsConsistent ctx ctx' (chunk_sent at vc n now h e) v =
      let (lt, g) = v.wired.old at vc h in
      subst IsConsistent (sym e) (
        IsConsistent-write ctx at vc (note_sent vc n now) v lt g
          (same_channel vc (note_sent vc n now) refl refl))
  Step-IsConsistent ctx ctx' (channel_drains at vc tx h e) v =
      let (lt, g) = v.wired.old at vc h in
      subst IsConsistent (sym e) (
        IsConsistent-write ctx at vc (record vc { egress = some tx }) v lt g
          (record { same_udp = refl; still_there = λ t k. (tx, refl) }))
  Step-IsConsistent ctx ctx' (tunnels_change pool e) v =
      subst IsConsistent (sym e) (record { wired = v.wired; budgeted = v.budgeted })
  Step-IsConsistent ctx ctx' (timer_fires at vc h e) v =
      let (lt, g) = v.wired.old at vc h in
      subst IsConsistent (sym e) (
        IsConsistent-write ctx at vc (close_write_half vc true) v lt g
          (close_write_half-SameKind vc true))
  Step-IsConsistent ctx ctx' (heart_beats cids now now_ms e) v =
      subst IsConsistent (sym e) (heartbeat-IsConsistent tunnel ctx cids now now_ms v)

  -- Whatever steps follow each other from a consistent state, the state stays consistent: each connection of the map is on the heap, a TCP connection with its channel; the
  -- byte counter is exactly what waits, within the budget of 64 MiB; and each id has one entry at
  -- most, of at most 256 frames, whose bytes are counted.
  pub Reach-IsConsistent :
      (ctx last : ReadLoopCtx egress.Sender tunnel.Sender)
      → Reach ctx last
      → IsConsistent ctx
      → IsConsistent last
  Reach-IsConsistent ctx _ here v = v
  Reach-IsConsistent ctx _ (next {mid} {last} r s) v =
      Step-IsConsistent mid last s (Reach-IsConsistent ctx mid r v)
