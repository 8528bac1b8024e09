-- ===== src/Reassembler/Invariant.antt =====
-- The invariant of the reassembler's state, and that the frames without SYN keep it.
use round_robin.Common.{
  ℕ, ◌^◌, ◌<◌, ◌≡◌, refl, sym, subst, inl, inr, Bool, true, false, List, ◌∷◌, length, if_both,
  if◌then◌else◌, Bool-cases,
}
use round_robin.Frame.{Frame, flag_data, flag_fin, flag_rst, has_flag}
use round_robin.Pool.{Mpsc}
use round_robin.Reassembler.{VirtConnDe, ReadLoopCtx, write_vconn, tear_out, tombstone}
use round_robin.Reassembler.Pending.{cancel_pending}
use round_robin.Reassembler.HalfClose.{start_half_close, finish_if_done, is_done, on_fin}
use round_robin.Reassembler.Handler.{
  Fate, goes_on, breaks, delivered, settle, take_data, break_conn, on_udp_data, on_tcp_data, on_rst,
  handle_frame, forward_udp_datagram,
}
use round_robin.Reassembler.Budget.{IsBudgeted}
use round_robin.Reassembler.Wired.{
  HasEgress, IsWired, IsWired-write, IsWired-remove, found_vconn, tear_out-TornOut,
}
use round_robin.Reassembler.Kinds.{
  SameKind, SameKind-HasEgress, SameKind-trans, same_channel, start_half_close-SameKind,
  forward_udp_datagram-SameKind, take_data-SameKind, settle-SameKind,
}
use round_robin.Reassembler.Waiting.{Waits, cancel_pending-Waits}
use round_robin.Reassembler.Early.{on_early_data-Waits, on_early_fin-Waits}

module _ {E S : Type 0} where
  pub record IsConsistent (ctx : ReadLoopCtx E S) : Type 0 where
    pub wired : IsWired ctx.heap ctx.conns ctx.next
    pub budgeted : IsBudgeted ctx.pending ctx.pending_bytes 0

  pub IsConsistent-Waits :
      (ctx ctx' : ReadLoopCtx E S) → IsConsistent ctx → Waits ctx ctx' → IsConsistent ctx'
  IsConsistent-Waits ctx ctx' v w = record {
    wired = rw (w.kept.0, w.kept.1, w.kept.2) v.wired;
    budgeted = w.budgeted;
  }

  pub IsConsistent-write :
      (ctx : ReadLoopCtx E S) (at : ℕ) (vc vc' : VirtConnDe E)
      → IsConsistent ctx
      → at < ctx.next
      → HasEgress vc
      → SameKind vc vc'
      → IsConsistent (write_vconn ctx at vc')
  IsConsistent-write ctx at vc vc' v lt h k = record {
    wired =
        IsWired-write ctx.heap ctx.conns ctx.next at vc' v.wired lt (SameKind-HasEgress vc vc' k h);
    budgeted = v.budgeted;
  }

  pub tear_out-IsConsistent :
      (ctx : ReadLoopCtx E S) (cid : ℕ) → IsConsistent ctx → IsConsistent (tear_out ctx cid)
  tear_out-IsConsistent ctx cid v =
      let t = tear_out-TornOut ctx cid v.wired in
      record { wired = t.wired; budgeted = rest (tear_out ctx cid) t.rest_kept }
    where
      rest :
          (ctx' : ReadLoopCtx E S)
          → ctx' ≡ record ctx { heap = ctx'.heap; conns = ctx'.conns }
          → IsBudgeted ctx'.pending ctx'.pending_bytes 0
      rest ctx' same =
          subst (λ (c : ReadLoopCtx E S). IsBudgeted c.pending c.pending_bytes 0) (sym same)
            v.budgeted

  pub finish_if_done-IsConsistent :
      (ctx : ReadLoopCtx E S) (vc : VirtConnDe E) (cid now : ℕ)
      → IsConsistent ctx
      → IsConsistent (finish_if_done ctx vc cid now)
  unfolding finish_if_done
  finish_if_done-IsConsistent ctx vc cid now v = elim (Bool-cases (is_done vc)) [
    | inr h ↦ rw (h, finish_if_done) v
    | inl h ↦
        rw (h, finish_if_done)
          (record {
            wired = IsWired-remove ctx.heap ctx.conns ctx.next cid v.wired;
            budgeted = v.budgeted;
          })
  ]

  pub on_fin-IsConsistent :
      (ctx : ReadLoopCtx E S) (at : ℕ) (vc : VirtConnDe E) (seq cid now : ℕ)
      → IsConsistent ctx
      → at < ctx.next
      → HasEgress vc
      → IsConsistent (on_fin ctx at vc seq cid now)
  unfolding on_fin
  on_fin-IsConsistent ctx at vc seq cid now v lt h =
      let timed = if vc.fin_received then ctx else record ctx { timers = at ∷ ctx.timers } in
      finish_if_done-IsConsistent (write_vconn timed at (start_half_close vc seq))
        (start_half_close vc seq) cid now
        (IsConsistent-write timed at vc (start_half_close vc seq)
          (timed_IsConsistent vc.fin_received) (timed_next vc.fin_received) h
          (start_half_close-SameKind vc seq))
    where
      timed_IsConsistent :
          (b : Bool) → IsConsistent (if b then ctx else record ctx { timers = at ∷ ctx.timers })
      timed_IsConsistent true = v
      timed_IsConsistent false = record { wired = v.wired; budgeted = v.budgeted }

      timed_next :
          (b : Bool) → at < (if b then ctx else record ctx { timers = at ∷ ctx.timers }).next
      timed_next true = lt
      timed_next false = lt

module _ (egress : Mpsc (List ℕ)) (tunnel : Mpsc Frame) where
  -- Both sides reset.
  pub break_conn-IsConsistent :
      (ctx : ReadLoopCtx egress.Sender tunnel.Sender) (cid now : ℕ)
      → IsConsistent ctx
      → IsConsistent (break_conn egress tunnel ctx cid now)
  break_conn-IsConsistent ctx cid now v =
      let t =
        tear_out-IsConsistent (tombstone ctx cid now) cid
          (record { wired = v.wired; budgeted = v.budgeted }) in
      record { wired = t.wired; budgeted = t.budgeted }

  module _ (ctx : ReadLoopCtx egress.Sender tunnel.Sender) (at : ℕ) (vc : VirtConnDe egress.Sender)
      (v : IsConsistent ctx) (lt : at < ctx.next) (h : HasEgress vc) where
    on_tcp_data-IsConsistent :
        (f : Frame) (now : ℕ) → IsConsistent (on_tcp_data egress tunnel ctx at vc f now)
    unfolding on_tcp_data
    on_tcp_data-IsConsistent f now =
        go (take_data egress vc f.seq f.payload) (take_data-SameKind egress vc f.seq f.payload)
      where
        go :
            (r : VirtConnDe egress.Sender × Fate)
            → SameKind vc r.0
            → IsConsistent (elim r.1 as (λ fate. ReadLoopCtx egress.Sender tunnel.Sender) [
              | goes_on ↦ write_vconn ctx at r.0
              | breaks ↦ break_conn egress tunnel (write_vconn ctx at r.0) f.conn_id now
              | delivered ↦
                  if r.0.fin_received
                  then finish_if_done
                      (write_vconn ctx at (settle r.0 f.payload now))
                      (settle r.0 f.payload now)
                      f.conn_id
                      now
                  else write_vconn ctx at (settle r.0 f.payload now)
            ])
        go (w, goes_on) k = IsConsistent-write ctx at vc w v lt h k
        go (w, breaks) k =
            break_conn-IsConsistent (write_vconn ctx at w) f.conn_id now
              (IsConsistent-write ctx at vc w v lt h k)
        go (w, delivered) k =
            let settled = settle w f.payload now in
            let s =
              IsConsistent-write ctx at vc settled v lt h
                (SameKind-trans vc w settled k (settle-SameKind w f.payload now)) in
            if_both IsConsistent w.fin_received _ _
              (finish_if_done-IsConsistent (write_vconn ctx at settled) settled f.conn_id now s) s

    on_udp_data-IsConsistent :
        (payload : List ℕ) (now : ℕ)
        → IsConsistent (write_vconn ctx at (on_udp_data vc payload now))
    on_udp_data-IsConsistent payload now =
        let w = forward_udp_datagram vc payload in
        IsConsistent-write ctx at vc (on_udp_data vc payload now) v lt h (
          SameKind-trans vc w (on_udp_data vc payload now)
            (forward_udp_datagram-SameKind vc payload)
            (same_channel w (on_udp_data vc payload now) refl refl))

  on_rst-IsConsistent :
      (ctx : ReadLoopCtx egress.Sender tunnel.Sender) (cid now : ℕ)
      → IsConsistent ctx
      → IsConsistent (on_rst egress tunnel ctx cid now)
  unfolding on_rst
  on_rst-IsConsistent ctx cid now v = elim (found_vconn ctx cid v.wired) [
    | inl (f, e) ↦
        let w =
          IsConsistent-Waits ctx (cancel_pending ctx cid) v
            (cancel_pending-Waits ctx cid v.budgeted) in
        rw (f, on_rst) (record { wired = w.wired; budgeted = w.budgeted })
    | inr (at, vc, f, e, h, lt, g) ↦
        let t =
          tear_out-IsConsistent (tombstone ctx cid now) cid
            (record { wired = v.wired; budgeted = v.budgeted }) in
        rw (f, on_rst) (record { wired = t.wired; budgeted = t.budgeted })
  ]

  -- Every frame without SYN keeps the state consistent: each connection of the map is on the heap, a
  -- TCP connection with its channel; the byte counter is exactly what waits, within the budget of 64
  -- MiB; and each id has one entry at most, of at most 256 frames, whose bytes are counted.
  pub handle_frame-IsConsistent :
      (ctx : ReadLoopCtx egress.Sender tunnel.Sender) (f : Frame) (now : ℕ)
      → IsConsistent ctx
      → length f.payload < 2 ^ 63
      → IsConsistent (handle_frame egress tunnel ctx f now)
  unfolding handle_frame
  handle_frame-IsConsistent ctx f now v small = elim (Bool-cases (has_flag f.flags flag_data)) [
    | inl d ↦ elim (found_vconn ctx f.conn_id v.wired) [
      | inl (none_there, e) ↦
          rw (d, none_there, handle_frame)
            (IsConsistent-Waits ctx _ v
              (on_early_data-Waits egress tunnel ctx f now v.budgeted d small))
      | inr (at, vc, found, e, h, lt, g) ↦
          rw (d, found, handle_frame)
            (if_both IsConsistent vc.is_udp _ _
              (on_udp_data-IsConsistent ctx at vc v lt g f.payload now)
              (on_tcp_data-IsConsistent ctx at vc v lt g f now))
    ]
    | inr d ↦ elim (Bool-cases (has_flag f.flags flag_fin)) [
      | inl n ↦ elim (found_vconn ctx f.conn_id v.wired) [
        | inl (none_there, e) ↦
            rw (d, n, none_there, handle_frame)
              (IsConsistent-Waits ctx _ v (on_early_fin-Waits egress tunnel ctx f now v.budgeted d))
        | inr (at, vc, found, e, h, lt, g) ↦
            rw (d, n, found, handle_frame)
              (if_both IsConsistent vc.is_udp _ _ v
                (on_fin-IsConsistent ctx at vc f.seq f.conn_id now v lt g))
      ]
      | inr n ↦ elim (Bool-cases (has_flag f.flags flag_rst)) [
        | inl r ↦ rw (d, n, r, handle_frame) (on_rst-IsConsistent ctx f.conn_id now v)
        | inr r ↦ rw (d, n, r, handle_frame) v
      ]
    ]
  ]
