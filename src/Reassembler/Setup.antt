-- ===== src/Reassembler/Setup.antt =====
-- The handling of a SYN keeps the invariant.
use round_robin.Common.{
  ℕ, suc, ◌<◌, ◌≡◌, refl, inl, inr, Bool, true, false, not, ◌&&◌, Option, none, some, List, lookup,
  insert, contains_key, if_both, ◌==◌, if◌then◌else◌, Option-cases, AllValues-lookup, Result, ok,
  err, arith,
}
use round_robin.Frame.{Frame, Error}
use round_robin.Frame.Syn.{SynTarget, decode_syn, proto_tcp, proto_udp}
use round_robin.Pool.{Mpsc}
use round_robin.Reassembler.{
  VirtConnDe, PendingEntry, new_entry, new_conn, ReadLoopCtx, write_vconn,
}
use round_robin.Reassembler.Pending.{remove_pending}
use round_robin.Reassembler.HalfClose.{on_fin}
use round_robin.Reassembler.Handshake.{
  Start, finished, binds, connects, Connect, established, refused, timed_out, aborted,
  end_handshake, drop_handshake, reserve_slot, install, refuse, syn_start, forward_all, replay,
  abandon, udp_bound, drain_pending, connected,
}
use round_robin.Reassembler.Budget.{IsEntry, IsBudgeted-replace, IsBudgeted-insert}
use round_robin.Reassembler.Wired.{HasEgress, IsWired-next, IsWired-install}
use round_robin.Reassembler.Kinds.{SameKind-HasEgress, forward_all-SameKind, replay-SameKind}
use round_robin.Reassembler.Waiting.{remove_pending-Waits}
use round_robin.Reassembler.Invariant.{
  IsConsistent, IsConsistent-Waits, IsConsistent-write, tear_out-IsConsistent, on_fin-IsConsistent,
}

module _ {E S : Type 0} where
  drop_handshake-IsConsistent :
      (ctx : ReadLoopCtx E S) (cid : ℕ) → IsConsistent ctx → IsConsistent (drop_handshake ctx cid)
  drop_handshake-IsConsistent ctx cid v =
      let w =
        IsConsistent-Waits ctx (remove_pending ctx cid).0 v
          (remove_pending-Waits ctx cid v.budgeted) in
      record { wired = w.wired; budgeted = w.budgeted }

  reserve_slot-IsConsistent :
      (ctx : ReadLoopCtx E S) (cid now : ℕ)
      → IsConsistent ctx
      → IsConsistent (reserve_slot ctx cid now)
  reserve_slot-IsConsistent ctx cid now v = elim (Option-cases (lookup cid ctx.pending)) [
    | inl e ↦
        rw (e, reserve_slot)
          (record {
            wired = IsWired-next ctx.heap ctx.conns ctx.next v.wired;
            budgeted =
                IsBudgeted-insert ctx.pending ctx.pending_bytes 0 cid
                  (record (new_entry now) { cancel = some ctx.next }) v.budgeted e
                  (record { few = omega arith; counted = refl });
          })
    | inr (entry, e) ↦
        let i = AllValues-lookup IsEntry cid entry ctx.pending v.budgeted.entries e in
        rw (e, reserve_slot)
          (record {
            wired = IsWired-next ctx.heap ctx.conns ctx.next v.wired;
            budgeted =
                IsBudgeted-replace ctx.pending ctx.pending_bytes 0 0 cid entry
                  (record entry { cancel = some ctx.next }) v.budgeted e
                  (record { few = i.few; counted = i.counted }) (omega arith);
          })
  ]

module _ {E : Type 0} (tunnel : Mpsc Frame) where
  refuse-IsConsistent :
      (ctx : ReadLoopCtx E tunnel.Sender) (cid now : ℕ)
      → IsConsistent ctx
      → IsConsistent (refuse tunnel ctx cid now)
  refuse-IsConsistent ctx cid now v =
      let w = drop_handshake-IsConsistent ctx cid v in
      record { wired = w.wired; budgeted = w.budgeted }

  pub syn_start-IsConsistent :
      (ctx : ReadLoopCtx E tunnel.Sender) (f : Frame) (now : ℕ)
      → IsConsistent ctx
      → IsConsistent (syn_start tunnel ctx f now).0
  unfolding syn_start
  syn_start-IsConsistent ctx f now v =
      let begun = record ctx { handshaking = insert f.conn_id now ctx.handshaking } in
      let begun_v : IsConsistent begun = record { wired = v.wired; budgeted = v.budgeted } in
      let slot = reserve_slot begun f.conn_id now in
      let slot_v = reserve_slot-IsConsistent begun f.conn_id now begun_v in
      if_both P (contains_key f.conn_id ctx.conns) _ _ v (
        if_both P (contains_key f.conn_id ctx.handshaking) _ _ begun_v (
          if_both P (contains_key f.conn_id ctx.closed) _ _
            (drop_handshake-IsConsistent slot f.conn_id slot_v)
            (decoded (decode_syn f.payload) slot slot_v)))
    where
      P : ReadLoopCtx E tunnel.Sender × Start → Type 0
      P r = IsConsistent r.0

      decoded :
          (r : Result Error SynTarget) (slot : ReadLoopCtx E tunnel.Sender)
          → IsConsistent slot
          → P (elim r [
            | err e ↦ (refuse tunnel slot f.conn_id now, finished)
            | ok target ↦
                if not (target.proto == proto_tcp) && not (target.proto == proto_udp)
                then (refuse tunnel slot f.conn_id now, finished)
                else if target.proto == proto_udp
                then (slot, binds target ctx.next)
                else (slot, connects target ctx.next)
          ])
      decoded (err e) slot w = refuse-IsConsistent slot f.conn_id now w
      decoded (ok target) slot w =
          if_both P (not (target.proto == proto_tcp) && not (target.proto == proto_udp)) _ _
            (refuse-IsConsistent slot f.conn_id now w)
            (if_both P (target.proto == proto_udp) _ _ w w)

module _ (egress : Mpsc (List ℕ)) (tunnel : Mpsc Frame) where
  abandon-IsConsistent :
      (ctx : ReadLoopCtx egress.Sender tunnel.Sender) (cid now : ℕ)
      → IsConsistent ctx
      → IsConsistent (abandon egress tunnel ctx cid now)
  abandon-IsConsistent ctx cid now v =
      let t = tear_out-IsConsistent ctx cid v in record { wired = t.wired; budgeted = t.budgeted }

  -- The new connection is installed, and its entry taken out.
  installed-IsConsistent :
      (ctx : ReadLoopCtx egress.Sender tunnel.Sender) (cid : ℕ) (vc : VirtConnDe egress.Sender)
      → IsConsistent ctx
      → HasEgress vc
      → IsConsistent (install ctx cid vc)
  installed-IsConsistent ctx cid vc v h = record {
    wired = IsWired-install ctx.heap ctx.conns ctx.next cid vc v.wired h;
    budgeted = v.budgeted;
  }

  -- What follows the installation of `vc`: it is dropped again, or the frames that waited reach it.
  after_install :
      (ctx : ReadLoopCtx egress.Sender tunnel.Sender) (cid now : ℕ) (vc : VirtConnDe egress.Sender)
      (serve : ReadLoopCtx egress.Sender tunnel.Sender
        → List Frame
        → ReadLoopCtx egress.Sender tunnel.Sender)
      → IsConsistent ctx
      → HasEgress vc
      → ((c : ReadLoopCtx egress.Sender tunnel.Sender) (fs : List Frame)
          → IsConsistent c
          → c.next ≡ suc ctx.next
          → IsConsistent (serve c fs))
      → let r = remove_pending (install ctx cid vc) cid in
        IsConsistent (elim r.1 as (λ waited. ReadLoopCtx egress.Sender tunnel.Sender) [
          | none ↦ end_handshake r.0 cid
          | some entry ↦
              if entry.cancelled then abandon egress tunnel r.0 cid now else serve r.0 entry.frames
        ])
  after_install ctx cid now vc serve v h more =
      let i = installed-IsConsistent ctx cid vc v h in
      let w = remove_pending-Waits (install ctx cid vc) cid i.budgeted in
      go (remove_pending (install ctx cid vc) cid).0 (remove_pending (install ctx cid vc) cid).1
        (IsConsistent-Waits (install ctx cid vc) _ i w) w.kept.2
    where
      go :
          (taken : ReadLoopCtx egress.Sender tunnel.Sender) (waited : Option PendingEntry)
          → IsConsistent taken
          → taken.next ≡ suc ctx.next
          → IsConsistent (elim waited as (λ o. ReadLoopCtx egress.Sender tunnel.Sender) [
            | none ↦ end_handshake taken cid
            | some entry ↦
                if entry.cancelled
                then abandon egress tunnel taken cid now
                else serve taken entry.frames
          ])
      go taken none w next = record { wired = w.wired; budgeted = w.budgeted }
      go taken (some entry) w next =
          if_both IsConsistent entry.cancelled _ _ (abandon-IsConsistent taken cid now w)
            (more taken entry.frames w next)

  pub udp_bound-IsConsistent :
      (ctx : ReadLoopCtx egress.Sender tunnel.Sender) (cid : ℕ) (bound : Bool) (now : ℕ)
      → IsConsistent ctx
      → IsConsistent (udp_bound egress tunnel ctx cid bound now)
  unfolding udp_bound
  udp_bound-IsConsistent ctx cid false now v = refuse-IsConsistent tunnel ctx cid now v
  udp_bound-IsConsistent ctx cid true now v =
      after_install ctx cid now vc
        (λ c fs. end_handshake (write_vconn c ctx.next (forward_all vc fs)) cid) v udp_only
        (λ c fs w next.
          let s =
            IsConsistent-write c ctx.next vc (forward_all vc fs) w (omega arith) udp_only
              (forward_all-SameKind vc fs) in
          record { wired = s.wired; budgeted = s.budgeted })
    where
      vc : VirtConnDe egress.Sender
      vc = new_conn none true ctx.reorder_window_bytes now

      udp_only : HasEgress vc
      udp_only tcp = cc

  drain_pending-IsConsistent :
      (ctx : ReadLoopCtx egress.Sender tunnel.Sender) (at : ℕ) (vc : VirtConnDe egress.Sender)
      (cid : ℕ) (fs : List Frame) (now : ℕ)
      → IsConsistent ctx
      → at < ctx.next
      → HasEgress vc
      → IsConsistent (drain_pending egress tunnel ctx at vc cid fs now)
  unfolding drain_pending
  drain_pending-IsConsistent ctx at vc cid fs now v lt h =
      let r = replay egress vc none fs in
      let done = write_vconn ctx at r.conn in
      let k = replay-SameKind egress vc none fs in
      let d = IsConsistent-write ctx at vc r.conn v lt h k in
      let t = tear_out-IsConsistent done cid d in
      if_both IsConsistent r.reset _ _ (record { wired = t.wired; budgeted = t.budgeted })
        (finished_with r.fin done r.conn d lt (SameKind-HasEgress vc r.conn k h))
    where
      finished_with :
          (fin : Option ℕ) (done : ReadLoopCtx egress.Sender tunnel.Sender)
          (w : VirtConnDe egress.Sender)
          → IsConsistent done
          → at < done.next
          → HasEgress w
          → IsConsistent (elim fin as (λ o. ReadLoopCtx egress.Sender tunnel.Sender) [
            | none ↦ end_handshake done cid
            | some seq ↦ end_handshake (on_fin done at w seq cid now) cid
          ])
      finished_with none done w d lt h = record { wired = d.wired; budgeted = d.budgeted }
      finished_with (some seq) done w d lt h =
          let s = on_fin-IsConsistent done at w seq cid now d lt h in
          record { wired = s.wired; budgeted = s.budgeted }

  pub connected-IsConsistent :
      (ctx : ReadLoopCtx egress.Sender tunnel.Sender) (cid : ℕ) (c : Connect egress.Sender)
      (now : ℕ)
      → IsConsistent ctx
      → IsConsistent (connected egress tunnel ctx cid c now)
  unfolding connected
  connected-IsConsistent ctx cid refused now v = refuse-IsConsistent tunnel ctx cid now v
  connected-IsConsistent ctx cid timed_out now v = refuse-IsConsistent tunnel ctx cid now v
  connected-IsConsistent ctx cid aborted now v =
      let w = drop_handshake-IsConsistent ctx cid v in
      record { wired = w.wired; budgeted = w.budgeted }
  connected-IsConsistent ctx cid (established tx) now v =
      if_both IsConsistent (contains_key cid ctx.closed) _ _ (drop_handshake-IsConsistent ctx cid v)
        (after_install ctx cid now vc (λ c fs. drain_pending egress tunnel c ctx.next vc cid fs now)
          v has_tx
          (λ c fs w next.
            drain_pending-IsConsistent c ctx.next vc cid fs now w (omega arith) has_tx))
    where
      vc : VirtConnDe egress.Sender
      vc = new_conn (some tx) false ctx.reorder_window_bytes now

      has_tx : HasEgress vc
      has_tx tcp = (tx, refl)
