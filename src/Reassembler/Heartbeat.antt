-- ===== src/Reassembler/Heartbeat.antt =====
-- src/reassembler.rs, `run_reassembler`: what the heartbeat sweeps, in its order. The clock stands
-- still during one sweep.
use round_robin.Common.{ℕ, ◌-◌, ◌*◌, ◌/◌, Bool, none, some, List, [], ◌∷◌, ltb, if◌then◌else◌}
use round_robin.Frame.{Frame}
use round_robin.Pool.{Mpsc, compact, sweep_idle, link_idle_timeout_ms}
use round_robin.Splitter.Sweep.{tcp_idle_secs, udp_idle_secs}
use round_robin.Reassembler.{
  VirtConnDe, ReadLoopCtx, find_vconn, tear_out, tombstone, send_rst, pending_ttl_secs,
}
use round_robin.Reassembler.Pending.{sweep_stale_pending}

abbrev pub closed_ttl : ℕ
closed_ttl = 60 * 1000000000

abbrev pub handshaking_ttl : ℕ
handshaking_ttl = 120 * 1000000000

-- `retain(|_, since| now.duration_since(*since) < ttl)`
abbrev pub retain_young : ℕ → ℕ → List (ℕ × ℕ) → List (ℕ × ℕ)
retain_young now ttl [] = []
retain_young now ttl ((k, since) ∷ m) =
    let rest = retain_young now ttl m in if ltb (now - since) ttl then (k, since) ∷ rest else rest

module _ {E : Type 0} (tunnel : Mpsc Frame) where
  abbrev pub is_expired : VirtConnDe E → ℕ → Bool
  is_expired vc now =
      ltb (if vc.is_udp then udp_idle_secs else tcp_idle_secs) ((now - vc.last_active) / 1000000000)

  -- One round of `hb_conns.retain(…)`.
  unfoldable pub sweep_vconn : ReadLoopCtx E tunnel.Sender → ℕ → ℕ → ReadLoopCtx E tunnel.Sender
  sweep_vconn ctx cid now = elim (find_vconn ctx cid) [
    | none ↦ ctx
    | some (at, vc) ↦
        if is_expired vc now
        then send_rst tunnel (tear_out (tombstone ctx cid now) cid) cid
        else ctx
  ]

  unfoldable pub sweep_vconns :
      ReadLoopCtx E tunnel.Sender → List ℕ → ℕ → ReadLoopCtx E tunnel.Sender
  unfolding sweep_vconn
  sweep_vconns ctx [] now = ctx
  sweep_vconns ctx (cid ∷ cids) now = sweep_vconns (sweep_vconn ctx cid now) cids now

  -- A heartbeat over the ids of the map in some order; `now_ms` is the clock of the links.
  unfoldable pub heartbeat :
      ReadLoopCtx E tunnel.Sender → List ℕ → ℕ → ℕ → ReadLoopCtx E tunnel.Sender
  unfolding sweep_vconns compact sweep_idle sweep_stale_pending
  heartbeat ctx cids now now_ms =
      let pool = (sweep_idle (compact ctx.pool) now_ms link_idle_timeout_ms).0 in
      let swept = sweep_vconns (record ctx { pool = pool }) cids now in
      let aged = record swept {
        closed = retain_young now closed_ttl swept.closed;
        handshaking = retain_young now handshaking_ttl swept.handshaking;
      } in
      record (sweep_stale_pending tunnel aged now pending_ttl_secs) { resets = 0 }
