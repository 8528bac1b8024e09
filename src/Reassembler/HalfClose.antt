-- ===== src/Reassembler/HalfClose.antt =====
-- src/reassembler.rs: the half-close after the splitter's FIN, and the end of a connection.
use round_robin.Common.{ℕ, Bool, true, false, not, ◌||◌, ◌∷◌, remove, ltb, ◌==◌, if◌then◌else◌}
use round_robin.Reorder.{is_complete_through}
use round_robin.Reassembler.{VirtConnDe, ReadLoopCtx, write_vconn, tombstone}

module _ {E : Type 0} where
  -- A normal close moves the state from open (0) to closing (1), and from there to closed (2) or back.
  unfoldable pub close_write_half : VirtConnDe E → Bool → VirtConnDe E
  close_write_half vc true =
      if vc.half_close_state == 2 then vc else record vc { half_close_state = 2; half_close = true }
  close_write_half vc false =
      if vc.half_close_state == 0
      then (let closing = record vc { half_close_state = 1 } in
          if not (is_complete_through vc.reorder vc.fin_seq)
          then record closing { half_close_state = 0 }
          else record closing { half_close_state = 2; half_close = true })
      else vc

  -- Without the timer that it starts.
  unfoldable pub start_half_close : VirtConnDe E → ℕ → VirtConnDe E
  unfolding close_write_half
  start_half_close vc fin_seq =
      if vc.fin_received
      then vc
      else close_write_half (record vc { fin_received = true; fin_seq = fin_seq }) false

  abbrev pub is_done : VirtConnDe E → Bool
  is_done vc = not (not vc.fin_received || not vc.egress_eof || ltb vc.half_close_state 2)

module _ {E S : Type 0} where
  unfoldable pub finish_if_done : ReadLoopCtx E S → VirtConnDe E → ℕ → ℕ → ReadLoopCtx E S
  finish_if_done ctx vc cid now =
      if is_done vc then record (tombstone ctx cid now) { conns = remove cid ctx.conns } else ctx

  -- `start_half_close` on the connection at `at`, with the timer, and `finish_if_done`.
  unfoldable pub on_fin : ReadLoopCtx E S → ℕ → VirtConnDe E → ℕ → ℕ → ℕ → ReadLoopCtx E S
  unfolding start_half_close finish_if_done
  on_fin ctx at vc fin_seq cid now =
      let vc' = start_half_close vc fin_seq in
      let timed = if vc.fin_received then ctx else record ctx { timers = at ∷ ctx.timers } in
      finish_if_done (write_vconn timed at vc') vc' cid now
