-- ===== src/Reassembler/Egress.antt =====
-- src/reassembler.rs, `read_from_egress`: the loop that reads from a target, and what follows it. What
-- the target, the tunnels and the other tasks do is a list of events.
use round_robin.Common.{
  ℕ, Bool, true, Option, none, some, List, [], ◌∷◌, add_u64, wrapping_succ, if◌then◌else◌,
}
use round_robin.Frame.{Frame}
use round_robin.Frame.New.{data_frame}
use round_robin.Pool.{Mpsc}
use round_robin.Reassembler.{VirtConnDe, ReadLoopCtx, write_vconn, tear_out, tombstone, send_rst}
use round_robin.Reassembler.HalfClose.{finish_if_done}

-- The answer of `send_async` for a chunk, raced against `cancel` and a timeout.
pub data Sending : Type 0 where
  taken cancelled_first not_taken : Sending

pub data EgressEvent : Type 0 where
  cancel_notified target_closes target_fails : EgressEvent
  target_sends : List ℕ → Sending → EgressEvent

-- Why the loop ended.
pub data Ending : Type 0 where
  torn_down stream_over send_failed : Ending

pub record Download : Type 0 where
  pub frames : List Frame
  pub next_seq : ℕ
  pub ending : Option Ending

unfoldable pub egress_loop : ℕ → ℕ → List EgressEvent → Download
egress_loop cid seq [] = record { frames = []; next_seq = seq; ending = none }
egress_loop cid seq (cancel_notified ∷ es) = record {
  frames = [];
  next_seq = seq;
  ending = some torn_down;
}
egress_loop cid seq (target_closes ∷ es) = record {
  frames = [];
  next_seq = seq;
  ending = some stream_over;
}
egress_loop cid seq (target_fails ∷ es) = record {
  frames = [];
  next_seq = seq;
  ending = some stream_over;
}
egress_loop cid seq (target_sends bytes cancelled_first ∷ es) = record {
  frames = [];
  next_seq = seq;
  ending = some torn_down;
}
egress_loop cid seq (target_sends bytes not_taken ∷ es) = record {
  frames = [];
  next_seq = seq;
  ending = some send_failed;
}
egress_loop cid seq (target_sends bytes taken ∷ es) =
    let rest = egress_loop cid (wrapping_succ seq) es in
    record rest { frames = data_frame cid seq bytes ∷ rest.frames }

module _ {E : Type 0} where
  -- What the reader notes on the connection when `n` bytes are sent.
  abbrev pub note_sent : VirtConnDe E → ℕ → ℕ → VirtConnDe E
  note_sent vc n now = record vc {
    bytes_sent = add_u64 vc.bytes_sent n;
    frames_sent = add_u64 vc.frames_sent 1;
    last_active = now;
  }

module _ {E : Type 0} (tunnel : Mpsc Frame) where
  -- The end of the task for the connection `vc` at `at`; `fin_sent` is the answer for the FIN.
  unfoldable pub end_of_egress :
      ReadLoopCtx E tunnel.Sender
      → ℕ
      → VirtConnDe E
      → ℕ
      → Ending
      → Bool
      → ℕ
      → ReadLoopCtx E tunnel.Sender
  unfolding finish_if_done
  end_of_egress ctx at vc cid torn_down fin_sent now = ctx
  end_of_egress ctx at vc cid send_failed fin_sent now =
      send_rst tunnel (tear_out (tombstone ctx cid now) cid) cid
  end_of_egress ctx at vc cid stream_over fin_sent now =
      let told = if fin_sent then ctx else send_rst tunnel ctx cid in
      let over = record vc { egress_eof = true } in
      finish_if_done (write_vconn told at over) over cid now
