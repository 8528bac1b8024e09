-- ===== src/Reassembler/Examples.antt =====
-- Runs of the reassembler, and the theorems at concrete inputs.
use round_robin.Common.{
  ℕ, ◌-◌, ◌*◌, ◌<◌, ◌==◌, ◌≡◌, Bool-cases, some-injective, sym, ◌∙◌, inl, inr, refl, true, false,
  none, some, List, [], ◌∷◌, ◌++◌, lookup, arith,
}
use round_robin.Frame.{Frame}
use round_robin.Frame.New.{data_frame, fin_frame}
use round_robin.Reorder.{with_limit, push, is_complete_through}
use round_robin.Reorder.Order.{segment}
use round_robin.Reorder.Stream.{Arrives}
use round_robin.Pool.{new_pool}
use round_robin.Pool.Queue.{Queue, queue}
use round_robin.Splitter.Inbound.{Takes}
use round_robin.Reassembler.{VirtConnDe, new_entry, ReadLoopCtx, new_conn}
use round_robin.Reassembler.Pending.{try_reserve_pending}
use round_robin.Reassembler.Handler.{handle_frame}
use round_robin.Reassembler.Handshake.{replay, connected, established}
use round_robin.Reassembler.Heartbeat.{heartbeat}
use round_robin.Reassembler.Budget.{IsBudgeted}
use round_robin.Reassembler.Reserve.{Attempted, try_reserve_pending-Attempted}
use round_robin.Reassembler.Wired.{HasEgress}
use round_robin.Reassembler.Invariant.{IsConsistent}
use round_robin.Reassembler.Steps.{
  Reach, here, next, frame_arrives, heart_beats, Reach-IsConsistent,
}
use round_robin.Reassembler.Abort.{IsAborted, connected-IsAborted}
use round_robin.Reassembler.Served.{after_replay, feed, CarriesStream, data_seqs}
use round_robin.Reassembler.Delivery.{egress_in_order}

abbrev channel : Queue (List ℕ)
channel = record { is_open = true; size = 8; items = [] }

-- One connection, and one frame that waits for another.
abbrev state : ReadLoopCtx (Queue (List ℕ)) (Queue Frame)
state = record {
  heap = (0, new_conn (some channel) false 1000 5) ∷ [];
  next = 1;
  fired = [];
  timers = [];
  conns = (42, 0) ∷ [];
  pending = (7, record (new_entry 5) { frames = data_frame 7 1 (8 ∷ 9 ∷ []) ∷ []; bytes = 2 }) ∷ [];
  pending_bytes = 2;
  closed = [];
  handshaking = [];
  pool = new_pool;
  resets = 0;
  reorder_window_bytes = 1000;
}

state-IsBudgeted : IsBudgeted state.pending state.pending_bytes 0
unfolding data_frame
state-IsBudgeted = record {
  unique = (refl, tt);
  counts = refl;
  within = omega arith;
  entries = (record { few = omega arith; counted = refl }, tt);
}

state-IsConsistent : IsConsistent state
state-IsConsistent = record {
  wired = record {
    linked =
        λ cid at e. (new_conn (some channel) false 1000 5, ground arith, λ tcp. (channel, refl));
    old = λ at vc e. alone at vc e;
  };
  budgeted = state-IsBudgeted;
}
  where
    alone :
        (at : ℕ) (vc : VirtConnDe (Queue (List ℕ)))
        → lookup at state.heap ≡ some vc
        → (at < state.next) × HasEgress vc
    alone at vc e = elim (Bool-cases (0 == at)) [
      | inr h ↦ absurd (ground arith)
      | inl h ↦
          let there : lookup at state.heap ≡ some (new_conn (some channel) false 1000 5) =
            rw h refl in
          (ground arith, λ tcp. (channel, λ i. (some-injective (sym e ∙ there) i).egress))
    ]

try_reserve_pending-Attempted_example :
    Attempted (some (try_reserve_pending (queue Frame) state none 67108863 9)) state none 67108863 9
try_reserve_pending-Attempted_example =
    try_reserve_pending-Attempted (queue Frame) state none 67108863 9 state-IsBudgeted (omega arith)

abbrev early : Frame
early = data_frame 7 2 (1 ∷ 2 ∷ 3 ∷ [])

abbrev after_frames : ReadLoopCtx (Queue (List ℕ)) (Queue Frame)
after_frames =
    handle_frame (queue (List ℕ)) (queue Frame)
      (handle_frame (queue (List ℕ)) (queue Frame) state early 6) (data_frame 42 1 (4 ∷ [])) 7

run :
    Reach
      (queue (List ℕ))
      (queue Frame)
      state
      (heartbeat (queue Frame) after_frames (42 ∷ []) (40 * 1000000000) 40000)
unfolding data_frame
run =
    next
      (next (next here (frame_arrives early 6 (omega arith) refl))
        (frame_arrives (data_frame 42 1 (4 ∷ [])) 7 (omega arith) refl))
      (heart_beats (42 ∷ []) (40 * 1000000000) 40000 refl)

Reach-IsConsistent_example :
    IsConsistent (heartbeat (queue Frame) after_frames (42 ∷ []) (40 * 1000000000) 40000)
Reach-IsConsistent_example =
    Reach-IsConsistent (queue (List ℕ)) (queue Frame) state
      (heartbeat (queue Frame) after_frames (42 ∷ []) (40 * 1000000000) 40000) run
      state-IsConsistent

-- Frame `k` of the stream is the byte `k`, twice.
abbrev src : ℕ → List ℕ
src k = k ∷ k ∷ []

abbrev waited : List Frame
waited = data_frame 42 3 (src 3) ∷ data_frame 42 1 (src 1) ∷ fin_frame 42 5 ∷ []

abbrev found : List Frame
found = data_frame 42 1 (src 1) ∷ fin_frame 42 5 ∷ data_frame 42 2 (src 2) ∷ []

abbrev fresh : VirtConnDe (Queue (List ℕ))
fresh = new_conn (some channel) false 1000 5

replay_fine : (replay (queue (List ℕ)) fresh none waited).reset ≡ false
unfolding replay push with_limit data_frame fin_frame
replay_fine = refl

feed_fine :
    (feed
      (queue (List ℕ))
      (after_replay (queue (List ℕ)) (replay (queue (List ℕ)) fresh none waited))
      found
      6).1
    ≡ false
unfolding feed replay push with_limit data_frame fin_frame is_complete_through
feed_fine = refl

waited_carry : CarriesStream src waited
unfolding data_frame fin_frame
waited_carry = (inr refl, (inr refl, (inl refl, tt)))

found_carry : CarriesStream src found
unfolding data_frame fin_frame
found_carry = (inr refl, (inl refl, (inr refl, tt)))

numbers_arrive : Arrives src (data_seqs waited ++ data_seqs found)
unfolding data_frame fin_frame
numbers_arrive = omega arith

egress_in_order_example :
    let vc =
      (feed
        (queue (List ℕ))
        (after_replay (queue (List ℕ)) (replay (queue (List ℕ)) fresh none waited))
        found
        6).0 in
    (tx' : Queue (List ℕ)) × (vc.egress ≡ some tx')
    × Takes (queue (List ℕ)) channel (segment src 1 (vc.reorder.expected - 1)) tx'
egress_in_order_example =
    egress_in_order (queue (List ℕ)) src channel 1000 5 6 waited found (omega arith) waited_carry
      found_carry numbers_arrive replay_fine feed_fine

-- The handler waits for the target of 7 when its frames are given up.
abbrev given_up : ReadLoopCtx (Queue (List ℕ)) (Queue Frame)
given_up = record state {
  pending = (7, record (new_entry 5) { cancelled = true; cancel = some 3 }) ∷ [];
  pending_bytes = 0;
  handshaking = (7, 5) ∷ [];
}

connected-IsAborted_example :
    IsAborted (connected (queue (List ℕ)) (queue Frame) given_up 7 (established channel) 9) 7
connected-IsAborted_example =
    connected-IsAborted (queue (List ℕ)) (queue Frame) given_up 7 (established channel) 9 refl
      (inr (record (new_entry 5) { cancelled = true; cancel = some 3 }, refl, refl))
