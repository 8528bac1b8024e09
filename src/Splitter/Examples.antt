-- ===== src/Splitter/Examples.antt =====
-- Runs of the splitter, and the theorems at concrete inputs.
use round_robin.Common.{
  zero, suc, ℕ, ◌-◌, ◌≡◌, refl, true, false, none, some, List, [], ◌∷◌, lookup, arith,
}
use round_robin.Frame.{Frame}
use round_robin.Frame.New.{data_frame, rst_frame}
use round_robin.Reorder.{with_limit, push}
use round_robin.Reorder.Order.{segment}
use round_robin.Pool.{new_pool}
use round_robin.Pool.Queue.{Queue, queue}
use round_robin.Splitter.{VirtConn, State, handle_inbound_frame, on_frame}
use round_robin.Splitter.Reset.{IsLinked}
use round_robin.Splitter.Isolation.{Isolated, handle_inbound_frame-Isolated}
use round_robin.Splitter.Inbound.{Takes}
use round_robin.Splitter.Delivery.{on_frames, on_frames-Takes}
use round_robin.Splitter.Sweep.{sweep_conns, sweep_conns_active}
use round_robin.Splitter.Recovery.{LostData, Recovered, recover, recover_lem}
use round_robin.Splitter.ConnId.{Answers, attempts, alloc_conn_id, alloc_conn_id-Answers}

abbrev pub conn : VirtConn (Queue (List ℕ))
conn = record {
  to_client_tx = record { is_open = true; size = 8; items = [] };
  reorder = with_limit 100;
  notify = false;
  closed = false;
  fin_received = false;
  fin_seq = 0;
  grace_waiting = false;
  rst = false;
  is_udp = false;
  last_active = 0;
  bytes_sent = 0;
  bytes_recv = 0;
  frames_sent = 0;
  frames_recv = 0;
}

abbrev pub state : State (Queue (List ℕ)) (Queue Frame)
state = record {
  heap = (0, conn) ∷ [];
  conns = (42, 0) ∷ [];
  time_wait = [];
  pool = new_pool;
  resets = 0;
}

state-IsLinked : IsLinked state
state-IsLinked = record { linked = λ cid at e. (conn, ground arith) }

handle_inbound_frame-Isolated_example :
    Isolated state
      (handle_inbound_frame (queue (List ℕ)) (queue Frame) state (data_frame 42 1 (7 ∷ [])) 5)
      (data_frame 42 1 (7 ∷ [])).conn_id
handle_inbound_frame-Isolated_example =
    handle_inbound_frame-Isolated (queue (List ℕ)) (queue Frame) state (data_frame 42 1 (7 ∷ [])) 5
      state-IsLinked

-- Frame `k` of the stream is the byte `k`, twice.
abbrev src : ℕ → List ℕ
src k = k ∷ k ∷ []

abbrev arrivals : List ℕ
arrivals = 3 ∷ 1 ∷ 3 ∷ 2 ∷ []

none_resets : (on_frames (queue (List ℕ)) conn src arrivals 5).1 ≡ false
unfolding on_frames on_frame with_limit push
none_resets = refl

on_frames-Takes_example :
    let r = on_frames (queue (List ℕ)) conn src arrivals 5 in
    Takes
      (queue (List ℕ))
      conn.to_client_tx
      (segment src 1 (r.0.reorder.expected - 1))
      r.0.to_client_tx
on_frames-Takes_example =
    on_frames-Takes (queue (List ℕ)) conn src arrivals 5 100 refl (omega arith) (omega arith)
      none_resets

abbrev pub two_holders : ℕ → ℕ
two_holders at = 2

sweep_conns_active_example :
    let st' = sweep_conns (queue (List ℕ)) (queue Frame) state two_holders (42 ∷ []) 30000000000 in
    (lookup 42 st'.conns ≡ some 0) × (lookup 0 st'.heap ≡ some conn)
sweep_conns_active_example =
    sweep_conns_active (queue (List ℕ)) (queue Frame) state two_holders (42 ∷ []) 30000000000 42 0
      conn refl refl (omega arith) (omega arith)

abbrev lost : List Frame
lost = rst_frame 7 ∷ data_frame 42 1 (7 ∷ []) ∷ []

recover_lem_example :
    let st' = recover (queue (List ℕ)) (queue Frame) state lost 5 in
    IsLinked st'
    × Recovered (queue (List ℕ)) (queue Frame) state st' 5 42
    × (LostData (queue (List ℕ)) (queue Frame) 42 lost → lookup 42 st'.conns ≡ none)
    × (¬ LostData (queue (List ℕ)) (queue Frame) 42 lost
        → (lookup 42 st'.conns ≡ lookup 42 state.conns)
          × (lookup 42 st'.time_wait ≡ lookup 42 state.time_wait))
recover_lem_example = recover_lem (queue (List ℕ)) (queue Frame) state lost 5 42 state-IsLinked

abbrev draws : ℕ → ℕ
draws zero = 0
draws (suc zero) = 42
draws (suc (suc i)) = 43

alloc_conn_id-Answers_example :
    Answers state.conns [] draws attempts 0 (alloc_conn_id state.conns [] draws)
alloc_conn_id-Answers_example = alloc_conn_id-Answers state.conns [] draws
