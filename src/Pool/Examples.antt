-- ===== src/Pool/Examples.antt =====
-- Runs of the pool, and the theorems at concrete inputs.
use round_robin.Common.{
  ℕ, ◌+◌, ◌-◌, ◌*◌, ◌/◌, ◌%◌, ◌^◌, ◌<◌, ◌≡◌, refl, inr, Bool, true, false, some, List, [], ◌∷◌,
  length, ltb, if◌then◌else◌, arith,
}
use round_robin.Wire.{list_buf}
use round_robin.Frame.{Frame, IsFrame, encode_into}
use round_robin.Frame.New.{data_frame}
use round_robin.Pool.{
  TunnelLink, TunnelPool, send, sweep_idle, compact, link_count, alive_count, stats,
}
use round_robin.Pool.Queue.{Queue, queue}
use round_robin.Pool.Rates.{Float}
use round_robin.Pool.Schedule.{delivered, send_attempt, send_async}
use round_robin.Pool.Async.{Ends, send_attempt-Ends, send_async_delivers}
use round_robin.Pool.Drain.{
  Turn, receives, fails, done, drain_frames, Accounts, drain_frames-Accounts,
}
use round_robin.Pool.Send.{Loop, send-Loop}
use round_robin.Pool.Rotation.{send_succeeds}
use round_robin.Pool.Upkeep.{Swept, Kept, compact-sweep_idle}

abbrev link : Bool → Bool → ℕ → ℕ → TunnelLink (Queue Frame)
link alive is_open size at = record {
  tx = record { is_open = is_open; size = size; items = [] };
  alive = alive;
  bytes_sent = 0;
  bytes_recv = 0;
  frames_sent = 0;
  frames_recv = 0;
  stop = false;
  writer_died = false;
  last_active_ms = at;
  lost_frames = [];
  rate_bps = 0;
}

-- A dead link, one whose queue is closed, one without room, and one that can take a frame.
abbrev pool : TunnelPool (Queue Frame)
pool = record {
  links =
      link false true 1 900
      ∷ link true false 1 100
      ∷ link true true 0 900
      ∷ link true true 1 900
      ∷ [];
  rr = 4;
  added = 4;
}

abbrev frame : Frame
frame = data_frame 42 7 (104 ∷ 105 ∷ [])

sent_last : (send (queue Frame) pool frame).1 ≡ true
unfolding send
sent_last = refl

send-Loop_example :
    let r = send (queue Frame) pool frame in
    Loop
      (queue Frame)
      frame
      pool.links
      (pool.rr % length pool.links)
      0
      (length pool.links)
      (r.0.links, r.1)
    × (r.0.rr ≡ (pool.rr + 1) % 2 ^ 64)
send-Loop_example = send-Loop (queue Frame) frame pool (omega arith)

send_succeeds_example : (send (queue Frame) pool frame).1 ≡ true
send_succeeds_example =
    send_succeeds (queue Frame) frame pool 3 (link true true 1 900)
      (record { is_open = true; size = 1; items = frame ∷ [] }) refl refl refl

compact-sweep_idle_example :
    let r = sweep_idle pool 1000 600 in
    let c = compact r.0 in
    Swept 1000 600 pool.links r.0.links r.1
    × Kept 1000 600 pool.links c.links
    × (link_count c + r.1 ≡ alive_count pool)
    × (stats c ≡ (link_count c, link_count c))
compact-sweep_idle_example = compact-sweep_idle pool 1000 600

-- Natural numbers in the place of the floating-point ones; the cents of a literal are cut off.
abbrev rates : Float
rates = record {
  F = ℕ;
  of_nat = λ n. n;
  decimal = λ n k. n / 10 ^ k;
  from_bits = λ n. n;
  to_bits = λ n. n;
  add = λ x y. x + y;
  sub = λ x y. x - y;
  mul = λ x y. x * y;
  div = λ x y. x / y;
  maximum = λ x y. if ltb x y then y else x;
  neg = λ x. 0;
  exp = λ x. 1;
  less = λ x y. ltb x y;
}

-- The first pick falls on the closed link, the second on the full one.
attempt_delivers : (send_attempt rates (queue Frame) pool frame).1 ≡ delivered
unfolding send_attempt
attempt_delivers = refl

send_attempt-Ends_example :
    Ends (queue Frame) frame pool.links (some (send_attempt rates (queue Frame) pool frame))
send_attempt-Ends_example = send_attempt-Ends rates (queue Frame) frame pool

-- No link at first; another task adds one while the send waits.
abbrev no_links : TunnelPool (Queue Frame)
no_links = record { links = []; rr = 0; added = 0 }

send_async_delivers_example :
    (send_async rates (queue Frame) no_links ((λ p. pool) ∷ []) frame).1 ≡ true
send_async_delivers_example =
    send_async_delivers rates (queue Frame) frame no_links ((λ p. pool) ∷ []) (
      inr (
        3,
        link true true 1 900,
        refl,
        refl,
        record { is_open = true; size = 1; items = frame ∷ [] },
        refl,
      ))

data_frame-IsFrame : (seq byte : ℕ) → seq < 2 ^ 64 → IsFrame (data_frame 42 seq (byte ∷ []))
unfolding data_frame
data_frame-IsFrame seq byte h = record {
  conn_id_fits = omega arith;
  seq_fits = h;
  flags_fit = omega arith;
}

abbrev frames : List Frame
frames = data_frame 42 7 (32 ∷ []) ∷ data_frame 42 8 (33 ∷ []) ∷ data_frame 42 9 (34 ∷ []) ∷ []

-- One frame is written, the write of the next fails.
abbrev turns : List (Turn ℕ)
turns = receives (done 1000 2) ∷ receives fails ∷ []

lost_one :
    (drain_frames rates list_buf (link true true 3 900) frames turns).link.lost_frames
    ≡ data_frame 42 9 (34 ∷ []) ∷ []
unfolding drain_frames encode_into data_frame
lost_one = refl

drain_ends : (drain_frames rates list_buf (link true true 3 900) frames turns).ended ≡ true
unfolding drain_frames encode_into data_frame
drain_ends = refl

drain_frames-Accounts_example :
    Accounts rates list_buf
      (link true true 3 900)
      frames
      turns
      (drain_frames rates list_buf (link true true 3 900) frames turns)
drain_frames-Accounts_example =
    drain_frames-Accounts rates list_buf (link true true 3 900) frames turns
      (
        data_frame-IsFrame 7 32 (omega arith),
        (data_frame-IsFrame 8 33 (omega arith), (data_frame-IsFrame 9 34 (omega arith), tt)),
      )
      drain_ends
