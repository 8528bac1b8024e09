-- ===== src/Splitter/HandlerExamples.antt =====
-- Runs of a client's handler and of the heartbeat, and the theorems at concrete inputs.
use round_robin.Common.{
  ℕ, inl, ◌+◌, ◌≤◌, ◌≡◌, ◌⊎◌, refl, true, false, none, some, List, [], ◌∷◌, lookup, arith,
}
use round_robin.Wire.{list_buf}
use round_robin.Wire.Utf8.{is_utf8}
use round_robin.Frame.{Frame}
use round_robin.Frame.Syn.{IsSynTarget, encode_syn}
use round_robin.Reorder.{with_limit, is_complete_through}
use round_robin.Pool.{TunnelPool, send}
use round_robin.Pool.Queue.{Queue, queue}
use round_robin.Socks5.{TargetAddr}
use round_robin.Socks5.Handshake.{SocketAddr, v4, rep_success, bare_reply}
use round_robin.Splitter.{VirtConn, State}
use round_robin.Splitter.ConnId.{IsFresh}
use round_robin.Splitter.Opening.{Opened, runs, new_vconn, syn_target, forget_id, open_tcp}
use round_robin.Splitter.Started.{Released, forget_id-Released, Opens, open_tcp-Opens}
use round_robin.Splitter.Relay.{received, Turn, turn, udp_loop, Relays, udp_loop-Relays}
use round_robin.Splitter.Grace.{GraceEnd, Poll, grace_expired, grace_wait}
use round_robin.Splitter.Grace.Bound.{IsClock, FinStays, Because, grace_wait_ends}
use round_robin.Splitter.Heartbeat.{splitter_heartbeat, time_wait_ttl, heartbeat-IsFresh}
use round_robin.Splitter.Examples.{conn, state, two_holders}

-- One live link with room.
abbrev open_pool : TunnelPool (Queue Frame)
open_pool = record {
  links =
      record {
        tx = record { is_open = true; size = 2; items = [] };
        alive = true;
        bytes_sent = 0;
        bytes_recv = 0;
        frames_sent = 0;
        frames_recv = 0;
        stop = false;
        writer_died = false;
        last_active_ms = 0;
        lost_frames = [];
        rate_bps = 0;
      }
      ∷ [];
  rr = 0;
  added = 1;
}

abbrev fresh : VirtConn (Queue (List ℕ))
fresh = new_vconn (record { is_open = true; size = 8; items = [] }) 100 false 5

abbrev target : TargetAddr
target = record { address = 56 ∷ 46 ∷ 56 ∷ 46 ∷ 52 ∷ 46 ∷ 52 ∷ []; port = 53 }

target-IsSynTarget : IsSynTarget (syn_target target)
unfolding is_utf8
target-IsSynTarget = record {
  proto_fits = omega arith;
  port_fits = omega arith;
  address_utf8 = refl;
}

abbrev opened : State (Queue (List ℕ)) (Queue Frame) × Opened
opened =
    open_tcp list_buf (queue (List ℕ)) (queue Frame) (record state { pool = open_pool }) 7 1 target
      (bare_reply rep_success) fresh

told : opened.1 ≡ runs (bare_reply rep_success)
unfolding open_tcp encode_syn send
told = refl

open_tcp-Opens_example :
    Opens list_buf
      (queue (List ℕ))
      (queue Frame)
      (record state { pool = open_pool })
      7
      1
      (syn_target target)
      (bare_reply rep_success)
      fresh
      opened
open_tcp-Opens_example =
    open_tcp-Opens list_buf (queue (List ℕ)) (queue Frame) (record state { pool = open_pool }) 7 1
      target (bare_reply rep_success) fresh target-IsSynTarget (omega arith)

-- Another connection has got the id 42.
forget_id-Released_example : Released state (forget_id state 42 1 9) 42 1 9
forget_id-Released_example = forget_id-Released state 42 1 9

seven_free :
    let st' =
      splitter_heartbeat
        (queue (List ℕ))
        (queue Frame)
        state
        two_holders
        (42 ∷ [])
        400000000000
        400000 in
    IsFresh st'.conns st'.time_wait 7
unfolding splitter_heartbeat
seven_free = (λ e. omega arith, refl, refl)

heartbeat-IsFresh_example :
    (lookup 7 state.conns ≡ none)
    × ((lookup 7 state.time_wait ≡ none)
        ⊎ ((since : ℕ) × (lookup 7 state.time_wait ≡ some since)
            × (since + time_wait_ttl ≤ 400000000000)))
heartbeat-IsFresh_example =
    heartbeat-IsFresh (queue (List ℕ)) (queue Frame) state two_holders (42 ∷ []) 400000000000 400000
      7 seven_free

-- The FIN came and the answer is not complete: the wait goes on, and ends after 15 seconds.
abbrev polls : List (Poll (Queue (List ℕ)))
polls =
    record { vconn = conn; now = 1000000000 }
    ∷ record { vconn = record conn { fin_received = true; fin_seq = 3 }; now = 2000000000 }
    ∷ record { vconn = record conn { fin_received = true; fin_seq = 3 }; now = 17000000000 }
    ∷ []

expires : grace_wait none polls ≡ some grace_expired
unfolding grace_wait with_limit is_complete_through
expires = refl

polls-IsClock : IsClock polls
polls-IsClock = omega arith

polls-FinStays : FinStays polls
polls-FinStays = (((λ h. refl), ((λ h. refl), tt)), (((λ h. refl), tt), (tt, tt)))

grace_wait_ends_example : (e : GraceEnd) × (grace_wait none polls ≡ some e) × Because polls e
grace_wait_ends_example =
    grace_wait_ends polls 1 2
      (record { vconn = record conn { fin_received = true; fin_seq = 3 }; now = 2000000000 })
      (record { vconn = record conn { fin_received = true; fin_seq = 3 }; now = 17000000000 })
      polls-IsClock polls-FinStays (omega arith) refl refl (inl refl) (omega arith)

abbrev home : SocketAddr
home = v4 (10 ∷ 0 ∷ 0 ∷ 1 ∷ []) 4000

abbrev stranger : SocketAddr
stranger = v4 (10 ∷ 0 ∷ 0 ∷ 2 ∷ []) 4000

abbrev turns : List (Turn (queue (List ℕ)) (queue Frame))
turns =
    turn (λ st. st) (λ st. st) 1 (received (1 ∷ []) home)
    ∷ turn (λ st. st) (λ st. st) 2 (received (2 ∷ []) stranger)
    ∷ turn (λ st. st) (λ st. st) 3 (received (3 ∷ []) home)
    ∷ []

two_relayed :
    (udp_loop
      (queue (List ℕ))
      (queue Frame)
      42
      0
      (record state { pool = open_pool })
      none
      1
      0
      turns).seq
    ≡ 3
unfolding udp_loop send
two_relayed = refl

udp_loop-Relays_example : Relays (queue (List ℕ)) (queue Frame) home turns 42 1 (
    udp_loop (queue (List ℕ)) (queue Frame) 42 0 (record state { pool = open_pool }) none 1 0 turns)
udp_loop-Relays_example =
    udp_loop-Relays (queue (List ℕ)) (queue Frame) 42 0 (record state { pool = open_pool }) none 1 0
      turns (omega arith) home refl
