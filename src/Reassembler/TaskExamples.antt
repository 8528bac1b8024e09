-- ===== src/Reassembler/TaskExamples.antt =====
-- Runs of the tasks of a connection, and the theorems at concrete inputs.
use round_robin.Common.{ℕ, ◌≡◌, refl, true, none, some, List, [], ◌∷◌, length, arith}
use round_robin.Wire.{list_buf}
use round_robin.Wire.Utf8.{is_utf8}
use round_robin.Frame.{Frame}
use round_robin.Pool.{TunnelPool, alive_count, send}
use round_robin.Pool.Queue.{Queue, queue}
use round_robin.Socks5.{TargetAddr}
use round_robin.Socks5.Encode.{AddrParser, encode_udp_datagram}
use round_robin.Reassembler.{ReadLoopCtx}
use round_robin.Reassembler.Writer.{
  receives, half_closes, writes, write_to_egress, write_to_egress_lem,
}
use round_robin.Reassembler.Answers.{
  answered, IsSource, AnswerTurn, turn, udp_answers, Carries, udp_answers-Carries,
}
use round_robin.Reassembler.Links.{accept_link}

-- Three chunks: one before the half-close, and two that are in the channel then.
write_to_egress_lem_example :
    write_to_egress
      ((1 ∷ []) ∷ (2 ∷ []) ∷ (3 ∷ []) ∷ [])
      (receives writes ∷ half_closes (writes ∷ writes ∷ []) ∷ [])
    ≡ record { chunks = (1 ∷ []) ∷ (2 ∷ []) ∷ (3 ∷ []) ∷ []; shut = true; ended = true }
write_to_egress_lem_example =
    write_to_egress_lem ((1 ∷ []) ∷ (2 ∷ []) ∷ (3 ∷ []) ∷ [])
      (receives writes ∷ half_closes (writes ∷ writes ∷ []) ∷ []) (refl, (refl, (refl, (refl, tt))))

abbrev empty_pool : TunnelPool (Queue Frame)
empty_pool = record { links = []; rr = 0; added = 0 }

-- A pool with one link.
abbrev one_link : TunnelPool (Queue Frame)
one_link = (accept_link empty_pool (record { is_open = true; size = 8; items = [] }) 5).0

one_alive : alive_count one_link ≡ 1
unfolding alive_count accept_link
one_alive = refl

-- An association without a connection in the map any more.
abbrev ctx : ReadLoopCtx (Queue (List ℕ)) (Queue Frame)
ctx = record {
  heap = [];
  next = 0;
  fired = [];
  timers = [];
  conns = [];
  pending = [];
  pending_bytes = 0;
  closed = [];
  handshaking = [];
  pool = one_link;
  resets = 0;
  reorder_window_bytes = 1000;
}

no_octets : (n : ℕ) (octets : List ℕ) → none ≡ some octets → length octets ≡ n
no_octets n octets e = cc

-- A parser that knows names only.
abbrev parser : AddrParser
parser = record {
  parse_v4 = λ t. none;
  parse_v6 = λ t. none;
  parse_v4_lem = λ t octets e. no_octets 4 octets e;
  parse_v6_lem = λ t octets e. no_octets 16 octets e;
}

-- The name "a" at port 53.
abbrev target : TargetAddr
target = record { address = 97 ∷ []; port = 53 }

target-IsSource : IsSource target
unfolding is_utf8
target-IsSource = record {
  port_fits = omega arith;
  not_empty = omega arith;
  fits = omega arith;
  text = refl;
}

abbrev turns : List (AnswerTurn (Queue (List ℕ)) parser list_buf (queue Frame))
turns = turn (λ c. c) 6 (answered target (7 ∷ 9 ∷ [])) ∷ turn (λ c. c) 7 (answered target []) ∷ []

udp_answers-Carries_example :
    Carries
      (Queue (List ℕ))
      parser
      list_buf
      (queue Frame)
      ctx
      turns
      7
      1
      (udp_answers (Queue (List ℕ)) parser list_buf (queue Frame) 7 ctx 1 turns)
udp_answers-Carries_example =
    udp_answers-Carries (Queue (List ℕ)) parser list_buf (queue Frame) 7 ctx 1 turns (omega arith)
      (target-IsSource, (target-IsSource, tt))

both_sent : (udp_answers (Queue (List ℕ)) parser list_buf (queue Frame) 7 ctx 1 turns).seq ≡ 3
unfolding udp_answers encode_udp_datagram send accept_link
both_sent = refl
