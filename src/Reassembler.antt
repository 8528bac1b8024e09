-- ===== src/Reassembler.antt =====
-- src/reassembler.rs: the connections of the reassembler and its maps.
-- As on the other side, a connection is shared by the map and its tasks: the heap holds it by its
-- address. A `Notify` is the permit that it stores: a field where it belongs to a connection, and an
-- address in `fired` where it belongs to a handshake. An `Instant` is a time in nanoseconds.
pub mod Pending
pub mod HalfClose
pub mod Handler
pub mod Handshake
pub mod Heartbeat
pub mod Egress
pub mod Budget
pub mod Wired
pub mod Reserve
pub mod Waiting
pub mod Early
pub mod Kinds
pub mod Invariant
pub mod Setup
pub mod Steps
pub mod Served
pub mod Delivery
pub mod Closing
pub mod InTime
pub mod Abort
pub mod Writer
pub mod Answers
pub mod Links
mod Examples
mod TaskExamples
use round_robin.Common.{
  ℕ, suc, ◌+◌, ◌*◌, if◌then◌else◌, Bool, true, false, Option, none, some, List, [], ◌∷◌, lookup,
  remove, insert,
}
use round_robin.Frame.{Frame}
use round_robin.Frame.New.{rst_frame}
use round_robin.Reorder.{ReorderBuf, with_limit}
use round_robin.Pool.{Mpsc, TunnelPool, send}
use round_robin.Socks5.{TargetAddr}

abbrev pub max_pending_frames_per_cid : ℕ
max_pending_frames_per_cid = 256

abbrev pub pending_ttl_secs : ℕ
pending_ttl_secs = 30

-- `E` is the sender of the channel to the egress writer. The sockets of a UDP association are the
-- datagrams that were handed to them.
pub record VirtConnDe (E : Type 0) : Type 0 where
  pub egress : Option E
  pub reorder : ReorderBuf
  pub cancel : Bool
  pub cancel_writer : Bool
  pub half_close : Bool
  pub fin_received : Bool
  pub fin_seq : ℕ
  pub half_close_state : ℕ
  pub is_udp : Bool
  pub udp_sock : Option (List (TargetAddr × List ℕ))
  pub egress_eof : Bool
  pub created_at : ℕ
  pub last_active : ℕ
  pub bytes_sent : ℕ
  pub bytes_recv : ℕ
  pub frames_sent : ℕ
  pub frames_recv : ℕ

-- Frames that came before the connection was there.
pub record PendingEntry : Type 0 where
  pub frames : List Frame
  pub since : ℕ
  pub bytes : ℕ
  pub cancelled : Bool
  pub cancel : Option ℕ

abbrev pub new_entry : ℕ → PendingEntry
new_entry now = record { frames = []; since = now; bytes = 0; cancelled = false; cancel = none }

-- `next` is the next free address, and `timers` the connections whose fallback timer runs.
pub record ReadLoopCtx (E S : Type 0) : Type 0 where
  pub heap : List (ℕ × VirtConnDe E)
  pub next : ℕ
  pub fired : List ℕ
  pub timers : List ℕ
  pub conns : List (ℕ × ℕ)
  pub pending : List (ℕ × PendingEntry)
  pub pending_bytes : ℕ
  pub closed : List (ℕ × ℕ)
  pub handshaking : List (ℕ × ℕ)
  pub pool : TunnelPool S
  pub resets : ℕ
  pub reorder_window_bytes : ℕ

module _ {E : Type 0} where
  abbrev pub signal_teardown : VirtConnDe E → VirtConnDe E
  signal_teardown vc = record vc { cancel = true; cancel_writer = true }

  -- A connection as `handle_frame` builds it, for TCP with the sender and for UDP without.
  abbrev pub new_conn : Option E → Bool → ℕ → ℕ → VirtConnDe E
  new_conn egress is_udp window now = record {
    egress = egress;
    reorder = with_limit window;
    cancel = false;
    cancel_writer = false;
    half_close = false;
    fin_received = false;
    fin_seq = 0;
    half_close_state = 0;
    is_udp = is_udp;
    udp_sock = if is_udp then some [] else none;
    egress_eof = false;
    created_at = now;
    last_active = now;
    bytes_sent = 0;
    bytes_recv = 0;
    frames_sent = 0;
    frames_recv = 0;
  }

abbrev pub permits : Option ℕ → List ℕ → List ℕ
permits none fired = fired
permits (some notify) fired = notify ∷ fired

module _ {E S : Type 0} where
  -- `ctx.conns.get(&cid)`: the address and the connection.
  abbrev pub find_vconn : ReadLoopCtx E S → ℕ → Option (ℕ × VirtConnDe E)
  find_vconn ctx cid = elim (lookup cid ctx.conns) [
    | none ↦ none
    | some at ↦ elim (lookup at ctx.heap) [ none ↦ none | some vc ↦ some (at, vc) ]
  ]

  abbrev pub write_vconn : ReadLoopCtx E S → ℕ → VirtConnDe E → ReadLoopCtx E S
  write_vconn ctx at vc = record ctx { heap = insert at vc ctx.heap }

  -- `if let Some((_, vc)) = ctx.conns.remove(&cid) { signal_teardown(&vc) }`
  abbrev pub tear_out : ReadLoopCtx E S → ℕ → ReadLoopCtx E S
  tear_out ctx cid = elim (find_vconn ctx cid) [
    | none ↦ ctx
    | some (at, vc) ↦ record (write_vconn ctx at (signal_teardown vc)) {
      conns = remove cid ctx.conns;
    }
  ]

  abbrev pub tombstone : ReadLoopCtx E S → ℕ → ℕ → ReadLoopCtx E S
  tombstone ctx cid now = record ctx { closed = insert cid now ctx.closed }

  -- `notify_one` on the `Notify` of a handshake, if the entry has one.
  abbrev pub fire : ReadLoopCtx E S → Option ℕ → ReadLoopCtx E S
  fire ctx notify = record ctx { fired = permits notify ctx.fired }

module _ {E : Type 0} (tunnel : Mpsc Frame) where
  abbrev pub send_rst : ReadLoopCtx E tunnel.Sender → ℕ → ReadLoopCtx E tunnel.Sender
  send_rst ctx cid = record ctx { pool = (send tunnel ctx.pool (rst_frame cid)).0 }
