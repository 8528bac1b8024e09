-- ===== src/Splitter.antt =====
-- src/splitter.rs: the splitter's connections and the frames that come back from the tunnels.
-- Handlers and the connection map share a connection by `Arc`: the heap holds the connections by
-- their address, and the map leads from a conn_id to an address. An `Instant` is a time in nanoseconds.
pub mod Inbound
pub mod Reset
pub mod Isolation
pub mod Delivery
pub mod Client
pub mod Sweep
pub mod ConnId
pub mod Recovery
pub mod Opening
pub mod Started
pub mod Heartbeat
pub mod Slots
pub mod Relay
pub mod Grace
mod Examples
mod HandlerExamples
use round_robin.Common.{
  add_u64, ℕ, zero, suc, ◌+◌, ◌%◌, ◌^◌, Bool, true, false, not, ◌||◌, none, some, Option, List, [],
  ◌∷◌, length, lookup, remove, insert, ltb, leb, ◌==◌, if◌then◌else◌,
}
use round_robin.Frame.{has_flag, Frame, flag_data, flag_fin, flag_rst, flag_syn}
use round_robin.Frame.New.{rst_frame}
use round_robin.Reorder.{ReorderBuf, PushResult, push, is_complete_through}
use round_robin.Pool.{Mpsc, TrySend, sent, closed, full, TunnelPool, send}

-- `C` is the sender of the channel to the client.
pub record VirtConn (C : Type 0) : Type 0 where
  pub to_client_tx : C
  pub reorder : ReorderBuf
  pub notify : Bool
  pub closed : Bool
  pub fin_received : Bool
  pub fin_seq : ℕ
  pub grace_waiting : Bool
  pub rst : Bool
  pub is_udp : Bool
  pub last_active : ℕ
  pub bytes_sent : ℕ
  pub bytes_recv : ℕ
  pub frames_sent : ℕ
  pub frames_recv : ℕ

-- `C` and `S` are the senders of the clients' and of the tunnels' channels.
pub record State (C S : Type 0) : Type 0 where
  pub heap : List (ℕ × VirtConn C)
  pub conns : List (ℕ × ℕ)
  pub time_wait : List (ℕ × ℕ)
  pub pool : TunnelPool S
  pub resets : ℕ

module _ {C : Type 0} where
  -- The marks that `reset_conn` leaves for the connection's handler.
  abbrev pub torn_down : VirtConn C → VirtConn C
  torn_down vc = record vc { rst = true; closed = true; notify = true }

  -- What a FIN records: a half-close.
  abbrev pub half_closed : VirtConn C → ℕ → VirtConn C
  half_closed vc seq = record vc { fin_received = true; fin_seq = seq; notify = true }

module _ {C S : Type 0} where
  -- `conns.get(&conn_id)`: the address and the connection.
  abbrev pub find_conn : State C S → ℕ → Option (ℕ × VirtConn C)
  find_conn st cid = elim (lookup cid st.conns) [
    | none ↦ none
    | some at ↦ elim (lookup at st.heap) [ none ↦ none | some vc ↦ some (at, vc) ]
  ]

  abbrev pub write_conn : State C S → ℕ → VirtConn C → State C S
  write_conn st at vc = record st { heap = insert at vc st.heap }

module _ (client : Mpsc (List ℕ)) where
  open client use {Sender, try_send}

  -- `for chunk in result.ready`: every chunk is tried, and a refusal is remembered.
  unfoldable pub deliver : Sender → List (List ℕ) → Sender × Bool
  deliver tx [] = (tx, false)
  deliver tx (chunk ∷ chunks) = elim (try_send tx chunk) [
    | sent tx' ↦ deliver tx' chunks
    | refused ↦ let (last, o) = deliver tx chunks in (last, true)
  ]

  -- The connection after a frame, and whether it must be reset.
  unfoldable pub on_frame : VirtConn Sender → ℕ → List ℕ → ℕ → VirtConn Sender × Bool
  unfolding deliver
  on_frame vc seq payload now =
      let (window, result) = push vc.reorder seq payload in
      let (tx, overflow) = deliver vc.to_client_tx result.ready in
      if result.accepted
      then (
        record vc {
          to_client_tx = tx;
          reorder = window;
          last_active = now;
          bytes_recv = add_u64 vc.bytes_recv (length payload);
          frames_recv = add_u64 vc.frames_recv 1;
        },
        overflow,
      )
      else (record vc { reorder = window }, result.overflow)

  -- A datagram goes to the client past the reorder window, and is dropped if the channel refuses it.
  unfoldable pub on_datagram : VirtConn Sender → List ℕ → ℕ → VirtConn Sender
  on_datagram vc payload now = elim (try_send vc.to_client_tx payload) [
    | sent tx ↦ record vc {
      to_client_tx = tx;
      last_active = now;
      bytes_recv = add_u64 vc.bytes_recv (length payload);
      frames_recv = add_u64 vc.frames_recv 1;
    }
    | refused ↦ record vc { last_active = now }
  ]

module _ (client : Mpsc (List ℕ)) (tunnel : Mpsc Frame) where
  -- `pool.send(frame)`, its answer not looked at.
  abbrev pub send_frame :
      State client.Sender tunnel.Sender → Frame → State client.Sender tunnel.Sender
  send_frame st f = record st { pool = (send tunnel st.pool f).0 }

  unfoldable pub reset_conn :
      State client.Sender tunnel.Sender → ℕ → ℕ → State client.Sender tunnel.Sender
  reset_conn st cid now =
      let waiting = record st { time_wait = insert cid now st.time_wait } in
      let gone : State client.Sender tunnel.Sender = elim (find_conn waiting cid) [
        | none ↦ waiting
        | some (at, vc) ↦ record (write_conn waiting at (torn_down vc)) {
          conns = remove cid waiting.conns;
        }
      ] in
      record (send_frame gone (rst_frame cid)) { resets = add_u64 gone.resets 1 }

  -- DATA for a connection that is there.
  unfoldable pub on_data :
      State client.Sender tunnel.Sender
      → ℕ
      → VirtConn client.Sender
      → Frame
      → ℕ
      → State client.Sender tunnel.Sender
  on_data st at vc f now =
      if vc.is_udp
      then write_conn st at (on_datagram client vc f.payload now)
      else let (vc', overflow) = on_frame client vc f.seq f.payload now in
        if overflow then reset_conn (write_conn st at vc') f.conn_id now else write_conn st at vc'

  unfoldable pub handle_inbound_frame :
      State client.Sender tunnel.Sender → Frame → ℕ → State client.Sender tunnel.Sender
  handle_inbound_frame st f now =
      if has_flag f.flags flag_data
      then elim (find_conn st f.conn_id) [
        | some (at, vc) ↦ on_data st at vc f now
        | none ↦ elim (lookup f.conn_id st.time_wait) [
          | some since ↦ send_frame st (rst_frame f.conn_id)
          | none ↦ send_frame st (rst_frame f.conn_id)
        ]
      ]
      else if has_flag f.flags flag_fin
      then elim (find_conn st f.conn_id) [
        | none ↦ st
        | some (at, vc) ↦ if vc.is_udp then st else write_conn st at (half_closed vc f.seq)
      ]
      else if has_flag f.flags flag_rst
      then reset_conn st f.conn_id now
      else st
