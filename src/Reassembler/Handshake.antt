-- ===== src/Reassembler/Handshake.antt =====
-- src/reassembler.rs, `handle_frame`: the frame SYN. The handler waits for the egress connection, and
-- other frames are handled meanwhile: `syn_start` runs up to the wait, `udp_bound` and `connected` run
-- from the answer on.
use round_robin.Common.{
  ℕ, suc, Bool, true, false, not, ◌&&◌, Option, none, some, List, [], ◌∷◌, lookup, remove, insert,
  contains_key, add_u64, ◌==◌, if◌then◌else◌, ok, err,
}
use round_robin.Frame.{Frame, flag_data, flag_fin, has_flag}
use round_robin.Frame.Syn.{SynTarget, decode_syn, proto_tcp, proto_udp}
use round_robin.Pool.{Mpsc}
use round_robin.Reassembler.{
  VirtConnDe, PendingEntry, new_entry, new_conn, ReadLoopCtx, write_vconn, tear_out, tombstone,
  send_rst,
}
use round_robin.Reassembler.Pending.{remove_pending}
use round_robin.Reassembler.HalfClose.{close_write_half, on_fin}
use round_robin.Reassembler.Handler.{goes_on, breaks, delivered, take_data, forward_udp_datagram}

-- Where the handler of a SYN stands: it is through, or it waits for a pair of UDP sockets or for a
-- connection to the target, with the address of its `Notify`.
pub data Start : Type 0 where
  finished : Start
  binds connects : SynTarget → ℕ → Start

-- The answer for which the handler waits; `aborted` is the `Notify`.
pub data Connect (E : Type 0) : Type 0 where
  established : E → Connect E
  refused timed_out aborted : Connect E

module _ {E S : Type 0} where
  abbrev pub end_handshake : ReadLoopCtx E S → ℕ → ReadLoopCtx E S
  end_handshake ctx cid = record ctx { handshaking = remove cid ctx.handshaking }

  -- The entry goes, and the handshake is over.
  abbrev pub drop_handshake : ReadLoopCtx E S → ℕ → ReadLoopCtx E S
  drop_handshake ctx cid = end_handshake (remove_pending ctx cid).0 cid

  -- The entry of the id, or a new one, gets the handshake's `Notify`.
  abbrev pub reserve_slot : ReadLoopCtx E S → ℕ → ℕ → ReadLoopCtx E S
  reserve_slot ctx cid now =
      let entry : PendingEntry = elim (lookup cid ctx.pending) [
        | none ↦ new_entry now
        | some e ↦ e
      ] in
      record ctx {
        pending = insert cid (record entry { cancel = some ctx.next }) ctx.pending;
        next = suc ctx.next;
      }

  -- `ctx.conns.insert(cid, vconn)` with a connection at a fresh address.
  abbrev pub install : ReadLoopCtx E S → ℕ → VirtConnDe E → ReadLoopCtx E S
  install ctx cid vc = record ctx {
    heap = insert ctx.next vc ctx.heap;
    conns = insert cid ctx.next ctx.conns;
    next = suc ctx.next;
  }

module _ {E : Type 0} (tunnel : Mpsc Frame) where
  -- What every SYN that fails does.
  abbrev pub refuse : ReadLoopCtx E tunnel.Sender → ℕ → ℕ → ReadLoopCtx E tunnel.Sender
  refuse ctx cid now = send_rst tunnel (tombstone (drop_handshake ctx cid) cid now) cid

  unfoldable pub syn_start :
      ReadLoopCtx E tunnel.Sender → Frame → ℕ → ReadLoopCtx E tunnel.Sender × Start
  unfolding remove_pending
  syn_start ctx f now =
      let cid = f.conn_id in
      if contains_key cid ctx.conns
      then (ctx, finished)
      else let begun = record ctx { handshaking = insert cid now ctx.handshaking } in
        if contains_key cid ctx.handshaking
        then (begun, finished)
        else let slot = reserve_slot begun cid now in
          if contains_key cid ctx.closed
          then (drop_handshake slot cid, finished)
          else elim (decode_syn f.payload) [
            | err e ↦ (refuse slot cid now, finished)
            | ok target ↦
                if not (target.proto == proto_tcp) && not (target.proto == proto_udp)
                then (refuse slot cid now, finished)
                else if target.proto == proto_udp
                then (slot, binds target ctx.next)
                else (slot, connects target ctx.next)
          ]

module _ {E : Type 0} where
  -- The frames that waited are handed to the socket.
  abbrev pub forward_all : VirtConnDe E → List Frame → VirtConnDe E
  forward_all vc [] = vc
  forward_all vc (f ∷ fs) =
      forward_all (if has_flag f.flags flag_data then forward_udp_datagram vc f.payload else vc) fs

-- The outcome of the replay: the connection, the number of the last FIN, and whether it must be reset.
pub record Replay (E : Type 0) : Type 0 where
  pub conn : VirtConnDe E
  pub fin : Option ℕ
  pub reset : Bool

module _ (egress : Mpsc (List ℕ)) where
  -- `for f in entry.frames`.
  unfoldable pub replay : VirtConnDe egress.Sender → Option ℕ → List Frame → Replay egress.Sender
  unfolding take_data
  replay vc fin [] = record { conn = vc; fin = fin; reset = false }
  replay vc fin (f ∷ fs) = elim (has_flag f.flags flag_data) [
    | true ↦
        let (vc', fate) = take_data egress vc f.seq f.payload in
        elim fate [
          | goes_on ↦ replay vc' fin fs
          | breaks ↦ record { conn = vc'; fin = fin; reset = true }
          | delivered ↦ replay (if vc'.fin_received then close_write_half vc' false else vc') fin fs
        ]
    | false ↦ replay vc (if has_flag f.flags flag_fin then some f.seq else fin) fs
  ]

module _ (egress : Mpsc (List ℕ)) (tunnel : Mpsc Frame) where
  -- An entry whose RST came in between: the new connection goes again.
  abbrev pub abandon :
      ReadLoopCtx egress.Sender tunnel.Sender → ℕ → ℕ → ReadLoopCtx egress.Sender tunnel.Sender
  abandon ctx cid now = end_handshake (tombstone (tear_out ctx cid) cid now) cid

  -- After `bind_udp_pair`, with whether it succeeded.
  unfoldable pub udp_bound :
      ReadLoopCtx egress.Sender tunnel.Sender
      → ℕ
      → Bool
      → ℕ
      → ReadLoopCtx egress.Sender tunnel.Sender
  unfolding remove_pending forward_udp_datagram
  udp_bound ctx cid false now = refuse tunnel ctx cid now
  udp_bound ctx cid true now =
      let vc = new_conn none true ctx.reorder_window_bytes now in
      let (ctx', waited) = remove_pending (install ctx cid vc) cid in
      elim waited [
        | none ↦ end_handshake ctx' cid
        | some entry ↦
            if entry.cancelled
            then abandon ctx' cid now
            else end_handshake (write_vconn ctx' ctx.next (forward_all vc entry.frames)) cid
      ]

  -- The frames that waited go to the new connection at `at`.
  unfoldable pub drain_pending :
      ReadLoopCtx egress.Sender tunnel.Sender
      → ℕ
      → VirtConnDe egress.Sender
      → ℕ
      → List Frame
      → ℕ
      → ReadLoopCtx egress.Sender tunnel.Sender
  unfolding replay on_fin
  drain_pending ctx at vc cid frames now =
      let r = replay egress vc none frames in
      let done = write_vconn ctx at r.conn in
      if r.reset
      then (let gone = send_rst tunnel (tombstone (tear_out done cid) cid now) cid in
          end_handshake (record gone { resets = add_u64 gone.resets 1 }) cid)
      else elim r.fin [
        | none ↦ end_handshake done cid
        | some seq ↦ end_handshake (on_fin done at r.conn seq cid now) cid
      ]

  -- After `socks5_client_connect`.
  unfoldable pub connected :
      ReadLoopCtx egress.Sender tunnel.Sender
      → ℕ
      → Connect egress.Sender
      → ℕ
      → ReadLoopCtx egress.Sender tunnel.Sender
  unfolding remove_pending drain_pending
  connected ctx cid refused now = refuse tunnel ctx cid now
  connected ctx cid timed_out now = refuse tunnel ctx cid now
  connected ctx cid aborted now = tombstone (drop_handshake ctx cid) cid now
  connected ctx cid (established tx) now =
      if contains_key cid ctx.closed
      then drop_handshake ctx cid
      else let vc = new_conn (some tx) false ctx.reorder_window_bytes now in
        let (ctx', waited) = remove_pending (install ctx cid vc) cid in
        elim waited [
          | none ↦ end_handshake ctx' cid
          | some entry ↦
              if entry.cancelled
              then abandon ctx' cid now
              else drain_pending ctx' ctx.next vc cid entry.frames now
        ]
