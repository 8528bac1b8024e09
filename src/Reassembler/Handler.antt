-- ===== src/Reassembler/Handler.antt =====
-- src/reassembler.rs, `handle_frame`: the frames DATA, FIN and RST. A step runs whole, so that an
-- entry that was found in a map is still there when it is taken out.
use round_robin.Common.{
  ℕ, Bool, true, false, none, some, List, [], ◌∷◌, ◌++◌, length, lookup, insert, contains_key,
  add_u64, add_usize, sub_usize, ltb, if◌then◌else◌, ok, err,
}
use round_robin.Frame.{Frame, flag_data, flag_fin, flag_rst, has_flag, max_pending_cids}
use round_robin.Reorder.{push}
use round_robin.Pool.{Mpsc, sent}
use round_robin.Socks5.Datagram.{decode_udp_datagram}
use round_robin.Reassembler.{
  VirtConnDe, PendingEntry, new_entry, ReadLoopCtx, max_pending_frames_per_cid, find_vconn,
  write_vconn, tear_out, tombstone, send_rst,
}
use round_robin.Reassembler.Pending.{fail_pending_conn, try_reserve_pending, cancel_pending}
use round_robin.Reassembler.HalfClose.{close_write_half, finish_if_done, on_fin}

module _ {E : Type 0} where
  -- `forward_udp_datagram`: the datagram is handed to the connection's socket.
  unfoldable pub forward_udp_datagram : VirtConnDe E → List ℕ → VirtConnDe E
  forward_udp_datagram vc payload = elim (decode_udp_datagram payload) [
    | err e ↦ vc
    | ok datagram ↦ elim vc.udp_sock [
      | none ↦ vc
      | some sent_before ↦ record vc { udp_sock = some (sent_before ++ datagram ∷ []) }
    ]
  ]

  abbrev pub on_udp_data : VirtConnDe E → List ℕ → ℕ → VirtConnDe E
  on_udp_data vc payload now =
      let vc' = forward_udp_datagram vc payload in
      record vc' {
        bytes_recv = add_u64 vc'.bytes_recv (length payload);
        frames_recv = add_u64 vc'.frames_recv 1;
        last_active = now;
      }

module _ {E : Type 0} where
  -- After a delivery: the counters, and the write half, which closes if the frame filled the gap.
  unfoldable pub settle : VirtConnDe E → List ℕ → ℕ → VirtConnDe E
  unfolding close_write_half
  settle vc payload now =
      let counted = record vc {
        bytes_recv = add_u64 vc.bytes_recv (length payload);
        frames_recv = add_u64 vc.frames_recv 1;
        last_active = now;
      } in
      if counted.fin_received then close_write_half counted false else counted

-- What becomes of a connection that took a DATA frame.
pub data Fate : Type 0 where
  goes_on breaks delivered : Fate

module _ (egress : Mpsc (List ℕ)) where
  open egress use {Sender, try_send}

  -- `for chunk in result.ready`, which ends at the first chunk that is refused.
  unfoldable pub write_chunks : Sender → List (List ℕ) → Sender × Bool
  write_chunks tx [] = (tx, true)
  write_chunks tx (chunk ∷ chunks) = elim (try_send tx chunk) [
    | sent tx' ↦ write_chunks tx' chunks
    | refused ↦ (tx, false)
  ]

  -- A TCP connection takes a DATA frame. `egress()` is there on a TCP connection; where it is not, the
  -- `expect` would end the task before the first chunk is written.
  unfoldable pub take_data : VirtConnDe Sender → ℕ → List ℕ → VirtConnDe Sender × Fate
  unfolding write_chunks
  take_data vc seq payload =
      let (window, result) = push vc.reorder seq payload in
      let vc' = record vc { reorder = window } in
      if result.accepted
      then elim vc.egress [
        | none ↦ (vc', goes_on)
        | some tx ↦
            let (tx', written) = write_chunks tx result.ready in
            (record vc' { egress = some tx' }, (if written then delivered else breaks))
      ]
      else (vc', (if result.overflow then breaks else goes_on))

module _ (egress : Mpsc (List ℕ)) (tunnel : Mpsc Frame) where
  -- Both sides are reset: the id is tombstoned, the connection torn out, an RST sent.
  abbrev pub break_conn :
      ReadLoopCtx egress.Sender tunnel.Sender → ℕ → ℕ → ReadLoopCtx egress.Sender tunnel.Sender
  break_conn ctx cid now =
      let gone = send_rst tunnel (tear_out (tombstone ctx cid now) cid) cid in
      record gone { resets = add_u64 gone.resets 1 }

  -- DATA for a TCP connection that is there.
  unfoldable pub on_tcp_data :
      ReadLoopCtx egress.Sender tunnel.Sender
      → ℕ
      → VirtConnDe egress.Sender
      → Frame
      → ℕ
      → ReadLoopCtx egress.Sender tunnel.Sender
  unfolding take_data settle
  on_tcp_data ctx at vc f now =
      let (vc', fate) = take_data egress vc f.seq f.payload in
      elim fate [
        | goes_on ↦ write_vconn ctx at vc'
        | breaks ↦ break_conn (write_vconn ctx at vc') f.conn_id now
        | delivered ↦
            let settled = settle vc' f.payload now in
            if vc'.fin_received
            then finish_if_done (write_vconn ctx at settled) settled f.conn_id now
            else write_vconn ctx at settled
      ]

  -- DATA or FIN that finds an entry: it waits there, or the connection fails if the entry is full.
  -- `bytes` is what was reserved for the frame.
  unfoldable pub enqueue :
      ReadLoopCtx egress.Sender tunnel.Sender
      → PendingEntry
      → Frame
      → ℕ
      → ℕ
      → ReadLoopCtx egress.Sender tunnel.Sender
  enqueue ctx entry f bytes now =
      if ltb (length entry.frames) max_pending_frames_per_cid
      then record ctx {
        pending =
            insert f.conn_id
              (record entry {
                frames = entry.frames ++ f ∷ [];
                bytes = add_usize entry.bytes bytes;
              })
              ctx.pending;
      }
      else fail_pending_conn tunnel
          (record ctx { pending_bytes = sub_usize ctx.pending_bytes bytes }) f.conn_id now

  -- A frame that is the first to wait for its connection.
  unfoldable pub enqueue_first :
      ReadLoopCtx egress.Sender tunnel.Sender
      → Frame
      → ℕ
      → ℕ
      → ReadLoopCtx egress.Sender tunnel.Sender
  enqueue_first ctx f bytes now = record ctx {
    pending =
        insert f.conn_id (record (new_entry now) { frames = f ∷ []; bytes = bytes }) ctx.pending;
  }

  -- DATA for an id that has no connection.
  unfoldable pub on_early_data :
      ReadLoopCtx egress.Sender tunnel.Sender → Frame → ℕ → ReadLoopCtx egress.Sender tunnel.Sender
  unfolding enqueue enqueue_first fail_pending_conn try_reserve_pending
  on_early_data ctx f now =
      let cid = f.conn_id in
      let plen = length f.payload in
      if contains_key cid ctx.closed
      then send_rst tunnel ctx cid
      else if contains_key cid ctx.pending
      then (let (ctx', reserved) = try_reserve_pending tunnel ctx (some cid) plen now in
          if reserved
          then elim (lookup cid ctx'.pending) [
            | some entry ↦ enqueue ctx' entry f plen now
            | none ↦ record ctx' { pending_bytes = sub_usize ctx'.pending_bytes plen }
          ]
          else fail_pending_conn tunnel ctx' cid now)
      else if ltb (length ctx.pending) max_pending_cids
      then (let (ctx', reserved) = try_reserve_pending tunnel ctx none plen now in
          if reserved then enqueue_first ctx' f plen now else fail_pending_conn tunnel ctx' cid now)
      else fail_pending_conn tunnel ctx cid now

  -- FIN for an id that has no connection.
  unfoldable pub on_early_fin :
      ReadLoopCtx egress.Sender tunnel.Sender → Frame → ℕ → ReadLoopCtx egress.Sender tunnel.Sender
  unfolding enqueue enqueue_first fail_pending_conn
  on_early_fin ctx f now =
      let cid = f.conn_id in
      if contains_key cid ctx.closed then ctx else elim (lookup cid ctx.pending) [
        | some entry ↦ enqueue ctx entry f 0 now
        | none ↦
            if ltb (length ctx.pending) max_pending_cids
            then enqueue_first ctx f 0 now
            else fail_pending_conn tunnel ctx cid now
      ]

  unfoldable pub on_rst :
      ReadLoopCtx egress.Sender tunnel.Sender → ℕ → ℕ → ReadLoopCtx egress.Sender tunnel.Sender
  on_rst ctx cid now = elim (find_vconn ctx cid) [
    | some (at, vc) ↦
        let gone = tear_out (tombstone ctx cid now) cid in
        record gone { resets = add_u64 gone.resets 1 }
    | none ↦ tombstone (cancel_pending ctx cid) cid now
  ]

  -- `handle_frame` for a frame without SYN.
  unfoldable pub handle_frame :
      ReadLoopCtx egress.Sender tunnel.Sender → Frame → ℕ → ReadLoopCtx egress.Sender tunnel.Sender
  unfolding on_tcp_data on_early_data on_early_fin on_rst on_fin forward_udp_datagram
  handle_frame ctx f now =
      if has_flag f.flags flag_data
      then elim (find_vconn ctx f.conn_id) [
        | some (at, vc) ↦
            if vc.is_udp
            then write_vconn ctx at (on_udp_data vc f.payload now)
            else on_tcp_data ctx at vc f now
        | none ↦ on_early_data ctx f now
      ]
      else if has_flag f.flags flag_fin
      then elim (find_vconn ctx f.conn_id) [
        | some (at, vc) ↦ if vc.is_udp then ctx else on_fin ctx at vc f.seq f.conn_id now
        | none ↦ on_early_fin ctx f now
      ]
      else if has_flag f.flags flag_rst
      then on_rst ctx f.conn_id now
      else ctx
