-- ===== src/Splitter/Opening.antt =====
-- src/splitter.rs: the start of `handle_tcp_client` and of `handle_udp_client`, up to the reply for the client,
-- and their end, where the id goes to TIME_WAIT. The address `at` is that of the new connection.
use round_robin.Common.{
  ℕ, Bool, false, none, some, List, [], ◌∷◌, lookup, insert, remove, ◌==◌, if◌then◌else◌, ok, err,
}
use round_robin.Wire.{BufMut}
use round_robin.Frame.{Frame, Error}
use round_robin.Frame.New.{syn_frame, rst_frame}
use round_robin.Frame.Syn.{SynTarget, proto_tcp, proto_udp, encode_syn}
use round_robin.Reorder.{with_limit}
use round_robin.Pool.{Mpsc, send}
use round_robin.Socks5.{TargetAddr}
use round_robin.Socks5.Handshake.{reply_general_failure}
use round_robin.Splitter.{VirtConn, State, write_conn, send_frame}

-- How a start ends: the handler runs on, or gives up, after these bytes for the client; or it fails before.
pub data Opened : Type 0 where
  runs gives_up : List ℕ → Opened
  fails : Error → Opened

module _ {C : Type 0} where
  unfoldable pub new_vconn : C → ℕ → Bool → ℕ → VirtConn C
  new_vconn tx reorder_window_bytes is_udp now = record {
    to_client_tx = tx;
    reorder = with_limit reorder_window_bytes;
    notify = false;
    closed = false;
    fin_received = false;
    fin_seq = 0;
    grace_waiting = false;
    rst = false;
    is_udp = is_udp;
    last_active = now;
    bytes_sent = 0;
    bytes_recv = 0;
    frames_sent = 0;
    frames_recv = 0;
  }

-- The SYN target of a TCP client, and of an association.
abbrev pub syn_target : TargetAddr → SynTarget
syn_target target = record { proto = proto_tcp; address = target.address; port = target.port }

abbrev pub udp_syn_target : SynTarget
udp_syn_target = record {
  proto = proto_udp;
  address = 48 ∷ 46 ∷ 48 ∷ 46 ∷ 48 ∷ 46 ∷ 48 ∷ [];
  port = 0;
}

module _ {C S : Type 0} where
  -- `conns.insert(conn_id, vconn.clone())`
  unfoldable pub insert_conn : State C S → ℕ → ℕ → VirtConn C → State C S
  insert_conn st cid at vc = record (write_conn st at vc) { conns = insert cid at st.conns }

  -- `conns.remove_if(&conn_id, |_, v| Arc::ptr_eq(v, &vconn))`
  unfoldable pub remove_own : State C S → ℕ → ℕ → State C S
  remove_own st cid at = elim (lookup cid st.conns) [
    | none ↦ st
    | some a ↦ if a == at then record st { conns = remove cid st.conns } else st
  ]

  -- The end of both handlers.
  unfoldable pub forget_id : State C S → ℕ → ℕ → ℕ → State C S
  unfolding remove_own
  forget_id st cid at now =
      remove_own (record st { time_wait = insert cid now st.time_wait }) cid at

-- The end of an association also sends an RST.
module _ (client : Mpsc (List ℕ)) (tunnel : Mpsc Frame) where
  unfoldable pub end_udp :
      State client.Sender tunnel.Sender → ℕ → ℕ → ℕ → State client.Sender tunnel.Sender
  unfolding forget_id
  end_udp st cid at now = send_frame client tunnel (forget_id st cid at now) (rst_frame cid)

module _ (buf : BufMut) (client : Mpsc (List ℕ)) (tunnel : Mpsc Frame) where
  -- A TCP client's start, with the connection `vc` and the reply of the SOCKS5 handshake.
  unfoldable pub open_tcp :
      State client.Sender tunnel.Sender
      → ℕ
      → ℕ
      → TargetAddr
      → List ℕ
      → VirtConn client.Sender
      → State client.Sender tunnel.Sender × Opened
  unfolding insert_conn remove_own
  open_tcp st cid at target reply vc = elim (encode_syn buf (syn_target target)) [
    | err e ↦ (st, fails e)
    | ok payload ↦
        let linked = insert_conn st cid at vc in
        let (pool, sent) = send tunnel linked.pool (syn_frame cid payload) in
        let st' : State client.Sender tunnel.Sender = record linked { pool = pool } in
        if sent then (st', runs reply) else (remove_own st' cid at, gives_up reply_general_failure)
  ]

  unfoldable pub open_udp :
      State client.Sender tunnel.Sender
      → ℕ
      → ℕ
      → List ℕ
      → VirtConn client.Sender
      → State client.Sender tunnel.Sender × Opened
  unfolding insert_conn
  open_udp st cid at reply vc =
      let linked = insert_conn st cid at vc in
      elim (encode_syn buf udp_syn_target) [
        | err e ↦ (linked, fails e)
        | ok payload ↦
            let (pool, sent) = send tunnel linked.pool (syn_frame cid payload) in
            let st' : State client.Sender tunnel.Sender = record linked { pool = pool } in
            if sent
            then (st', runs reply)
            else (record st' { conns = remove cid st'.conns }, gives_up reply_general_failure)
      ]
