-- ===== src/Reassembler/Links.antt =====
-- src/reassembler.rs: the tunnel links of a listener, from `accept` to their end, and `dispatch_frame`.
use round_robin.Common.{
  ℕ, suc, ◌+◌, ◌-◌, ◌≤◌, ◌≡◌, refl, inl, inr, Bool, true, false, List, [], ◌∷◌, ◌++◌, length,
  add_u64, leb, ltb, ◌==◌, if◌then◌else◌, Bool-cases, arith,
}
use round_robin.Frame.{Frame, has_flag, flag_syn}
use round_robin.Frame.New.{rst_frame}
use round_robin.Pool.{Mpsc, TunnelLink, TunnelPool, add, live, alive_count, send}
use round_robin.Splitter.Recovery.{control_flags}

abbrev pub max_tunnel_links : ℕ
max_tunnel_links = 64

module _ {S : Type 0} where
  -- A link over a new connection, with the sender of its channel.
  unfoldable pub new_link : S → ℕ → TunnelLink S
  new_link tx now_ms = record {
    tx = tx;
    alive = true;
    bytes_sent = 0;
    bytes_recv = 0;
    frames_sent = 0;
    frames_recv = 0;
    stop = false;
    writer_died = false;
    last_active_ms = now_ms;
    lost_frames = [];
    rate_bps = 0;
  }

  -- A connection that was accepted: whether it becomes a link.
  unfoldable pub accept_link : TunnelPool S → S → ℕ → TunnelPool S × Bool
  unfolding alive_count new_link add
  accept_link p tx now_ms =
      if leb max_tunnel_links (alive_count p)
      then (p, false)
      else (add p (new_link tx now_ms), true)

  -- The marks of a frame that came in with `n` bytes.
  unfoldable pub note_inbound : TunnelLink S → ℕ → ℕ → TunnelLink S
  note_inbound l n now_ms = record l {
    bytes_recv = add_u64 l.bytes_recv n;
    frames_recv = add_u64 l.frames_recv 1;
    last_active_ms = now_ms;
  }

  -- The end of the read loop: the drain task stops.
  unfoldable pub end_reader : TunnelLink S → TunnelLink S
  end_reader l = record l { alive = false; stop = true }

  live-append :
      (xs ys : List (TunnelLink S)) → length (live (xs ++ ys)) ≡ length (live xs) + length (live ys)
  live-append [] ys = omega arith
  live-append (l ∷ xs) ys = ground (arith, live-append xs ys)

  -- The listener keeps to at most 64 live links, and takes each connection below that.
  pub accept_link_lem :
      (p : TunnelPool S) (tx : S) (now_ms : ℕ)
      → alive_count p ≤ 64
      → (alive_count (accept_link p tx now_ms).0 ≤ 64)
        × ((accept_link p tx now_ms).1 ≡ ltb (alive_count p) 64)
        × (alive_count (accept_link p tx now_ms).0
            ≡ (if (accept_link p tx now_ms).1 then suc (alive_count p) else alive_count p))
  unfolding accept_link alive_count add new_link
  accept_link_lem p tx now_ms h = elim (Bool-cases (leb 64 (length (live p.links)))) [
    | inl full ↦ rw full (h, ground arith, refl)
    | inr room ↦
        let more = live-append p.links (new_link tx now_ms ∷ []) in
        rw room (ground (arith, more), ground arith, ground (arith, more))
  ]

module _ (tunnel : Mpsc Frame) where
  -- The frames that a link lost: control frames go again, and DATA becomes an RST.
  unfoldable pub resend_lost : TunnelPool tunnel.Sender → List Frame → TunnelPool tunnel.Sender
  resend_lost p [] = p
  resend_lost p (f ∷ lost) =
      resend_lost
        (send tunnel p (if has_flag f.flags control_flags then f else rst_frame f.conn_id)).0 lost

-- How a frame is handled: by a task with a permit of `syn_limit`, or at once.
pub data Dispatch : Type 0 where
  spawned inline : Dispatch

-- `permits` is what is left of the limit, before and after.
unfoldable pub dispatch_frame : ℕ → Frame → ℕ × Dispatch
dispatch_frame permits f =
    if has_flag f.flags flag_syn
    then (if permits == 0 then (permits, inline) else (permits - 1, spawned))
    else (permits, inline)
