-- ===== src/Transfer/Setup.antt =====
-- The set-up of a connection on both sides: `handle_tcp_client` (src/splitter.rs) and the SYN in `handle_frame`
-- (src/reassembler.rs).
use round_robin.Common.{
  ℕ, ◌≤◌, ◌≡◌, refl, ◌⊎◌, inl, inr, true, false, none, some, List, length, contains_key, lookup,
  lookup-insert, ok, arith,
}
use round_robin.Wire.{BufMut}
use round_robin.Frame.{Frame}
use round_robin.Frame.New.{syn_frame}
use round_robin.Frame.Syn.{IsSynTarget, decode_syn}
use round_robin.Pool.{Mpsc, send}
use round_robin.Socks5.{TargetAddr}
use round_robin.Socks5.Handshake.{reply_general_failure}
use round_robin.Splitter.{VirtConn, State}
use round_robin.Splitter.Opening.{Opened, runs, gives_up, syn_target, open_tcp}
use round_robin.Splitter.Started.{open_tcp-Opens}
use round_robin.Reassembler.{ReadLoopCtx}
use round_robin.Reassembler.Handshake.{connects, syn_start}

module _ {E : Type 0} (far : Mpsc Frame) where
  -- An id that the reassembler does not know.
  pub record IsNew (ctx : ReadLoopCtx E far.Sender) (cid : ℕ) : Type 0 where
    pub unmapped : lookup cid ctx.conns ≡ none
    pub no_handshake : lookup cid ctx.handshaking ≡ none
    pub not_closed : lookup cid ctx.closed ≡ none

  syn_connects :
      (ctx : ReadLoopCtx E far.Sender) (cid now : ℕ) (payload : List ℕ) (target : TargetAddr)
      → IsNew ctx cid
      → decode_syn payload ≡ ok (syn_target target)
      → let r = syn_start far ctx (syn_frame cid payload) now in
        (r.1 ≡ connects (syn_target target) ctx.next) × (lookup cid r.0.handshaking ≡ some now)
  unfolding syn_start syn_frame
  syn_connects ctx cid now payload target v e =
      let mapped : contains_key cid ctx.conns ≡ false = rw (v.unmapped, contains_key) refl in
      let shaking : contains_key cid ctx.handshaking ≡ false =
        rw (v.no_handshake, contains_key) refl in
      let closed : contains_key cid ctx.closed ≡ false = rw (v.not_closed, contains_key) refl in
      rw (syn_start, mapped, shaking, closed, e)
        (refl, ground (arith, lookup-insert cid cid now ctx.handshaking))

module _ (buf : BufMut) (client : Mpsc (List ℕ)) (tunnel far : Mpsc Frame) {E : Type 0} where
  -- The SYN of a client on its way, and what the reassembler makes of it.
  pub record Reaches (st : State client.Sender tunnel.Sender) (cid : ℕ) (target : TargetAddr)
      (reply : List ℕ) (r : State client.Sender tunnel.Sender × Opened)
      (ctx : ReadLoopCtx E far.Sender) (now : ℕ) : Type 0 where
    pub syn : Frame
    pub queued : r.0.pool ≡ (send tunnel st.pool syn).0
    pub told :
        ((send tunnel st.pool syn).1 ≡ true) × (r.1 ≡ runs reply)
        ⊎ ((send tunnel st.pool syn).1 ≡ false) × (r.1 ≡ gives_up reply_general_failure)
    pub connects_to : (syn_start far ctx syn now).1 ≡ connects (syn_target target) ctx.next
    pub begun : lookup cid (syn_start far ctx syn now).0.handshaking ≡ some now

  -- The SYN of a TCP client whose target fits it makes a reassembler that does not know the id connect to
  -- exactly this target; the client is told of success just if a link took the SYN.
  pub open_tcp-syn_start :
      (st : State client.Sender tunnel.Sender) (cid at : ℕ) (target : TargetAddr) (reply : List ℕ)
      (vc : VirtConn client.Sender) (ctx : ReadLoopCtx E far.Sender) (now : ℕ)
      → IsSynTarget (syn_target target)
      → length target.address ≤ 65535
      → IsNew far ctx cid
      → Reaches st cid target reply (open_tcp buf client tunnel st cid at target reply vc) ctx now
  open_tcp-syn_start st cid at target reply vc ctx now v h new =
      let o = open_tcp-Opens buf client tunnel st cid at target reply vc v h in
      let (goes, begun) = syn_connects far ctx cid now o.payload target new o.carries in
      record {
        syn = syn_frame cid o.payload;
        queued = o.pool;
        told = elim o.outcome [
          | inl (s, told, mapped) ↦ inl (s, told)
          | inr (s, told, unmapped) ↦ inr (s, told)
        ];
        connects_to = goes;
        begun = begun;
      }
