-- ===== src/Splitter/Started.antt =====
-- What the start and the end of a client's handler do to the map of src/splitter.rs.
use round_robin.Common.{
  ℕ, ◌≤◌, ◌≡◌, ◌≢◌, refl, sym, ap, ◌∙◌, ◌⊎◌, inl, inr, true, false, none, some, List, [],
  append-nil, length, lookup, insert, remove, lookup-insert, lookup-remove, ◌==◌, Option-cases,
  Bool-cases, ok, arith,
}
use round_robin.Wire.{BufMut}
use round_robin.Wire.Utf8.{is_utf8}
use round_robin.Frame.{Frame}
use round_robin.Frame.New.{syn_frame}
use round_robin.Frame.Syn.{SynTarget, IsSynTarget, encode_syn, decode_syn}
use round_robin.Frame.SynRoundTrip.{decode_syn-encode_syn}
use round_robin.Pool.{Mpsc, TunnelPool, send}
use round_robin.Socks5.{TargetAddr}
use round_robin.Socks5.Handshake.{reply_general_failure}
use round_robin.Splitter.{VirtConn, State, find_conn}
use round_robin.Splitter.Reset.{find_conn-some}
use round_robin.Splitter.Opening.{
  Opened, runs, gives_up, syn_target, udp_syn_target, insert_conn, remove_own, forget_id, open_tcp,
  open_udp,
}

module _ {C S : Type 0} where
  -- An id after its handler: not the handler's connection any more.
  pub record Released (st st' : State C S) (cid at now : ℕ) : Type 0 where
    pub gone : lookup cid st'.conns ≢ some at
    pub newer : (a : ℕ) → a ≢ at → lookup cid st.conns ≡ some a → lookup cid st'.conns ≡ some a
    pub waits : lookup cid st'.time_wait ≡ some now
    pub others :
        (k : ℕ)
        → k ≢ cid
        → (lookup k st'.conns ≡ lookup k st.conns)
          × (lookup k st'.time_wait ≡ lookup k st.time_wait)
    pub heap : st'.heap ≡ st.heap

  remove_own_lem :
      (st : State C S) (cid at : ℕ)
      → (lookup cid (remove_own st cid at).conns ≢ some at)
        × ((a : ℕ)
            → a ≢ at
            → lookup cid st.conns ≡ some a
            → lookup cid (remove_own st cid at).conns ≡ some a)
        × ((k : ℕ) → k ≢ cid → lookup k (remove_own st cid at).conns ≡ lookup k st.conns)
        × ((remove_own st cid at).time_wait ≡ st.time_wait)
        × ((remove_own st cid at).heap ≡ st.heap)
        × ((remove_own st cid at).pool ≡ st.pool)
  unfolding remove_own
  remove_own_lem st cid at = elim (Option-cases (lookup cid st.conns)) [
    | inl e ↦ rw (e, remove_own) ((λ h. cc), (λ a ne h. cc), (λ k ne. refl), refl, refl, refl)
    | inr (b, e) ↦ elim (Bool-cases (b == at)) [
      | inl s ↦
          rw (e, s, remove_own)
            (
              (λ h. ground (arith, lookup-remove cid cid st.conns)),
              (λ a ne h. absurd (ground arith)),
              (λ k ne. ground (arith, lookup-remove cid k st.conns)),
              refl,
              refl,
              refl,
            )
      | inr s ↦
          rw (e, s, remove_own)
            ((λ h. ground arith), (λ a ne h. e ∙ h), (λ k ne. refl), refl, refl, refl)
    ]
  ]

  remove_own-own :
      (st : State C S) (cid at : ℕ)
      → lookup cid st.conns ≡ some at
      → remove_own st cid at ≡ record st { conns = remove cid st.conns }
  unfolding remove_own
  remove_own-own st cid at e =
      let same : (at == at) ≡ true = ground arith in rw (e, same, remove_own) refl

  -- When a handler ends, its id is in TIME_WAIT and does not lead to its connection; a newer connection that
  -- has got the id stays, and all other ids stay as they are.
  pub forget_id-Released :
      (st : State C S) (cid at now : ℕ) → Released st (forget_id st cid at now) cid at now
  unfolding forget_id
  forget_id-Released st cid at now =
      let (gone, newer, others, waits, heap, _) =
        remove_own_lem (record st { time_wait = insert cid now st.time_wait }) cid at in
      record {
        gone = gone;
        newer = newer;
        waits = ap (lookup cid) waits ∙ ground (arith, lookup-insert cid cid now st.time_wait);
        others = λ k ne. (
          others k ne,
          ap (lookup k) waits ∙ ground (arith, lookup-insert cid k now st.time_wait),
        );
        heap = heap;
      }

udp_syn_target-IsSynTarget : IsSynTarget udp_syn_target
unfolding is_utf8
udp_syn_target-IsSynTarget = record {
  proto_fits = omega arith;
  port_fits = omega arith;
  address_utf8 = refl;
}

module _ (buf : BufMut) (client : Mpsc (List ℕ)) (tunnel : Mpsc Frame) where
  -- How a start that gets to its SYN ends. The answer to the client tells whether the SYN is on its way.
  pub record Opens (st : State client.Sender tunnel.Sender) (cid at : ℕ) (target : SynTarget)
      (reply : List ℕ) (vc : VirtConn client.Sender)
      (r : State client.Sender tunnel.Sender × Opened) : Type 0 where
    pub payload : List ℕ
    pub carries : decode_syn payload ≡ ok target
    pub pool : r.0.pool ≡ (send tunnel st.pool (syn_frame cid payload)).0
    pub outcome :
        ((send tunnel st.pool (syn_frame cid payload)).1 ≡ true)
          × (r.1 ≡ runs reply)
          × (find_conn r.0 cid ≡ some (at, vc))
        ⊎ ((send tunnel st.pool (syn_frame cid payload)).1 ≡ false)
          × (r.1 ≡ gives_up reply_general_failure)
          × (lookup cid r.0.conns ≡ none)
    pub others : (k : ℕ) → k ≢ cid → lookup k r.0.conns ≡ lookup k st.conns
    pub waits : r.0.time_wait ≡ st.time_wait

  -- A SYN target that fits is encoded so that it can be read back.
  syn_encoded :
      (t : SynTarget)
      → IsSynTarget t
      → length t.address ≤ 65535
      → (payload : List ℕ) × (encode_syn buf t ≡ ok payload) × (decode_syn payload ≡ ok t)
  syn_encoded t v h =
      let (payload, e, size, back) = (decode_syn-encode_syn buf t [] v).0 h in
      (payload, e, ap decode_syn (sym (append-nil payload)) ∙ back)

  -- The map of a connection that is inserted and taken out again.
  taken_out :
      (k cid at : ℕ) (m : List (ℕ × ℕ))
      → k ≢ cid
      → lookup k (remove cid (insert cid at m)) ≡ lookup k m
  taken_out k cid at m ne =
      ground (arith, lookup-remove cid k (insert cid at m), lookup-insert cid k at m)

  own_out : (cid at : ℕ) (m : List (ℕ × ℕ)) → lookup cid (remove cid (insert cid at m)) ≡ none
  own_out cid at m = ground (arith, lookup-remove cid cid (insert cid at m))

  inserted_found :
      (st : State client.Sender tunnel.Sender) (pool : TunnelPool tunnel.Sender) (cid at : ℕ)
      (vc : VirtConn client.Sender)
      → find_conn (record (insert_conn st cid at vc) { pool = pool }) cid ≡ some (at, vc)
  unfolding insert_conn
  inserted_found st pool cid at vc =
      find_conn-some (record (insert_conn st cid at vc) { pool = pool }) cid at vc
        (ground (arith, lookup-insert cid cid at st.conns))
        (ground (arith, lookup-insert at at vc st.heap))

  -- An association starts in the same way, with a SYN for 0.0.0.0:0.
  pub open_udp-Opens :
      (st : State client.Sender tunnel.Sender) (cid at : ℕ) (reply : List ℕ)
      (vc : VirtConn client.Sender)
      → Opens st cid at udp_syn_target reply vc (open_udp buf client tunnel st cid at reply vc)
  unfolding open_udp
  open_udp-Opens st cid at reply vc =
      let (payload, e, back) =
        syn_encoded udp_syn_target udp_syn_target-IsSynTarget (omega arith) in
      elim (Bool-cases (send tunnel st.pool (syn_frame cid payload)).1) [
        | inl s ↦
            rw (e, s, open_udp)
              (record {
                payload = payload;
                carries = back;
                pool = refl;
                outcome = inl (
                  s,
                  refl,
                  inserted_found st (send tunnel st.pool (syn_frame cid payload)).0 cid at vc,
                );
                others = λ k ne. ground (arith, lookup-insert cid k at st.conns);
                waits = refl;
              })
        | inr s ↦
            rw (e, s, open_udp)
              (record {
                payload = payload;
                carries = back;
                pool = refl;
                outcome = inr (s, refl, own_out cid at st.conns);
                others = λ k ne. taken_out k cid at st.conns ne;
                waits = refl;
              })
      ]

  -- A TCP client whose target fits a SYN: the SYN carries this target. If a link takes it, the map leads from
  -- the id to the new connection, and the client gets the reply of the handshake; else the id is not in the
  -- map, and the client gets a general failure. The other ids and TIME_WAIT stay as they were.
  pub open_tcp-Opens :
      (st : State client.Sender tunnel.Sender) (cid at : ℕ) (target : TargetAddr) (reply : List ℕ)
      (vc : VirtConn client.Sender)
      → IsSynTarget (syn_target target)
      → length target.address ≤ 65535
      → Opens st cid at
          (syn_target target)
          reply
          vc
          (open_tcp buf client tunnel st cid at target reply vc)
  unfolding open_tcp
  open_tcp-Opens st cid at target reply vc v h =
      let (payload, e, back) = syn_encoded (syn_target target) v h in
      let mapped : lookup cid (insert cid at st.conns) ≡ some at =
        ground (arith, lookup-insert cid cid at st.conns) in
      elim (Bool-cases (send tunnel st.pool (syn_frame cid payload)).1) [
        | inl s ↦
            rw (e, s, open_tcp)
              (record {
                payload = payload;
                carries = back;
                pool = refl;
                outcome = inl (
                  s,
                  refl,
                  inserted_found st (send tunnel st.pool (syn_frame cid payload)).0 cid at vc,
                );
                others = λ k ne. ground (arith, lookup-insert cid k at st.conns);
                waits = refl;
              })
        | inr s ↦
            rw
              (
                e,
                s,
                open_tcp,
                remove_own-own
                    (record (insert_conn st cid at vc) {
                      pool = (send tunnel st.pool (syn_frame cid payload)).0;
                    })
                    cid at mapped,
              )
              (record {
                payload = payload;
                carries = back;
                pool = refl;
                outcome = inr (s, refl, own_out cid at st.conns);
                others = λ k ne. taken_out k cid at st.conns ne;
                waits = refl;
              })
      ]
