-- ===== src/Reassembler/Abort.antt =====
-- A handshake whose connection nobody wants any more.
use round_robin.Common.{
  ℕ, ◌≡◌, refl, sym, ap, ◌∙◌, ◌⊎◌, inl, inr, true, false, Option, none, some, List, lookup, remove,
  insert, contains_key, sub_usize, lookup-remove, lookup-insert, ==_refl, Bool-cases,
}
use round_robin.Frame.{Frame}
use round_robin.Pool.{Mpsc}
use round_robin.Reassembler.{VirtConnDe, PendingEntry, ReadLoopCtx, new_conn, tear_out, tombstone}
use round_robin.Reassembler.Pending.{remove_pending, cancel_pending}
use round_robin.Reassembler.Handler.{on_rst}
use round_robin.Reassembler.Handshake.{
  Connect, established, refused, timed_out, aborted, drop_handshake, install, abandon, connected,
}
use round_robin.Reassembler.Waiting.{remove_pending_cases}

remove_itself : {A : Type 0} (k : ℕ) (m : List (ℕ × A)) → lookup k (remove k m) ≡ none
remove_itself k m = lookup-remove k k m ∙ rw (==_refl k) refl

insert_itself : {A : Type 0} (k : ℕ) (x : A) (m : List (ℕ × A)) → lookup k (insert k x m) ≡ some x
insert_itself k x m = lookup-insert k k x m ∙ rw (==_refl k) refl

tombstone_itself : (k now : ℕ) (m : List (ℕ × ℕ)) → contains_key k (insert k now m) ≡ true
tombstone_itself k now m = rw (insert_itself k now m, contains_key) refl

module _ {E S : Type 0} where
  -- Nothing is left of the id but its tombstone.
  pub record IsAborted (ctx : ReadLoopCtx E S) (cid : ℕ) : Type 0 where
    pub unmapped : lookup cid ctx.conns ≡ none
    pub tombstoned : contains_key cid ctx.closed ≡ true
    pub forgotten : lookup cid ctx.pending ≡ none
    pub ended : lookup cid ctx.handshaking ≡ none

  -- The id was closed, or its entry cancelled, while the handler waited.
  abbrev pub WasReset : ReadLoopCtx E S → ℕ → Type 0
  WasReset ctx cid =
      (contains_key cid ctx.closed ≡ true)
      ⊎ ((e : PendingEntry) × (lookup cid ctx.pending ≡ some e) × (e.cancelled ≡ true))

  drop_handshake_lem :
      (ctx : ReadLoopCtx E S) (cid : ℕ)
      → let ctx' = drop_handshake ctx cid in
        (ctx'.conns ≡ ctx.conns)
        × (ctx'.closed ≡ ctx.closed)
        × (lookup cid ctx'.pending ≡ none)
        × (lookup cid ctx'.handshaking ≡ none)
  drop_handshake_lem ctx cid = elim (remove_pending_cases ctx cid) [
    | inl (e, r) ↦ rw r (refl, refl, e, remove_itself cid ctx.handshaking)
    | inr (entry, e, r) ↦
        rw r (refl, refl, remove_itself cid ctx.pending, remove_itself cid ctx.handshaking)
  ]

module _ (egress : Mpsc (List ℕ)) (tunnel : Mpsc Frame) where
  dropped-IsAborted :
      (ctx : ReadLoopCtx egress.Sender tunnel.Sender) (cid now : ℕ)
      → lookup cid ctx.conns ≡ none
      → IsAborted (tombstone (drop_handshake ctx cid) cid now) cid
  dropped-IsAborted ctx cid now absent =
      let (conns, closed, pending, handshaking) = drop_handshake_lem ctx cid in
      record {
        unmapped = ap (lookup cid) conns ∙ absent;
        tombstoned = tombstone_itself cid now (drop_handshake ctx cid).closed;
        forgotten = pending;
        ended = handshaking;
      }

  -- The connection that was just installed goes again.
  abandon-IsAborted :
      (ctx : ReadLoopCtx egress.Sender tunnel.Sender) (cid at now : ℕ)
      (vc : VirtConnDe egress.Sender)
      → lookup cid ctx.conns ≡ some at
      → lookup at ctx.heap ≡ some vc
      → lookup cid ctx.pending ≡ none
      → IsAborted (abandon egress tunnel ctx cid now) cid
  abandon-IsAborted ctx cid at now vc c h p =
      rw (c, h, tear_out, abandon)
        (record {
          unmapped = remove_itself cid ctx.conns;
          tombstoned = tombstone_itself cid now ctx.closed;
          forgotten = p;
          ended = remove_itself cid ctx.handshaking;
        })

  -- A handler that waits for the target of an id without a connection, which was closed or whose entry
  -- was cancelled meanwhile, leaves nothing of it but the tombstone, whatever the answer is: no
  -- connection, no entry, no handshake.
  pub connected-IsAborted :
      (ctx : ReadLoopCtx egress.Sender tunnel.Sender) (cid : ℕ) (c : Connect egress.Sender)
      (now : ℕ)
      → lookup cid ctx.conns ≡ none
      → WasReset ctx cid
      → IsAborted (connected egress tunnel ctx cid c now) cid
  unfolding connected remove_pending
  connected-IsAborted ctx cid refused now absent reset =
      let a = dropped-IsAborted ctx cid now absent in
      record {
        unmapped = a.unmapped;
        tombstoned = a.tombstoned;
        forgotten = a.forgotten;
        ended = a.ended;
      }
  connected-IsAborted ctx cid timed_out now absent reset =
      let a = dropped-IsAborted ctx cid now absent in
      record {
        unmapped = a.unmapped;
        tombstoned = a.tombstoned;
        forgotten = a.forgotten;
        ended = a.ended;
      }
  connected-IsAborted ctx cid aborted now absent reset = dropped-IsAborted ctx cid now absent
  connected-IsAborted ctx cid (established tx) now absent reset =
      elim (Bool-cases (contains_key cid ctx.closed)) [
        | inl k ↦
            let (conns, closed, pending, handshaking) = drop_handshake_lem ctx cid in
            rw (k, connected)
              (record {
                unmapped = ap (lookup cid) conns ∙ absent;
                tombstoned = ap (contains_key cid) closed ∙ k;
                forgotten = pending;
                ended = handshaking;
              })
        | inr k ↦ elim reset [
          | inl k' ↦ absurd (differs (sym k' ∙ k))
          | inr (e, p, cancelled) ↦
              rw (k, p, cancelled, p, connected, remove_pending)
                (abandon-IsAborted
                  (record (install ctx cid vc) {
                    pending = remove cid ctx.pending;
                    pending_bytes = sub_usize ctx.pending_bytes e.bytes;
                  })
                  cid ctx.next now vc (insert_itself cid ctx.next ctx.conns)
                  (insert_itself ctx.next _ ctx.heap) (remove_itself cid ctx.pending))
        ]
      ]
    where
      vc : VirtConnDe egress.Sender
      vc = new_conn (some tx) false ctx.reorder_window_bytes now

      differs : ¬ (true ≡ false)
      differs x = cc

  -- An RST for an id without a connection, and then the answer for its handler, whatever it is.
  pub rst_aborts_handshake :
      (ctx : ReadLoopCtx egress.Sender tunnel.Sender) (cid : ℕ) (c : Connect egress.Sender)
      (now later : ℕ)
      → lookup cid ctx.conns ≡ none
      → IsAborted (connected egress tunnel (on_rst egress tunnel ctx cid now) cid c later) cid
  unfolding on_rst
  rst_aborts_handshake ctx cid c now later absent =
      let gone = tombstone (cancel_pending ctx cid) cid now in
      let reset : on_rst egress tunnel ctx cid now ≡ gone = rw (absent, on_rst) refl in
      rw reset (
        connected-IsAborted gone cid c later (cancelled (lookup cid ctx.pending) refl)
          (inl (tombstone_itself cid now (cancel_pending ctx cid).closed)))
    where
      cancelled :
          (o : Option PendingEntry)
          → lookup cid ctx.pending ≡ o
          → lookup cid (cancel_pending ctx cid).conns ≡ none
      cancelled none e = rw (e, cancel_pending) absent
      cancelled (some entry) e = rw (e, cancel_pending) absent
