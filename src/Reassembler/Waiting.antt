-- ===== src/Reassembler/Waiting.antt =====
-- The operations on the frames that wait keep their map and its budget.
use round_robin.Common.{
  ℕ, ◌≡◌, refl, ◌∙◌, ◌⊎◌, inl, inr, true, none, some, List, [], ◌∷◌, ◌++◌, length, lookup, remove,
  add_usize, sub_usize, ltb, ltb→lt, if◌then◌else◌, Bool-cases, Option-cases, arith,
  AllValues-lookup,
}
use round_robin.Frame.{Frame, flag_data, has_flag}
use round_robin.Pool.{Mpsc}
use round_robin.Reassembler.{PendingEntry, new_entry, ReadLoopCtx, max_pending_frames_per_cid}
use round_robin.Reassembler.Pending.{remove_pending, cancel_pending, fail_pending_conn}
use round_robin.Reassembler.Handler.{enqueue, enqueue_first}
use round_robin.Reassembler.Budget.{
  IsEntry, IsBudgeted, IsBudgeted-remove, IsBudgeted-replace, IsBudgeted-insert, IsBudgeted-refund,
  push-IsEntry, weigh_le,
}

module _ {E S : Type 0} where
  abbrev pub Keeps : ReadLoopCtx E S → ReadLoopCtx E S → Type 0
  Keeps ctx ctx' = (ctx'.heap ≡ ctx.heap) × (ctx'.conns ≡ ctx.conns) × (ctx'.next ≡ ctx.next)

  -- The budget holds, and the connections were not touched.
  pub record Waits (ctx ctx' : ReadLoopCtx E S) : Type 0 where
    pub budgeted : IsBudgeted ctx'.pending ctx'.pending_bytes 0
    pub kept : Keeps ctx ctx'

  -- What `remove_pending` does.
  pub remove_pending_cases :
      (ctx : ReadLoopCtx E S) (cid : ℕ)
      → ((lookup cid ctx.pending ≡ none) × (remove_pending ctx cid ≡ (ctx, none)))
        ⊎ ((e : PendingEntry) × (lookup cid ctx.pending ≡ some e)
            × (remove_pending ctx cid ≡ (
              record ctx {
                pending = remove cid ctx.pending;
                pending_bytes = sub_usize ctx.pending_bytes e.bytes;
              },
              some e,
            )))
  unfolding remove_pending
  remove_pending_cases ctx cid = elim (Option-cases (lookup cid ctx.pending)) [
    | inl e ↦ inl (e, rw (e, remove_pending) refl)
    | inr (entry, e) ↦ inr (entry, e, rw (e, remove_pending) refl)
  ]

  pub remove_pending-Waits :
      (ctx : ReadLoopCtx E S) (cid : ℕ)
      → IsBudgeted ctx.pending ctx.pending_bytes 0
      → Waits ctx (remove_pending ctx cid).0
  remove_pending-Waits ctx cid b = elim (remove_pending_cases ctx cid) [
    | inl (e, r) ↦ rw r (record { budgeted = b; kept = (refl, refl, refl) })
    | inr (entry, e, r) ↦ rw r (record {
      budgeted = IsBudgeted-remove ctx.pending ctx.pending_bytes 0 cid entry b e;
      kept = (refl, refl, refl);
    })
  ]

  pub cancel_pending-Waits :
      (ctx : ReadLoopCtx E S) (cid : ℕ)
      → IsBudgeted ctx.pending ctx.pending_bytes 0
      → Waits ctx (cancel_pending ctx cid)
  cancel_pending-Waits ctx cid b = elim (Option-cases (lookup cid ctx.pending)) [
    | inl e ↦ rw (e, cancel_pending) (record { budgeted = b; kept = (refl, refl, refl) })
    | inr (entry, e) ↦
        let v = AllValues-lookup IsEntry cid entry ctx.pending b.entries e in
        rw (e, cancel_pending)
          (record {
            budgeted =
                IsBudgeted-replace ctx.pending ctx.pending_bytes 0 0 cid entry
                  (record entry { cancelled = true }) b e
                  (record { few = v.few; counted = v.counted }) (omega arith);
            kept = (refl, refl, refl);
          })
  ]

module _ {E : Type 0} (tunnel : Mpsc Frame) where
  pub fail_pending_conn-Waits :
      (ctx : ReadLoopCtx E tunnel.Sender) (cid now : ℕ)
      → IsBudgeted ctx.pending ctx.pending_bytes 0
      → Waits ctx (fail_pending_conn tunnel ctx cid now)
  unfolding fail_pending_conn
  fail_pending_conn-Waits ctx cid now b =
      let w = cancel_pending-Waits ctx cid b in record { budgeted = w.budgeted; kept = w.kept }

module _ (egress : Mpsc (List ℕ)) (tunnel : Mpsc Frame) where
  Waits-after :
      (a b c : ReadLoopCtx egress.Sender tunnel.Sender) → Keeps a b → Waits b c → Waits a c
  Waits-after a b c k w = record {
    budgeted = w.budgeted;
    kept = (w.kept.0 ∙ k.0, w.kept.1 ∙ k.1, w.kept.2 ∙ k.2);
  }

  pub enqueue-Waits :
      (ctx : ReadLoopCtx egress.Sender tunnel.Sender) (entry : PendingEntry) (f : Frame)
      (bytes now : ℕ)
      → IsBudgeted ctx.pending ctx.pending_bytes bytes
      → lookup f.conn_id ctx.pending ≡ some entry
      → bytes ≡ (if has_flag f.flags flag_data then length f.payload else 0)
      → Waits ctx (enqueue egress tunnel ctx entry f bytes now)
  unfolding enqueue
  enqueue-Waits ctx entry f bytes now b e same =
      let v = AllValues-lookup IsEntry f.conn_id entry ctx.pending b.entries e in
      let le = weigh_le f.conn_id entry ctx.pending b.unique e in
      let counts = b.counts in
      let within = b.within in
      elim (Bool-cases (ltb (length entry.frames) max_pending_frames_per_cid)) [
        | inl h ↦
            let few = ltb→lt (length entry.frames) max_pending_frames_per_cid h in
            rw (h, enqueue)
              (record {
                budgeted =
                    IsBudgeted-replace ctx.pending ctx.pending_bytes 0 bytes f.conn_id entry
                      (record entry {
                        frames = entry.frames ++ f ∷ [];
                        bytes = add_usize entry.bytes bytes;
                      })
                      (record {
                        unique = b.unique;
                        counts = omega arith;
                        within = within;
                        entries = b.entries;
                      })
                      e (push-IsEntry entry f bytes v (omega arith) few same) (omega arith);
                kept = (refl, refl, refl);
              })
        | inr h ↦
            let back : IsBudgeted ctx.pending (sub_usize ctx.pending_bytes bytes) 0 =
              IsBudgeted-refund ctx.pending ctx.pending_bytes 0 bytes (record {
                unique = b.unique;
                counts = omega arith;
                within = within;
                entries = b.entries;
              }) in
            let w =
              fail_pending_conn-Waits tunnel
                (record ctx { pending_bytes = sub_usize ctx.pending_bytes bytes }) f.conn_id now
                back in
            rw (h, enqueue) (record { budgeted = w.budgeted; kept = w.kept })
      ]

  pub enqueue_first-Waits :
      (ctx : ReadLoopCtx egress.Sender tunnel.Sender) (f : Frame) (bytes now : ℕ)
      → IsBudgeted ctx.pending ctx.pending_bytes bytes
      → lookup f.conn_id ctx.pending ≡ none
      → bytes ≡ (if has_flag f.flags flag_data then length f.payload else 0)
      → Waits ctx (enqueue_first egress tunnel ctx f bytes now)
  unfolding enqueue_first
  enqueue_first-Waits ctx f bytes now b e same =
      let counts = b.counts in
      record {
        budgeted =
            IsBudgeted-insert ctx.pending ctx.pending_bytes 0 f.conn_id
              (record (new_entry now) { frames = f ∷ []; bytes = bytes })
              (record {
                unique = b.unique;
                counts = omega arith;
                within = b.within;
                entries = b.entries;
              })
              e (record { few = omega arith; counted = omega arith });
        kept = (refl, refl, refl);
      }
