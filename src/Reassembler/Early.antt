-- ===== src/Reassembler/Early.antt =====
-- DATA and FIN that come before their connection: the budget holds, and an id that loses a frame is
-- tombstoned.
use round_robin.Common.{
  ℕ, ◌^◌, ◌<◌, ◌≡◌, refl, sym, ◌∙◌, inl, inr, Bool, true, false, Option, none, some, List, length,
  lookup, contains_key, sub_usize, ltb, ==_refl, if◌then◌else◌, Bool-cases, Option-cases,
}
use round_robin.Frame.{Frame, flag_data, has_flag, max_pending_cids}
use round_robin.Pool.{Mpsc}
use round_robin.Reassembler.{PendingEntry, ReadLoopCtx}
use round_robin.Reassembler.Pending.{fail_pending_conn, try_reserve_pending}
use round_robin.Reassembler.Handler.{enqueue, enqueue_first, on_early_data, on_early_fin}
use round_robin.Reassembler.Budget.{IsBudgeted}
use round_robin.Reassembler.Reserve.{Attempted, Evicts, try_reserve_pending-Attempted}
use round_robin.Reassembler.Waiting.{
  Waits, fail_pending_conn-Waits, enqueue-Waits, enqueue_first-Waits,
}

contains_none {ℓ} :
    {V : Type ℓ} (k : ℕ) (m : List (ℕ × V)) → lookup k m ≡ none → contains_key k m ≡ false
contains_none k m e = rw (e, contains_key) refl

contains_some {ℓ} :
    {V : Type ℓ} (k : ℕ) (m : List (ℕ × V)) (v : V) → lookup k m ≡ some v → contains_key k m ≡ true
contains_some k m v e = rw (e, contains_key) refl

module _ (egress : Mpsc (List ℕ)) (tunnel : Mpsc Frame) where
  after_evictions :
      (ctx ctx' ctx2 : ReadLoopCtx egress.Sender tunnel.Sender) (exclude : Option ℕ) (now : ℕ)
      → Evicts ctx ctx' exclude now
      → Waits ctx' ctx2
      → Waits ctx ctx2
  after_evictions ctx ctx' ctx2 exclude now v w = record {
    budgeted = w.budgeted;
    kept = (w.kept.0 ∙ v.heap_kept, w.kept.1 ∙ v.conns_kept, w.kept.2 ∙ v.next_kept);
  }

  -- The entry of the id that asks is there after the evictions.
  still_waiting :
      (ctx ctx' : ReadLoopCtx egress.Sender tunnel.Sender) (cid now : ℕ) (entry : PendingEntry)
      → Evicts ctx ctx' (some cid) now
      → lookup cid ctx.pending ≡ some entry
      → lookup cid ctx'.pending ≡ some entry
  still_waiting ctx ctx' cid now entry v e = elim (v.fate cid) [
    | inl (p, c) ↦ p ∙ e
    | inr (p, c, x) ↦ absurd (clash (sym (==_refl cid) ∙ x))
  ]
    where
      clash : ¬ (true ≡ false)
      clash c = cc

  still_absent :
      (ctx ctx' : ReadLoopCtx egress.Sender tunnel.Sender) (cid now : ℕ)
      → Evicts ctx ctx' none now
      → lookup cid ctx.pending ≡ none
      → lookup cid ctx'.pending ≡ none
  still_absent ctx ctx' cid now v e = elim (v.fate cid) [ inl (p, c) ↦ p ∙ e | inr (p, c, x) ↦ p ]

  module _ (ctx : ReadLoopCtx egress.Sender tunnel.Sender) (f : Frame) (now : ℕ)
      (b : IsBudgeted ctx.pending ctx.pending_bytes 0) (is_data : has_flag f.flags flag_data ≡ true)
      (small : length f.payload < 2 ^ 63) where
    reserved_enqueue :
        (entry : PendingEntry) (r : ReadLoopCtx egress.Sender tunnel.Sender × Bool)
        → lookup f.conn_id ctx.pending ≡ some entry
        → Attempted (some r) ctx (some f.conn_id) (length f.payload) now
        → Waits ctx (
            if r.1
            then elim (lookup f.conn_id r.0.pending) [
              | some e ↦ enqueue egress tunnel r.0 e f (length f.payload) now
              | none ↦ record r.0 { pending_bytes = sub_usize r.0.pending_bytes (length f.payload) }
            ]
            else fail_pending_conn tunnel r.0 f.conn_id now)
    reserved_enqueue entry (ctx', true) e (b', v) =
        let e' = still_waiting ctx ctx' f.conn_id now entry v e in
        rw e' (
          after_evictions ctx ctx' _ (some f.conn_id) now v (
            enqueue-Waits egress tunnel ctx' entry f (length f.payload) now b' e'
              (rw is_data refl)))
    reserved_enqueue entry (ctx', false) e (b', v, more, alone) =
        after_evictions ctx ctx' _ (some f.conn_id) now v
          (fail_pending_conn-Waits tunnel ctx' f.conn_id now b')

    reserved_first :
        (r : ReadLoopCtx egress.Sender tunnel.Sender × Bool)
        → lookup f.conn_id ctx.pending ≡ none
        → Attempted (some r) ctx none (length f.payload) now
        → Waits ctx (
            if r.1
            then enqueue_first egress tunnel r.0 f (length f.payload) now
            else fail_pending_conn tunnel r.0 f.conn_id now)
    reserved_first (ctx', true) e (b', v) = after_evictions ctx ctx' _ none now v (
        enqueue_first-Waits egress tunnel ctx' f (length f.payload) now b'
          (still_absent ctx ctx' f.conn_id now v e) (rw is_data refl))
    reserved_first (ctx', false) e (b', v, more, alone) =
        after_evictions ctx ctx' _ none now v (fail_pending_conn-Waits tunnel ctx' f.conn_id now b')

    pub on_early_data-Waits : Waits ctx (on_early_data egress tunnel ctx f now)
    unfolding on_early_data
    on_early_data-Waits = elim (Bool-cases (contains_key f.conn_id ctx.closed)) [
      | inl c ↦ rw (c, on_early_data) (record { budgeted = b; kept = (refl, refl, refl) })
      | inr c ↦ elim (Option-cases (lookup f.conn_id ctx.pending)) [
        | inr (entry, e) ↦
            let a =
              try_reserve_pending-Attempted tunnel ctx (some f.conn_id) (length f.payload) now b
                small in
            rw (c, contains_some f.conn_id ctx.pending entry e, on_early_data)
              (reserved_enqueue entry
                (try_reserve_pending tunnel ctx (some f.conn_id) (length f.payload) now) e a)
        | inl e ↦ elim (Bool-cases (ltb (length ctx.pending) max_pending_cids)) [
          | inl l ↦
              let a =
                try_reserve_pending-Attempted tunnel ctx none (length f.payload) now b small in
              rw (c, contains_none f.conn_id ctx.pending e, l, on_early_data)
                (reserved_first (try_reserve_pending tunnel ctx none (length f.payload) now) e a)
          | inr l ↦
              rw (c, contains_none f.conn_id ctx.pending e, l, on_early_data)
                (fail_pending_conn-Waits tunnel ctx f.conn_id now b)
        ]
      ]
    ]

  pub on_early_fin-Waits :
      (ctx : ReadLoopCtx egress.Sender tunnel.Sender) (f : Frame) (now : ℕ)
      → IsBudgeted ctx.pending ctx.pending_bytes 0
      → has_flag f.flags flag_data ≡ false
      → Waits ctx (on_early_fin egress tunnel ctx f now)
  unfolding on_early_fin
  on_early_fin-Waits ctx f now b not_data = elim (Bool-cases (contains_key f.conn_id ctx.closed)) [
    | inl c ↦ rw (c, on_early_fin) (record { budgeted = b; kept = (refl, refl, refl) })
    | inr c ↦ elim (Option-cases (lookup f.conn_id ctx.pending)) [
      | inr (entry, e) ↦
          rw (c, e, on_early_fin)
            (enqueue-Waits egress tunnel ctx entry f 0 now b e (rw not_data refl))
      | inl e ↦ elim (Bool-cases (ltb (length ctx.pending) max_pending_cids)) [
        | inl l ↦
            rw (c, e, l, on_early_fin)
              (enqueue_first-Waits egress tunnel ctx f 0 now b e (rw not_data refl))
        | inr l ↦ rw (c, e, l, on_early_fin) (fail_pending_conn-Waits tunnel ctx f.conn_id now b)
      ]
    ]
  ]
