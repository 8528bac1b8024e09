-- ===== src/Reassembler/Pending.antt =====
-- src/reassembler.rs: the frames that wait for their connection, and their byte budget.
use round_robin.Common.{
  ℕ, zero, suc, ◌-◌, ◌/◌, Bool, true, false, Option, none, some, List, [], ◌∷◌, length, lookup,
  remove, insert, add_usize, sub_usize, ltb, leb, ◌==◌, if◌then◌else◌,
}
use round_robin.Frame.{Frame, max_pending_bytes}
use round_robin.Pool.{Mpsc}
use round_robin.Reassembler.{PendingEntry, ReadLoopCtx, tombstone, fire, send_rst}

-- `iter().filter(…).min_by_key(|e| e.since)`, which takes the first of equals.
abbrev pub older : ℕ × PendingEntry → Option (ℕ × PendingEntry) → ℕ × PendingEntry
older (k, e) none = (k, e)
older (k, e) (some (j, f)) = if leb e.since f.since then (k, e) else (j, f)

abbrev pub is_excluded : ℕ → Option ℕ → Bool
is_excluded k none = false
is_excluded k (some j) = j == k

abbrev pub oldest : Option ℕ → List (ℕ × PendingEntry) → Option (ℕ × PendingEntry)
oldest exclude [] = none
oldest exclude ((k, e) ∷ m) =
    let rest = oldest exclude m in if is_excluded k exclude then rest else some (older (k, e) rest)

-- The entries that `retain` keeps, those that it drops, and the bytes of these.
abbrev pub split_stale :
    ℕ → ℕ → List (ℕ × PendingEntry) → List (ℕ × PendingEntry) × List (ℕ × PendingEntry) × ℕ
split_stale now ttl [] = ([], [], 0)
split_stale now ttl ((k, e) ∷ m) =
    let (kept, swept, freed) = split_stale now ttl m in
    if ltb ((now - e.since) / 1000000000) ttl
    then ((k, e) ∷ kept, swept, freed)
    else (kept, (k, e) ∷ swept, add_usize e.bytes freed)

module _ {E S : Type 0} where
  -- The entry leaves the map and its bytes are refunded.
  unfoldable pub remove_pending : ReadLoopCtx E S → ℕ → ReadLoopCtx E S × Option PendingEntry
  remove_pending ctx cid = elim (lookup cid ctx.pending) [
    | none ↦ (ctx, none)
    | some entry ↦ (
      record ctx {
        pending = remove cid ctx.pending;
        pending_bytes = sub_usize ctx.pending_bytes entry.bytes;
      },
      some entry,
    )
  ]

  -- `entry.cancelled = true`, and its handshake is woken.
  abbrev pub cancel_pending : ReadLoopCtx E S → ℕ → ReadLoopCtx E S
  cancel_pending ctx cid = elim (lookup cid ctx.pending) [
    | none ↦ ctx
    | some entry ↦
        fire (record ctx { pending = insert cid (record entry { cancelled = true }) ctx.pending })
          entry.cancel
  ]

module _ {E : Type 0} (tunnel : Mpsc Frame) where
  unfoldable pub fail_pending_conn :
      ReadLoopCtx E tunnel.Sender → ℕ → ℕ → ReadLoopCtx E tunnel.Sender
  fail_pending_conn ctx cid now = send_rst tunnel (tombstone (cancel_pending ctx cid) cid now) cid

  -- One eviction of `try_reserve_pending`: the bytes are refunded, the handshake is woken, the id is
  -- tombstoned and reset.
  unfoldable pub evict :
      ReadLoopCtx E tunnel.Sender → ℕ → PendingEntry → ℕ → ReadLoopCtx E tunnel.Sender
  evict ctx key entry now =
      let freed = record ctx {
        pending = remove key ctx.pending;
        pending_bytes = sub_usize ctx.pending_bytes entry.bytes;
      } in
      send_rst tunnel (tombstone (fire freed entry.cancel) key now) key

  -- The loop of `try_reserve_pending`. Each round but the last evicts an entry, so that one more round
  -- than there are entries is enough; `none` means that the fuel ran out.
  unfoldable pub reserve :
      ℕ
      → ReadLoopCtx E tunnel.Sender
      → Option ℕ
      → ℕ
      → ℕ
      → Option (ReadLoopCtx E tunnel.Sender × Bool)
  unfolding evict
  reserve zero ctx exclude need now = none
  reserve (suc fuel) ctx exclude need now =
      elim (leb (add_usize ctx.pending_bytes need) max_pending_bytes) [
        | true ↦ some (record ctx { pending_bytes = add_usize ctx.pending_bytes need }, true)
        | false ↦ elim (oldest exclude ctx.pending) [
          | none ↦ some (ctx, false)
          | some (key, entry) ↦ reserve fuel (evict ctx key entry now) exclude need now
        ]
      ]

  unfoldable pub try_reserve_pending :
      ReadLoopCtx E tunnel.Sender → Option ℕ → ℕ → ℕ → ReadLoopCtx E tunnel.Sender × Bool
  unfolding reserve
  try_reserve_pending ctx exclude need now =
      elim (reserve (suc (length ctx.pending)) ctx exclude need now) [
        | none ↦ (ctx, false)
        | some r ↦ r
      ]

  -- The `for (cid, cancel) in swept` loop.
  abbrev pub fail_swept :
      ReadLoopCtx E tunnel.Sender → List (ℕ × PendingEntry) → ℕ → ReadLoopCtx E tunnel.Sender
  fail_swept ctx [] now = ctx
  fail_swept ctx ((cid, entry) ∷ swept) now =
      fail_swept (send_rst tunnel (tombstone (fire ctx entry.cancel) cid now) cid) swept now

  unfoldable pub sweep_stale_pending :
      ReadLoopCtx E tunnel.Sender → ℕ → ℕ → ReadLoopCtx E tunnel.Sender
  sweep_stale_pending ctx now ttl =
      let (kept, swept, freed) = split_stale now ttl ctx.pending in
      fail_swept (record ctx { pending = kept; pending_bytes = sub_usize ctx.pending_bytes freed })
        swept now
