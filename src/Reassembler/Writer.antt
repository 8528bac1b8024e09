-- ===== src/Reassembler/Writer.antt =====
-- src/reassembler.rs, `write_to_egress`: the task that writes the chunks of a connection to its target. What the
-- target and the other tasks do is a list of turns.
use round_robin.Common.{
  ℕ, zero, suc, ◌≡◌, refl, ap, Bool, true, false, List, [], ◌∷◌, ◌++◌, length, All, arith,
}

-- A write within its timeout, raced against `cancel_writer`.
pub data ChunkWrite : Type 0 where
  cancelled_first write_fails writes : ChunkWrite

-- A turn of `select!`: `cancel_writer`, the next chunk of the channel, which is closed if there is none, or
-- `half_close` with the writes of the chunks that are in the channel then.
pub data WriterTurn : Type 0 where
  cancelled : WriterTurn
  receives : ChunkWrite → WriterTurn
  half_closes : List ChunkWrite → WriterTurn

-- The chunks that were written, whether the write half was shut down, and whether the task has ended.
pub record Egress : Type 0 where
  pub chunks : List (List ℕ)
  pub shut : Bool
  pub ended : Bool

abbrev pub shut_down : Egress
shut_down = record { chunks = []; shut = true; ended = true }

-- The `while let` loop after `half_close`.
unfoldable pub drain_chunks : List (List ℕ) → List ChunkWrite → Egress
drain_chunks queue [] = shut_down
drain_chunks [] (w ∷ ws) = shut_down
drain_chunks (c ∷ queue) (cancelled_first ∷ ws) = record { chunks = []; shut = false; ended = true }
drain_chunks (c ∷ queue) (write_fails ∷ ws) = shut_down
drain_chunks (c ∷ queue) (writes ∷ ws) =
    let rest = drain_chunks queue ws in record rest { chunks = c ∷ rest.chunks }

-- `queue` is what comes into the channel.
unfoldable pub write_to_egress : List (List ℕ) → List WriterTurn → Egress
unfolding drain_chunks
write_to_egress queue [] = record { chunks = []; shut = false; ended = false }
write_to_egress queue (cancelled ∷ ts) = shut_down
write_to_egress queue (half_closes ws ∷ ts) = drain_chunks queue ws
write_to_egress [] (receives w ∷ ts) = shut_down
write_to_egress (c ∷ queue) (receives cancelled_first ∷ ts) = shut_down
write_to_egress (c ∷ queue) (receives write_fails ∷ ts) = shut_down
write_to_egress (c ∷ queue) (receives writes ∷ ts) =
    let rest = write_to_egress queue ts in record rest { chunks = c ∷ rest.chunks }

-- The chunks that were written are the first ones of the queue.
abbrev pub IsStart : List (List ℕ) → List (List ℕ) → Type 0
IsStart chunks queue = (left : List (List ℕ)) × (queue ≡ chunks ++ left)

IsStart-cons :
    (c : List ℕ) (chunks queue : List (List ℕ))
    → IsStart chunks queue
    → IsStart (c ∷ chunks) (c ∷ queue)
IsStart-cons c chunks queue (left, e) = (left, ap (◌∷◌ c) e)

drain_chunks-IsStart :
    (queue : List (List ℕ)) (ws : List ChunkWrite) → IsStart (drain_chunks queue ws).chunks queue
unfolding drain_chunks
drain_chunks-IsStart queue [] = (queue, refl)
drain_chunks-IsStart [] (w ∷ ws) = ([], refl)
drain_chunks-IsStart (c ∷ queue) (cancelled_first ∷ ws) = (c ∷ queue, refl)
drain_chunks-IsStart (c ∷ queue) (write_fails ∷ ws) = (c ∷ queue, refl)
drain_chunks-IsStart (c ∷ queue) (writes ∷ ws) =
    IsStart-cons c _ queue (drain_chunks-IsStart queue ws)

-- Whatever happens, the target gets the first chunks of the queue, in order and without a gap.
pub write_to_egress-IsStart :
    (queue : List (List ℕ)) (ts : List WriterTurn) → IsStart (write_to_egress queue ts).chunks queue
unfolding write_to_egress
write_to_egress-IsStart queue [] = (queue, refl)
write_to_egress-IsStart queue (cancelled ∷ ts) = (queue, refl)
write_to_egress-IsStart queue (half_closes ws ∷ ts) = drain_chunks-IsStart queue ws
write_to_egress-IsStart [] (receives w ∷ ts) = ([], refl)
write_to_egress-IsStart (c ∷ queue) (receives cancelled_first ∷ ts) = (c ∷ queue, refl)
write_to_egress-IsStart (c ∷ queue) (receives write_fails ∷ ts) = (c ∷ queue, refl)
write_to_egress-IsStart (c ∷ queue) (receives writes ∷ ts) =
    IsStart-cons c _ queue (write_to_egress-IsStart queue ts)

-- Every write succeeds, no reset comes, and the half-close comes when all chunks that are left, `n` of them,
-- are in the channel.
abbrev pub IsUndisturbed : ℕ → List WriterTurn → Type 0
IsUndisturbed n [] = ⊥
IsUndisturbed n (cancelled ∷ ts) = ⊥
IsUndisturbed n (half_closes ws ∷ ts) = (length ws ≡ n) × All (λ w. w ≡ writes) ws
IsUndisturbed zero (receives w ∷ ts) = ⊥
IsUndisturbed (suc n) (receives w ∷ ts) = (w ≡ writes) × IsUndisturbed n ts

drain_chunks_lem :
    (queue : List (List ℕ)) (ws : List ChunkWrite)
    → length ws ≡ length queue
    → All (λ w. w ≡ writes) ws
    → drain_chunks queue ws ≡ record { chunks = queue; shut = true; ended = true }
unfolding drain_chunks
drain_chunks_lem [] [] e a = refl
drain_chunks_lem [] (w ∷ ws) e a = absurd (omega arith)
drain_chunks_lem (c ∷ queue) [] e a = absurd (omega arith)
drain_chunks_lem (c ∷ queue) (w ∷ ws) e (here, more) = rw here (
    ap (λ (r : Egress). record r { chunks = c ∷ r.chunks })
      (drain_chunks_lem queue ws (omega arith) more))

-- If the chunks of a connection are all in its channel when the write half closes, no write fails and no reset
-- comes, then the target gets all of them, in order, and the end of the stream behind them.
pub write_to_egress_lem :
    (queue : List (List ℕ)) (ts : List WriterTurn)
    → IsUndisturbed (length queue) ts
    → write_to_egress queue ts ≡ record { chunks = queue; shut = true; ended = true }
unfolding write_to_egress
write_to_egress_lem queue [] h = absurd h
write_to_egress_lem queue (cancelled ∷ ts) h = absurd h
write_to_egress_lem queue (half_closes ws ∷ ts) (e, a) = drain_chunks_lem queue ws e a
write_to_egress_lem [] (receives w ∷ ts) h = absurd h
write_to_egress_lem (c ∷ queue) (receives w ∷ ts) (e, h) =
    rw e (ap (λ (r : Egress). record r { chunks = c ∷ r.chunks }) (write_to_egress_lem queue ts h))
