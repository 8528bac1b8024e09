-- ===== src/Pool/Queue.antt =====
-- A bounded queue as an `Mpsc`, for runs of the pool and the splitter.
use round_robin.Common.{ℕ, ◌-◌, Bool, List, [], ◌∷◌, ◌++◌, length, ltb, if◌then◌else◌}
use round_robin.Pool.{Mpsc, sent, closed, full}

-- Whether the receiver is still there, the size of the queue, and what waits in it.
pub record Queue (T : Type 0) : Type 0 where
  pub is_open : Bool
  pub size : ℕ
  pub items : List T

abbrev pub queue : (T : Type 0) → Mpsc T
queue T = record {
  Sender = Queue T;
  try_send = λ (q : Queue T) (x : T).
      if q.is_open
      then (if ltb (length q.items) q.size
          then sent (record q { items = q.items ++ x ∷ [] })
          else full)
      else closed;
  capacity = λ (q : Queue T). q.size - length q.items;
}
