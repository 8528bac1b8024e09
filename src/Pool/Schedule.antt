-- ===== src/Pool/Schedule.antt =====
-- src/tunnel.rs: `send_async` with its weighted choice of a link.
-- A link is known by its index. The set `full` lives on over a wait only where no link is live; then all
-- links in it are dead, and stay so, so that each attempt may start with an empty set.
use round_robin.Common.{
  ℕ, zero, suc, ◌+◌, ◌%◌, ◌^◌, Bool, true, false, not, ◌&&◌, ◌||◌, Option, none, some, List, [],
  ◌∷◌, length, set, ◌==◌, if◌then◌else◌,
}
use round_robin.Frame.{Frame}
use round_robin.Pool.{Mpsc, TunnelLink, TunnelPool, sent, closed, full, live}
use round_robin.Pool.Rates.{Float}

abbrev pub weight_grid : ℕ
weight_grid = 1024

-- `skip.iter().any(|s| ptr_eq(s, l))`
abbrev pub is_skipped : ℕ → List ℕ → Bool
is_skipped at [] = false
is_skipped at (s ∷ skip) = (s == at) || is_skipped at skip

abbrev pub last_of : {A : Type 0} → A → List A → A
last_of x [] = x
last_of x (y ∷ ys) = last_of y ys

module _ {S : Type 0} where
  -- The live links that are not skipped, with their indices from `at` on.
  abbrev pub candidates : ℕ → List (TunnelLink S) → List ℕ → List (ℕ × TunnelLink S)
  candidates at [] skip = []
  candidates at (l ∷ ls) skip =
      let rest = candidates (suc at) ls skip in
      if l.alive && not (is_skipped at skip) then (at, l) ∷ rest else rest

module _ (float : Float) where
  open float use {F, of_nat, decimal, from_bits, add, mul, div, maximum, less}

  abbrev pub floor_share : F
  floor_share = decimal 5 2

  abbrev pub sum_from : F → List F → F
  sum_from acc [] = acc
  sum_from acc (x ∷ xs) = sum_from (add acc x) xs

  abbrev pub total_of : List F → F
  total_of = sum_from (of_nat 0)

  abbrev pub floored : F → F → List F → List F
  floored mean floor [] = []
  floored mean floor (r ∷ raw) =
      maximum (if less (of_nat 0) r then r else mean) floor ∷ floored mean floor raw

  -- `vec![1.0; alive.len()]`
  abbrev pub uniform : List F → List F
  uniform [] = []
  uniform (r ∷ raw) = of_nat 1 ∷ uniform raw

  unfoldable pub weights : List F → List F
  weights raw =
      let total = total_of raw in
      if less (of_nat 0) total
      then floored (div total (of_nat (length raw))) (mul floor_share total) raw
      else uniform raw

  module _ {S : Type 0} where
    abbrev pub raw_rates : List (ℕ × TunnelLink S) → List F
    raw_rates [] = []
    raw_rates ((at, l) ∷ cs) = maximum (from_bits l.rate_bps) (of_nat 0) ∷ raw_rates cs

    -- The loop over links and weights; `fallback` is the last link.
    abbrev pub walk : ℕ × TunnelLink S → F → F → List (ℕ × TunnelLink S) → List F → ℕ × TunnelLink S
    walk fallback anchor acc [] ws = fallback
    walk fallback anchor acc (c ∷ cs) [] = fallback
    walk fallback anchor acc (c ∷ cs) (w ∷ ws) =
        let sum = add acc w in
        let rest = walk fallback anchor sum cs ws in if less anchor sum then c else rest

    -- The link that is picked, and the cursor.
    unfoldable pub weighted_pick : TunnelPool S → List ℕ → Option (ℕ × TunnelLink S) × ℕ
    unfolding weights
    weighted_pick p skip = elim (candidates 0 p.links skip) [
      | [] ↦ (none, p.rr)
      | c ∷ cs ↦
          let ws = weights (raw_rates (c ∷ cs)) in
          let anchor = mul (div (of_nat (p.rr % weight_grid)) (of_nat weight_grid)) (total_of ws) in
          (some (walk (last_of c cs) anchor (of_nat 0) (c ∷ cs) ws), (p.rr + 1) % 2 ^ 64)
    ]

-- How an attempt to send ends: with the frame in a queue, or with a wait for room or for a link.
pub data Attempt : Type 0 where
  delivered sleeps awaits_link : Attempt

module _ (float : Float) (m : Mpsc Frame) where
  open m use {Sender, try_send}

  -- The loop of `send_async` up to a wait. Each round skips or marks one link more, so that one more round
  -- than there are links is enough; `none` means that the fuel ran out. The link with the best rate only
  -- tells whether any is live.
  unfoldable pub attempt :
      ℕ → TunnelPool Sender → List ℕ → Frame → Option (TunnelPool Sender × Attempt)
  unfolding weighted_pick
  attempt zero p skip f = none
  attempt (suc fuel) p skip f =
      let (picked, rr) = weighted_pick float p skip in
      elim picked [
        | none ↦ some (p, elim (live p.links) [ [] ↦ awaits_link | best ∷ rest ↦ sleeps ])
        | some (at, l) ↦ elim (try_send l.tx f) [
          | sent tx ↦
              some (record p { rr = rr; links = set p.links at (record l { tx = tx }) }, delivered)
          | closed ↦
              attempt fuel
                (record p { rr = rr; links = set p.links at (record l { alive = false }) }) skip f
          | full ↦ attempt fuel (record p { rr = rr }) (at ∷ skip) f
        ]
      ]

  unfoldable pub send_attempt : TunnelPool Sender → Frame → TunnelPool Sender × Attempt
  unfolding attempt
  send_attempt p f = elim (attempt (suc (length p.links)) p [] f) [
    | none ↦ (p, sleeps)
    | some r ↦ r
  ]

  -- `send_async` over the pools that its attempts find, as the other tasks leave them; the pool after the
  -- last attempt, and whether that delivered the frame.
  unfoldable pub send_async :
      TunnelPool Sender
      → List (TunnelPool Sender → TunnelPool Sender)
      → Frame
      → TunnelPool Sender × Bool
  unfolding send_attempt
  send_async p [] f =
      let (p', ended) = send_attempt p f in (p', elim ended [ delivered ↦ true | waiting ↦ false ])
  send_async p (others ∷ waits) f =
      let (p', ended) = send_attempt p f in
      let later = send_async (others p') waits f in
      elim ended [ delivered ↦ (p', true) | waiting ↦ later ]
