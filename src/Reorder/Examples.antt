-- ===== src/Reorder/Examples.antt =====
-- Runs of the reorder window, and the theorems at concrete inputs.
use round_robin.Common.{ℕ, ◌-◌, ◌≤◌, ◌≡◌, refl, true, false, List, [], ◌∷◌, arith}
use round_robin.Reorder.{push, with_limit, new_window, is_complete_through}
use round_robin.Reorder.Push.{IsValid, Pushed, with_limit-IsValid, push-Pushed}
use round_robin.Reorder.Order.{segment, push_all}
use round_robin.Reorder.Stream.{Arrives, Among, push_all-in_order, push_all_complete}
use round_robin.Reorder.Skew.{InSpan, new_window_delivers}

-- Frame `k` of the stream is the byte `k`, twice.
abbrev src : ℕ → List ℕ
src k = k ∷ k ∷ []

abbrev arrivals : List ℕ
arrivals = 3 ∷ 1 ∷ 3 ∷ 2 ∷ []

delivered_in_order : (push_all (with_limit 100) src arrivals).1 ≡ src 1 ∷ src 2 ∷ src 3 ∷ []
unfolding push_all with_limit push
delivered_in_order = refl

arrivals-Arrives : Arrives src arrivals
arrivals-Arrives = omega arith

up_to_three : (k : ℕ) → 1 ≤ k → k ≤ 3 → Among k arrivals
up_to_three k lo hi = omega arith

no_overflow : (push_all (with_limit 100) src arrivals).2 ≡ false
unfolding push_all with_limit push
no_overflow = refl

in_span : InSpan src 4 (with_limit 100) arrivals
unfolding push with_limit
in_span = omega arith

in_wide_span : InSpan src 1024 new_window arrivals
unfolding push new_window
in_wide_span = omega arith

push-Pushed_example :
    IsValid (push (with_limit 100) 2 (src 2)).0
    × Pushed
        (with_limit 100)
        2
        (src 2)
        (push (with_limit 100) 2 (src 2)).0
        (push (with_limit 100) 2 (src 2)).1
push-Pushed_example =
    push-Pushed (with_limit 100) 2 (src 2) (with_limit-IsValid 100 (omega arith)) (omega arith)

push_all-in_order_example :
    (push_all (with_limit 100) src arrivals).1
    ≡ segment src 1 ((push_all (with_limit 100) src arrivals).0.expected - 1)
push_all-in_order_example = push_all-in_order src 100 arrivals (omega arith) arrivals-Arrives

push_all_complete_example : is_complete_through (push_all (with_limit 100) src arrivals).0 4 ≡ true
push_all_complete_example =
    push_all_complete src 100 arrivals 3 (omega arith) arrivals-Arrives up_to_three no_overflow

new_window_delivers_example :
    let r = push_all new_window src arrivals in
    (r.2 ≡ false) × (r.1 ≡ segment src 1 (r.0.expected - 1)) × (is_complete_through r.0 4 ≡ true)
new_window_delivers_example =
    new_window_delivers src arrivals 3 (λ k. omega arith) arrivals-Arrives in_wide_span up_to_three
