-- ===== src/Splitter/Heartbeat.antt =====
-- src/splitter.rs, `run_splitter`: the heartbeat, and how long an id is kept from a new connection. The clock
-- stands still during one heartbeat. What wakes the accept loop after the sweeps is left out: these maps know no
-- one who waits.
use round_robin.Common.{
  ℕ, ◌+◌, ◌-◌, ◌*◌, ◌≤◌, ◌<◌, ◌≡◌, sym, ◌∙◌, ◌⊎◌, inl, inr, none, some, List, [], ◌∷◌, lookup, ltb,
  Option-cases, Bool-cases, arith,
}
use round_robin.Frame.{Frame}
use round_robin.Pool.{Mpsc, compact, sweep_idle, link_idle_timeout_ms}
use round_robin.Splitter.{State}
use round_robin.Splitter.Sweep.{sweep_conns, sweep_conns_tombstone}
use round_robin.Splitter.ConnId.{IsFresh}
use round_robin.Reassembler.Heartbeat.{retain_young}

abbrev pub time_wait_ttl : ℕ
time_wait_ttl = 60 * 1000000000

module _ (client : Mpsc (List ℕ)) (tunnel : Mpsc Frame) where
  -- A heartbeat over the ids of the map in some order; `now_ms` is the clock of the links.
  unfoldable pub splitter_heartbeat :
      State client.Sender tunnel.Sender
      → (ℕ → ℕ)
      → List ℕ
      → ℕ
      → ℕ
      → State client.Sender tunnel.Sender
  unfolding compact sweep_idle sweep_conns
  splitter_heartbeat st holders cids now now_ms =
      let pool = (sweep_idle (compact st.pool) now_ms link_idle_timeout_ms).0 in
      let aged : State client.Sender tunnel.Sender = record st {
        pool = pool;
        time_wait = retain_young now time_wait_ttl st.time_wait;
      } in
      record (sweep_conns client tunnel aged holders cids now) { resets = 0 }

  young_stays :
      (now ttl k since : ℕ) (m : List (ℕ × ℕ))
      → lookup k m ≡ some since
      → now - since < ttl
      → lookup k (retain_young now ttl m) ≡ some since
  young_stays now ttl k since [] e h = cc
  young_stays now ttl k since ((j, t) ∷ m) e h = ground (arith, young_stays now ttl k since m)

  -- An id that is free for a new connection after a heartbeat had no connection before it, and was not in
  -- TIME_WAIT, or for 60 seconds at least.
  pub heartbeat-IsFresh :
      (st : State client.Sender tunnel.Sender) (holders : ℕ → ℕ) (cids : List ℕ) (now now_ms k : ℕ)
      → (let st' = splitter_heartbeat st holders cids now now_ms in
          IsFresh st'.conns st'.time_wait k)
      → (lookup k st.conns ≡ none)
        × ((lookup k st.time_wait ≡ none)
            ⊎ ((since : ℕ) × (lookup k st.time_wait ≡ some since) × (since + time_wait_ttl ≤ now)))
  unfolding splitter_heartbeat
  heartbeat-IsFresh st holders cids now now_ms k (pos, unmapped, unwaited) =
      elim (sweep_conns_tombstone client tunnel aged holders cids now k) [
        | inr (c, t) ↦ absurd (not_none now (sym t ∙ unwaited))
        | inl (c, t) ↦ (sym c ∙ unmapped, old (sym t ∙ unwaited))
      ]
    where
      aged : State client.Sender tunnel.Sender
      aged = record st {
        pool = (sweep_idle (compact st.pool) now_ms link_idle_timeout_ms).0;
        time_wait = retain_young now time_wait_ttl st.time_wait;
      }

      not_none : (t : ℕ) → ¬ (some t ≡ none)
      not_none t e = cc

      old :
          lookup k (retain_young now time_wait_ttl st.time_wait) ≡ none
          → (lookup k st.time_wait ≡ none)
            ⊎ ((since : ℕ) × (lookup k st.time_wait ≡ some since) × (since + time_wait_ttl ≤ now))
      old e = elim (Option-cases (lookup k st.time_wait)) [
        | inl w ↦ inl w
        | inr (since, w) ↦ elim (Bool-cases (ltb (now - since) time_wait_ttl)) [
          | inr o ↦ inr (since, w, ground arith)
          | inl y ↦ absurd (
              not_none since
                (sym (young_stays now time_wait_ttl k since st.time_wait w (ground arith)) ∙ e))
        ]
      ]
