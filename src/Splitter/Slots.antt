-- ===== src/Splitter/Slots.antt =====
-- src/splitter.rs: the limit on clients, in the accept loop and in `handle_client` around its handler.
use round_robin.Common.{ℕ, ◌+◌, ◌%◌, ◌^◌, Bool, none, some, List, length, sub_usize, ltb}
use round_robin.Socks5.Handshake.{Accepted}
use round_robin.Splitter.ConnId.{alloc_conn_id}

abbrev pub max_concurrent_conns : ℕ
max_concurrent_conns = 4096

-- `half_open`, and how often `conn_slot` was notified.
pub record Slots : Type 0 where
  pub half_open : ℕ
  pub notified : ℕ

-- The handshake within its timeout, with what was accepted and the reply.
pub data Shaken : Type 0 where
  times_out shake_fails : Shaken
  shakes : Accepted → List ℕ → Shaken

-- The handler that runs next, with its id; or none, with an error or without.
pub data Admitted : Type 0 where
  turned_away given_up : Admitted
  handles : ℕ → Accepted → List ℕ → Admitted

-- The test of the accept loop before it waits for a client.
unfoldable pub admits : List (ℕ × ℕ) → Slots → Bool
admits conns slots = ltb (length conns + slots.half_open) max_concurrent_conns

unfoldable pub begin_handshake : Slots → Slots
begin_handshake slots = record slots { half_open = (slots.half_open + 1) % 2 ^ 64 }

abbrev pub notify_one : Slots → Slots
notify_one slots = record slots { notified = slots.notified + 1 }

unfoldable pub after_handshake :
    Slots → Shaken → List (ℕ × ℕ) → List (ℕ × ℕ) → (ℕ → ℕ) → Slots × Admitted
unfolding alloc_conn_id
after_handshake slots shaken conns time_wait draw =
    let freed : Slots = record slots { half_open = sub_usize slots.half_open 1 } in
    elim shaken [
      | times_out ↦ (notify_one freed, turned_away)
      | shake_fails ↦ (notify_one freed, turned_away)
      | shakes accepted reply ↦ elim (alloc_conn_id conns time_wait draw) [
        | none ↦ (freed, given_up)
        | some id ↦ (freed, handles id accepted reply)
      ]
    ]

-- After the handler.
unfoldable pub end_client : Slots → Slots
end_client slots = notify_one slots
