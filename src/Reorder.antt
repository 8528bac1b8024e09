-- ===== src/Reorder.antt =====
-- src/reorder.rs: the window that puts the frames of a connection back into sequence order.
-- The `BTreeMap` is an association list: the source uses it by key and by its size only.
pub mod Window
pub mod Drain
pub mod Push
pub mod Order
pub mod Stream
pub mod Skew
mod Examples
use round_robin.Common.{
  wrapping_succ, add_usize, sub_usize, ℕ, zero, suc, ◌+◌, ◌-◌, ◌*◌, ◌/◌, ◌%◌, ◌^◌, max, Bool, true,
  false, ◌&&◌, none, some, List, [], ◌∷◌, ◌++◌, length, lookup, remove, insert, leb, ltb, ◌==◌,
  if◌then◌else◌,
}
use round_robin.Frame.{max_payload, max_reorder_window, max_reorder_bytes}

pub record PushResult : Type 0 where
  pub ready : List (List ℕ)
  pub accepted : Bool
  pub overflow : Bool

pub record ReorderBuf : Type 0 where
  pub expected : ℕ
  pub pending : List (ℕ × List ℕ)
  pub pending_bytes : ℕ
  pub max_bytes : ℕ
  pub max_entries : ℕ

unfoldable pub with_limit : ℕ → ReorderBuf
with_limit max_bytes = record {
  expected = 1;
  pending = [];
  pending_bytes = 0;
  max_bytes = max_bytes;
  max_entries = max (max_bytes / max_payload) max_reorder_window;
}

unfoldable pub new_window : ReorderBuf
unfolding with_limit
new_window = with_limit max_reorder_bytes

-- One removal of the `while let` loop: the entry at `expected` leaves the window.
abbrev pub release : ReorderBuf → List ℕ → ReorderBuf
release b chunk = record b {
  expected = wrapping_succ b.expected;
  pending = remove b.expected b.pending;
  pending_bytes = sub_usize b.pending_bytes (length chunk);
}

-- The `while let` loop; the fuel counts the entries of the window, and each round removes one.
unfoldable pub drain : ℕ → ReorderBuf → List (List ℕ) → ReorderBuf × List (List ℕ)
drain zero b ready = (b, ready)
drain (suc fuel) b ready = elim (lookup b.expected b.pending) [
  | none ↦ (b, ready)
  | some chunk ↦ drain fuel (release b chunk) (ready ++ chunk ∷ [])
]

-- `let can_buffer = …`
abbrev pub can_buffer : ReorderBuf → List ℕ → Bool
can_buffer b payload =
    ltb (length b.pending) b.max_entries
    && leb (add_usize b.pending_bytes (length payload)) b.max_bytes

-- A frame ahead of the expected one.
unfoldable pub push_ahead : ReorderBuf → ℕ → List ℕ → ReorderBuf × PushResult
push_ahead b seq payload = elim (lookup seq b.pending) [
  | none ↦
      if can_buffer b payload
      then (
        record b {
          pending = insert seq payload b.pending;
          pending_bytes = add_usize b.pending_bytes (length payload);
        },
        record { ready = []; accepted = true; overflow = false },
      )
      else (b, record { ready = []; accepted = false; overflow = true })
  | some chunk ↦ (b, record { ready = []; accepted = false; overflow = false })
]

-- The expected frame, with all that it releases.
unfoldable pub push_expected : ReorderBuf → List ℕ → ReorderBuf × PushResult
unfolding drain
push_expected b payload =
    let (b', ready) =
      drain (length b.pending) (record b { expected = wrapping_succ b.expected }) (payload ∷ []) in
    (b', record { ready = ready; accepted = true; overflow = false })

unfoldable pub push : ReorderBuf → ℕ → List ℕ → ReorderBuf × PushResult
unfolding push_ahead push_expected
push b seq payload =
    if ltb seq b.expected
    then (b, record { ready = []; accepted = false; overflow = false })
    else if seq == b.expected
    then push_expected b payload
    else push_ahead b seq payload

unfoldable pub is_complete_through : ReorderBuf → ℕ → Bool
is_complete_through b seq = leb seq b.expected
