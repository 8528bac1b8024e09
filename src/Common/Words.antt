-- ===== src/Common/Words.antt =====
-- Unsigned 64-bit arithmetic as the source does it: what does not fit wraps around.
use Prim.Native.Nat.{ℕ, ◌+◌, ◌-◌, ◌%◌, ◌^◌}

-- `usize` arithmetic.
abbrev pub add_usize : ℕ → ℕ → ℕ
add_usize a b = (a + b) % 2 ^ 64

abbrev pub sub_usize : ℕ → ℕ → ℕ
sub_usize a b = (a + 2 ^ 64 - b) % 2 ^ 64

-- `wrapping_add(1)` on a u64.
abbrev pub wrapping_succ : ℕ → ℕ
wrapping_succ n = (n + 1) % 2 ^ 64

-- `fetch_add` on an `AtomicU64`.
abbrev pub add_u64 : ℕ → ℕ → ℕ
add_u64 a b = (a + b) % 2 ^ 64
