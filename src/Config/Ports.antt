-- ===== src/Config/Ports.antt =====
-- src/config.rs: `parse_ports`, the ports on which the reassembler listens. A text is the list of its
-- characters' numbers.
pub mod Trim
pub mod Text
pub mod Split
pub mod Distinct
pub mod Outcome
use round_robin.Common.{
  ℕ, zero, suc, ◌+◌, ◌-◌, ◌*◌, ◌≤◌, ◌<◌, ◌≡◌, refl, ◌⊎◌, inl, inr, Bool, true, false, not, ◌&&◌,
  ◌||◌, Option, none, some, List, [], ◌∷◌, length, contains, ltb, leb, ◌==◌, if◌then◌else◌, Result,
  ok, err, bail_if, ◌>>=◌, ◌>>◌, Bool-cases, arith,
}

pub data Ports : Type 0 where
  range : List ℕ → Ports
  ports : List ℕ → Ports

pub data PortsError : Type 0 where
  bad_number starts_after_end too_many_ports port_zero no_ports : PortsError

abbrev pub max_ports : ℕ
max_ports = 256

-- Unicode's White_Space.
abbrev pub is_whitespace : ℕ → Bool
is_whitespace c =
    (leb 9 c && leb c 13)
    || contains c (0x20 ∷ 0x85 ∷ 0xA0 ∷ 0x1680 ∷ 0x2028 ∷ 0x2029 ∷ 0x202F ∷ 0x205F ∷ 0x3000 ∷ [])
    || (leb 0x2000 c && leb c 0x200A)

abbrev pub trim_start : List ℕ → List ℕ
trim_start [] = []
trim_start (c ∷ cs) = if is_whitespace c then trim_start cs else c ∷ cs

-- A character at the end goes if all that follows it has gone.
abbrev pub trim_end : List ℕ → List ℕ
trim_end [] = []
trim_end (c ∷ cs) = elim (trim_end cs) [
  | [] ↦ if is_whitespace c then [] else c ∷ []
  | d ∷ ds ↦ c ∷ d ∷ ds
]

unfoldable pub trim : List ℕ → List ℕ
trim cs = trim_end (trim_start cs)

-- `s.split_once(c)`
unfoldable pub split_once : ℕ → List ℕ → Option (List ℕ × List ℕ)
split_once c [] = none
split_once c (x ∷ xs) =
    let rest = split_once c xs in
    if x == c
    then some ([], xs)
    else elim rest [ none ↦ none | some (before, after) ↦ some (x ∷ before, after) ]

-- The digits of a `u16`, behind the number `n`.
unfoldable pub digits_u16 : ℕ → List ℕ → Option ℕ
digits_u16 n [] = some n
digits_u16 n (c ∷ cs) =
    let more = n * 10 + (c - 48) in
    let rest = digits_u16 more cs in if leb 48 c && leb c 57 && leb more 65535 then rest else none

abbrev pub unsigned_u16 : List ℕ → Option ℕ
unsigned_u16 [] = none
unsigned_u16 (c ∷ cs) = digits_u16 0 (c ∷ cs)

-- `s.parse::<u16>()`, which allows a plus sign.
unfoldable pub parse_u16 : List ℕ → Result PortsError ℕ
unfolding digits_u16
parse_u16 s =
    elim (elim s as (λ x. Option ℕ) [
      | [] ↦ none
      | c ∷ cs ↦ if c == 43 then unsigned_u16 cs else unsigned_u16 (c ∷ cs)
    ]) [ none ↦ err bad_number | some n ↦ ok n ]

-- `count` numbers from `start` on.
abbrev pub from_start : ℕ → ℕ → List ℕ
from_start start zero = []
from_start start (suc count) = start ∷ from_start (suc start) count

abbrev pub port_range : ℕ → ℕ → Result PortsError (List ℕ)
port_range start end = do
  bail_if (ltb end start) starts_after_end
  bail_if (ltb max_ports (end - start + 1)) too_many_ports
  ok (from_start start (end - start + 1))

-- The ports that are named, before the checks.
unfoldable pub named_ports : Ports → Result PortsError (List ℕ)
unfolding trim split_once parse_u16
named_ports (ports v) = ok v
named_ports (range s) = elim (split_once 45 s) [
  | some (before, after) ↦ (do
    start ← parse_u16 (trim before)
    end ← parse_u16 (trim after)
    port_range start end)
  | none ↦ (do port ← parse_u16 (trim s); ok (port ∷ []))
]

-- `out.retain(|p| seen.insert(*p))`
unfoldable pub retain_new : List ℕ → List ℕ → List ℕ
retain_new seen [] = []
retain_new seen (p ∷ ps) =
    if contains p seen then retain_new seen ps else p ∷ retain_new (p ∷ seen) ps

unfoldable pub parse_ports : Ports → Result PortsError (List ℕ)
unfolding named_ports retain_new
parse_ports p = do
  out ← named_ports p
  bail_if (ltb max_ports (length out)) too_many_ports
  bail_if (contains 0 out) port_zero
  let kept = retain_new [] out
  bail_if (length kept == 0) no_ports
  ok kept
