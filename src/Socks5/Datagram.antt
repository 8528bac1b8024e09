-- ===== src/Socks5/Datagram.antt =====
-- src/socks5.rs: `decode_udp_datagram` and `parse_udp_address`.
use round_robin.Common.{
  ℕ, ◌+◌, ◌/◌, ◌%◌, true, false, List, [], ◌∷◌, ◌++◌, length, get_or, drop, ltb, ◌==◌,
  if◌then◌else◌, Result, ok, err, ◌>>=◌, ◌>>◌, bail_if,
}
use round_robin.Wire.Numbers.{from_be}
use round_robin.Frame.Decoder.{slice}
use round_robin.Wire.Utf8.{is_utf8}
use round_robin.Socks5.{
  TargetAddr, Error, atyp_ipv4, atyp_domain, atyp_ipv6, datagram_too_short, fragmented,
  truncated_ipv4, truncated_domain, zero_length_domain, truncated_domain_data, truncated_ipv6,
  invalid_utf8, unsupported_atyp,
}

-- `format!("{}", n)` for a byte.
abbrev pub decimal : ℕ → List ℕ
decimal n =
    if ltb n 10
    then (48 + n) ∷ []
    else if ltb n 100
    then (48 + n / 10) ∷ (48 + n % 10) ∷ []
    else (48 + n / 100) ∷ (48 + (n / 10) % 10) ∷ (48 + n % 10) ∷ []

abbrev pub hex_digit : ℕ → ℕ
hex_digit d = if ltb d 10 then 48 + d else 87 + d

-- `format!("{:02x}", n)` for a byte.
abbrev pub hex : ℕ → List ℕ
hex n = hex_digit (n / 16) ∷ hex_digit (n % 16) ∷ []

abbrev pub byte_at : List ℕ → ℕ → ℕ
byte_at bytes at = get_or bytes at 0

abbrev pub port_at : List ℕ → ℕ → ℕ
port_at bytes at = from_be 0 (byte_at bytes at ∷ byte_at bytes (at + 1) ∷ [])

-- `.` is 46 and `:` is 58.
abbrev pub dotted : List ℕ → List ℕ
dotted d =
    decimal (byte_at d 1)
    ++ 46 ∷ (decimal (byte_at d 2) ++ 46 ∷ (decimal (byte_at d 3) ++ 46 ∷ decimal (byte_at d 4)))

-- `chunks(2)`, each printed as four digits, joined by `:`.
abbrev pub segments : List ℕ → List ℕ
segments [] = []
segments (a ∷ []) = hex a
segments (a ∷ b ∷ []) = hex a ++ hex b
segments (a ∷ b ∷ c ∷ more) = hex a ++ (hex b ++ 58 ∷ segments (c ∷ more))

-- The address, the port, and how many bytes they take.
abbrev pub Parsed : Type 0
Parsed = List ℕ × ℕ × ℕ

unfoldable pub parse_ipv4 : List ℕ → Result Error Parsed
parse_ipv4 d = do bail_if (ltb (length d) 7) truncated_ipv4; ok (dotted d, port_at d 5, 7)

unfoldable pub parse_domain : List ℕ → Result Error Parsed
parse_domain d = do
  bail_if (ltb (length d) 2) truncated_domain
  let len = byte_at d 1
  bail_if (len == 0) zero_length_domain
  bail_if (ltb (length d) (4 + len)) truncated_domain_data
  let name = slice d 2 len
  if is_utf8 name then ok (name, port_at d (2 + len), 4 + len) else err invalid_utf8

unfoldable pub parse_ipv6 : List ℕ → Result Error Parsed
parse_ipv6 d = do
  bail_if (ltb (length d) 19) truncated_ipv6
  ok (segments (slice d 1 16), port_at d 17, 19)

unfoldable pub parse_udp_address : ℕ → List ℕ → Result Error Parsed
unfolding parse_ipv4 parse_domain parse_ipv6
parse_udp_address atyp d =
    if atyp == atyp_ipv4
    then parse_ipv4 d
    else if atyp == atyp_domain
    then parse_domain d
    else if atyp == atyp_ipv6
    then parse_ipv6 d
    else err (unsupported_atyp atyp)

unfoldable pub decode_udp_datagram : List ℕ → Result Error (TargetAddr × List ℕ)
unfolding parse_udp_address
decode_udp_datagram payload = do
  bail_if (ltb (length payload) 4) datagram_too_short
  bail_if (if byte_at payload 2 == 0 then false else true) fragmented
  (addr, port, consumed) ← parse_udp_address (byte_at payload 3) (drop 3 payload)
  ok (record { address = addr; port = port }, drop (3 + consumed) payload)
