-- ===== src/Socks5.antt =====
-- src/socks5.rs: addresses, and the datagrams of a UDP association. A text is the list of its bytes.
pub mod Datagram
pub mod Encode
pub mod Dialog
pub mod Handshake
pub mod Meeting
pub mod RoundTrip
mod Examples
use round_robin.Common.{ℕ, List}

pub record TargetAddr : Type 0 where
  pub address : List ℕ
  pub port : ℕ

abbrev pub atyp_ipv4 : ℕ
atyp_ipv4 = 0x01

abbrev pub atyp_domain : ℕ
atyp_domain = 0x03

abbrev pub atyp_ipv6 : ℕ
atyp_ipv6 = 0x04

-- The `bail!`s of the datagram codec.
pub data Error : Type 0 where
  datagram_too_short fragmented : Error
  truncated_ipv4 truncated_domain zero_length_domain truncated_domain_data truncated_ipv6 : Error
  invalid_utf8 : Error
  unsupported_atyp domain_name_too_long : ℕ → Error
