-- ===== src/Socks5/Encode.antt =====
-- src/socks5.rs: `encode_address` and `encode_udp_datagram`. The parsers of addresses are those of std.
use round_robin.Common.{
  ℕ, ◌%◌, ◌≡◌, Option, none, some, List, [], ◌∷◌, ◌++◌, length, ltb, Result, ok, ◌>>=◌, ◌>>◌,
  bail_if,
}
use round_robin.Wire.{BufMut}
use round_robin.Wire.Numbers.{be16}
use round_robin.Socks5.{TargetAddr, Error, atyp_ipv4, atyp_domain, atyp_ipv6, domain_name_too_long}

-- `parse::<Ipv4Addr>` and `parse::<Ipv6Addr>` with the octets of the address.
pub record AddrParser : Type 0 where
  pub parse_v4 : List ℕ → Option (List ℕ)
  pub parse_v6 : List ℕ → Option (List ℕ)
  pub parse_v4_lem : (host octets : List ℕ) → parse_v4 host ≡ some octets → length octets ≡ 4
  pub parse_v6_lem : (host octets : List ℕ) → parse_v6 host ≡ some octets → length octets ≡ 16

module _ (parser : AddrParser) where
  open parser use {parse_v4, parse_v6}

  unfoldable pub encode_address : List ℕ → ℕ → Result Error (List ℕ)
  encode_address host port = elim (parse_v4 host) [
    | some octets ↦ ok (atyp_ipv4 ∷ (octets ++ be16 port))
    | none ↦ elim (parse_v6 host) [
      | some octets ↦ ok (atyp_ipv6 ∷ (octets ++ be16 port))
      | none ↦ do
        bail_if (ltb 255 (length host)) (domain_name_too_long (length host))
        ok (atyp_domain ∷ (length host % 256) ∷ (host ++ be16 port))
    ]
  ]

  module _ (buf : BufMut) where
    open buf use {put_u8, put_u16, put_slice}

    unfoldable pub encode_udp_datagram : TargetAddr → List ℕ → Result Error (List ℕ)
    unfolding encode_address
    encode_udp_datagram target bytes = do
      addr ← encode_address target.address target.port
      let b1 = put_u16 [] 0
      let b2 = put_u8 b1 0
      let b3 = put_slice b2 addr
      ok (put_slice b3 bytes)
