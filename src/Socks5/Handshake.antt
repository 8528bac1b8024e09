-- ===== src/Socks5/Handshake.antt =====
-- src/socks5.rs: the handshake of a server with a client, and of a client with a proxy.
use round_robin.Common.{
  contains, ℕ, ◌+◌, Bool, true, not, ◌&&◌, Option, none, some, List, [], ◌∷◌, ◌++◌, take, ◌==◌,
  if◌then◌else◌,
}
use round_robin.Wire.Numbers.{be16, from_be}
use round_robin.Wire.Utf8.{is_utf8}
use round_robin.Socks5.{TargetAddr, atyp_ipv4, atyp_domain, atyp_ipv6}
use round_robin.Socks5.Datagram.{byte_at, port_at, dotted, segments}
use round_robin.Socks5.Encode.{AddrParser, encode_address}
use round_robin.Socks5.Dialog.{
  io_error, auth_required, bad_request_version, bad_reply_version, no_methods, invalid_utf8,
  not_socks5, unsupported_cmd, unsupported_address_type, proxy_auth, connect_failed, Dialog, return,
  bail, bail_if, from_result, ◌>>=◌, ◌>>◌, read_exact, write_all,
}

abbrev pub socks_version : ℕ
socks_version = 0x05

abbrev pub auth_none : ℕ
auth_none = 0x00

abbrev pub cmd_connect : ℕ
cmd_connect = 0x01

abbrev pub cmd_udp_associate : ℕ
cmd_udp_associate = 0x03

abbrev pub rep_success : ℕ
rep_success = 0x00

abbrev pub rep_cmd_not_supported : ℕ
rep_cmd_not_supported = 0x07

-- A reply without an address; `vec![SOCKS_VERSION, rep, 0, ATYP_IPV4, 0, 0, 0, 0, 0, 0]`.
abbrev pub bare_reply : ℕ → List ℕ
bare_reply rep = socks_version ∷ rep ∷ 0 ∷ atyp_ipv4 ∷ 0 ∷ 0 ∷ 0 ∷ 0 ∷ 0 ∷ 0 ∷ []

abbrev pub reply_general_failure : List ℕ
reply_general_failure = bare_reply 0x01

-- `SocketAddr`: the octets and the port.
pub data SocketAddr : Type 0 where
  v4 v6 : List ℕ → ℕ → SocketAddr

-- `Socks5Result`: the address of the relay's socket stands for the socket.
pub data Accepted : Type 0 where
  connects : TargetAddr → Accepted
  udp_associates : SocketAddr → Option SocketAddr → Accepted

unfoldable pub encode_reply : ℕ → SocketAddr → List ℕ
encode_reply rep (v4 octets port) = socks_version ∷ rep ∷ 0 ∷ atyp_ipv4 ∷ (octets ++ be16 port)
encode_reply rep (v6 octets port) = socks_version ∷ rep ∷ 0 ∷ atyp_ipv6 ∷ (octets ++ be16 port)

-- `from_utf8(bytes)?`
abbrev pub text : List ℕ → Dialog (List ℕ)
text bytes = if is_utf8 bytes then return bytes else bail invalid_utf8

abbrev pub read_ipv4 : Dialog TargetAddr
read_ipv4 = do
  buf ← read_exact 6
  return (record { address = dotted (0 ∷ buf); port = port_at buf 4 })

abbrev pub read_domain : Dialog TargetAddr
read_domain = do
  len ← read_exact 1
  addr ← read_exact (byte_at len 0)
  port_buf ← read_exact 2
  address ← text addr
  return (record { address = address; port = from_be 0 port_buf })

abbrev pub read_ipv6 : Dialog TargetAddr
read_ipv6 = do
  buf ← read_exact 18
  return (record { address = segments (take 16 buf); port = port_at buf 16 })

unfoldable pub read_address : ℕ → Dialog TargetAddr
read_address atyp =
    if atyp == atyp_ipv4
    then read_ipv4
    else if atyp == atyp_domain
    then read_domain
    else if atyp == atyp_ipv6
    then read_ipv6
    else bail (unsupported_address_type atyp)

abbrev pub drain_domain : Dialog (List ℕ)
drain_domain = do len ← read_exact 1; read_exact (byte_at len 0 + 2)

unfoldable pub drain_address : ℕ → Dialog (List ℕ)
drain_address atyp =
    if atyp == atyp_ipv4
    then read_exact 6
    else if atyp == atyp_domain
    then drain_domain
    else if atyp == atyp_ipv6
    then read_exact 18
    else bail (unsupported_address_type atyp)

-- `ip.is_unspecified()`: only zeros.
abbrev pub is_unspecified : List ℕ → Bool
is_unspecified [] = true
is_unspecified (b ∷ bs) = (b == 0) && is_unspecified bs

module _ (parser : AddrParser) where
  open parser use {parse_v4, parse_v6}

  -- `parse::<IpAddr>()` tries IPv4 first.
  unfoldable pub udp_associate_client_addr : TargetAddr → Option SocketAddr
  udp_associate_client_addr addr = if addr.port == 0 then none else elim (parse_v4 addr.address) [
    | some octets ↦ if is_unspecified octets then none else some (v4 octets addr.port)
    | none ↦ elim (parse_v6 addr.address) [
      | some octets ↦ if is_unspecified octets then none else some (v6 octets addr.port)
      | none ↦ none
    ]
  ]

  abbrev pub accept_connect : ℕ → Dialog (Accepted × List ℕ)
  accept_connect atyp = do
    target ← read_address atyp
    return (connects target, bare_reply rep_success)

  -- `relay` is the address of the socket that is bound, or none if that fails.
  abbrev pub accept_udp : Option SocketAddr → ℕ → Dialog (Accepted × List ℕ)
  accept_udp relay atyp = do
    client_addr ← read_address atyp
    elim relay as (λ x. Dialog (Accepted × List ℕ)) [
      | none ↦ bail io_error
      | some addr ↦ return (
        udp_associates addr (udp_associate_client_addr client_addr),
        encode_reply rep_success addr,
      )
    ]

  abbrev pub refuse_cmd : ℕ → Dialog (Accepted × List ℕ)
  refuse_cmd other = do write_all (bare_reply rep_cmd_not_supported); bail (unsupported_cmd other)

  abbrev pub negotiate : List ℕ → Dialog (Unit {0})
  negotiate methods =
      if contains auth_none methods
      then write_all (socks_version ∷ auth_none ∷ [])
      else (do write_all (socks_version ∷ 0xFF ∷ []); bail auth_required)

  abbrev pub serve_request : Option SocketAddr → ℕ → ℕ → Dialog (Accepted × List ℕ)
  serve_request relay cmd atyp =
      if cmd == cmd_connect
      then accept_connect atyp
      else if cmd == cmd_udp_associate
      then accept_udp relay atyp
      else refuse_cmd cmd

  -- What was accepted, with the reply for the caller to write.
  unfoldable pub socks5_server_accept : Option SocketAddr → Dialog (Accepted × List ℕ)
  unfolding read_address udp_associate_client_addr encode_reply
  socks5_server_accept relay = do
    hdr ← read_exact 2
    bail_if (not (byte_at hdr 0 == socks_version)) (not_socks5 (byte_at hdr 0))
    bail_if (byte_at hdr 1 == 0) no_methods
    methods ← read_exact (byte_at hdr 1)
    negotiate methods
    req ← read_exact 4
    bail_if (not (byte_at req 0 == socks_version)) bad_request_version
    serve_request relay (byte_at req 1) (byte_at req 3)

  -- After the connection to the proxy.
  unfoldable pub socks5_client_connect : List ℕ → ℕ → Dialog (Unit {0})
  unfolding encode_address drain_address
  socks5_client_connect target port = do
    write_all (socks_version ∷ 0x01 ∷ auth_none ∷ [])
    resp ← read_exact 2
    bail_if (not (byte_at resp 0 == socks_version)) (not_socks5 (byte_at resp 0))
    bail_if (not (byte_at resp 1 == auth_none)) (proxy_auth (byte_at resp 1))
    addr_bytes ← from_result (encode_address parser target port)
    write_all (socks_version ∷ cmd_connect ∷ 0 ∷ addr_bytes)
    head ← read_exact 4
    bail_if (not (byte_at head 0 == socks_version)) bad_reply_version
    bail_if (not (byte_at head 1 == rep_success)) (connect_failed (byte_at head 1))
    drained ← drain_address (byte_at head 3)
    return tt
