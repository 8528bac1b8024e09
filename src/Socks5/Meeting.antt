-- ===== src/Socks5/Meeting.antt =====
-- The handshakes of `socks5_client_connect` and `socks5_server_accept` with each other.
use round_robin.Common.{
  ℕ, ◌+◌, ◌%◌, ◌^◌, ◌≤◌, ◌<◌, ◌≡◌, refl, ap, ◌∙◌, inl, inr, true, Option, List, [], ◌∷◌, ◌++◌,
  append_assoc, append-nil, length, length-append, take-length_append, drop-length_append, get_or,
  get_or-append_right, le→ltb, ok, arith, Option-cases,
}
use round_robin.Wire.Numbers.{be16, from_be-be16}
use round_robin.Wire.Utf8.{is_utf8}
use round_robin.Socks5.{TargetAddr, atyp_ipv4, atyp_domain, atyp_ipv6}
use round_robin.Socks5.Datagram.{dotted, segments}
use round_robin.Socks5.Encode.{AddrParser, encode_address}
use round_robin.Socks5.RoundTrip.{printed}
use round_robin.Socks5.Dialog.{read_exact}
use round_robin.Socks5.Handshake.{
  SocketAddr, connects, socks_version, auth_none, cmd_connect, rep_success, bare_reply,
  read_address, drain_address, socks5_server_accept, socks5_client_connect,
}

read_exact-append :
    (n : ℕ) (xs more : List ℕ) → length xs ≡ n → read_exact n (xs ++ more) ≡ ([], ok (xs, more))
read_exact-append n xs more e =
    rw
      (
        le→ltb (length (xs ++ more)) n (omega (arith, length-append xs more)),
        take-length_append xs more n e,
        drop-length_append xs more n e,
      )
      refl

client_lem :
    (parser : AddrParser) (host : List ℕ) (port : ℕ) (a more : List ℕ)
    → encode_address parser host port ≡ ok a
    → socks5_client_connect parser host port
        (socks_version ∷ auth_none ∷ (bare_reply rep_success ++ more))
      ≡ ((socks_version ∷ 1 ∷ auth_none ∷ []) ++ socks_version ∷ cmd_connect ∷ 0 ∷ a, ok (tt, more))
unfolding socks5_client_connect drain_address
client_lem parser host port a more e =
    rw
      (
        e,
        read_exact-append 2 (socks_version ∷ auth_none ∷ []) (bare_reply rep_success ++ more) refl,
        read_exact-append 4 (socks_version ∷ rep_success ∷ 0 ∷ atyp_ipv4 ∷ [])
            (0 ∷ 0 ∷ 0 ∷ 0 ∷ 0 ∷ 0 ∷ more) refl,
        read_exact-append 6 (0 ∷ 0 ∷ 0 ∷ 0 ∷ 0 ∷ 0 ∷ []) more refl,
        socks5_client_connect,
      )
      (λ i. (
        socks_version ∷ 1 ∷ auth_none ∷ socks_version ∷ cmd_connect ∷ 0 ∷ append-nil a i,
        ok (tt, more),
      ))

module _ (port : ℕ) (h : port < 2 ^ 16) (more : List ℕ) where
  read_v4 :
      (o : List ℕ)
      → length o ≡ 4
      → read_address atyp_ipv4 ((o ++ be16 port) ++ more)
        ≡ ([], ok (record { address = dotted (atyp_ipv4 ∷ o); port = port }, more))
  unfolding read_address
  read_v4 [] e = absurd (omega arith)
  read_v4 (a ∷ []) e = absurd (omega arith)
  read_v4 (a ∷ b ∷ []) e = absurd (omega arith)
  read_v4 (a ∷ b ∷ c ∷ []) e = absurd (omega arith)
  read_v4 (a ∷ b ∷ c ∷ d ∷ x ∷ o) e = absurd (omega arith)
  read_v4 (a ∷ b ∷ c ∷ d ∷ []) e =
      rw (read_exact-append 6 ((a ∷ b ∷ c ∷ d ∷ []) ++ be16 port) more refl) (λ i. (
        [],
        ok (
          record {
            address = dotted (atyp_ipv4 ∷ a ∷ b ∷ c ∷ d ∷ []);
            port = from_be-be16 port h i;
          },
          more,
        ),
      ))

  read_v6 :
      (o : List ℕ)
      → length o ≡ 16
      → read_address atyp_ipv6 ((o ++ be16 port) ++ more)
        ≡ ([], ok (record { address = segments o; port = port }, more))
  unfolding read_address
  read_v6 o e =
      let at0 : 16 ≡ length o + 0 = omega arith in
      let at1 : 17 ≡ length o + 1 = omega arith in
      rw
        (
          read_exact-append 18 (o ++ be16 port) more (length-append o (be16 port) ∙ omega arith),
          take-length_append o (be16 port) 16 e,
          ap (λ k. get_or (o ++ be16 port) k 0) at0 ∙ get_or-append_right o (be16 port) 0 0,
          ap (λ k. get_or (o ++ be16 port) k 0) at1 ∙ get_or-append_right o (be16 port) 1 0,
        )
        (λ i. ([], ok (record { address = segments o; port = from_be-be16 port h i }, more)))

  read_name :
      (name : List ℕ)
      → length name ≤ 255
      → is_utf8 name ≡ true
      → read_address atyp_domain (((length name % 256) ∷ (name ++ be16 port)) ++ more)
        ≡ ([], ok (record { address = name; port = port }, more))
  unfolding read_address
  read_name name hi text =
      let small : length name % 256 ≡ length name = omega arith in
      rw
        (
          small,
          append_assoc name (be16 port) more,
          read_exact-append 1 (length name ∷ []) (name ++ (be16 port ++ more)) refl,
          read_exact-append (length name) name (be16 port ++ more) refl,
          read_exact-append 2 (be16 port) more refl,
          text,
        )
        (λ i. ([], ok (record { address = name; port = from_be-be16 port h i }, more)))

-- What `encode_address` writes is what `read_address` reads.
address_read :
    (parser : AddrParser) (host : List ℕ) (port : ℕ) (more : List ℕ)
    → port < 2 ^ 16
    → length host ≤ 255
    → is_utf8 host ≡ true
    → (atyp : ℕ) × (rest : List ℕ) × (encode_address parser host port ≡ ok (atyp ∷ rest))
      × (read_address atyp (rest ++ more)
          ≡ ([], ok (record { address = printed parser host; port = port }, more)))
unfolding encode_address
address_read parser host port more h hi text = elim (Option-cases (parser.parse_v4 host)) [
  | inr (o, e) ↦
      rw (e, encode_address, printed)
        (atyp_ipv4, o ++ be16 port, refl, read_v4 port h more o (parser.parse_v4_lem host o e))
  | inl e ↦ elim (Option-cases (parser.parse_v6 host)) [
    | inr (o, e') ↦
        rw (e, e', encode_address, printed)
          (atyp_ipv6, o ++ be16 port, refl, read_v6 port h more o (parser.parse_v6_lem host o e'))
    | inl e' ↦
        rw (e, e', le→ltb 255 (length host) hi, encode_address, printed)
          (
            atyp_domain,
            (length host % 256) ∷ (host ++ be16 port),
            refl,
            read_name port h more host hi text,
          )
  ]
]

server_lem :
    (parser : AddrParser) (relay : Option SocketAddr) (atyp : ℕ) (rest more : List ℕ)
    (t : TargetAddr)
    → read_address atyp rest ≡ ([], ok (t, more))
    → socks5_server_accept parser relay
        (socks_version ∷ 1 ∷ auth_none ∷ socks_version ∷ cmd_connect ∷ 0 ∷ atyp ∷ rest)
      ≡ (socks_version ∷ auth_none ∷ [], ok ((connects t, bare_reply rep_success), more))
unfolding socks5_server_accept
server_lem parser relay atyp rest more t r =
    rw
      (
        read_exact-append 2 (socks_version ∷ 1 ∷ [])
            (auth_none ∷ socks_version ∷ cmd_connect ∷ 0 ∷ atyp ∷ rest) refl,
        read_exact-append 1 (auth_none ∷ []) (socks_version ∷ cmd_connect ∷ 0 ∷ atyp ∷ rest) refl,
        read_exact-append 4 (socks_version ∷ cmd_connect ∷ 0 ∷ atyp ∷ []) rest refl,
        r,
        socks5_server_accept,
      )
      refl

-- A client that connects through a proxy of this code understands it. For each target of at most 255 bytes
-- of text and each port of 16 bits there are bytes `w`, which the client writes when it gets the answers of
-- the server, and for which the server gives these answers: it takes the method without authentication,
-- and accepts a CONNECT to the port and the address, a domain name as it was and an IP address printed from
-- the octets that std parsed. Both succeed, and leave what follows on the stream for the tunnel.
pub client_meets_server :
    (parser : AddrParser) (relay : Option SocketAddr) (host : List ℕ) (port : ℕ) (up down : List ℕ)
    → port < 2 ^ 16
    → length host ≤ 255
    → is_utf8 host ≡ true
    → (w : List ℕ) × (socks5_client_connect parser host port
          ((socks_version ∷ auth_none ∷ []) ++ (bare_reply rep_success ++ down))
        ≡ (w, ok (tt, down)))
      × (socks5_server_accept parser relay (w ++ up) ≡ (
        socks_version ∷ auth_none ∷ [],
        ok (
          (
            connects (record { address = printed parser host; port = port }),
            bare_reply rep_success,
          ),
          up,
        ),
      ))
client_meets_server parser relay host port up down h hi text =
    let (atyp, rest, e, r) = address_read parser host port up h hi text in
    (
      (socks_version ∷ 1 ∷ auth_none ∷ []) ++ socks_version ∷ cmd_connect ∷ 0 ∷ atyp ∷ rest,
      client_lem parser host port (atyp ∷ rest) down e,
      server_lem parser relay atyp (rest ++ up) up _ r,
    )
