-- ===== src/Socks5/RoundTrip.antt =====
-- `decode_udp_datagram` after `encode_udp_datagram`.
use round_robin.Common.{
  ℕ, suc, ◌+◌, ◌%◌, ◌^◌, ◌≤◌, ◌<◌, ◌≡◌, refl, sym, ap, ◌∙◌, inl, inr, true, false, none, some, List,
  [], ◌∷◌, ◌++◌, append_assoc, length, length-append, get_or, get_or-append_right, take, drop,
  drop-length_append, take-length_append, ltb, le→ltb, ◌==◌, ok, err, arith, Option-cases,
}
use round_robin.Wire.{BufMut}
use round_robin.Wire.Numbers.{be16, from_be-be16}
use round_robin.Wire.Utf8.{is_utf8}
use round_robin.Socks5.{TargetAddr, Error, atyp_ipv4, atyp_domain, atyp_ipv6}
use round_robin.Socks5.Datagram.{
  decode_udp_datagram, parse_udp_address, parse_ipv4, parse_ipv6, parse_domain, dotted, segments,
  port_at,
}
use round_robin.Socks5.Encode.{AddrParser, encode_address, encode_udp_datagram}

-- The parsed address, and the bytes behind it, come out of a datagram.
decode_whole :
    (atyp : ℕ) (rest bytes addr : List ℕ) (port n : ℕ)
    → parse_udp_address atyp (atyp ∷ rest) ≡ ok (addr, port, n)
    → drop (3 + n) (0 ∷ 0 ∷ 0 ∷ atyp ∷ rest) ≡ bytes
    → decode_udp_datagram (0 ∷ 0 ∷ 0 ∷ atyp ∷ rest)
      ≡ ok (record { address = addr; port = port }, bytes)
unfolding decode_udp_datagram
decode_whole atyp rest bytes addr port n p d =
    rw (le→ltb (length (0 ∷ 0 ∷ 0 ∷ atyp ∷ rest)) 4 (omega arith), p, decode_udp_datagram)
      (λ i. ok (record { address = addr; port = port }, d i))

decode_fails :
    (atyp : ℕ) (rest : List ℕ) (e : Error)
    → parse_udp_address atyp (atyp ∷ rest) ≡ err e
    → decode_udp_datagram (0 ∷ 0 ∷ 0 ∷ atyp ∷ rest) ≡ err e
unfolding decode_udp_datagram
decode_fails atyp rest e p =
    rw (le→ltb (length (0 ∷ 0 ∷ 0 ∷ atyp ∷ rest)) 4 (omega arith), p, decode_udp_datagram) refl

module _ (port : ℕ) (h : port < 2 ^ 16) (bytes : List ℕ) where
  parse_v4_wire :
      (o : List ℕ)
      → length o ≡ 4
      → decode_udp_datagram (0 ∷ 0 ∷ 0 ∷ atyp_ipv4 ∷ ((o ++ be16 port) ++ bytes))
        ≡ ok (record { address = dotted (atyp_ipv4 ∷ o); port = port }, bytes)
  unfolding parse_udp_address parse_ipv4
  parse_v4_wire [] e = absurd (omega arith)
  parse_v4_wire (a ∷ []) e = absurd (omega arith)
  parse_v4_wire (a ∷ b ∷ []) e = absurd (omega arith)
  parse_v4_wire (a ∷ b ∷ c ∷ []) e = absurd (omega arith)
  parse_v4_wire (a ∷ b ∷ c ∷ d ∷ x ∷ o) e = absurd (omega arith)
  parse_v4_wire (a ∷ b ∷ c ∷ d ∷ []) e =
      let o = a ∷ b ∷ c ∷ d ∷ [] in
      let whole = atyp_ipv4 ∷ ((o ++ be16 port) ++ bytes) in
      decode_whole atyp_ipv4 ((o ++ be16 port) ++ bytes) bytes (dotted (atyp_ipv4 ∷ o)) port 7
        (parsed (le→ltb (length whole) 7 (omega arith))) refl
    where
      parsed :
          ltb (length (atyp_ipv4 ∷ (((a ∷ b ∷ c ∷ d ∷ []) ++ be16 port) ++ bytes))) 7 ≡ false
          → parse_udp_address atyp_ipv4 (atyp_ipv4 ∷ (((a ∷ b ∷ c ∷ d ∷ []) ++ be16 port) ++ bytes))
            ≡ ok (dotted (atyp_ipv4 ∷ a ∷ b ∷ c ∷ d ∷ []), port, 7)
      parsed k =
          rw (k, parse_ipv4)
            (λ i. ok (dotted (atyp_ipv4 ∷ a ∷ b ∷ c ∷ d ∷ []), from_be-be16 port h i, 7))

  port_behind :
      (name : List ℕ)
      → port_at (atyp_domain ∷ length name ∷ (name ++ (be16 port ++ bytes))) (2 + length name)
        ≡ port
  port_behind name =
      let e0 : 2 + length name ≡ suc (suc (length name + 0)) = omega arith in
      let e1 : 2 + length name + 1 ≡ suc (suc (length name + 1)) = omega arith in
      rw
        (
          e1,
          e0,
          get_or-append_right name (be16 port ++ bytes) 0 0,
          get_or-append_right name (be16 port ++ bytes) 1 0,
        )
        (from_be-be16 port h)

  parse_domain_wire :
      (name : List ℕ)
      → 1 ≤ length name
      → length name ≤ 255
      → is_utf8 name ≡ true
      → decode_udp_datagram
          (0 ∷ 0 ∷ 0 ∷ atyp_domain ∷ (length name % 256) ∷ ((name ++ be16 port) ++ bytes))
        ≡ ok (record { address = name; port = port }, bytes)
  unfolding parse_udp_address parse_domain
  parse_domain_wire name lo hi text =
      let m = length name in
      let more = be16 port ++ bytes in
      let small : m % 256 ≡ m = omega arith in
      let split = append_assoc name (be16 port) bytes in
      let past : 3 + (4 + m) ≡ suc (suc (suc (suc (suc (m + 2))))) = omega arith in
      rw (small, split)
        (decode_whole atyp_domain (m ∷ (name ++ more)) bytes name port (4 + m)
          (parsed (omega (arith, length-append name more)) (ground arith)
            (take-length_append name more m refl))
          (rw past behind_name))
    where
      behind_name : drop (length name + 2) (name ++ (be16 port ++ bytes)) ≡ bytes
      behind_name =
          ap (drop (length name + 2)) (sym (append_assoc name (be16 port) bytes))
          ∙ drop-length_append (name ++ be16 port) bytes (length name + 2)
              (length-append name (be16 port))

      parsed :
          4 + length name ≤ length (atyp_domain ∷ length name ∷ (name ++ (be16 port ++ bytes)))
          → (length name == 0) ≡ false
          → take (length name) (name ++ (be16 port ++ bytes)) ≡ name
          → parse_udp_address atyp_domain
              (atyp_domain ∷ length name ∷ (name ++ (be16 port ++ bytes)))
            ≡ ok (name, port, 4 + length name)
      parsed long some_name t =
          let d = atyp_domain ∷ length name ∷ (name ++ (be16 port ++ bytes)) in
          rw
            (
              le→ltb (length d) 2 (omega arith),
              some_name,
              le→ltb (length d) (4 + length name) long,
              t,
              text,
              port_behind name,
              parse_domain,
            )
            refl

  parse_v6_wire :
      (o : List ℕ)
      → length o ≡ 16
      → decode_udp_datagram (0 ∷ 0 ∷ 0 ∷ atyp_ipv6 ∷ ((o ++ be16 port) ++ bytes))
        ≡ ok (record { address = segments o; port = port }, bytes)
  unfolding parse_udp_address parse_ipv6
  parse_v6_wire o e =
      let more = be16 port ++ bytes in
      let at0 : 16 ≡ length o + 0 = omega arith in
      let at1 : 17 ≡ length o + 1 = omega arith in
      rw (append_assoc o (be16 port) bytes) (
        decode_whole atyp_ipv6 (o ++ more) bytes (segments o) port 19
          (rw
            (
              le→ltb (length (atyp_ipv6 ∷ (o ++ more))) 19 (omega (arith, length-append o more)),
              take-length_append o more 16 e,
              ap (λ k. get_or (o ++ more) k 0) at0 ∙ get_or-append_right o more 0 0,
              ap (λ k. get_or (o ++ more) k 0) at1 ∙ get_or-append_right o more 1 0,
              parse_ipv6,
            )
            (λ i. ok (segments o, from_be-be16 port h i, 19)))
          (ap (drop 18) (sym (append_assoc o (be16 port) bytes))
            ∙ drop-length_append (o ++ be16 port) bytes 18
                (length-append o (be16 port) ∙ omega arith)))

module _ (parser : AddrParser) where
  open parser use {parse_v4, parse_v6, parse_v4_lem, parse_v6_lem}

  -- The text of an address after it went over the wire: an IP address is printed anew.
  abbrev pub printed : List ℕ → List ℕ
  printed host = elim (parse_v4 host) [
    | some octets ↦ dotted (atyp_ipv4 ∷ octets)
    | none ↦ elim (parse_v6 host) [ some octets ↦ segments octets | none ↦ host ]
  ]

  -- The address on the wire.
  address_wire :
      (host : List ℕ) (port : ℕ) (bytes : List ℕ)
      → port < 2 ^ 16
      → 1 ≤ length host
      → length host ≤ 255
      → is_utf8 host ≡ true
      → (a : List ℕ) × (encode_address parser host port ≡ ok a)
        × (decode_udp_datagram (0 ∷ 0 ∷ 0 ∷ (a ++ bytes))
            ≡ ok (record { address = printed host; port = port }, bytes))
  unfolding encode_address
  address_wire host port bytes h lo hi text = elim (Option-cases (parse_v4 host)) [
    | inr (o, e) ↦
        rw (e, encode_address, printed)
          (atyp_ipv4 ∷ (o ++ be16 port), refl, parse_v4_wire port h bytes o (parse_v4_lem host o e))
    | inl e ↦ elim (Option-cases (parse_v6 host)) [
      | inr (o, e') ↦
          rw (e, e', encode_address, printed)
            (
              atyp_ipv6 ∷ (o ++ be16 port),
              refl,
              parse_v6_wire port h bytes o (parse_v6_lem host o e'),
            )
      | inl e' ↦
          rw (e, e', lt_false, encode_address, printed)
            (
              atyp_domain ∷ (length host % 256) ∷ (host ++ be16 port),
              refl,
              parse_domain_wire port h bytes host lo hi text,
            )
    ]
  ]
    where
      lt_false : ltb 255 (length host) ≡ false
      lt_false = le→ltb 255 (length host) hi

  module _ (buf : BufMut) where
    open buf use {put_u8_lem, put_u16_lem, put_slice_lem}

    -- A datagram whose address has 1 to 255 bytes of text and whose port fits 16 bits is encoded, and the
    -- decoder gives its port, its bytes, and its address: a domain name as it was, an IP address printed
    -- from the octets that std parsed.
    pub decode-encode_udp_datagram :
        (t : TargetAddr) (bytes : List ℕ)
        → t.port < 2 ^ 16
        → 1 ≤ length t.address
        → length t.address ≤ 255
        → is_utf8 t.address ≡ true
        → (w : List ℕ) × (encode_udp_datagram parser buf t bytes ≡ ok w)
          × (decode_udp_datagram w
              ≡ ok (record { address = printed t.address; port = t.port }, bytes))
    unfolding encode_udp_datagram
    decode-encode_udp_datagram t bytes h lo hi text =
        let (a, e, d) = address_wire t.address t.port bytes h lo hi text in
        (
          0 ∷ 0 ∷ 0 ∷ (a ++ bytes),
          rw
              (
                e,
                put_u16_lem [] 0 (omega arith),
                put_u8_lem ([] ++ be16 0) 0 (omega arith),
                put_slice_lem (([] ++ be16 0) ++ 0 ∷ []) a,
                put_slice_lem ((([] ++ be16 0) ++ 0 ∷ []) ++ a) bytes,
                encode_udp_datagram,
              )
              refl,
          d,
        )
