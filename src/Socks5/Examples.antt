-- ===== src/Socks5/Examples.antt =====
-- Datagrams to an IP address, and the theorem at one of them. The parser knows addresses of four digits
-- only.
use round_robin.Common.{
  ℕ, ◌-◌, ◌≡◌, refl, sym, ap, Bool, true, false, ◌&&◌, none, some, some-injective, List, [], ◌∷◌,
  ◌++◌, length, get_or, ◌==◌, if◌then◌else◌, ok, arith,
}
use round_robin.Wire.{list_buf}
use round_robin.Wire.Utf8.{is_utf8}
use round_robin.Socks5.{TargetAddr}
use round_robin.Socks5.Datagram.{decode_udp_datagram}
use round_robin.Socks5.Encode.{AddrParser, encode_udp_datagram}
use round_robin.Socks5.Handshake.{
  connects, socks_version, auth_none, rep_success, bare_reply, socks5_server_accept,
  socks5_client_connect,
}
use round_robin.Socks5.Meeting.{client_meets_server}
use round_robin.Socks5.RoundTrip.{printed, decode-encode_udp_datagram}

abbrev digits : List ℕ → List ℕ
digits t =
    (get_or t 0 0 - 48) ∷ (get_or t 2 0 - 48) ∷ (get_or t 4 0 - 48) ∷ (get_or t 6 0 - 48) ∷ []

abbrev are_digits : List ℕ → Bool
are_digits t =
    (length t == 7) && (get_or t 1 0 == 46) && (get_or t 3 0 == 46) && (get_or t 5 0 == 46)

four_digits :
    (b : Bool) (t octets : List ℕ)
    → (if b then some (digits t) else none) ≡ some octets
    → length octets ≡ 4
four_digits true t octets e = ap length (sym (some-injective e))
four_digits false t octets e = cc

no_v6 : (octets : List ℕ) → none ≡ some octets → length octets ≡ 16
no_v6 octets e = cc

abbrev parser : AddrParser
parser = record {
  parse_v4 = λ t. if are_digits t then some (digits t) else none;
  parse_v6 = λ t. none;
  parse_v4_lem = λ t octets e. four_digits (are_digits t) t octets e;
  parse_v6_lem = λ t octets e. no_v6 octets e;
}

-- 8.8.4.4 at port 53.
abbrev target : TargetAddr
target = record { address = 56 ∷ 46 ∷ 56 ∷ 46 ∷ 52 ∷ 46 ∷ 52 ∷ []; port = 53 }

target_text : is_utf8 target.address ≡ true
unfolding is_utf8
target_text = refl

printed_same : printed parser target.address ≡ target.address
printed_same = refl

decode-encode_udp_datagram_example :
    (w : List ℕ) × (encode_udp_datagram parser list_buf target (7 ∷ 9 ∷ []) ≡ ok w)
    × (decode_udp_datagram w
        ≡ ok (record { address = printed parser target.address; port = target.port }, 7 ∷ 9 ∷ []))
decode-encode_udp_datagram_example =
    decode-encode_udp_datagram parser list_buf target (7 ∷ 9 ∷ []) (omega arith) (omega arith)
      (omega arith) target_text

client_meets_server_example :
    (w : List ℕ) × (socks5_client_connect parser target.address target.port
        ((socks_version ∷ auth_none ∷ []) ++ (bare_reply rep_success ++ 5 ∷ []))
      ≡ (w, ok (tt, 5 ∷ [])))
    × (socks5_server_accept parser none (w ++ 6 ∷ []) ≡ (
      socks_version ∷ auth_none ∷ [],
      ok (
        (
          connects (record { address = printed parser target.address; port = target.port }),
          bare_reply rep_success,
        ),
        6 ∷ [],
      ),
    ))
client_meets_server_example =
    client_meets_server parser none target.address target.port (6 ∷ []) (5 ∷ []) (omega arith)
      (omega arith) target_text
