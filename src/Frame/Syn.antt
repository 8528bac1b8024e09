-- ===== src/Frame/Syn.antt =====
-- src/frame.rs: the payload of a SYN frame, `SynTarget::encode` and `SynTarget::decode`.
use round_robin.Common.{
  ℕ, ◌+◌, ◌%◌, ◌^◌, ◌<◌, ◌≡◌, true, List, [], ◌∷◌, length, get_or, ltb, if◌then◌else◌, Result, ok,
  err, ◌>>=◌, ◌>>◌, bail_if,
}
use round_robin.Wire.{BufMut}
use round_robin.Wire.Numbers.{from_be}
use round_robin.Wire.Utf8.{is_utf8}
use round_robin.Frame.{Error, address_too_long, syn_too_short, syn_truncated, invalid_utf8}
use round_robin.Frame.Decoder.{slice}

abbrev pub proto_tcp : ℕ
proto_tcp = 0x06

abbrev pub proto_udp : ℕ
proto_udp = 0x11

-- The address is a `String`: its bytes, which are UTF-8.
pub record SynTarget : Type 0 where
  pub proto : ℕ
  pub address : List ℕ
  pub port : ℕ

pub record IsSynTarget (t : SynTarget) : Type 0 where
  pub proto_fits : t.proto < 256
  pub port_fits : t.port < 2 ^ 16
  pub address_utf8 : is_utf8 t.address ≡ true

module _ (m : BufMut) where
  open m use {put_u8, put_u16, put_slice}

  unfoldable pub encode_syn : SynTarget → Result Error (List ℕ)
  encode_syn t = do
    bail_if (ltb 65535 (length t.address)) (address_too_long (length t.address))
    let b1 = put_u8 [] t.proto
    let b2 = put_u16 b1 (length t.address % 2 ^ 16)
    let b3 = put_slice b2 t.address
    ok (put_u16 b3 t.port)

-- `String::from_utf8(bytes)?`
abbrev pub text_or_bail : List ℕ → Result Error (List ℕ)
text_or_bail bytes = if is_utf8 bytes then ok bytes else err invalid_utf8

-- `u16::from_be_bytes([bytes[at], bytes[at + 1]])`
abbrev pub u16_at : List ℕ → ℕ → ℕ
u16_at bytes at = from_be 0 (get_or bytes at 0 ∷ get_or bytes (at + 1) 0 ∷ [])

unfoldable pub decode_syn : List ℕ → Result Error SynTarget
decode_syn payload = do
  bail_if (ltb (length payload) 5) syn_too_short
  let addr_len = u16_at payload 1
  bail_if (ltb (length payload) (5 + addr_len)) syn_truncated
  address ← text_or_bail (slice payload 3 addr_len)
  ok (record {
    proto = get_or payload 0 0;
    address = address;
    port = u16_at payload (3 + addr_len);
  })
