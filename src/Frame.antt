-- ===== src/Frame.antt =====
-- src/frame.rs: the frame of the tunnel protocol, its constants and its encoder.
-- The children hold its constructors, the SYN payload and the streaming decoder.
pub mod New
pub mod Syn
pub mod Decoder
pub mod Encode
pub mod SynRoundTrip
pub mod Stream
mod Examples
use Prim.Native.Nat.{bit_and}
use round_robin.Common.{
  Bool, not, ◌==◌, ℕ, ◌+◌, ◌*◌, ◌%◌, ◌^◌, ◌≤◌, ◌<◌, ◌≡◌, List, [], ◌∷◌, ◌++◌, length, ltb, Result,
  ok, err, ◌>>=◌, ◌>>◌, bail_if,
}
use round_robin.Wire.{BufMut}

abbrev pub flag_syn : ℕ
flag_syn = 0x01

abbrev pub flag_data : ℕ
flag_data = 0x02

abbrev pub flag_fin : ℕ
flag_fin = 0x04

abbrev pub flag_rst : ℕ
flag_rst = 0x08

abbrev pub max_pending_cids : ℕ
max_pending_cids = 256

abbrev pub max_pending_bytes : ℕ
max_pending_bytes = 64 * 1024 * 1024

-- `frame.flags & flag != 0`
abbrev pub has_flag : ℕ → ℕ → Bool
has_flag flags flag = not (bit_and flags flag == 0)

abbrev pub header_len : ℕ
header_len = 4 + 8 + 1 + 2

abbrev pub max_payload : ℕ
max_payload = 65535

abbrev pub min_chunk : ℕ
min_chunk = 512

abbrev pub max_chunk : ℕ
max_chunk = 65535

abbrev pub max_reorder_window : ℕ
max_reorder_window = 512

abbrev pub max_reorder_bytes : ℕ
max_reorder_bytes = 64 * 1024 * 1024

pub record Frame : Type 0 where
  pub conn_id : ℕ
  pub seq : ℕ
  pub flags : ℕ
  pub payload : List ℕ

-- What the errors of this file report.
pub data Error : Type 0 where
  payload_too_large : ℕ → Error
  address_too_long : ℕ → Error
  syn_too_short syn_truncated invalid_utf8 : Error
  decoder_overflow eof_mid_frame io_error : Error

-- The ranges of the fields' types.
pub record IsFrame (f : Frame) : Type 0 where
  pub conn_id_fits : f.conn_id < 2 ^ 32
  pub seq_fits : f.seq < 2 ^ 64
  pub flags_fit : f.flags < 256

module _ (m : BufMut) where
  open m use {put_u8, put_u16, put_u32, put_u64, put_slice}

  -- `self.payload.len() as u16` keeps the low 16 bits.
  unfoldable pub encode_into : Frame → List ℕ → Result Error (List ℕ)
  encode_into f buf = do
    bail_if (ltb max_payload (length f.payload)) (payload_too_large (length f.payload))
    let b1 = put_u32 buf f.conn_id
    let b2 = put_u64 b1 f.seq
    let b3 = put_u8 b2 f.flags
    let b4 = put_u16 b3 (length f.payload % 2 ^ 16)
    ok (put_slice b4 f.payload)

  unfoldable pub encode : Frame → Result Error (List ℕ)
  unfolding encode_into
  encode f = encode_into f []
