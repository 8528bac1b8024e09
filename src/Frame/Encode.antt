-- ===== src/Frame/Encode.antt =====
-- What `Frame::encode` writes.
use round_robin.Common.{
  ℕ, ◌+◌, ◌%◌, ◌^◌, ◌≤◌, ◌<◌, ◌≡◌, List, [], ◌∷◌, ◌++◌, append_assoc, length, arith, ok, err,
  lt→ltb, le→ltb,
}
use round_robin.Wire.{BufMut}
use round_robin.Wire.Numbers.{be16, be32, be64}
use round_robin.Frame.{
  Frame, IsFrame, payload_too_large, encode, encode_into, max_payload, header_len,
}

-- The wire format: 15 bytes of header, then the payload.
abbrev pub wire : Frame → List ℕ
wire f = be32 f.conn_id ++ be64 f.seq ++ (f.flags ∷ []) ++ be16 (length f.payload) ++ f.payload

module _ (m : BufMut) where
  open m use {put_u8_lem, put_u16_lem, put_u32_lem, put_u64_lem, put_slice_lem}

  -- The buffer keeps what it held, and the wire format of the frame follows.
  pub encode_into-wire :
      (f : Frame) (buf : List ℕ)
      → IsFrame f
      → length f.payload ≤ max_payload
      → encode_into m f buf ≡ ok (buf ++ wire f)
  unfolding encode_into
  encode_into-wire f buf v h =
      let e : length f.payload % 2 ^ 16 ≡ length f.payload = omega arith in
      rw
        (
          le→ltb max_payload (length f.payload) h,
          put_u32_lem buf f.conn_id v.conn_id_fits,
          put_u64_lem _ f.seq v.seq_fits,
          put_u8_lem _ f.flags v.flags_fit,
          e,
          put_u16_lem _ (length f.payload) (omega arith),
          put_slice_lem _ f.payload,
        )
        (simp append_assoc)

  pub encode-wire :
      (f : Frame) → IsFrame f → length f.payload ≤ max_payload → encode m f ≡ ok (wire f)
  unfolding encode
  encode-wire f v h = encode_into-wire f [] v h

length-wire : (f : Frame) → length (wire f) ≡ header_len + length f.payload
length-wire f = omega arith

-- A payload of at most 65535 bytes is encoded behind what the buffer holds, as 15 bytes of header and
-- the payload; a longer one is refused.
pub encode_into_branches :
    (m : BufMut) (f : Frame) (buf : List ℕ)
    → IsFrame f
    → (length f.payload ≤ max_payload
        → (encode_into m f buf ≡ ok (buf ++ wire f))
          × (length (wire f) ≡ header_len + length f.payload))
      × (max_payload < length f.payload
          → encode_into m f buf ≡ err (payload_too_large (length f.payload)))
encode_into_branches m f buf v = (
  λ h. (encode_into-wire m f buf v h, length-wire f),
  λ h. unfold encode_into in rw (lt→ltb _ _ h),
)
