-- ===== src/Frame/Decoder.antt =====
-- src/frame.rs: `FrameDecoder`, over the reads that the transport delivers.
-- The decoder's state is its buffer; a read appends bytes to it, and no bytes mean the end of input.
pub mod Parse
pub mod Total
use round_robin.Common.{
  ℕ, zero, suc, ◌+◌, ◌-◌, ◌≤◌, ◌<◌, ◌≡◌, Bool, true, false, Option, none, some, List, [], ◌∷◌, ◌++◌,
  length, get_or, take, drop, ltb, leb, ◌==◌, if◌then◌else◌, Result, ok, err, ◌>>=◌, ◌>>◌, bail_if,
}
use round_robin.Wire.{BufMut}
use round_robin.Wire.Numbers.{from_be}
use round_robin.Frame.{
  Frame, Error, payload_too_large, decoder_overflow, eof_mid_frame, io_error, header_len,
  max_payload,
}

-- One completed `read_buf`: the bytes that it appended, or the error of the transport.
pub data Read : Type 0 where
  read : List ℕ → Read
  failed : Read

-- What `try_next` returns; `waiting` is the future that is still pending when no read completes.
pub data Next : Type 0 where
  frame : Frame → Next
  eof : Next
  fail : Error → Next
  waiting : Next

abbrev pub max_decoder_buf : ℕ
max_decoder_buf = header_len + max_payload + 16384

-- `buf[at..at + n]`; every use stands behind the length test that keeps it in range.
abbrev pub slice : List ℕ → ℕ → ℕ → List ℕ
slice buf at n = take n (drop at buf)

-- What a round of the loop does before it reads.
pub data Round : Type 0 where
  returns : Next → List ℕ → Round
  reads : Round

abbrev pub at_end : List ℕ → Next
at_end [] = eof
at_end (b ∷ bs) = fail eof_mid_frame

module _ (m : BufMut) where
  open m use {split_to}

  -- The frame at the head of the buffer, and what is left of the buffer.
  take_frame : ℕ → List ℕ → Frame × List ℕ
  take_frame payload_len buf =
      let (header, rest) = split_to buf header_len in
      let (payload, left) = split_to rest payload_len in
      (
        record {
          conn_id = from_be 0 (slice buf 0 4);
          seq = from_be 0 (slice buf 4 8);
          flags = get_or buf 12 0;
          payload = payload;
        },
        left,
      )

  unfoldable pub parse : List ℕ → Result Error (Option (Frame × List ℕ))
  unfolding take_frame
  parse buf =
      if leb header_len (length buf)
      then (do
        let payload_len = from_be 0 (slice buf 13 2)
        bail_if (ltb max_payload payload_len) (payload_too_large payload_len)
        ok (
            if leb (header_len + payload_len) (length buf)
            then some (take_frame payload_len buf)
            else none))
      else ok none

  unfoldable pub round : List ℕ → Round
  round buf = elim (parse buf) [
    | err e ↦ returns (fail e) buf
    | ok (some (f, left)) ↦ returns (frame f) left
    | ok none ↦
        if max_decoder_buf - length buf == 0 then returns (fail decoder_overflow) buf else reads
  ]

  -- The result, the buffer and the reads that are left.
  unfoldable pub try_next : List ℕ → List Read → Next × List ℕ × List Read
  try_next buf [] = elim (round buf) [ returns n left ↦ (n, left, []) | reads ↦ (waiting, buf, []) ]
  try_next buf (failed ∷ rs) = elim (round buf) [
    | returns n left ↦ (n, left, failed ∷ rs)
    | reads ↦ (fail io_error, buf, rs)
  ]
  try_next buf (read [] ∷ rs) = elim (round buf) [
    | returns n left ↦ (n, left, read [] ∷ rs)
    | reads ↦ (at_end buf, buf, rs)
  ]
  try_next buf (read (b ∷ bs) ∷ rs) = elim (round buf) [
    | returns n left ↦ (n, left, read (b ∷ bs) ∷ rs)
    | reads ↦ try_next (buf ++ b ∷ bs) rs
  ]

  -- The loop of `tunnel_read_loop`: each frame goes to a handler, until `try_next` returns no frame.
  -- `none` means that the fuel ran out.
  unfoldable pub read_loop {ℓ} :
      {S : Type ℓ} → ℕ → (S → Frame → S) → S → List ℕ → List Read → Option (S × Next)
  read_loop zero handle s buf rs = none
  read_loop (suc fuel) handle s buf rs =
      let (next, left, rs') = try_next buf rs in
      elim next [ frame f ↦ read_loop fuel handle (handle s f) left rs' | other ↦ some (s, other) ]
