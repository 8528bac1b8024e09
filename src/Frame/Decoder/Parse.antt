-- ===== src/Frame/Decoder/Parse.antt =====
-- One parse of the decoder's buffer: on a whole frame, on more bytes than it needs, and on any bytes.
use round_robin.Common.{
  ℕ, ◌+◌, ◌≤◌, ◌<◌, ◌≡◌, refl, ap, ◌∙◌, inl, inr, true, none, some, List, [], ◌∷◌, ◌++◌, length,
  length-append, length-drop, get_or, take, drop, leb, le→leb, lt→leb, le→ltb, ok, arith, All,
  take-length_append, drop-length_append, take-append_le, drop-append_le, Bool-cases,
}
use round_robin.Wire.{BufMut}
use round_robin.Wire.Numbers.{IsByte, from_be, from_be-be32, from_be-be64}
use round_robin.Frame.{Frame, IsFrame, header_len, max_payload}
use round_robin.Frame.Encode.{wire}
use round_robin.Frame.Decoder.{
  parse, slice, Read, read, failed, Next, returns, reads, round, try_next,
}

-- The length field of a header.
abbrev pub payload_len : List ℕ → ℕ
payload_len buf = from_be 0 (slice buf 13 2)

-- What the buffer holds, read as a frame of `n` bytes of payload.
abbrev pub frame_at : ℕ → List ℕ → Frame × List ℕ
frame_at n buf = (
  record {
    conn_id = from_be 0 (slice buf 0 4);
    seq = from_be 0 (slice buf 4 8);
    flags = get_or buf 12 0;
    payload = take n (drop header_len buf);
  },
  drop n (drop header_len buf),
)

pub payload_len-le : (buf : List ℕ) → All IsByte buf → payload_len buf ≤ max_payload
payload_len-le
      (b0 ∷ b1 ∷ b2 ∷ b3 ∷ b4 ∷ b5 ∷ b6 ∷ b7 ∷ b8 ∷ b9 ∷ b10 ∷ b11 ∷ b12 ∷ b13 ∷ b14 ∷ rest) h =
    omega arith
payload_len-le _ h = omega arith

-- A header of 15 bytes is not changed by what comes behind it.
pub payload_len-append :
    (buf more : List ℕ) → header_len ≤ length buf → payload_len (buf ++ more) ≡ payload_len buf
payload_len-append
      (b0 ∷ b1 ∷ b2 ∷ b3 ∷ b4 ∷ b5 ∷ b6 ∷ b7 ∷ b8 ∷ b9 ∷ b10 ∷ b11 ∷ b12 ∷ b13 ∷ b14 ∷ rest) more
      h =
    refl
payload_len-append _ more h = absurd (omega arith)

pub frame_at-append :
    (n : ℕ) (buf more : List ℕ)
    → header_len + n ≤ length buf
    → frame_at n (buf ++ more) ≡ ((frame_at n buf).0, (frame_at n buf).1 ++ more)
frame_at-append n
      (b0 ∷ b1 ∷ b2 ∷ b3 ∷ b4 ∷ b5 ∷ b6 ∷ b7 ∷ b8 ∷ b9 ∷ b10 ∷ b11 ∷ b12 ∷ b13 ∷ b14 ∷ rest) more
      h =
    rw (take-append_le n rest more (omega arith), drop-append_le n rest more (omega arith))
frame_at-append n _ more h = absurd (omega arith)

pub frame_at-wire :
    (f : Frame) (rest : List ℕ)
    → IsFrame f
    → frame_at (length f.payload) (wire f ++ rest) ≡ (f, rest)
frame_at-wire f rest v = λ i. (
  record {
    conn_id = from_be-be32 f.conn_id v.conn_id_fits i;
    seq = from_be-be64 f.seq v.seq_fits i;
    flags = f.flags;
    payload = take-length_append f.payload rest _ refl i;
  },
  drop-length_append f.payload rest _ refl i,
)

module _ (m : BufMut) where
  open m use {split_to_lem}

  -- Fewer bytes than a header yield nothing.
  pub parse_no_header : (buf : List ℕ) → length buf < header_len → parse m buf ≡ ok none
  unfolding parse
  parse_no_header buf lt = rw (lt→leb _ _ lt)

  -- A buffer shorter than its first frame yields none.
  pub parse_short :
      (buf : List ℕ)
      → payload_len buf ≤ max_payload
      → length buf < header_len + payload_len buf
      → parse m buf ≡ ok none
  unfolding parse
  parse_short buf h lt = elim (Bool-cases (leb header_len (length buf))) [
    | inl e ↦ rw (e, le→ltb _ _ h, lt→leb _ _ lt)
    | inr e ↦ rw e
  ]

  -- A buffer that holds its first frame yields it.
  pub parse_whole :
      (n : ℕ) (buf : List ℕ)
      → payload_len buf ≡ n
      → n ≤ max_payload
      → header_len + n ≤ length buf
      → parse m buf ≡ ok (some (frame_at n buf))
  unfolding parse
  parse_whole n buf e h le =
      let e1 : leb header_len (length buf) ≡ true = le→leb _ _ (omega arith) in
      rw (
        e1,
        e,
        le→ltb _ _ h,
        le→leb _ _ le,
        split_to_lem buf header_len (omega arith),
        split_to_lem (drop header_len buf) n (omega (arith, length-drop header_len buf)),
      )

  -- The wire format of a frame is read back, and what follows it is left.
  pub parse-wire :
      (f : Frame) (rest : List ℕ)
      → IsFrame f
      → length f.payload ≤ max_payload
      → parse m (wire f ++ rest) ≡ ok (some (f, rest))
  parse-wire f rest v h =
      parse_whole (length f.payload) (wire f ++ rest) (omega arith) h
        (omega (arith, length-append f.payload rest))
      ∙ ap (λ p. ok (some p)) (frame_at-wire f rest v)

module _ (m : BufMut) where
  -- A round that returns leaves the reads to the next call.
  pub try_next-returns :
      (buf : List ℕ) (rs : List Read) (n : Next) (left : List ℕ)
      → round m buf ≡ returns n left
      → try_next m buf rs ≡ (n, left, rs)
  unfolding try_next
  try_next-returns buf [] n left e = rw (e, try_next)
  try_next-returns buf (failed ∷ rs) n left e = rw (e, try_next)
  try_next-returns buf (read [] ∷ rs) n left e = rw (e, try_next)
  try_next-returns buf (read (b ∷ bs) ∷ rs) n left e = rw (e, try_next)

  pub try_next-reads :
      (buf : List ℕ) (b : ℕ) (bs : List ℕ) (rs : List Read)
      → round m buf ≡ reads
      → try_next m buf (read (b ∷ bs) ∷ rs) ≡ try_next m (buf ++ b ∷ bs) rs
  unfolding try_next
  try_next-reads buf b bs rs e = rw (e, try_next)
