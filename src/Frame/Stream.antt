-- ===== src/Frame/Stream.antt =====
-- Encoded frames over a byte stream: the decoder yields them in order, however the stream is cut.
use round_robin.Common.{
  ◌>>=◌, ℕ, suc, ◌+◌, ◌≤◌, ◌<◌, ◌≡◌, ◌≢◌, refl, sym, ap, ◌∙◌, inl, inr, Option, none, some, List,
  [], ◌∷◌, ◌++◌, length, length-append, leb, leb→le, Result, ok, arith, All, append_assoc,
  Bool-cases, concat,
}
use mathlib.Core.List.{foldl}
use round_robin.Wire.{BufMut}
use round_robin.Frame.{Frame, Error, IsFrame, encode, header_len, max_payload}
use round_robin.Frame.Encode.{wire, encode-wire}
use round_robin.Frame.Decoder.{
  Read, read, Next, frame, eof, returns, reads, round, try_next, parse, read_loop,
}
use round_robin.Frame.Decoder.Parse.{
  payload_len, frame_at, parse_no_header, parse_short, parse_whole, payload_len-append,
  frame_at-append, frame_at-wire, try_next-returns, try_next-reads,
}

-- A frame that a peer can send.
abbrev pub CanSend : Frame → Type 0
CanSend f = IsFrame f × (length f.payload ≤ max_payload)

abbrev pub wires : List Frame → List ℕ
wires [] = []
wires (f ∷ fs) = wire f ++ wires fs

-- The reads of a connection that delivers the pieces and then ends.
abbrev pub reads_of : List (List ℕ) → List Read
reads_of [] = read [] ∷ []
reads_of (c ∷ cs) = read c ∷ reads_of cs

abbrev pub IsCut : List (List ℕ) → Type 0
IsCut = All (λ c. c ≢ [])

module _ (m : BufMut) where
  module _ (f : Frame) (rest : List ℕ) (can : CanSend f) where
    -- A prefix of the stream that holds the whole frame.
    parse_prefix_whole :
        (buf more : List ℕ)
        → buf ++ more ≡ wire f ++ rest
        → header_len + length f.payload ≤ length buf
        → (left : List ℕ) × (parse m buf ≡ ok (some (f, left))) × (left ++ more ≡ rest)
    parse_prefix_whole buf more e le =
        let n = length f.payload in
        let known : payload_len buf ≡ n =
          sym (payload_len-append buf more (omega arith)) ∙ ap payload_len e ∙ omega arith in
        let same : ◌≡◌ {A = Frame × List ℕ} ((frame_at n buf).0, (frame_at n buf).1 ++ more)
            (f, rest) =
          sym (frame_at-append n buf more le) ∙ ap (frame_at n) e ∙ frame_at-wire f rest can.0 in
        (
          (frame_at n buf).1,
          parse_whole m n buf known can.1 le
              ∙ ap (λ (p : Frame × List ℕ). ok (some (p.0, (frame_at n buf).1))) same,
          ap (λ (p : Frame × List ℕ). p.1) same,
        )

    parse_prefix_short :
        (buf more : List ℕ)
        → buf ++ more ≡ wire f ++ rest
        → length buf < header_len + length f.payload
        → parse m buf ≡ ok none
    parse_prefix_short buf more e lt = elim (Bool-cases (leb header_len (length buf))) [
      | inl h ↦
          let known : payload_len buf ≡ length f.payload =
            sym (payload_len-append buf more (leb→le _ _ h)) ∙ ap payload_len e ∙ omega arith in
          parse_short m buf (omega (arith, can.1)) (omega arith)
      | inr h ↦ parse_no_header m buf (ground arith)
    ]

    round_whole :
        (buf more : List ℕ)
        → buf ++ more ≡ wire f ++ rest
        → header_len + length f.payload ≤ length buf
        → (left : List ℕ) × (round m buf ≡ returns (frame f) left) × (left ++ more ≡ rest)
    unfolding round
    round_whole buf more e le =
        let (left, p, q) = parse_prefix_whole buf more e le in (left, rw (p, round), q)

    round_short :
        (buf more : List ℕ)
        → buf ++ more ≡ wire f ++ rest
        → length buf < header_len + length f.payload
        → round m buf ≡ reads
    unfolding round
    round_short buf more e lt = rw (parse_prefix_short buf more e lt, round) (ground (arith, can.1))

    -- One call yields the frame, and leaves a cut of what follows it.
    pub try_next-wire :
        (buf : List ℕ) (cs : List (List ℕ))
        → IsCut cs
        → buf ++ concat cs ≡ wire f ++ rest
        → (left : List ℕ) × (cs' : List (List ℕ)) × (try_next m buf (reads_of cs)
            ≡ (frame f, left, reads_of cs'))
          × IsCut cs'
          × (left ++ concat cs' ≡ rest)
    unfolding try_next
    try_next-wire buf [] cut e =
        let (left, p, q) =
          round_whole buf [] e
            (omega (arith, ap length e, length-append buf [], length-append f.payload rest)) in
        (left, [], try_next-returns m buf (reads_of []) (frame f) left p, cut, q)
    try_next-wire buf ([] ∷ cs) cut e = absurd (cut.0 refl)
    try_next-wire buf ((b ∷ bs) ∷ cs) cut e =
        elim (Bool-cases (leb (header_len + length f.payload) (length buf))) [
          | inl h ↦
              let (left, p, q) = round_whole buf (concat ((b ∷ bs) ∷ cs)) e (leb→le _ _ h) in
              (
                left,
                (b ∷ bs) ∷ cs,
                try_next-returns m buf (reads_of ((b ∷ bs) ∷ cs)) (frame f) left p,
                cut,
                q,
              )
          | inr h ↦
              let (left, cs', p, cut', q) =
                try_next-wire (buf ++ b ∷ bs) cs cut.1
                  (append_assoc buf (b ∷ bs) (concat cs) ∙ e) in
              (
                left,
                cs',
                try_next-reads m buf b bs (reads_of cs) (round_short buf _ e (ground arith)) ∙ p,
                cut',
                q,
              )
        ]

  read_loop-frame :
      {S : Type 0} (fuel : ℕ) (handle : S → Frame → S) (s : S) (buf : List ℕ) (rs : List Read)
      {f : Frame} {left : List ℕ} {rs' : List Read}
      → try_next m buf rs ≡ (frame f, left, rs')
      → read_loop m (suc fuel) handle s buf rs ≡ read_loop m fuel handle (handle s f) left rs'
  unfolding read_loop
  read_loop-frame {S} fuel handle s buf rs e =
      ap
        (λ (p : Next × List ℕ × List Read).
          let out : Option (S × Next) = elim p.0 [
            | frame g ↦ read_loop m fuel handle (handle s g) p.1 p.2
            | other ↦ some (s, other)
          ] in
          out)
        e

  -- The loop hands the frames of any cut of their encodings to the handler, in order, and then
  -- sees the end of the stream.
  pub read_loop-wires :
      {S : Type 0} (handle : S → Frame → S) (fs : List Frame) (s : S) (buf : List ℕ)
      (cs : List (List ℕ))
      → All CanSend fs
      → IsCut cs
      → buf ++ concat cs ≡ wires fs
      → read_loop m (suc (length fs)) handle s buf (reads_of cs) ≡ some (foldl handle s fs, eof)
  unfolding read_loop try_next round parse
  read_loop-wires handle [] s [] [] can cut e = refl
  read_loop-wires handle [] s [] ([] ∷ cs) can cut e = absurd (cut.0 refl)
  read_loop-wires handle [] s [] ((b ∷ bs) ∷ cs) can cut e = cc
  read_loop-wires handle [] s (b ∷ bs) cs can cut e = cc
  read_loop-wires handle (f ∷ fs) s buf cs can cut e =
      let (left, cs', p, cut', q) = try_next-wire f (wires fs) can.0 buf cs cut e in
      read_loop-frame (suc (length fs)) handle s buf _ p
      ∙ (read_loop-wires handle fs (handle s f) left cs' can.1 cut' q)

  -- The bytes of frames that are encoded one behind the other.
  abbrev pub encode_all : List Frame → Result Error (List ℕ)
  encode_all [] = ok []
  encode_all (f ∷ fs) = do bytes ← encode m f; rest ← encode_all fs; ok (bytes ++ rest)

  pub encode_all-wires : (fs : List Frame) → All CanSend fs → encode_all fs ≡ ok (wires fs)
  encode_all-wires [] can = refl
  encode_all-wires (f ∷ fs) can = rw (encode-wire m f can.0.0 can.0.1, encode_all-wires fs can.1)

  -- The frames that a peer encodes reach the handler in order, whole and once each, however the
  -- transport cuts their bytes into reads, and the loop then ends by the end of the stream.
  pub read_loop-encode_all :
      {S : Type 0} (handle : S → Frame → S) (s : S) (fs : List Frame) (cs : List (List ℕ))
      → All CanSend fs
      → IsCut cs
      → encode_all fs ≡ ok (concat cs)
      → read_loop m (suc (length fs)) handle s [] (reads_of cs) ≡ some (foldl handle s fs, eof)
  read_loop-encode_all handle s fs cs can cut e =
      read_loop-wires handle fs s [] cs can cut (ground (arith, encode_all-wires fs can))
