-- ===== src/Frame/Decoder/Total.antt =====
-- `FrameDecoder::try_next` on any bytes: which results it has, and what it keeps in memory.
use round_robin.Common.{
  ℕ, zero, suc, ◌+◌, ◌≤◌, ◌<◌, ◌≡◌, refl, ◌⊎◌, inl, inr, Option, some, List, [], ◌∷◌, ◌++◌, length,
  length-append, length-drop, leb, leb→le, arith, All, All-append, Bool-cases, drop,
}
use round_robin.Wire.{BufMut}
use round_robin.Wire.Numbers.{IsByte}
use round_robin.Frame.{Frame, header_len, max_payload, eof_mid_frame, io_error}
use round_robin.Frame.Decoder.{
  Read, read, failed, Next, frame, eof, fail, waiting, at_end, returns, reads, round, try_next,
  read_loop,
}
use round_robin.Frame.Decoder.Parse.{
  payload_len, payload_len-le, frame_at, parse_no_header, parse_short, parse_whole,
  try_next-returns, try_next-reads,
}

abbrev pub IsByteRead : Read → Type 0
IsByteRead (read c) = All IsByte c
IsByteRead failed = Unit

-- The bytes that the reads still deliver.
abbrev pub bytes_left : List Read → ℕ
bytes_left [] = 0
bytes_left (read c ∷ rs) = length c + bytes_left rs
bytes_left (failed ∷ rs) = bytes_left rs

-- From `buf` on, reads of bytes that the transport delivered make the buffer `all`, and `rs'` are left.
pub data Consumes : List ℕ → List Read → List ℕ → List Read → Type 0 where
  start : (buf : List ℕ) (rs : List Read) → Consumes buf rs buf rs
  more :
      (buf : List ℕ) (b : ℕ) (bs : List ℕ) (rs : List Read) (all : List ℕ) (rs' : List Read)
      → Consumes (buf ++ b ∷ bs) rs all rs'
      → Consumes buf (read (b ∷ bs) ∷ rs) all rs'

-- Bytes that end inside their first frame, or that are none.
abbrev pub IsPart : List ℕ → Type 0
IsPart bytes = (length bytes < header_len) ⊎ (length bytes < header_len + payload_len bytes)

-- A frame that the decoder returns: it is what stands at the head of the bytes, up to `left`.
pub record Yields (buf : List ℕ) (rs : List Read) (f : Frame) (left : List ℕ) (rs' : List Read)
    : Type 0 where
  pub left_bytes : All IsByte left
  pub left_reads : All IsByteRead rs'
  pub smaller : length left + bytes_left rs' + header_len ≤ length buf + bytes_left rs
  pub all : List ℕ
  pub consumed : Consumes buf rs all rs'
  pub whole : header_len + payload_len all ≤ length all
  pub read_off : frame_at (payload_len all) all ≡ (f, left)

-- What each result says of the bytes: `left` is what stays in the buffer, and `rs'` are the reads that are left.
abbrev pub Outcome : List ℕ → List Read → Next → List ℕ → List Read → Type 0
Outcome buf rs (frame f) left rs' = Yields buf rs f left rs'
Outcome buf rs eof left rs' = (left ≡ []) × Consumes buf rs [] (read [] ∷ rs')
Outcome buf rs (fail e) left rs' =
    IsPart left
    × (length left < header_len + max_payload)
    × ((e ≡ eof_mid_frame) × (0 < length left) × Consumes buf rs left (read [] ∷ rs')
        ⊎ (e ≡ io_error) × Consumes buf rs left (failed ∷ rs'))
Outcome buf rs waiting left rs' =
    IsPart left × (length left < header_len + max_payload) × Consumes buf rs left [] × (rs' ≡ [])

at_end-Outcome :
    (buf : List ℕ) (rs : List Read)
    → IsPart buf
    → length buf < header_len + max_payload
    → Outcome buf (read [] ∷ rs) (at_end buf) buf rs
at_end-Outcome [] rs p lt = (refl, start [] (read [] ∷ rs))
at_end-Outcome (b ∷ bs) rs p lt = (p, lt, inl (refl, omega arith, start (b ∷ bs) (read [] ∷ rs)))

-- The bytes of one more read were there for the rest of the call.
Outcome-more :
    (buf : List ℕ) (b : ℕ) (bs : List ℕ) (rs : List Read) (next : Next) (left : List ℕ)
    (rs' : List Read)
    → Outcome (buf ++ b ∷ bs) rs next left rs'
    → Outcome buf (read (b ∷ bs) ∷ rs) next left rs'
Outcome-more buf b bs rs (frame f) left rs' o = record {
  left_bytes = o.left_bytes;
  left_reads = o.left_reads;
  smaller = omega (arith, o.smaller, length-append buf (b ∷ bs));
  all = o.all;
  consumed = more buf b bs rs o.all rs' o.consumed;
  whole = o.whole;
  read_off = o.read_off;
}
Outcome-more buf b bs rs eof left rs' (e, c) = (e, more buf b bs rs [] _ c)
Outcome-more buf b bs rs (fail e) left rs' (p, lt, inl (q, pos, c)) =
    (p, lt, inl (q, pos, more buf b bs rs left _ c))
Outcome-more buf b bs rs (fail e) left rs' (p, lt, inr (q, c)) =
    (p, lt, inr (q, more buf b bs rs left _ c))
Outcome-more buf b bs rs waiting left rs' (p, lt, c, e) = (p, lt, more buf b bs rs left [] c, e)

module _ {ℓ} {A : Type ℓ} (P : A → Type 0) where
  pub All-drop : (n : ℕ) (xs : List A) → All P xs → All P (drop n xs)
  All-drop zero xs h = h
  All-drop (suc n) [] h = h
  All-drop (suc n) (x ∷ xs) h = All-drop n xs h.1

module _ (m : BufMut) where
  -- A round yields the frame at the head of the buffer, or reads with only a part of one buffered.
  round_cases :
      (buf : List ℕ)
      → All IsByte buf
      → ((f : Frame) × (left : List ℕ) × (round m buf ≡ returns (frame f) left)
          × (length left + header_len ≤ length buf)
          × All IsByte left
          × (header_len + payload_len buf ≤ length buf)
          × (frame_at (payload_len buf) buf ≡ (f, left)))
        ⊎ ((round m buf ≡ reads) × IsPart buf × (length buf < header_len + max_payload))
  unfolding round
  round_cases buf h = elim (Bool-cases (leb header_len (length buf))) [
    | inr short ↦ inr (
      rw (parse_no_header m buf (ground arith), round) (ground arith),
      inl (ground arith),
      ground arith,
    )
    | inl enough ↦ elim (Bool-cases (leb (header_len + payload_len buf) (length buf))) [
      | inl whole ↦
          let le = leb→le _ _ whole in
          inl (
            (frame_at (payload_len buf) buf).0,
            (frame_at (payload_len buf) buf).1,
            rw (parse_whole m (payload_len buf) buf refl (payload_len-le buf h) le, round),
            omega (
              arith,
              length-drop (payload_len buf) (drop header_len buf),
              length-drop header_len buf,
            ),
            All-drop IsByte (payload_len buf) _ (All-drop IsByte header_len buf h),
            le,
            refl,
          )
      | inr part ↦
          let lt : length buf < header_len + payload_len buf = ground arith in
          inr (
            rw (parse_short m buf (payload_len-le buf h) lt, round)
                (ground (arith, payload_len-le buf h)),
            inr lt,
            omega (arith, payload_len-le buf h),
          )
    ]
  ]

  yields :
      (buf : List ℕ) (rs : List Read) (f : Frame) (left : List ℕ)
      → All IsByte buf
      → All IsByteRead rs
      → (length left + header_len ≤ length buf)
        × All IsByte left
        × (header_len + payload_len buf ≤ length buf)
        × (frame_at (payload_len buf) buf ≡ (f, left))
      → Yields buf rs f left rs
  yields buf rs f left h hs (le, h', whole, off) = record {
    left_bytes = h';
    left_reads = hs;
    smaller = omega arith;
    all = buf;
    consumed = start buf rs;
    whole = whole;
    read_off = off;
  }

  -- On any bytes `try_next` returns the frame at the head of them, as soon as the reads have brought it whole;
  -- the end of a stream whose bytes are all taken; the error of a stream that ends inside a frame; the
  -- transport's error; or it waits for more of a frame. Its own limits are never met, and without a frame fewer
  -- bytes than a largest one are kept.
  pub try_next-Outcome :
      (buf : List ℕ) (rs : List Read)
      → All IsByte buf
      → All IsByteRead rs
      → let r = try_next m buf rs in Outcome buf rs r.0 r.1 r.2
  unfolding try_next
  try_next-Outcome buf [] h hs = elim (round_cases buf h) [
    | inl (f, left, e, le, h', w, o) ↦
        rw (try_next-returns m buf [] (frame f) left e) (yields buf [] f left h hs (le, h', w, o))
    | inr (e, p, lt) ↦ rw (e, try_next) (p, lt, start buf [], refl)
  ]
  try_next-Outcome buf (failed ∷ rs) h hs = elim (round_cases buf h) [
    | inl (f, left, e, le, h', w, o) ↦
        rw (try_next-returns m buf (failed ∷ rs) (frame f) left e)
          (yields buf (failed ∷ rs) f left h hs (le, h', w, o))
    | inr (e, p, lt) ↦ rw (e, try_next) (p, lt, inr (refl, start buf (failed ∷ rs)))
  ]
  try_next-Outcome buf (read [] ∷ rs) h hs = elim (round_cases buf h) [
    | inl (f, left, e, le, h', w, o) ↦
        rw (try_next-returns m buf (read [] ∷ rs) (frame f) left e)
          (yields buf (read [] ∷ rs) f left h hs (le, h', w, o))
    | inr (e, p, lt) ↦ rw (e, try_next) (at_end-Outcome buf rs p lt)
  ]
  try_next-Outcome buf (read (b ∷ bs) ∷ rs) h hs = elim (round_cases buf h) [
    | inl (f, left, e, le, h', w, o) ↦
        rw (try_next-returns m buf (read (b ∷ bs) ∷ rs) (frame f) left e)
          (yields buf (read (b ∷ bs) ∷ rs) f left h hs (le, h', w, o))
    | inr (e, p, lt) ↦
        let ih = try_next-Outcome (buf ++ b ∷ bs) rs (All-append IsByte buf (b ∷ bs) h hs.0) hs.1 in
        rw (try_next-reads m buf b bs rs e) (Outcome-more buf b bs rs _ _ _ ih)
  ]

  -- The loop ends on every input: more rounds than bytes are enough.
  pub read_loop_total :
      {S : Type 0} (handle : S → Frame → S) (fuel : ℕ) (s : S) (buf : List ℕ) (rs : List Read)
      → All IsByte buf
      → All IsByteRead rs
      → length buf + bytes_left rs < fuel
      → (r : S × Next) × (read_loop m fuel handle s buf rs ≡ some r)
  unfolding read_loop
  read_loop_total handle zero s buf rs h hs lt = absurd (omega arith)
  read_loop_total {S} handle (suc fuel) s buf rs h hs lt =
      go (read_loop_total handle fuel) (try_next m buf rs) (try_next-Outcome buf rs h hs)
    where
      go :
          ((s' : S) (buf' : List ℕ) (rs' : List Read)
            → All IsByte buf'
            → All IsByteRead rs'
            → length buf' + bytes_left rs' < fuel
            → (r : S × Next) × (read_loop m fuel handle s' buf' rs' ≡ some r))
          → (p : Next × List ℕ × List Read) → Outcome buf rs p.0 p.1 p.2
          → (r : S × Next) × (◌≡◌ {A = Option (S × Next)}
              (elim p.0 [
                | frame f ↦ read_loop m fuel handle (handle s f) p.1 p.2
                | other ↦ some (s, other)
              ])
              (some r))
      go ih (frame f, left, rs') o =
          ih (handle s f) left rs' o.left_bytes o.left_reads (omega (arith, o.smaller))
      go ih (eof, left, rs') o = ((s, eof), refl)
      go ih (fail e, left, rs') o = ((s, fail e), refl)
      go ih (waiting, left, rs') o = ((s, waiting), refl)
