-- ===== src/Transfer.antt =====
-- A whole upload: the frames of `handle_tcp_client` (src/splitter.rs) through the reorder window of
-- src/reorder.rs, in any order that the tunnels give them.
mod Examples
pub mod Download
pub mod Setup
use round_robin.Common.{
  ℕ, zero, suc, ◌+◌, ◌-◌, ◌*◌, ◌%◌, ◌^◌, ◌≤◌, ◌<◌, ◌≡◌, refl, sym, ap, subst, ◌∙◌, ◌⊎◌, inl, inr,
  Bool, true, false, ◌||◌, Option, none, some, List, [], ◌∷◌, ◌++◌, append-nil, append_assoc,
  length, get_or, get_elem?, get_elem?_lt, concat, arith, All, leb, leb→le, some-injective,
}
use round_robin.Frame.{Frame}
use round_robin.Frame.New.{data_frame}
use round_robin.Reorder.{ReorderBuf, push, new_window, is_complete_through}
use round_robin.Reorder.Push.{CanArrive}
use round_robin.Reorder.Order.{push_all, segment, segment-append}
use round_robin.Reorder.Stream.{Arrives, Among}
use round_robin.Reorder.Skew.{InSpan, new_window_delivers}
use round_robin.Splitter.Client.{Event, client_loop, client_loop_lem, chunks, numbered}

-- Chunk `k` of a list of chunks, counted from 1.
abbrev pub chunk_at : List (List ℕ) → ℕ → List ℕ
chunk_at cs k = get_or cs (k - 1) []

-- The frames arrive at the window one after the other.
unfoldable pub push_frames : ReorderBuf → List Frame → ReorderBuf × List (List ℕ) × Bool
push_frames b [] = (b, [], false)
push_frames b (f ∷ fs) =
    let (b', r) = push b f.seq f.payload in
    let (last, out, over) = push_frames b' fs in (last, r.ready ++ out, r.overflow || over)

abbrev pub seqs : List Frame → List ℕ
seqs [] = []
seqs (f ∷ fs) = f.seq ∷ seqs fs

-- The frame is one of those.
abbrev pub IsOneOf : List Frame → Frame → Type 0
IsOneOf us f = (i : ℕ) × (get_elem? us i ≡ some f)

-- The frames stay less than `span` numbers ahead of the one that the window expects.
abbrev pub StaysNear : ℕ → ReorderBuf → List Frame → Type 0
StaysNear span b [] = Unit
StaysNear span b (f ∷ fs) =
    (f.seq < b.expected + span) × StaysNear span (push b f.seq f.payload).0 fs

module _ (src : ℕ → List ℕ) where
  push_frames-push_all :
      (b : ReorderBuf) (fs : List Frame)
      → All (λ f. f.payload ≡ src f.seq) fs
      → push_frames b fs ≡ push_all b src (seqs fs)
  unfolding push_frames push_all
  push_frames-push_all b [] h = refl
  push_frames-push_all b (f ∷ fs) h =
      rw (h.0, push_frames-push_all (push b f.seq (src f.seq)).0 fs h.1)

  StaysNear-InSpan :
      (span : ℕ) (b : ReorderBuf) (fs : List Frame)
      → All (λ f. f.payload ≡ src f.seq) fs
      → StaysNear span b fs
      → InSpan src span b (seqs fs)
  StaysNear-InSpan span b [] h n = tt
  StaysNear-InSpan span b (f ∷ fs) h n = (
    n.0,
    StaysNear-InSpan span (push b f.seq (src f.seq)).0 fs h.1
        (subst (λ p. StaysNear span (push b f.seq p).0 fs) h.0 n.1),
  )

  segment_of :
      (from : ℕ) (cs : List (List ℕ))
      → ((i : ℕ) → src (from + i) ≡ get_or cs i [])
      → segment src from (length cs) ≡ cs
  segment_of from [] h = refl
  segment_of from (c ∷ cs) h =
      λ i. first i ∷ segment_of (suc from) cs (λ j. ap src (omega arith) ∙ h (suc j)) i
    where
      first : src from ≡ c
      first = ap src (omega arith) ∙ h 0

  concat-segment_empty :
      (from n : ℕ) → ((k : ℕ) → from ≤ k → src k ≡ []) → concat (segment src from n) ≡ []
  concat-segment_empty from zero h = refl
  concat-segment_empty from (suc n) h =
      rw (h from (omega arith)) (concat-segment_empty (suc from) n (λ k lt. h k (omega arith)))

concat-append : (xss yss : List (List ℕ)) → concat (xss ++ yss) ≡ concat xss ++ concat yss
concat-append [] yss = refl
concat-append (xs ∷ xss) yss =
    ap (◌++◌ xs) (concat-append xss yss) ∙ sym (append_assoc xs (concat xss) (concat yss))

get_or_past : (cs : List (List ℕ)) (i : ℕ) → length cs ≤ i → get_or cs i [] ≡ []
get_or_past [] i h = refl
get_or_past (c ∷ cs) zero h = absurd (omega arith)
get_or_past (c ∷ cs) (suc i) h = get_or_past cs i (omega arith)

-- A frame of an upload carries the chunk of its number.
numbered_payload :
    (cid from : ℕ) (cs : List (List ℕ)) (i : ℕ) (f : Frame)
    → get_elem? (numbered cid from cs) i ≡ some f
    → (f.payload ≡ get_or cs i []) × (f.seq ≡ from + i) × (i < length cs)
unfolding data_frame
numbered_payload cid from [] i f e = cc
numbered_payload cid from (c ∷ cs) zero f e =
    let same = some-injective e in
    ((λ k. (sym same k).payload), (λ k. (sym same k).seq) ∙ omega arith, omega arith)
numbered_payload cid from (c ∷ cs) (suc i) f e =
    let (p, s, lt) = numbered_payload cid (suc from) cs i f e in (p, s ∙ omega arith, omega arith)

length-numbered : (cid from : ℕ) (cs : List (List ℕ)) → length (numbered cid from cs) ≡ length cs
length-numbered cid from [] = refl
length-numbered cid from (c ∷ cs) = ap suc (length-numbered cid (suc from) cs)

IsOneOf-Among :
    (fs : List Frame) (i : ℕ) (f : Frame) → get_elem? fs i ≡ some f → Among f.seq (seqs fs)
IsOneOf-Among [] i f e = cc
IsOneOf-Among (g ∷ fs) zero f e = inl (λ k. (sym (some-injective e) k).seq)
IsOneOf-Among (g ∷ fs) (suc i) f e = inr (IsOneOf-Among fs i f e)

get_or_small :
    (m : ℕ) (cs : List (List ℕ)) (i : ℕ) → All (λ c. length c ≤ m) cs → length (get_or cs i []) ≤ m
get_or_small m [] i h = omega arith
get_or_small m (c ∷ cs) zero h = h.0
get_or_small m (c ∷ cs) (suc i) h = get_or_small m cs i h.1

-- The stream of chunks up to and past its end.
concat-stream :
    (cs : List (List ℕ)) (n : ℕ) → length cs ≤ n → concat (segment (chunk_at cs) 1 n) ≡ concat cs
concat-stream cs n h =
    let src = chunk_at cs in
    let m = length cs in
    let whole : segment src 1 m ≡ cs =
      segment_of src 1 cs (λ i. ap (λ j. get_or cs j []) (omega arith)) in
    let past : concat (segment src (suc m) (n - m)) ≡ [] =
      concat-segment_empty src (suc m) (n - m) (λ k lt. get_or_past cs (k - 1) (omega arith)) in
    ap concat (sym (segment-append src 1 m (n - m) (suc m) n (omega arith) (omega arith)))
    ∙ concat-append (segment src 1 m) (segment src (suc m) (n - m))
    ∙ (λ i. concat (whole i) ++ past i)
    ∙ append-nil (concat cs)

complete_past : (b : ReorderBuf) (k : ℕ) → is_complete_through b (k + 1) ≡ true → k + 1 ≤ b.expected
unfolding is_complete_through
complete_past b k h = leb→le (k + 1) b.expected h

module _ (cid : ℕ) (cs : List (List ℕ)) (small : All (λ c. length c ≤ 65535) cs)
    (few : length cs < 2 ^ 63) where
  numbered_frame :
      (f : Frame)
      → IsOneOf (numbered cid 1 cs) f
      → (f.payload ≡ chunk_at cs f.seq) × CanArrive f.seq (chunk_at cs f.seq)
  numbered_frame f (i, e) =
      let (p, s, lt) = numbered_payload cid 1 cs i f e in
      let place : f.seq - 1 ≡ i = omega arith in
      (
        p ∙ ap (λ j. get_or cs j []) (sym place),
        record {
          seq_fits = omega arith;
          payload_fits = omega (arith, get_or_small 65535 cs (f.seq - 1) small);
        },
      )

  numbered_frames :
      (fs : List Frame)
      → All (IsOneOf (numbered cid 1 cs)) fs
      → All (λ f. f.payload ≡ chunk_at cs f.seq) fs × Arrives (chunk_at cs) (seqs fs)
  numbered_frames [] h = (tt, tt)
  numbered_frames (f ∷ fs) h =
      let (p, a) = numbered_frame f h.0 in
      let (ps, as_) = numbered_frames fs h.1 in ((p, ps), (a, as_))

  all_numbers :
      (fs : List Frame)
      → ((i : ℕ) (f : Frame) → get_elem? (numbered cid 1 cs) i ≡ some f → IsOneOf fs f)
      → (k : ℕ) → 1 ≤ k
      → k ≤ length cs
      → Among k (seqs fs)
  all_numbers fs all k lo hi =
      let us = numbered cid 1 cs in
      let (f, e) = get_elem?_lt us (k - 1) (omega (arith, length-numbered cid 1 cs)) in
      let (p, s, lt) = numbered_payload cid 1 cs (k - 1) f e in
      let (i, e') = all (k - 1) f e in
      let number : f.seq ≡ k = omega arith in
      subst (λ j. Among j (seqs fs)) number (IsOneOf-Among fs i f e')

  -- Numbered frames of a stream of chunks arrive whole.
  pub numbered_arrives :
      (fs : List Frame)
      → All (IsOneOf (numbered cid 1 cs)) fs
      → ((i : ℕ) (f : Frame) → get_elem? (numbered cid 1 cs) i ≡ some f → IsOneOf fs f)
      → StaysNear (8 * 128) new_window fs
      → let r = push_frames new_window fs in
        (r.2 ≡ false) × (is_complete_through r.0 (length cs + 1) ≡ true) × (concat r.1 ≡ concat cs)
  numbered_arrives fs one all near =
      let n = length cs in
      let src = chunk_at cs in
      let (payloads, arrives) = numbered_frames fs one in
      let as_all = push_frames-push_all src new_window fs payloads in
      let (fits, order, complete) =
        new_window_delivers src (seqs fs) n (λ k. get_or_small 65535 cs (k - 1) small) arrives
          (StaysNear-InSpan src (8 * 128) new_window fs payloads near) (all_numbers fs all) in
      let past = complete_past (push_all new_window src (seqs fs)).0 n complete in
      rw as_all (fits, complete, ap concat order ∙ concat-stream cs _ (omega arith))

module _ (cid : ℕ) (es : List Event) (small : All (λ c. length c ≤ 65535) (chunks es))
    (few : length (chunks es) < 2 ^ 63) where
  -- An upload of chunks of at most 65535 bytes arrives whole: let its frames come to a default
  -- window in any order and any number of times, each less than 1024 numbers ahead of the expected
  -- one and every one at least once. Then no push overflows, the window is complete through the
  -- number that the FIN carries, and the bytes delivered are the bytes read from the client.
  pub upload_arrives :
      (fs : List Frame)
      → All (IsOneOf (client_loop cid 1 es).frames) fs
      → ((i : ℕ) (f : Frame) → get_elem? (client_loop cid 1 es).frames i ≡ some f → IsOneOf fs f)
      → StaysNear (8 * 128) new_window fs
      → let r = push_frames new_window fs in
        (r.2 ≡ false)
        × (is_complete_through r.0 (client_loop cid 1 es).next_seq ≡ true)
        × (concat r.1 ≡ concat (chunks es))
  upload_arrives fs one all near =
      let (frames, next) = client_loop_lem cid 1 es (omega arith) in
      let number : length (chunks es) + 1 ≡ (client_loop cid 1 es).next_seq = omega arith in
      let (fits, complete, whole) =
        numbered_arrives cid (chunks es) small few fs (subst (λ us. All (IsOneOf us) fs) frames one)
          (λ i f e. all i f (ap (λ us. get_elem? us i) frames ∙ e)) near in
      (
        fits,
        subst (λ k. is_complete_through (push_frames new_window fs).0 k ≡ true) number complete,
        whole,
      )
