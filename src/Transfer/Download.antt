-- ===== src/Transfer/Download.antt =====
-- A whole download: the frames of `read_from_egress` (src/reassembler.rs) through the reorder window of
-- src/reorder.rs, in any order that the tunnels give them.
use round_robin.Common.{
  ℕ, suc, ◌+◌, ◌*◌, ◌^◌, ◌≤◌, ◌<◌, ◌≡◌, refl, ap, subst, ◌∙◌, true, false, some, List, [], ◌∷◌,
  length, get_elem?, concat, arith, All, wrapping_succ,
}
use round_robin.Frame.{Frame}
use round_robin.Frame.New.{data_frame}
use round_robin.Reorder.{new_window, is_complete_through}
use round_robin.Splitter.Client.{numbered}
use round_robin.Reassembler.Egress.{
  taken, cancelled_first, not_taken, EgressEvent, cancel_notified, target_closes, target_fails,
  target_sends, egress_loop,
}
use round_robin.Transfer.{push_frames, IsOneOf, StaysNear, numbered_arrives}

-- The chunks that a tunnel took.
abbrev pub taken_chunks : List EgressEvent → List (List ℕ)
taken_chunks [] = []
taken_chunks (cancel_notified ∷ es) = []
taken_chunks (target_closes ∷ es) = []
taken_chunks (target_fails ∷ es) = []
taken_chunks (target_sends bytes cancelled_first ∷ es) = []
taken_chunks (target_sends bytes not_taken ∷ es) = []
taken_chunks (target_sends bytes taken ∷ es) = bytes ∷ taken_chunks es

egress_loop_lem :
    (cid seq : ℕ) (es : List EgressEvent)
    → seq + length (taken_chunks es) < 2 ^ 64
    → let d = egress_loop cid seq es in
      (d.frames ≡ numbered cid seq (taken_chunks es))
      × (d.next_seq ≡ seq + length (taken_chunks es))
unfolding egress_loop
egress_loop_lem cid seq [] h = (refl, omega arith)
egress_loop_lem cid seq (cancel_notified ∷ es) h = (refl, omega arith)
egress_loop_lem cid seq (target_closes ∷ es) h = (refl, omega arith)
egress_loop_lem cid seq (target_fails ∷ es) h = (refl, omega arith)
egress_loop_lem cid seq (target_sends bytes cancelled_first ∷ es) h = (refl, omega arith)
egress_loop_lem cid seq (target_sends bytes not_taken ∷ es) h = (refl, omega arith)
egress_loop_lem cid seq (target_sends bytes taken ∷ es) h =
    let step : wrapping_succ seq ≡ suc seq = omega arith in
    let (frames, next) = egress_loop_lem cid (suc seq) es (omega arith) in
    rw step (ap (◌∷◌ (data_frame cid seq bytes)) frames, omega arith)

-- A download whose chunks hold at most 65535 bytes, fewer than 2^63 of them taken by the tunnels,
-- arrives whole: let their frames come to a default window in any order and any number of times, each
-- less than 1024 numbers ahead of the expected one and every one at least once. Then no push overflows,
-- the window is complete through the number that the reader's FIN carries, and the bytes delivered are
-- the bytes of the chunks.
pub download_arrives :
    (cid : ℕ) (es : List EgressEvent) (fs : List Frame)
    → All (λ c. length c ≤ 65535) (taken_chunks es)
    → length (taken_chunks es) < 2 ^ 63
    → All (IsOneOf (egress_loop cid 1 es).frames) fs
    → ((i : ℕ) (f : Frame) → get_elem? (egress_loop cid 1 es).frames i ≡ some f → IsOneOf fs f)
    → StaysNear (8 * 128) new_window fs
    → let r = push_frames new_window fs in
      (r.2 ≡ false)
      × (is_complete_through r.0 (egress_loop cid 1 es).next_seq ≡ true)
      × (concat r.1 ≡ concat (taken_chunks es))
download_arrives cid es fs small few one all near =
    let (frames, next) = egress_loop_lem cid 1 es (omega arith) in
    let number : length (taken_chunks es) + 1 ≡ (egress_loop cid 1 es).next_seq = omega arith in
    let (fits, complete, whole) =
      numbered_arrives cid (taken_chunks es) small few fs
        (subst (λ us. All (IsOneOf us) fs) frames one)
        (λ i f e. all i f (ap (λ us. get_elem? us i) frames ∙ e)) near in
    (
      fits,
      subst (λ k. is_complete_through (push_frames new_window fs).0 k ≡ true) number complete,
      whole,
    )
