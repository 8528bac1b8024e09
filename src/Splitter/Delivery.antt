-- ===== src/Splitter/Delivery.antt =====
-- The DATA frames of one connection: what its client receives.
use round_robin.Common.{
  ℕ, ◌-◌, ◌^◌, ◌<◌, ◌≡◌, refl, sym, ap, subst, ◌∙◌, Bool, false, ◌||◌, List, [], ◌∷◌, ◌++◌, arith,
}
use round_robin.Reorder.{ReorderBuf, push, with_limit}
use round_robin.Reorder.Order.{push_all, segment}
use round_robin.Reorder.Stream.{Arrives, push_all-in_order}
use round_robin.Pool.{Mpsc}
use round_robin.Splitter.{VirtConn, on_frame}
use round_robin.Splitter.Inbound.{Takes, on_frame-Takes}

module _ (client : Mpsc (List ℕ)) where
  open client use {Sender, try_send}

  -- Frames of a stream, numbered by `ss`, arrive for a connection, the last at the time `now`: the
  -- connection, and whether any frame asked for a reset.
  unfoldable pub on_frames : VirtConn Sender → (ℕ → List ℕ) → List ℕ → ℕ → VirtConn Sender × Bool
  on_frames vc src [] now = (vc, false)
  on_frames vc src (s ∷ ss) now =
      let (vc', o) = on_frame client vc s (src s) now in
      let (last, os) = on_frames vc' src ss now in (last, o || os)

  pub Takes-append :
      (tx mid last : Sender) (cs ds : List (List ℕ))
      → Takes client tx cs mid
      → Takes client mid ds last
      → Takes client tx (cs ++ ds) last
  Takes-append tx mid last [] ds h k = subst (λ t. Takes client t ds last) h k
  Takes-append tx mid last (c ∷ cs) ds (next, e, h) k =
      (next, e, Takes-append next mid last cs ds h k)

  on_frames-push_all :
      (vc : VirtConn Sender) (src : ℕ → List ℕ) (ss : List ℕ) (now : ℕ)
      → (on_frames vc src ss now).1 ≡ false
      → let r = on_frames vc src ss now in
        let p = push_all vc.reorder src ss in
        (r.0.reorder ≡ p.0) × Takes client vc.to_client_tx p.1 r.0.to_client_tx
  unfolding on_frames push_all
  on_frames-push_all vc src [] now h = (refl, refl)
  on_frames-push_all vc src (s ∷ ss) now h =
      let o = on_frame client vc s (src s) now in
      let (window, takes, drops) = on_frame-Takes client vc s (src s) now in
      let last = on_frames (on_frame client vc s (src s) now).0 src ss now in
      let (window', takes') =
        on_frames-push_all (on_frame client vc s (src s) now).0 src ss now (ground arith) in
      (
        window' ∙ ap (λ w. (push_all w src ss).0) window,
        Takes-append vc.to_client_tx o.0.to_client_tx last.0.to_client_tx
            (push vc.reorder s (src s)).1.ready (push_all (push vc.reorder s (src s)).0 src ss).1
            (takes (ground arith))
            (subst
              (λ (w : ReorderBuf).
                Takes client o.0.to_client_tx (push_all w src ss).1 last.0.to_client_tx)
              window takes'),
      )

  -- While no frame asks for a reset, the client's channel takes exactly the start of the stream, in
  -- order and without a gap, whatever the order in which the tunnels deliver the frames and
  -- however often they do.
  pub on_frames-Takes :
      (vc : VirtConn Sender) (src : ℕ → List ℕ) (ss : List ℕ) (now max_bytes : ℕ)
      → vc.reorder ≡ with_limit max_bytes
      → max_bytes < 2 ^ 63
      → Arrives src ss
      → (on_frames vc src ss now).1 ≡ false
      → let r = on_frames vc src ss now in
        Takes client vc.to_client_tx (segment src 1 (r.0.reorder.expected - 1)) r.0.to_client_tx
  on_frames-Takes vc src ss now max_bytes fresh h a fine =
      let (window, takes) = on_frames-push_all vc src ss now fine in
      let r = on_frames vc src ss now in
      let same : push_all vc.reorder src ss ≡ push_all (with_limit max_bytes) src ss =
        ap (λ w. push_all w src ss) fresh in
      let stream : (push_all vc.reorder src ss).1 ≡ segment src 1 (r.0.reorder.expected - 1) =
        ap (λ (q : ReorderBuf × List (List ℕ) × Bool). q.1) same
        ∙ push_all-in_order src max_bytes ss h a
        ∙ (λ i. segment src 1 (expected_at window same i - 1)) in
      subst (λ cs. Takes client vc.to_client_tx cs r.0.to_client_tx) stream takes
    where
      expected_at :
          {w : ReorderBuf} {p q : ReorderBuf × List (List ℕ) × Bool}
          → w ≡ p.0
          → p ≡ q
          → q.0.expected ≡ w.expected
      expected_at e same = (λ i. (sym same i).0.expected) ∙ (λ i. (sym e i).expected)
