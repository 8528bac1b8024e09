-- ===== src/Splitter/Inbound.antt =====
-- `handle_inbound_frame` and `VirtConn::on_frame`.
use round_robin.Common.{
  ℕ, ◌≡◌, refl, sym, ap, ◌∙◌, inl, inr, Bool, true, false, List, [], ◌∷◌, arith, Bool-cases,
}
use round_robin.Reorder.{ReorderBuf, push}
use round_robin.Pool.{Mpsc, TrySend, sent, closed, full}
use round_robin.Splitter.{VirtConn, deliver, on_frame}

-- A push that is not accepted releases nothing.
pub push_refused :
    (b : ReorderBuf) (seq : ℕ) (payload : List ℕ)
    → (push b seq payload).1.accepted ≡ false
    → (push b seq payload).1.ready ≡ []
unfolding push
push_refused b seq payload h = ground arith

true_ne_false : ¬ (true ≡ false)
true_ne_false h = cc

module _ (client : Mpsc (List ℕ)) where
  open client use {Sender, try_send}

  -- The channel took the chunks, one after the other.
  abbrev pub Takes : Sender → List (List ℕ) → Sender → Type 0
  Takes tx [] last = last ≡ tx
  Takes tx (c ∷ cs) last = (next : Sender) × (try_send tx c ≡ sent next) × Takes next cs last

  module _ (tx : Sender) (c : List ℕ) (cs : List (List ℕ)) where
    deliver_sent :
        (next : Sender)
        → try_send tx c ≡ sent next
        → deliver client tx (c ∷ cs) ≡ deliver client next cs
    unfolding deliver
    deliver_sent next e = rw (e, deliver)

    deliver_closed : try_send tx c ≡ closed → (deliver client tx (c ∷ cs)).1 ≡ true
    unfolding deliver
    deliver_closed e = rw (e, deliver)

    deliver_full : try_send tx c ≡ full → (deliver client tx (c ∷ cs)).1 ≡ true
    unfolding deliver
    deliver_full e = rw (e, deliver)

  deliver-Takes :
      (tx : Sender) (cs : List (List ℕ))
      → (deliver client tx cs).1 ≡ false
      → Takes tx cs (deliver client tx cs).0
  unfolding deliver
  deliver-Takes tx [] h = refl
  deliver-Takes tx (c ∷ cs) h = go (try_send tx c) refl (λ tx' h'. deliver-Takes tx' cs h')
    where
      go :
          (t : TrySend Sender)
          → try_send tx c ≡ t
          → ((tx' : Sender)
              → (deliver client tx' cs).1 ≡ false
              → Takes tx' cs (deliver client tx' cs).0)
          → Takes tx (c ∷ cs) (deliver client tx (c ∷ cs)).0
      go (sent next) e ih = (
        next,
        e,
        rw (deliver_sent tx c cs next e)
            (ih next (ap (λ (p : Sender × Bool). p.1) (sym (deliver_sent tx c cs next e)) ∙ h)),
      )
      go closed e ih = absurd (true_ne_false (sym (deliver_closed tx c cs e) ∙ h))
      go full e ih = absurd (true_ne_false (sym (deliver_full tx c cs e) ∙ h))

  -- Where `on_frame` asks for no reset, the client's channel took exactly the chunks that the reorder
  -- window released for this frame, in their order, and the window is the one after the push.
  pub on_frame-Takes :
      (vc : VirtConn Sender) (seq : ℕ) (payload : List ℕ) (now : ℕ)
      → let r = on_frame client vc seq payload now in
        let p = push vc.reorder seq payload in
        (r.0.reorder ≡ p.0)
        × (r.1 ≡ false → Takes vc.to_client_tx p.1.ready r.0.to_client_tx)
        × (p.1.overflow ≡ true → p.1.accepted ≡ false → r.1 ≡ true)
  unfolding on_frame
  on_frame-Takes vc seq payload now = elim (Bool-cases (push vc.reorder seq payload).1.accepted) [
    | inl a ↦ rw (a, on_frame) (refl, (λ h. deliver-Takes _ _ h), (λ o n. cc))
    | inr a ↦
        rw (a, on_frame, push_refused vc.reorder seq payload a) (refl, (λ h. refl), (λ o n. o))
  ]
