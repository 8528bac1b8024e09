-- ===== src/Reassembler/Closing.antt =====
-- When the write half of a connection to a target closes, with frames that wait and frames that find
-- the connection.
use round_robin.Common.{
  ℕ, ◌≤◌, ◌≡◌, refl, sym, ap, ◌∙◌, ◌⊎◌, inl, inr, Bool, true, false, not, ◌&&◌, List, if_cases,
  ◌==◌, if◌then◌else◌, Bool-cases, arith,
}
use round_robin.Reorder.{ReorderBuf, PushResult, push, is_complete_through}
use round_robin.Reorder.Push.{
  IsValid, CanArrive, Pushed, behind, next, waiting, room, full, push-Pushed,
}
use round_robin.Reassembler.{VirtConnDe}
use round_robin.Reassembler.HalfClose.{close_write_half, start_half_close}

-- A push makes the expected number no smaller, and a push that is refused changes nothing.
pub push_grows :
    (b : ReorderBuf) (seq : ℕ) (payload : List ℕ)
    → IsValid b
    → CanArrive seq payload
    → IsValid (push b seq payload).0
      × (b.expected ≤ (push b seq payload).0.expected)
      × ((push b seq payload).1.accepted ≡ false → (push b seq payload).0 ≡ b)
push_grows b seq payload v can =
    let (v', p) = push-Pushed b seq payload v can in let (le, same) = go p in (v', le, same)
  where
    differs : ¬ (true ≡ false)
    differs c = cc

    go :
        {b' : ReorderBuf} {r : PushResult}
        → Pushed b seq payload b' r
        → (b.expected ≤ b'.expected) × (r.accepted ≡ false → b' ≡ b)
    go (behind lt e r) = (ground arith, λ a. e)
    go (next out e r run adv kept lighter fewer sb se) =
        (omega arith, λ a. absurd (differs (sym (λ i. (r i).accepted) ∙ a)))
    go (waiting c lt l e r) = (ground arith, λ a. e)
    go {b' = b'} (room lt l h e r) = (
      (let same : b'.expected ≡ b.expected = λ i. (e i).expected in omega arith),
      λ a. absurd (differs (sym (λ i. (r i).accepted) ∙ a)),
    )
    go (full lt l h e r) = (ground arith, λ a. e)

module _ {E : Type 0} where
  -- The FIN came, and all frames before it were delivered.
  abbrev pub is_due : VirtConnDe E → Bool
  is_due vc = vc.fin_received && is_complete_through vc.reorder vc.fin_seq

  -- The write half is closed, with its signal, just if that is due.
  pub record IsTimely (vc : VirtConnDe E) : Type 0 where
    pub signal : vc.half_close ≡ is_due vc
    pub state : vc.half_close_state ≡ (if is_due vc then 2 else 0)

  -- The fields that a delivery leaves alone.
  pub record SameClosing (vc w : VirtConnDe E) : Type 0 where
    pub same_fin : w.fin_received ≡ vc.fin_received
    pub same_seq : w.fin_seq ≡ vc.fin_seq
    pub same_signal : w.half_close ≡ vc.half_close
    pub same_state : w.half_close_state ≡ vc.half_close_state

  pub IsTimely-stays :
      (vc w : VirtConnDe E) → IsTimely vc → SameClosing vc w → w.reorder ≡ vc.reorder → IsTimely w
  IsTimely-stays vc w t s e = record {
    signal = s.same_signal ∙ t.signal ∙ sym due;
    state = s.same_state ∙ t.state ∙ ap (λ b. if b then 2 else 0) (sym due);
  }
    where
      due : is_due w ≡ is_due vc
      due = λ i. s.same_fin i && is_complete_through (e i) (s.same_seq i)

  close_write_half-IsTimely :
      (vc : VirtConnDe E)
      → vc.fin_received ≡ true
      → ((vc.half_close_state ≡ 0) × (vc.half_close ≡ false))
        ⊎ ((vc.half_close_state ≡ 2)
            × (vc.half_close ≡ true)
            × (is_complete_through vc.reorder vc.fin_seq ≡ true))
      → IsTimely (close_write_half vc false)
  unfolding close_write_half
  close_write_half-IsTimely vc f (inl (s, h)) =
      if_cases IsTimely (vc.half_close_state == 0) _ vc
        (λ z.
          if_cases IsTimely (not (is_complete_through vc.reorder vc.fin_seq)) _ _
            (λ n.
              let c : is_complete_through vc.reorder vc.fin_seq ≡ false = ground arith in
              record { signal = h ∙ rw (f, c) refl; state = rw (f, c) refl })
            (λ n.
              let c : is_complete_through vc.reorder vc.fin_seq ≡ true = ground arith in
              record { signal = rw (f, c) refl; state = rw (f, c) refl }))
        (λ z. absurd (ground arith))
  close_write_half-IsTimely vc f (inr (s, h, c)) =
      if_cases IsTimely (vc.half_close_state == 0) _ vc (λ z. absurd (ground arith))
        (λ z. record { signal = h ∙ rw (f, c) refl; state = s ∙ rw (f, c) refl })

  pub start_half_close-IsTimely :
      (vc : VirtConnDe E) (seq : ℕ) → IsTimely vc → IsTimely (start_half_close vc seq)
  unfolding start_half_close
  start_half_close-IsTimely vc seq t =
      if_cases IsTimely vc.fin_received vc _ (λ f. t)
        (λ f.
          close_write_half-IsTimely (record vc { fin_received = true; fin_seq = seq }) refl
            (inl (t.state ∙ rw f refl, t.signal ∙ rw f refl)))

  -- A delivery that makes the window no smaller, and the attempt to close after it.
  pub grown-IsTimely :
      (vc w : VirtConnDe E)
      → IsTimely vc
      → SameClosing vc w
      → vc.reorder.expected ≤ w.reorder.expected
      → IsTimely (if w.fin_received then close_write_half w false else w)
  unfolding is_complete_through
  grown-IsTimely vc w t s le =
      if_cases IsTimely w.fin_received (close_write_half w false) w
        (λ f. close_write_half-IsTimely w f (before (sym s.same_fin ∙ f)))
        (λ f.
          let g : vc.fin_received ≡ false = sym s.same_fin ∙ f in
          record {
            signal = s.same_signal ∙ t.signal ∙ rw (f, g) refl;
            state = s.same_state ∙ t.state ∙ rw (f, g) refl;
          })
    where
      before :
          vc.fin_received ≡ true
          → ((w.half_close_state ≡ 0) × (w.half_close ≡ false))
            ⊎ ((w.half_close_state ≡ 2)
                × (w.half_close ≡ true)
                × (is_complete_through w.reorder w.fin_seq ≡ true))
      before g = elim (Bool-cases (is_complete_through vc.reorder vc.fin_seq)) [
        | inr c ↦
            inl (s.same_state ∙ t.state ∙ rw (g, c) refl, s.same_signal ∙ t.signal ∙ rw (g, c) refl)
        | inl c ↦ inr (
          s.same_state ∙ t.state ∙ rw (g, c) refl,
          s.same_signal ∙ t.signal ∙ rw (g, c) refl,
          rw s.same_seq (ground arith),
        )
      ]
