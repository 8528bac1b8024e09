-- ===== src/Pool/Round.antt =====
-- One round of the loop of `TunnelPool::send`.
use round_robin.Common.{
  ℕ, suc, ◌+◌, ◌%◌, ◌≡◌, refl, ◌⊎◌, inl, inr, true, false, some, List, length, get_elem?, set,
  Bool-cases,
}
use round_robin.Frame.{Frame}
use round_robin.Pool.{
  Mpsc, TunnelLink, TrySend, sent, closed, full, takes, passes, marks, visit, send_loop,
}

module _ (m : Mpsc Frame) (f : Frame) where
  open m use {Sender, try_send}

  -- The link cannot take the frame.
  abbrev pub Refuses : TunnelLink Sender → Type 0
  Refuses l = (l.alive ≡ false) ⊎ (try_send l.tx f ≡ closed) ⊎ (try_send l.tx f ≡ full)

  pub TrySend-cases :
      (t : TrySend Sender) → ((tx : Sender) × (t ≡ sent tx)) ⊎ (t ≡ closed) ⊎ (t ≡ full)
  TrySend-cases (sent tx) = inl (tx, refl)
  TrySend-cases closed = inr (inl refl)
  TrySend-cases full = inr (inr refl)

  -- What a round does at a link, by what the link is.
  pub visit_cases :
      (l : TunnelLink Sender)
      → ((visit m l f ≡ passes) × Refuses l)
        ⊎ ((visit m l f ≡ marks) × (l.alive ≡ true) × (try_send l.tx f ≡ closed))
        ⊎ ((tx : Sender) × (visit m l f ≡ takes tx)
            × (l.alive ≡ true)
            × (try_send l.tx f ≡ sent tx))
  unfolding visit
  visit_cases l = elim (Bool-cases l.alive) [
    | inr a ↦ inl (rw (a, visit), inl a)
    | inl a ↦ elim (TrySend-cases (try_send l.tx f)) [
      | inl (tx, t) ↦ inr (inr (tx, rw (a, t, visit), a, t))
      | inr (inl t) ↦ inr (inl (rw (a, t, visit), a, t))
      | inr (inr t) ↦ inl (rw (a, t, visit), inr (inr t))
    ]
  ]

  pub visit_dead : (l : TunnelLink Sender) → l.alive ≡ false → visit m l f ≡ passes
  unfolding visit
  visit_dead l a = rw (a, visit)

  module _ (cur : List (TunnelLink Sender)) (n start i : ℕ) (l : TunnelLink Sender)
      (e : get_elem? cur ((start + i) % length cur) ≡ some l) where
    pub round_passes :
        visit m l f ≡ passes → send_loop m (suc n) start i cur f ≡ send_loop m n start (suc i) cur f
    unfolding send_loop
    round_passes v = rw (e, v, send_loop)

    pub round_takes :
        (tx : Sender)
        → visit m l f ≡ takes tx
        → send_loop m (suc n) start i cur f
          ≡ (set cur ((start + i) % length cur) (record l { tx = tx }), true)
    unfolding send_loop
    round_takes tx v = rw (e, v, send_loop)

    pub round_marks :
        visit m l f ≡ marks
        → send_loop m (suc n) start i cur f
          ≡ send_loop m n start
              (suc i)
              (set cur ((start + i) % length cur) (record l { alive = false }))
              f
    unfolding send_loop
    round_marks v = rw (e, v, send_loop)
