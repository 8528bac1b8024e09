-- ===== src/Pool/Rotation.antt =====
-- The rotation of `TunnelPool::send` meets every link.
use round_robin.Common.{
  ℕ, ◌+◌, ◌-◌, ◌%◌, ◌≤◌, ◌<◌, ◌≡◌, refl, ap, ◌∙◌, inl, inr, Bool, true, false, some, List, length,
  get_elem?, lt_get_elem?, leb, arith, Bool-cases,
}
use native.Mathlib.Nat.{mod-lt, mod-eq_of_lt}
use round_robin.Frame.{Frame}
use round_robin.Pool.{Mpsc, TunnelLink, TunnelPool, sent, send}
use round_robin.Pool.Round.{Refuses}
use round_robin.Pool.Send.{RefusedUpTo, Loop, send-Loop}

rotation : (start at n : ℕ) → start < n → at < n → (k : ℕ) × (k < n) × ((start + k) % n ≡ at)
rotation start at n hs ha = elim (Bool-cases (leb start at)) [
  | inl e ↦
      let le : start ≤ at = ground arith in
      let sum : start + (at - start) ≡ at = omega arith in
      (at - start, omega arith, ap (λ t. t % n) sum ∙ mod-eq_of_lt ha)
  | inr e ↦
      let lt : at < start = ground arith in
      let sum : start + (at + n - start) ≡ at + n = omega arith in
      (at + n - start, omega arith, ap (λ t. t % n) sum ∙ wrap at n ha)
]
  where
    wrap : (x k : ℕ) → x < k → (x + k) % k ≡ x
    wrap x k h = grind arith

module _ (m : Mpsc Frame) (f : Frame) where
  open m use {Sender, try_send}

  all_refuse :
      (ls : List (TunnelLink Sender)) (start : ℕ)
      → start < length ls
      → RefusedUpTo m f ls start 0 (0 + length ls)
      → (at : ℕ) (l : TunnelLink Sender) → get_elem? ls at ≡ some l
      → Refuses m f l
  all_refuse ls start hs refused at l e =
      let (k, hk, same) = rotation start at (length ls) hs (lt_get_elem? ls at l e) in
      refused k l (omega arith) (omega arith) (ap (get_elem? ls) same ∙ e)

  -- `send` fails only if every link of the pool is dead, closed or full: one live link with room,
  -- wherever it stands, is enough for the frame to be queued.
  pub send_succeeds :
      (p : TunnelPool Sender) (at : ℕ) (l : TunnelLink Sender) (tx : Sender)
      → get_elem? p.links at ≡ some l
      → l.alive ≡ true
      → try_send l.tx f ≡ sent tx
      → (send m p f).1 ≡ true
  send_succeeds p at l tx e a t =
      let pos : 0 < length p.links = omega (arith, lt_get_elem? p.links at l e) in
      go (send m p f).1 ((send m p f).0.links) (send-Loop m f p pos).0 (mod-lt p.rr pos)
    where
      go :
          (done : Bool) (ls : List (TunnelLink Sender))
          → Loop m f p.links (p.rr % length p.links) 0 (length p.links) (ls, done)
          → p.rr % length p.links < length p.links
          → done ≡ true
      go true ls loop h = refl
      go false ls loop h =
          absurd (refusal (all_refuse p.links (p.rr % length p.links) h loop.0 at l e))
        where
          refusal : Refuses m f l → ⊥
          refusal r = ground arith
