-- ===== src/Splitter/Grace/Bound.antt =====
-- src/splitter.rs, `handle_tcp_client`: why and when the wait for the rest of an answer ends.
use round_robin.Common.{
  ℕ, zero, suc, ap, ◌∙◌, ◌+◌, ◌*◌, ◌≤◌, ◌≡◌, refl, get_elem?, some-injective, sym, subst, ◌⊎◌, inl,
  inr, true, false, Option, none, some, List, [], ◌∷◌, Bool-cases, Option-cases, arith, All,
}
use round_robin.Reorder.{is_complete_through}
use round_robin.Splitter.Grace.{
  GraceEnd, closed, delivered, grace_expired, quiet_expired, Poll, grace_wait, GoesOn, Ends,
  first_seen, Waited, starts, goes_on, ends, seen_first, seen_later, grace_wait_from,
}

module _ {C : Type 0} where
  -- Every turn, over the wait so far, finds what lets it go on.
  Waited-GoesOn :
      (seen at : ℕ) (ps : List (Poll C)) (r : Option GraceEnd) (p : Poll C)
      → Waited seen ps r
      → r ≡ none
      → get_elem? ps at ≡ some p
      → GoesOn seen p
  Waited-GoesOn seen at ps r p starts e g = cc
  Waited-GoesOn seen zero ps r p (goes_on q qs r' on w) e g =
      subst (GoesOn seen) (some-injective g) on
  Waited-GoesOn seen (suc at) ps r p (goes_on q qs r' on w) e g =
      Waited-GoesOn seen at qs r' p w e g
  Waited-GoesOn seen at ps r p (ends q qs x stop) e g = cc

  -- Every turn stands in a relation to the later ones.
  abbrev pub Ordered : (Poll C → Poll C → Type 0) → List (Poll C) → Type 0
  Ordered R [] = Unit
  Ordered R (p ∷ ps) = All (R p) ps × Ordered R ps

  All-get_elem? :
      (P : Poll C → Type 0) (ps : List (Poll C)) (i : ℕ) (p : Poll C)
      → All P ps
      → get_elem? ps i ≡ some p
      → P p
  All-get_elem? P [] i p a g = cc
  All-get_elem? P (q ∷ ps) zero p a g = subst P (some-injective g) a.0
  All-get_elem? P (q ∷ ps) (suc i) p a g = All-get_elem? P ps i p a.1 g

  ordered_at :
      (R : Poll C → Poll C → Type 0) (ps : List (Poll C)) (i j : ℕ) (p q : Poll C)
      → ((x : Poll C) → R x x)
      → Ordered R ps
      → i ≤ j
      → get_elem? ps i ≡ some p
      → get_elem? ps j ≡ some q
      → R p q
  ordered_at R [] i j p q same o le gp gq = cc
  ordered_at R (x ∷ ps) zero zero p q same o le gp gq =
      subst (λ y. R y q) (some-injective gp) (subst (R x) (some-injective gq) (same x))
  ordered_at R (x ∷ ps) zero (suc j) p q same o le gp gq =
      subst (λ y. R y q) (some-injective gp) (All-get_elem? (R x) ps j q o.0 gq)
  ordered_at R (x ∷ ps) (suc i) zero p q same o le gp gq = absurd (omega arith)
  ordered_at R (x ∷ ps) (suc i) (suc j) p q same o le gp gq =
      ordered_at R ps i j p q same o.1 (omega arith) gp gq

  -- The clock of the turns does not go back.
  abbrev pub IsClock : List (Poll C) → Type 0
  IsClock = Ordered (λ p q. p.now ≤ q.now)

  -- Once the FIN is there, it stays.
  abbrev pub FinStays : List (Poll C) → Type 0
  FinStays = Ordered (λ p q. p.vconn.fin_received ≡ true → q.vconn.fin_received ≡ true)

  -- The turn that saw the FIN first, out of turns of which one sees it.
  first_fin :
      (ps : List (Poll C)) (i : ℕ) (p : Poll C)
      → get_elem? ps i ≡ some p
      → p.vconn.fin_received ≡ true
      → (k : ℕ) × (q : Poll C) × (k ≤ i)
        × (get_elem? ps k ≡ some q)
        × (q.vconn.fin_received ≡ true)
        × (q.now ≡ first_seen none ps)
  first_fin [] i p g f = cc
  first_fin (q ∷ ps) zero p g f =
      (zero, q, omega arith, refl, here, sym (seen_first none q ps here))
    where
      here : q.vconn.fin_received ≡ true
      here = ap (λ (x : Poll C). x.vconn.fin_received) (some-injective g) ∙ f
  first_fin (q ∷ ps) (suc i) p g f = elim (Bool-cases q.vconn.fin_received) [
    | inl here ↦ (zero, q, omega arith, refl, here, sym (seen_first none q ps here))
    | inr later ↦
        let (k, x, le, found, fin, now) = first_fin ps i p g f in
        (suc k, x, omega arith, found, fin, now ∙ sym (seen_later none q ps later))
  ]

  -- Turns that give reason for an end, wherever they stand.
  abbrev pub Because : List (Poll C) → GraceEnd → Type 0
  Because ps closed = (k : ℕ) × (p : Poll C) × (get_elem? ps k ≡ some p) × (p.vconn.closed ≡ true)
  Because ps delivered =
      (k : ℕ) × (p : Poll C) × (get_elem? ps k ≡ some p)
      × (p.vconn.fin_received ≡ true)
      × (is_complete_through p.vconn.reorder p.vconn.fin_seq ≡ true)
  Because ps grace_expired =
      (k l : ℕ) × (p q : Poll C) × (k ≤ l)
      × (get_elem? ps k ≡ some p)
      × (get_elem? ps l ≡ some q)
      × (p.vconn.fin_received ≡ true)
      × (is_complete_through q.vconn.reorder q.vconn.fin_seq ≡ false)
      × (p.now + 15 * 1000000000 ≤ q.now)
  Because ps quiet_expired =
      (k : ℕ) × (p : Poll C) × (get_elem? ps k ≡ some p)
      × (p.vconn.fin_received ≡ false)
      × (p.vconn.last_active + 60 * 1000000000 ≤ p.now)

  -- The turn that ended a wait.
  Waited-Ends :
      (seen : ℕ) (ps : List (Poll C)) (r : Option GraceEnd) (e : GraceEnd)
      → Waited seen ps r
      → r ≡ some e
      → (k : ℕ) × (p : Poll C) × (get_elem? ps k ≡ some p) × Ends seen p e
  Waited-Ends seen ps r e starts h = cc
  Waited-Ends seen ps r e (goes_on q qs r' on w) h =
      let (k, p, g, x) = Waited-Ends seen qs r' e w h in (suc k, p, g, x)
  Waited-Ends seen ps r e (ends q qs x stop) h =
      (zero, q, refl, subst (Ends seen q) (some-injective h) stop)

  because :
      (ps : List (Poll C)) (e : GraceEnd) (k : ℕ) (p : Poll C)
      → get_elem? ps k ≡ some p
      → Ends (first_seen none ps) p e
      → Because ps e
  because ps closed k p g x = (k, p, g, x)
  because ps delivered k p g (open_, fin, whole) = (k, p, g, fin, whole)
  because ps grace_expired l q g (open_, fin, part, late) =
      let (k, p, le, found, there, now) = first_fin ps l q g fin in
      (k, l, p, q, le, found, g, there, part, omega arith)
  because ps quiet_expired k p g (open_, no_fin, late) = (k, p, g, no_fin, late)

  -- A turn that finds the FIN, or the connection without activity for 60 seconds, is followed by no turn of the
  -- wait that is 15 seconds later.
  no_wait :
      (ps : List (Poll C)) (i j : ℕ) (p q : Poll C)
      → IsClock ps
      → FinStays ps
      → i ≤ j
      → get_elem? ps i ≡ some p
      → get_elem? ps j ≡ some q
      → (p.vconn.fin_received ≡ true) ⊎ (p.vconn.last_active + 60 * 1000000000 ≤ p.now)
      → p.now + 15 * 1000000000 ≤ q.now
      → ¬ (grace_wait none ps ≡ none)
  no_wait ps i j p q clock fin le gp gq start late none_ =
      let w = grace_wait_from none ps in
      let on_p = Waited-GoesOn (first_seen none ps) i ps (grace_wait none ps) p w none_ gp in
      let on_q = Waited-GoesOn (first_seen none ps) j ps (grace_wait none ps) q w none_ gq in
      let fin_p : p.vconn.fin_received ≡ true = has_fin start on_p in
      let (k, x, k_le, found, there, now) = first_fin ps i p gp fin_p in
      let x_le =
        ordered_at (λ a b. a.now ≤ b.now) ps k i x p (λ a. omega arith) clock k_le found gp in
      elim on_q.1 [
        | inl (fin_q, part, soon) ↦ omega arith
        | inr (no_fin, active) ↦ differs (sym (stays fin_p) ∙ no_fin)
      ]
    where
      stays : p.vconn.fin_received ≡ true → q.vconn.fin_received ≡ true
      stays =
          ordered_at (λ a b. a.vconn.fin_received ≡ true → b.vconn.fin_received ≡ true) ps i j p q
            (λ a h. h) fin le gp gq

      differs : ¬ (true ≡ false)
      differs e = cc

      has_fin :
          (p.vconn.fin_received ≡ true) ⊎ (p.vconn.last_active + 60 * 1000000000 ≤ p.now)
          → GoesOn (first_seen none ps) p
          → p.vconn.fin_received ≡ true
      has_fin (inl f) on = f
      has_fin (inr quiet) (open_, inl (f, part, soon)) = f
      has_fin (inr quiet) (open_, inr (no_fin, active)) = absurd (omega arith)

  -- The wait is bounded, and never gives up early. Where the clock does not go back and a FIN that came stays,
  -- it has ended at a turn that comes 15 seconds after one that found the FIN, or that found the connection
  -- without activity for 60 seconds; activity is DATA in either direction, and the start of the connection. It
  -- ends as delivered only if the window is complete through the FIN, as closed only if the connection is, for
  -- the FIN only 15 seconds after a turn that found it while the window is not complete, and for silence only
  -- without a FIN and after 60 seconds without activity.
  pub grace_wait_ends :
      (ps : List (Poll C)) (i j : ℕ) (p q : Poll C)
      → IsClock ps
      → FinStays ps
      → i ≤ j
      → get_elem? ps i ≡ some p
      → get_elem? ps j ≡ some q
      → (p.vconn.fin_received ≡ true) ⊎ (p.vconn.last_active + 60 * 1000000000 ≤ p.now)
      → p.now + 15 * 1000000000 ≤ q.now
      → (e : GraceEnd) × (grace_wait none ps ≡ some e) × Because ps e
  grace_wait_ends ps i j p q clock fin le gp gq start late =
      elim (Option-cases (grace_wait none ps)) [
        | inl none_ ↦ absurd (no_wait ps i j p q clock fin le gp gq start late none_)
        | inr (e, found) ↦
            let (k, x, g, stop) =
              Waited-Ends (first_seen none ps) ps (grace_wait none ps) e (grace_wait_from none ps)
                found in
            (e, found, because ps e k x g stop)
      ]
