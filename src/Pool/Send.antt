-- ===== src/Pool/Send.antt =====
-- `TunnelPool::send`: which link takes a frame, and when none does.
use round_robin.Common.{
  ℕ, zero, suc, ◌+◌, ◌%◌, ◌^◌, ◌≤◌, ◌<◌, ◌≡◌, ◌≢◌, refl, sym, ap, subst, ◌∙◌, ◌⊎◌, inl, inr, Bool,
  true, false, some, List, length, get_elem?, set, length-set, get_elem?_lt, lt_get_elem?,
  get_elem?-set_self, get_elem?-set_ne, ◌==◌, arith, some-injective,
}
use native.Mathlib.Decide.{ℕ_discrete}
use native.Mathlib.Nat.{mod-lt}
use round_robin.Frame.{Frame}
use round_robin.Pool.{Mpsc, TunnelLink, TunnelPool, sent, closed, send, send_loop}
use round_robin.Pool.Round.{
  Refuses, visit_cases, visit_dead, round_passes, round_takes, round_marks,
}

module _ (m : Mpsc Frame) (f : Frame) where
  open m use {Sender, try_send}

  -- A link that `send` passed over: unchanged, or found closed and marked dead.
  abbrev pub Passed : TunnelLink Sender → TunnelLink Sender → Type 0
  Passed l l' =
      (l' ≡ l) ⊎ ((l.alive ≡ true) × (try_send l.tx f ≡ closed) × (l' ≡ record l { alive = false }))

  -- At each index both lists hold a link, and the second's was passed over.
  pub record AllPassed (ls ls' : List (TunnelLink Sender)) : Type 0 where
    pub same_length : length ls' ≡ length ls
    pub passed :
        (at : ℕ) (l : TunnelLink Sender)
        → get_elem? ls at ≡ some l
        → (l' : TunnelLink Sender) × (get_elem? ls' at ≡ some l') × Passed l l'

  -- The links after the frame went into the queue of the link at `at`.
  pub record Lands (ls ls' : List (TunnelLink Sender)) (at : ℕ) : Type 0 where
    pub link : TunnelLink Sender
    pub tx : Sender
    pub found : get_elem? ls at ≡ some link
    pub was_alive : link.alive ≡ true
    pub took : try_send link.tx f ≡ sent tx
    pub now : get_elem? ls' at ≡ some (record link { tx = tx })
    pub others :
        (j : ℕ) (l : TunnelLink Sender)
        → j ≢ at
        → get_elem? ls j ≡ some l
        → (l' : TunnelLink Sender) × (get_elem? ls' j ≡ some l') × Passed l l'

  -- The links that the loop meets from its round `i` up to round `j` refuse the frame.
  abbrev pub RefusedUpTo : List (TunnelLink Sender) → ℕ → ℕ → ℕ → Type 0
  RefusedUpTo ls start i j =
      (k : ℕ) (l : TunnelLink Sender)
      → i ≤ k
      → k < j
      → get_elem? ls ((start + k) % length ls) ≡ some l
      → Refuses m f l

  -- What the loop does with `n` rounds from round `i` on.
  abbrev pub Loop : List (TunnelLink Sender) → ℕ → ℕ → ℕ → List (TunnelLink Sender) × Bool → Type 0
  Loop ls start i n (ls', true) =
      (j : ℕ) × (i ≤ j)
      × (j < i + n)
      × RefusedUpTo ls start i j
      × Lands ls ls' ((start + j) % length ls)
  Loop ls start i n (ls', false) = RefusedUpTo ls start i (i + n) × AllPassed ls ls'

  refuse_first :
      (ls : List (TunnelLink Sender)) (start i j : ℕ) (l : TunnelLink Sender)
      → get_elem? ls ((start + i) % length ls) ≡ some l
      → Refuses m f l
      → RefusedUpTo ls start (suc i) j
      → RefusedUpTo ls start i j
  refuse_first ls start i j l e r more k l' lo hi e' = elim (ℕ_discrete k i) [
    | yes p ↦
        subst (Refuses m f)
          (some-injective (sym e ∙ ap (λ t. get_elem? ls ((start + t) % length ls)) (sym p) ∙ e')) r
    | no p ↦ more k l' (omega arith) hi e'
  ]

  Loop-step :
      (ls : List (TunnelLink Sender)) (start i n : ℕ) (l : TunnelLink Sender)
      (r : List (TunnelLink Sender) × Bool)
      → get_elem? ls ((start + i) % length ls) ≡ some l
      → Refuses m f l
      → Loop ls start (suc i) n r
      → Loop ls start i (suc n) r
  Loop-step ls start i n l (ls', true) e r (j, lo, hi, refused, lands) =
      (j, omega arith, omega arith, refuse_first ls start i j l e r refused, lands)
  Loop-step ls start i n l (ls', false) e r (refused, passed) = (
    refuse_first ls start i (i + suc n) l e r (λ k l' lo hi. refused k l' lo (omega arith)),
    passed,
  )

  -- A link that is found closed is marked dead, and so passed over.
  pub mark-AllPassed :
      (ls cur : List (TunnelLink Sender)) (at : ℕ) (l : TunnelLink Sender)
      → AllPassed ls cur
      → get_elem? ls at ≡ some l
      → l.alive ≡ true
      → try_send l.tx f ≡ closed
      → AllPassed ls (set cur at (record l { alive = false }))
  mark-AllPassed ls cur at l p e a t = record {
    same_length = length-set cur at _ ∙ p.same_length;
    passed = λ k l' e'. elim (ℕ_discrete at k) [
      | yes same ↦
          let l-same : l ≡ l' = some-injective (sym e ∙ ap (get_elem? ls) same ∙ e') in
          (
            record l { alive = false },
            ap (get_elem? (set cur at (record l { alive = false }))) (sym same)
                ∙ get_elem?-set_self cur at _
                    (omega (arith, lt_get_elem? ls at l e, p.same_length)),
            inr (
              ap (λ (x : TunnelLink Sender). x.alive) (sym l-same) ∙ a,
              ap (λ (x : TunnelLink Sender). try_send x.tx f) (sym l-same) ∙ t,
              ap (λ (x : TunnelLink Sender). record x { alive = false }) l-same,
            ),
          )
      | no other ↦
          let (l2, e2, p2) = p.passed k l' e' in (l2, get_elem?-set_ne cur at k _ other ∙ e2, p2)
    ];
  }

  pub land-Lands :
      (ls cur : List (TunnelLink Sender)) (at : ℕ) (l : TunnelLink Sender) (tx : Sender)
      → AllPassed ls cur
      → get_elem? ls at ≡ some l
      → l.alive ≡ true
      → try_send l.tx f ≡ sent tx
      → Lands ls (set cur at (record l { tx = tx })) at
  land-Lands ls cur at l tx p e a t = record {
    link = l;
    tx = tx;
    found = e;
    was_alive = a;
    took = t;
    now = get_elem?-set_self cur at _ (omega (arith, lt_get_elem? ls at l e, p.same_length));
    others = λ j l' other e'.
        let (l2, e2, p2) = p.passed j l' e' in
        (l2, get_elem?-set_ne cur at j _ (λ s. other (sym s)) ∙ e2, p2);
  }

  -- The rest of the loop, from a list whose links were passed over.
  send_loop-Loop :
      (ls cur : List (TunnelLink Sender)) (n start i : ℕ)
      → AllPassed ls cur
      → 0 < length ls
      → Loop ls start i n (send_loop m n start i cur f)
  unfolding send_loop
  send_loop-Loop ls cur zero start i p pos = (λ k l lo hi e. absurd (omega arith), p)
  send_loop-Loop ls cur (suc n) start i p pos =
      let at = (start + i) % length cur in
      let here : at ≡ (start + i) % length ls = ap (λ t. (start + i) % t) p.same_length in
      let (l, e) = get_elem?_lt ls at (rw here (mod-lt (start + i) pos)) in
      let (l', e', q) = p.passed at l e in
      let found : get_elem? ls ((start + i) % length ls) ≡ some l =
        ap (get_elem? ls) (sym here) ∙ e in
      let rest = send_loop-Loop ls cur n start (suc i) p pos in
      elim q [
        | inr (a, t, dead) ↦
            rw (round_passes m f cur n start i l' e' (visit_dead m f l' (λ k. (dead k).alive)))
              (Loop-step ls start i n l _ found (inr (inl t)) rest)
        | inl same ↦
            let e2 : get_elem? cur at ≡ some l = e' ∙ ap some same in
            elim (visit_cases m f l) [
              | inl (v, r) ↦
                  rw (round_passes m f cur n start i l e2 v)
                    (Loop-step ls start i n l _ found r rest)
              | inr (inl (v, a, t)) ↦ rw (round_marks m f cur n start i l e2 v) (
                  Loop-step ls start i n l _ found (inr (inl t)) (
                    send_loop-Loop ls (set cur at (record l { alive = false })) n start (suc i)
                      (mark-AllPassed ls cur at l p e a t) pos))
              | inr (inr (tx, v, a, t)) ↦ rw (round_takes m f cur n start i l e2 tx v) (
                i,
                omega arith,
                omega arith,
                (λ k l2 lo hi. absurd (omega arith)),
                subst (Lands ls (set cur at (record l { tx = tx }))) here
                    (land-Lands ls cur at l tx p e a t),
              )
            ]
      ]

  -- A send to a pool with links moves the cursor on by one. If it succeeds, the frame went into the
  -- queue of exactly one link, which was live, and the links before it in the rotation from the
  -- cursor refused it; if it fails, all of the rotation did. Other links stay as they were, but for
  -- those that were found closed, which are dead now.
  pub send-Loop :
      (p : TunnelPool Sender)
      → 0 < length p.links
      → let r = send m p f in
        Loop p.links (p.rr % length p.links) 0 (length p.links) (r.0.links, r.1)
        × (r.0.rr ≡ (p.rr + 1) % 2 ^ 64)
  unfolding send
  send-Loop p pos =
      let some_link : (length p.links == 0) ≡ false = ground arith in
      rw some_link (
        send_loop-Loop p.links p.links (length p.links) (p.rr % length p.links) 0
            (record { same_length = refl; passed = λ at l e. (l, e, inl refl) }) pos,
        refl,
      )
