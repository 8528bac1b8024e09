-- ===== src/Reassembler/Reserve.antt =====
-- `try_reserve_pending`: it returns, and whom it evicts.
use round_robin.Common.{
  ℕ, zero, suc, ◌^◌, ◌+◌, ◌<◌, ◌≡◌, refl, sym, ap, subst, ◌∙◌, ◌⊎◌, inl, inr, Bool, true, false,
  Option, none, some, List, [], ◌∷◌, length, lookup, lookup-remove, lookup-insert, length-remove_lt,
  HasUniqueKeys, add_usize, leb, leb→le, ◌==◌, ==→eq, Bool-cases, Option-cases, some-injective,
  arith,
}
use round_robin.Frame.{Frame, max_pending_bytes}
use round_robin.Pool.{Mpsc}
use round_robin.Reassembler.{PendingEntry, ReadLoopCtx}
use round_robin.Reassembler.Pending.{
  is_excluded, oldest, older, evict, reserve, try_reserve_pending,
}
use round_robin.Reassembler.Budget.{IsBudgeted, IsBudgeted-remove}

lookup_later :
    (j k : ℕ) (d e : PendingEntry) (m : List (ℕ × PendingEntry))
    → lookup j m ≡ none
    → lookup k m ≡ some e
    → lookup k ((j, d) ∷ m) ≡ some e
lookup_later j k d e m u h = elim (Bool-cases (j == k)) [
  | inl p ↦ clash (sym u ∙ ap (λ t. lookup t m) (==→eq j k p) ∙ h)
  | inr p ↦ rw p h
]
  where
    clash : {A : Type 0} → none ≡ some e → A
    clash c = cc

older-cases :
    (x : ℕ × PendingEntry) (r : Option (ℕ × PendingEntry))
    → (older x r ≡ x) ⊎ ((y : ℕ × PendingEntry) × (r ≡ some y) × (older x r ≡ y))
older-cases (k, e) none = inl refl
older-cases (k, e) (some (j, f)) = elim (Bool-cases (leb e.since f.since)) [
  | inl p ↦ inl (rw p refl)
  | inr p ↦ inr ((j, f), refl, rw p refl)
]

-- The entry that is evicted stands in the map and is not the excluded one.
oldest_found :
    (exclude : Option ℕ) (m : List (ℕ × PendingEntry)) (x : ℕ × PendingEntry)
    → HasUniqueKeys m
    → oldest exclude m ≡ some x
    → (lookup x.0 m ≡ some x.1) × (is_excluded x.0 exclude ≡ false)
oldest_found exclude [] x u h = cc
oldest_found exclude ((j, d) ∷ m) x u h = elim (Bool-cases (is_excluded j exclude)) [
  | inl p ↦
      let (found, other) = oldest_found exclude m x u.1 (sym (rw p refl) ∙ h) in
      (lookup_later j x.0 d x.1 m u.0 found, other)
  | inr p ↦
      let first : older (j, d) (oldest exclude m) ≡ x = some-injective (sym (rw p refl) ∙ h) in
      elim (older-cases (j, d) (oldest exclude m)) [
        | inl e ↦
            subst
              (λ (y : ℕ × PendingEntry).
                (lookup y.0 ((j, d) ∷ m) ≡ some y.1) × (is_excluded y.0 exclude ≡ false))
              (sym e ∙ first) (ground arith, p)
        | inr (y, r, e) ↦
            let (found, other) = oldest_found exclude m x u.1 (r ∙ ap some (sym e ∙ first)) in
            (lookup_later j x.0 d x.1 m u.0 found, other)
      ]
]

-- Where no entry can be evicted, every entry is the excluded one.
oldest-none :
    (exclude : Option ℕ) (m : List (ℕ × PendingEntry))
    → oldest exclude m ≡ none
    → (k : ℕ) (e : PendingEntry) → lookup k m ≡ some e
    → is_excluded k exclude ≡ true
oldest-none exclude [] o k e h = cc
oldest-none exclude ((j, d) ∷ m) o k e h = elim (Bool-cases (is_excluded j exclude)) [
  | inr p ↦ absurd (clash (older (j, d) (oldest exclude m)) (sym (rw p refl) ∙ o))
  | inl p ↦ elim (Bool-cases (j == k)) [
    | inl q ↦ subst (λ t. is_excluded t exclude ≡ true) (==→eq j k q) p
    | inr q ↦ oldest-none exclude m (sym (rw p refl) ∙ o) k e (sym (rw q refl) ∙ h)
  ]
]
  where
    clash : (x : ℕ × PendingEntry) → ¬ (some x ≡ none)
    clash x c = cc

-- What an attempt to reserve does to the other parts of the state: an id keeps its entry and its
-- tombstone, or it is evicted, and then tombstoned; the id that asks is not evicted.
pub record Evicts {E S : Type 0} (ctx ctx' : ReadLoopCtx E S) (exclude : Option ℕ) (now : ℕ)
    : Type 0 where
  pub heap_kept : ctx'.heap ≡ ctx.heap
  pub conns_kept : ctx'.conns ≡ ctx.conns
  pub next_kept : ctx'.next ≡ ctx.next
  pub fate :
      (k : ℕ)
      → ((lookup k ctx'.pending ≡ lookup k ctx.pending)
          × (lookup k ctx'.closed ≡ lookup k ctx.closed))
        ⊎ ((lookup k ctx'.pending ≡ none)
            × (lookup k ctx'.closed ≡ some now)
            × (is_excluded k exclude ≡ false))

-- The state after an attempt, by its answer: the bytes are reserved, or there were not enough.
abbrev pub Attempted :
    {E S : Type 0} → Option (ReadLoopCtx E S × Bool) → ReadLoopCtx E S → Option ℕ → ℕ → ℕ → Type 0
Attempted none ctx exclude need now = ⊥
Attempted (some (ctx', true)) ctx exclude need now =
    IsBudgeted ctx'.pending ctx'.pending_bytes need × Evicts ctx ctx' exclude now
Attempted (some (ctx', false)) ctx exclude need now =
    IsBudgeted ctx'.pending ctx'.pending_bytes 0
    × Evicts ctx ctx' exclude now
    × (max_pending_bytes < ctx'.pending_bytes + need)
    × ((k : ℕ) (e : PendingEntry) → lookup k ctx'.pending ≡ some e → is_excluded k exclude ≡ true)

module _ {E : Type 0} (tunnel : Mpsc Frame) where
  -- An eviction, and then what `ctx2` did.
  evict-Evicts :
      (ctx ctx2 : ReadLoopCtx E tunnel.Sender) (key : ℕ) (entry : PendingEntry) (exclude : Option ℕ)
      (now : ℕ)
      → is_excluded key exclude ≡ false
      → Evicts (evict tunnel ctx key entry now) ctx2 exclude now
      → Evicts ctx ctx2 exclude now
  unfolding evict
  evict-Evicts ctx ctx2 key entry exclude now other v = record {
    heap_kept = v.heap_kept;
    conns_kept = v.conns_kept;
    next_kept = v.next_kept;
    fate = λ k. elim (v.fate k) [
      | inr gone ↦ inr gone
      | inl (p, c) ↦ elim (Bool-cases (key == k)) [
        | inl e ↦ inr (
          p ∙ lookup-remove key k ctx.pending ∙ rw e refl,
          c ∙ lookup-insert key k now ctx.closed ∙ rw e refl,
          subst (λ t. is_excluded t exclude ≡ false) (==→eq key k e) other,
        )
        | inr e ↦ inl (
          p ∙ lookup-remove key k ctx.pending ∙ rw e refl,
          c ∙ lookup-insert key k now ctx.closed ∙ rw e refl,
        )
      ]
    ];
  }

  Evicts-refl :
      (ctx : ReadLoopCtx E tunnel.Sender) (exclude : Option ℕ) (now total : ℕ)
      → Evicts ctx (record ctx { pending_bytes = total }) exclude now
  Evicts-refl ctx exclude now total = record {
    heap_kept = refl;
    conns_kept = refl;
    next_kept = refl;
    fate = λ k. inl (refl, refl);
  }

  Attempted-after :
      (r : Option (ReadLoopCtx E tunnel.Sender × Bool)) (ctx : ReadLoopCtx E tunnel.Sender)
      (key : ℕ) (entry : PendingEntry) (exclude : Option ℕ) (need now : ℕ)
      → is_excluded key exclude ≡ false
      → Attempted r (evict tunnel ctx key entry now) exclude need now
      → Attempted r ctx exclude need now
  Attempted-after none ctx key entry exclude need now other a = a
  Attempted-after (some (ctx', true)) ctx key entry exclude need now other (b, v) =
      (b, evict-Evicts ctx ctx' key entry exclude now other v)
  Attempted-after (some (ctx', false)) ctx key entry exclude need now other (b, v, more, alone) =
      (b, evict-Evicts ctx ctx' key entry exclude now other v, more, alone)

  evict-IsBudgeted :
      (ctx : ReadLoopCtx E tunnel.Sender) (key : ℕ) (entry : PendingEntry) (now : ℕ)
      → IsBudgeted ctx.pending ctx.pending_bytes 0
      → lookup key ctx.pending ≡ some entry
      → let ctx' = evict tunnel ctx key entry now in
        IsBudgeted ctx'.pending ctx'.pending_bytes 0 × (length ctx'.pending < length ctx.pending)
  unfolding evict
  evict-IsBudgeted ctx key entry now b h = (
    IsBudgeted-remove ctx.pending ctx.pending_bytes 0 key entry b h,
    length-remove_lt key ctx.pending entry h,
  )

  module _ (ctx : ReadLoopCtx E tunnel.Sender) (fuel : ℕ) (exclude : Option ℕ) (need now : ℕ) where
    reserve_fits :
        leb (add_usize ctx.pending_bytes need) max_pending_bytes ≡ true
        → reserve tunnel (suc fuel) ctx exclude need now
          ≡ some (record ctx { pending_bytes = add_usize ctx.pending_bytes need }, true)
    unfolding reserve
    reserve_fits h = rw (h, reserve) refl

    reserve_fails :
        leb (add_usize ctx.pending_bytes need) max_pending_bytes ≡ false
        → oldest exclude ctx.pending ≡ none
        → reserve tunnel (suc fuel) ctx exclude need now ≡ some (ctx, false)
    unfolding reserve
    reserve_fails h o = rw (h, o, reserve) refl

    reserve_evicts :
        (key : ℕ) (entry : PendingEntry)
        → leb (add_usize ctx.pending_bytes need) max_pending_bytes ≡ false
        → oldest exclude ctx.pending ≡ some (key, entry)
        → reserve tunnel (suc fuel) ctx exclude need now
          ≡ reserve tunnel fuel (evict tunnel ctx key entry now) exclude need now
    unfolding reserve
    reserve_evicts key entry h o = rw (h, o, reserve) refl

  reserve-Attempted :
      (fuel : ℕ) (ctx : ReadLoopCtx E tunnel.Sender) (exclude : Option ℕ) (need now : ℕ)
      → IsBudgeted ctx.pending ctx.pending_bytes 0
      → need < 2 ^ 63
      → length ctx.pending < fuel
      → Attempted (reserve tunnel fuel ctx exclude need now) ctx exclude need now
  reserve-Attempted zero ctx exclude need now b small enough = absurd (omega arith)
  reserve-Attempted (suc fuel) ctx exclude need now b small enough =
      let counts = b.counts in
      let within = b.within in
      let sum : add_usize ctx.pending_bytes need ≡ ctx.pending_bytes + need = omega arith in
      elim (Bool-cases (leb (add_usize ctx.pending_bytes need) max_pending_bytes)) [
        | inl h ↦
            let le = leb→le (add_usize ctx.pending_bytes need) max_pending_bytes h in
            rw (reserve_fits ctx fuel exclude need now h) (
              record { unique = b.unique; counts = omega arith; within = le; entries = b.entries },
              Evicts-refl ctx exclude now (add_usize ctx.pending_bytes need),
            )
        | inr h ↦ elim (Option-cases (oldest exclude ctx.pending)) [
          | inl o ↦ rw (reserve_fails ctx fuel exclude need now h o) (
            b,
            Evicts-refl ctx exclude now ctx.pending_bytes,
            ground arith,
            oldest-none exclude ctx.pending o,
          )
          | inr ((key, entry), o) ↦
              let (found, other) = oldest_found exclude ctx.pending (key, entry) b.unique o in
              let (b', less) = evict-IsBudgeted ctx key entry now b found in
              rw (reserve_evicts ctx fuel exclude need now key entry h o) (
                Attempted-after _ ctx key entry exclude need now other (
                  reserve-Attempted fuel (evict tunnel ctx key entry now) exclude need now b' small
                    (omega arith)))
        ]
      ]

  -- An attempt to reserve bytes returns. It succeeds with the bytes reserved within the budget, or
  -- fails with no entry left but that of the id that asks and too little room still; an id that loses
  -- its entry is tombstoned, and all other ids keep entry and tombstone.
  pub try_reserve_pending-Attempted :
      (ctx : ReadLoopCtx E tunnel.Sender) (exclude : Option ℕ) (need now : ℕ)
      → IsBudgeted ctx.pending ctx.pending_bytes 0
      → need < 2 ^ 63
      → Attempted (some (try_reserve_pending tunnel ctx exclude need now)) ctx exclude need now
  unfolding try_reserve_pending
  try_reserve_pending-Attempted ctx exclude need now b small =
      go (reserve tunnel (suc (length ctx.pending)) ctx exclude need now)
        (reserve-Attempted (suc (length ctx.pending)) ctx exclude need now b small (omega arith))
    where
      go :
          (r : Option (ReadLoopCtx E tunnel.Sender × Bool))
          → Attempted r ctx exclude need now
          → Attempted (some (elim r [ none ↦ (ctx, false) | some x ↦ x ])) ctx exclude need now
      go none a = absurd a
      go (some x) a = a
