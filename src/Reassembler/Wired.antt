-- ===== src/Reassembler/Wired.antt =====
-- The connections of the reassembler: what holds of the map and of the heap.
use round_robin.Common.{
  ℕ, suc, ◌<◌, ◌≡◌, ◌≢◌, refl, sym, ap, subst, ◌∙◌, ◌⊎◌, inl, inr, true, false, none, some, List,
  lookup, remove, insert, lookup-remove, lookup-insert, ◌==◌, ==→eq, if◌then◌else◌, Bool-cases,
  Option-cases, some-injective, ==_refl, arith,
}
use round_robin.Reassembler.{VirtConnDe, ReadLoopCtx, find_vconn, tear_out, signal_teardown}

module _ {E : Type 0} where
  -- A TCP connection has its channel to the egress writer.
  abbrev pub HasEgress : VirtConnDe E → Type 0
  HasEgress vc = vc.is_udp ≡ false → (tx : E) × (vc.egress ≡ some tx)

  -- Every connection of the map is on the heap, and the connections of the heap have their channels
  -- and stand at old addresses.
  pub record IsWired (heap : List (ℕ × VirtConnDe E)) (conns : List (ℕ × ℕ)) (next : ℕ)
      : Type 0 where
    pub linked :
        (cid at : ℕ)
        → lookup cid conns ≡ some at
        → (vc : VirtConnDe E) × (lookup at heap ≡ some vc) × HasEgress vc
    pub old : (at : ℕ) (vc : VirtConnDe E) → lookup at heap ≡ some vc → (at < next) × HasEgress vc

  inserted :
      (at a : ℕ) (vc w : VirtConnDe E) (heap : List (ℕ × VirtConnDe E))
      → (at == a) ≡ true
      → lookup a (insert at vc heap) ≡ some w
      → vc ≡ w
  inserted at a vc w heap same e =
      let hit : lookup a (insert at vc heap) ≡ some vc =
        lookup-insert at a vc heap ∙ rw same refl in
      some-injective (sym hit ∙ e)

  module _ (heap : List (ℕ × VirtConnDe E)) (conns : List (ℕ × ℕ)) (next : ℕ) where
    pub IsWired-write :
        (at : ℕ) (vc : VirtConnDe E)
        → IsWired heap conns next
        → at < next
        → HasEgress vc
        → IsWired (insert at vc heap) conns next
    IsWired-write at vc v lt h = record {
      linked = λ k a m.
          let (w, e, g) = v.linked k a m in
          elim (Bool-cases (at == a)) [
            | inl same ↦ (vc, lookup-insert at a vc heap ∙ rw same refl, h)
            | inr other ↦ (w, lookup-insert at a vc heap ∙ rw other e, g)
          ];
      old = λ a w e. elim (Bool-cases (at == a)) [
        | inl same ↦ (
          subst (λ t. t < next) (==→eq at a same) lt,
          subst HasEgress (inserted at a vc w heap same e) h,
        )
        | inr other ↦ v.old a w (sym (lookup-insert at a vc heap ∙ rw other refl) ∙ e)
      ];
    }

    pub IsWired-remove : (cid : ℕ) → IsWired heap conns next → IsWired heap (remove cid conns) next
    IsWired-remove cid v = record {
      linked = λ k a m. elim (Bool-cases (cid == k)) [
        | inl same ↦ absurd (clash a (sym (lookup-remove cid k conns ∙ rw same refl) ∙ m))
        | inr other ↦ v.linked k a (sym (lookup-remove cid k conns ∙ rw other refl) ∙ m)
      ];
      old = v.old;
    }
      where
        clash : (a : ℕ) → ¬ (none ≡ some a)
        clash a c = cc

    pub IsWired-next : IsWired heap conns next → IsWired heap conns (suc next)
    IsWired-next v = record {
      linked = v.linked;
      old = λ a w e. let (lt, h) = v.old a w e in (omega arith, h);
    }

    -- A new connection at the next address.
    pub IsWired-install :
        (cid : ℕ) (vc : VirtConnDe E)
        → IsWired heap conns next
        → HasEgress vc
        → IsWired (insert next vc heap) (insert cid next conns) (suc next)
    IsWired-install cid vc v h =
        let w = IsWired-next v in
        record {
          linked = λ k a m. elim (Bool-cases (cid == k)) [
            | inl same ↦
                let at : next ≡ a =
                  some-injective (sym (lookup-insert cid k next conns ∙ rw same refl) ∙ m) in
                (vc, lookup-insert next a vc heap ∙ rw (at, ==_refl a) refl, h)
            | inr other ↦
                let (u, e, g) =
                  v.linked k a (sym (lookup-insert cid k next conns ∙ rw other refl) ∙ m) in
                elim (Bool-cases (next == a)) [
                  | inl same ↦ (vc, lookup-insert next a vc heap ∙ rw same refl, h)
                  | inr apart ↦ (u, lookup-insert next a vc heap ∙ rw apart e, g)
                ]
          ];
          old = λ a u e. elim (Bool-cases (next == a)) [
            | inl same ↦ (ground arith, subst HasEgress (inserted next a vc u heap same e) h)
            | inr other ↦ w.old a u (sym (lookup-insert next a vc heap ∙ rw other refl) ∙ e)
          ];
        }

module _ {E S : Type 0} where
  pub found_vconn :
      (ctx : ReadLoopCtx E S) (cid : ℕ)
      → IsWired ctx.heap ctx.conns ctx.next
      → ((find_vconn ctx cid ≡ none) × (lookup cid ctx.conns ≡ none))
        ⊎ ((at : ℕ) × (vc : VirtConnDe E) × (find_vconn ctx cid ≡ some (at, vc))
            × (lookup cid ctx.conns ≡ some at)
            × (lookup at ctx.heap ≡ some vc)
            × (at < ctx.next)
            × HasEgress vc)
  found_vconn ctx cid v = elim (Option-cases (lookup cid ctx.conns)) [
    | inl e ↦ inl (rw (e, find_vconn) refl, e)
    | inr (at, e) ↦
        let (vc, h, g) = v.linked cid at e in
        inr (at, vc, rw (e, h, find_vconn) refl, e, h, (v.old at vc h).0, g)
  ]

  -- `tear_out` of an id, whether it has a connection or not.
  pub record TornOut (ctx ctx' : ReadLoopCtx E S) (cid : ℕ) : Type 0 where
    pub wired : IsWired ctx'.heap ctx'.conns ctx'.next
    pub unmapped : (k : ℕ) → lookup k ctx'.conns ≡ (if cid == k then none else lookup k ctx.conns)
    pub others : (a : ℕ) → lookup cid ctx.conns ≢ some a → lookup a ctx'.heap ≡ lookup a ctx.heap
    pub rest_kept : ctx' ≡ record ctx { heap = ctx'.heap; conns = ctx'.conns }

  pub tear_out-TornOut :
      (ctx : ReadLoopCtx E S) (cid : ℕ)
      → IsWired ctx.heap ctx.conns ctx.next
      → TornOut ctx (tear_out ctx cid) cid
  tear_out-TornOut ctx cid v = elim (found_vconn ctx cid v) [
    | inl (f, e) ↦
        rw (f, tear_out)
          (record {
            wired = v;
            unmapped = λ k. ground arith;
            others = λ a ne. refl;
            rest_kept = refl;
          })
    | inr (at, vc, f, e, h, lt, g) ↦
        rw (f, tear_out)
          (record {
            wired =
                IsWired-remove (insert at (signal_teardown vc) ctx.heap) ctx.conns ctx.next cid
                  (IsWired-write ctx.heap ctx.conns ctx.next at (signal_teardown vc) v lt g);
            unmapped = λ k. lookup-remove cid k ctx.conns;
            others = λ a ne. elim (Bool-cases (at == a)) [
              | inl same ↦ absurd (ne (e ∙ ap some (==→eq at a same)))
              | inr other ↦ lookup-insert at a (signal_teardown vc) ctx.heap ∙ rw other refl
            ];
            rest_kept = refl;
          })
  ]
