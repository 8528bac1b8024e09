-- ===== src/Splitter/Isolation.antt =====
-- A frame from the tunnels concerns one connection: `handle_inbound_frame` touches no other.
use round_robin.Common.{
  ℕ, ◌≡◌, ◌≢◌, refl, sym, ap, ◌∙◌, ◌⊎◌, inl, inr, none, some, List, lookup, lookup-insert, ◌==◌,
  ==→eq, if◌then◌else◌, Option-cases, Bool-cases,
}
use round_robin.Frame.{has_flag, Frame, flag_data, flag_fin, flag_rst}
use round_robin.Pool.{Mpsc}
use round_robin.Splitter.{
  VirtConn, State, find_conn, write_conn, reset_conn, on_frame, on_data, handle_inbound_frame,
}
use round_robin.Splitter.Reset.{IsLinked, find_conn-some, find_conn-none, reset_conn_lem}

test_fails {ℓ} : {A : Type ℓ} (i j : ℕ) → j ≢ i → (x y : A) → (if i == j then x else y) ≡ y
test_fails i j ne x y = elim (Bool-cases (i == j)) [
  | inl e ↦ absurd (ne (sym (==→eq i j e)))
  | inr e ↦ rw e refl
]

module _ {C S : Type 0} where
  pub record Isolated (st st' : State C S) (cid : ℕ) : Type 0 where
    pub still_linked : IsLinked st'
    pub others_mapped : (k : ℕ) → k ≢ cid → lookup k st'.conns ≡ lookup k st.conns
    pub others_waiting : (k : ℕ) → k ≢ cid → lookup k st'.time_wait ≡ lookup k st.time_wait
    pub others_kept :
        (at : ℕ) → lookup cid st.conns ≢ some at → lookup at st'.heap ≡ lookup at st.heap

  -- Nothing but the pool and the counters changed.
  Isolated-same :
      (st st' : State C S) (cid : ℕ)
      → IsLinked st
      → st'.conns ≡ st.conns
      → st'.time_wait ≡ st.time_wait
      → st'.heap ≡ st.heap
      → Isolated st st' cid
  Isolated-same st st' cid v c t h = record {
    still_linked = record {
      linked = λ k a m.
          let (w, e) = v.linked k a (ap (lookup k) (sym c) ∙ m) in (w, ap (lookup a) h ∙ e);
    };
    others_mapped = λ k ne. ap (lookup k) c;
    others_waiting = λ k ne. ap (lookup k) t;
    others_kept = λ a ne. ap (lookup a) h;
  }

  Isolated-write :
      (st : State C S) (cid at : ℕ) (vc : VirtConn C)
      → IsLinked st
      → lookup cid st.conns ≡ some at
      → Isolated st (write_conn st at vc) cid
  Isolated-write st cid at vc v e = record {
    still_linked = record {
      linked = λ k a m.
          let (w, h) = v.linked k a m in
          elim (Bool-cases (at == a)) [
            | inl same ↦ (vc, lookup-insert at a vc st.heap ∙ rw same refl)
            | inr other ↦ (w, lookup-insert at a vc st.heap ∙ rw other h)
          ];
    };
    others_mapped = λ k ne. refl;
    others_waiting = λ k ne. refl;
    others_kept = λ a ne. elim (Bool-cases (at == a)) [
      | inl same ↦ absurd (ne (e ∙ ap some (==→eq at a same)))
      | inr other ↦ lookup-insert at a vc st.heap ∙ rw other refl
    ];
  }

  -- A change of the heap at the connection's address, and then a change that is isolated.
  Isolated-after_write :
      (st st' : State C S) (cid at : ℕ) (vc : VirtConn C)
      → IsLinked st
      → lookup cid st.conns ≡ some at
      → Isolated (write_conn st at vc) st' cid
      → Isolated st st' cid
  Isolated-after_write st st' cid at vc v e i =
      let w = Isolated-write st cid at vc v e in
      record {
        still_linked = i.still_linked;
        others_mapped = i.others_mapped;
        others_waiting = i.others_waiting;
        others_kept = λ a ne. i.others_kept a ne ∙ w.others_kept a ne;
      }

module _ (client : Mpsc (List ℕ)) (tunnel : Mpsc Frame) where
  pub reset_conn-Isolated :
      (st : State client.Sender tunnel.Sender) (cid now : ℕ)
      → IsLinked st
      → Isolated st (reset_conn client tunnel st cid now) cid
  reset_conn-Isolated st cid now v =
      let (v', forgets, p, r, heap) = reset_conn_lem client tunnel st cid now v in
      record {
        still_linked = v';
        others_mapped = λ k ne. forgets.unmapped k ∙ test_fails cid k ne _ _;
        others_waiting = λ k ne. forgets.tombstone k ∙ test_fails cid k ne _ _;
        others_kept = λ a ne. elim heap [
          | inl (gone, same) ↦ ap (lookup a) same
          | inr (at, vc, e, h, down) ↦ down a ∙ test_fails at a (λ x. ne (e ∙ ap some (sym x))) _ _
        ];
      }

  on_data-Isolated :
      (st : State client.Sender tunnel.Sender) (at : ℕ) (vc : VirtConn client.Sender) (f : Frame)
      (now : ℕ)
      → IsLinked st
      → lookup f.conn_id st.conns ≡ some at
      → Isolated st (on_data client tunnel st at vc f now) f.conn_id
  unfolding on_data
  on_data-Isolated st at vc f now v e = elim (Bool-cases vc.is_udp) [
    | inl u ↦ simp (u, on_data) (Isolated-write st f.conn_id at _ v e)
    | inr u ↦
        let r = on_frame client vc f.seq f.payload now in
        elim (Bool-cases r.1) [
          | inr o ↦ simp (u, o, on_data) (Isolated-write st f.conn_id at _ v e)
          | inl o ↦
              let w = Isolated-write st f.conn_id at r.0 v e in
              simp (u, o, on_data)
                (Isolated-after_write st _ f.conn_id at r.0 v e
                  (reset_conn-Isolated (write_conn st at r.0) f.conn_id now w.still_linked))
        ]
  ]

  found_conn :
      (st : State client.Sender tunnel.Sender) (cid : ℕ)
      → IsLinked st
      → (find_conn st cid ≡ none)
        ⊎ ((at : ℕ) × (vc : VirtConn client.Sender) × (find_conn st cid ≡ some (at, vc))
            × (lookup cid st.conns ≡ some at))
  found_conn st cid v = elim (Option-cases (lookup cid st.conns)) [
    | inl e ↦ inl (find_conn-none st cid e)
    | inr (at, e) ↦
        let (vc, h) = v.linked cid at e in inr (at, vc, find_conn-some st cid at vc e h, e)
  ]

  -- Whatever a frame says, only the id that it carries is touched: the map, TIME_WAIT and the
  -- connections of all others stay as they are, and every connection of the map is still there.
  pub handle_inbound_frame-Isolated :
      (st : State client.Sender tunnel.Sender) (f : Frame) (now : ℕ)
      → IsLinked st
      → Isolated st (handle_inbound_frame client tunnel st f now) f.conn_id
  unfolding handle_inbound_frame
  handle_inbound_frame-Isolated st f now v = elim (Bool-cases (has_flag f.flags flag_data)) [
    | inl d ↦ elim (found_conn st f.conn_id v) [
      | inr (at, vc, e, m) ↦ rw (d, e, handle_inbound_frame) (on_data-Isolated st at vc f now v m)
      | inl e ↦ elim (Option-cases (lookup f.conn_id st.time_wait)) [
        | inl t ↦ rw (d, e, t, handle_inbound_frame) (Isolated-same st _ f.conn_id v refl refl refl)
        | inr (since, t) ↦
            rw (d, e, t, handle_inbound_frame) (Isolated-same st _ f.conn_id v refl refl refl)
      ]
    ]
    | inr d ↦ elim (Bool-cases (has_flag f.flags flag_fin)) [
      | inl fin ↦ elim (found_conn st f.conn_id v) [
        | inl e ↦
            rw (d, fin, e, handle_inbound_frame) (Isolated-same st st f.conn_id v refl refl refl)
        | inr (at, vc, e, m) ↦ elim (Bool-cases vc.is_udp) [
          | inl u ↦
              rw (d, fin, e, u, handle_inbound_frame)
                (Isolated-same st st f.conn_id v refl refl refl)
          | inr u ↦ rw (d, fin, e, u, handle_inbound_frame) (Isolated-write st f.conn_id at _ v m)
        ]
      ]
      | inr fin ↦ elim (Bool-cases (has_flag f.flags flag_rst)) [
        | inl r ↦ rw (d, fin, r, handle_inbound_frame) (reset_conn-Isolated st f.conn_id now v)
        | inr r ↦
            rw (d, fin, r, handle_inbound_frame) (Isolated-same st st f.conn_id v refl refl refl)
      ]
    ]
  ]
