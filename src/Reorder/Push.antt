-- ===== src/Reorder/Push.antt =====
-- `ReorderBuf::push`: its invariant, and what it does on each branch.
use round_robin.Common.{
  HasUniqueKeys-insert, remove_absent, wrapping_succ, ℕ, suc, ◌+◌, ◌%◌, ◌^◌, ◌≤◌, ◌<◌, ◌≡◌, refl,
  ap, subst, ◌∙◌, ◌⊎◌, inl, inr, true, false, ◌&&◌, none, some, List, [], ◌∷◌, length, lookup,
  insert, lookup-insert, leb, ltb, ◌==◌, if◌then◌else◌, arith, Option-cases, Bool-cases, le→leb,
  lt→ltb, le→ltb,
}
use round_robin.Reorder.{ReorderBuf, PushResult, push, push_ahead, push_expected, with_limit}
use round_robin.Reorder.Window.{bytes_of}
use round_robin.Reorder.Drain.{IsOpen, Run, Drained, drain-Drained, seq_top}

-- The window between two pushes.
pub record IsValid (b : ReorderBuf) : Type 0 where
  pub is_open : IsOpen b
  pub drained : lookup b.expected b.pending ≡ none
  pub within_bytes : b.pending_bytes ≤ b.max_bytes
  pub within_entries : length b.pending ≤ b.max_entries
  pub budget_fits : b.max_bytes < 2 ^ 63

-- A frame that can arrive: its number is not the last u64, its payload fits in memory.
pub record CanArrive (seq : ℕ) (payload : List ℕ) : Type 0 where
  pub seq_fits : seq < seq_top
  pub payload_fits : length payload < 2 ^ 63

abbrev pub HasRoom : ReorderBuf → List ℕ → Type 0
HasRoom b payload =
    (length b.pending < b.max_entries) × (b.pending_bytes + length payload ≤ b.max_bytes)

abbrev pub duplicate : PushResult
duplicate = record { ready = []; accepted = false; overflow = false }

abbrev pub overflowed : PushResult
overflowed = record { ready = []; accepted = false; overflow = true }

abbrev pub queued : PushResult
queued = record { ready = []; accepted = true; overflow = false }

abbrev pub delivered : List (List ℕ) → PushResult
delivered ready = record { ready = ready; accepted = true; overflow = false }

pub with_limit-IsValid : (max_bytes : ℕ) → max_bytes < 2 ^ 63 → IsValid (with_limit max_bytes)
unfolding with_limit
with_limit-IsValid max_bytes h = record {
  is_open = record {
    unique = tt;
    counted = refl;
    bytes_fit = omega arith;
    behind = λ k h. refl;
    below_top = λ k h. refl;
  };
  drained = refl;
  within_bytes = omega arith;
  within_entries = omega arith;
  budget_fits = h;
}

abbrev started : ReorderBuf → ReorderBuf
started b = record b { expected = wrapping_succ b.expected }

started-IsOpen : (b : ReorderBuf) → IsValid b → b.expected < seq_top → IsOpen (started b)
started-IsOpen b v h = record {
  unique = v.is_open.unique;
  counted = v.is_open.counted;
  bytes_fit = v.is_open.bytes_fit;
  behind = λ k h'. ground (arith, v.is_open.behind k, v.drained);
  below_top = v.is_open.below_top;
}

Drained-IsValid :
    (b b' : ReorderBuf) (out : List (List ℕ)) → IsValid b → Drained (started b) b' out → IsValid b'
Drained-IsValid b b' out v d = record {
  is_open = d.is_open;
  drained = d.stopped;
  within_bytes = omega (arith, d.lighter, d.same_bytes, v.within_bytes);
  within_entries = omega (arith, d.fewer, d.same_entries, v.within_entries);
  budget_fits = omega (arith, d.same_bytes, v.budget_fits);
}

push_at :
    (b : ReorderBuf) (seq : ℕ) (payload : List ℕ)
    → seq ≡ b.expected
    → push b seq payload ≡ push_expected b payload
unfolding push
push_at b seq payload e =
    let same : (seq == b.expected) ≡ true = ground arith in
    rw (le→ltb seq b.expected (omega arith), same)

push_past :
    (b : ReorderBuf) (seq : ℕ) (payload : List ℕ)
    → b.expected < seq
    → push b seq payload ≡ push_ahead b seq payload
unfolding push
push_past b seq payload h =
    let e : (seq == b.expected) ≡ false = ground arith in
    rw (le→ltb seq b.expected (omega arith), e)

-- A frame behind the expected one is a duplicate.
pub push_behind :
    (b : ReorderBuf) (seq : ℕ) (payload : List ℕ)
    → seq < b.expected
    → push b seq payload ≡ (b, duplicate)
unfolding push
push_behind b seq payload h = rw (lt→ltb seq b.expected h)

-- The expected frame is delivered, and after it the longest run that the window holds.
push_next :
    (b : ReorderBuf) (seq : ℕ) (payload : List ℕ)
    → IsValid b
    → seq < seq_top
    → seq ≡ b.expected
    → (b' : ReorderBuf) × (out : List (List ℕ)) × (push b seq payload
        ≡ (b', delivered (payload ∷ out)))
      × Drained (started b) b' out
unfolding push_expected
push_next b seq payload v h e =
    let (b', out, p, d) =
      drain-Drained (length b.pending) (started b) (payload ∷ []) (started-IsOpen b v (omega arith))
        (omega arith) in
    (
      b',
      out,
      push_at b seq payload e ∙ ap (λ (q : ReorderBuf × List (List ℕ)). (q.0, delivered q.1)) p,
      d,
    )

-- The window after a frame is queued.
abbrev pub enqueued : ReorderBuf → ℕ → List ℕ → ReorderBuf
enqueued b seq payload = record b {
  pending = insert seq payload b.pending;
  pending_bytes = b.pending_bytes + length payload;
}

module _ (b : ReorderBuf) (v : IsValid b) (seq : ℕ) (payload : List ℕ)
    (can : CanArrive seq payload) where
  -- A copy of a frame that still waits is dropped, and the one that waits is kept.
  pub push_waiting :
      (c : List ℕ)
      → b.expected < seq
      → lookup seq b.pending ≡ some c
      → push b seq payload ≡ (b, duplicate)
  push_waiting c h e = push_past b seq payload h ∙ unfold push_ahead in rw (e, push_ahead)

  -- A frame ahead is queued where the window has room for one more entry and for its bytes.
  pub push_room :
      b.expected < seq
      → lookup seq b.pending ≡ none
      → HasRoom b payload
      → (push b seq payload ≡ (enqueued b seq payload, queued)) × IsValid (enqueued b seq payload)
  unfolding push_ahead
  push_room h e room =
      let sum : (b.pending_bytes + length payload) % 2 ^ 64 ≡ b.pending_bytes + length payload =
        omega (arith, v.budget_fits) in
      (
        push_past b seq payload h ∙ rw (e, push_ahead, lt→ltb _ _ room.0, sum, le→leb _ _ room.1),
        record {
          is_open = record {
            unique = HasUniqueKeys-insert seq payload b.pending v.is_open.unique;
            counted = omega (arith, v.is_open.counted, ap bytes_of (remove_absent seq b.pending e));
            bytes_fit = omega (arith, v.budget_fits);
            behind =
                λ k h'. ground (arith, lookup-insert seq k payload b.pending, v.is_open.behind k);
            below_top = λ k h'.
                ground (
                  arith,
                  lookup-insert seq k payload b.pending,
                  v.is_open.below_top k,
                  can.seq_fits,
                );
          };
          drained = ground (arith, lookup-insert seq b.expected payload b.pending, v.drained);
          within_bytes = room.1;
          within_entries = omega (arith, ap length (remove_absent seq b.pending e));
          budget_fits = v.budget_fits;
        },
      )

  -- Without that room the frame is dropped, and the caller is told to reset the connection.
  pub push_full :
      b.expected < seq
      → lookup seq b.pending ≡ none
      → ¬ HasRoom b payload
      → push b seq payload ≡ (b, overflowed)
  unfolding push_ahead
  push_full h e full =
      let sum : (b.pending_bytes + length payload) % 2 ^ 64 ≡ b.pending_bytes + length payload =
        omega (arith, v.budget_fits, v.within_bytes, can.payload_fits) in
      push_past b seq payload h ∙ rw (e, push_ahead, sum) (ground arith)

HasRoom-dec : (b : ReorderBuf) (payload : List ℕ) → HasRoom b payload ⊎ (¬ HasRoom b payload)
HasRoom-dec b payload =
    elim (Bool-cases (
      ltb (length b.pending) b.max_entries && leb (b.pending_bytes + length payload) b.max_bytes)) [
        | inl e ↦ inl (ground arith)
        | inr e ↦ inr (λ r. ground arith)
      ]

-- The branches of `push`, each with the state and the result that it gives.
pub data Pushed (b : ReorderBuf) (seq : ℕ) (payload : List ℕ) (b' : ReorderBuf) (r : PushResult)
    : Type 0 where
  behind : seq < b.expected → b' ≡ b → r ≡ duplicate → Pushed b seq payload b' r
  next :
      (out : List (List ℕ))
      → seq ≡ b.expected
      → r ≡ delivered (payload ∷ out)
      → Run (λ k. lookup k b.pending) (suc seq) out
      → b'.expected ≡ suc (seq + length out)
      → ((k : ℕ) → lookup k b'.pending ≡ (if ltb k b'.expected then none else lookup k b.pending))
      → b'.pending_bytes ≤ b.pending_bytes
      → length b'.pending ≤ length b.pending
      → b'.max_bytes ≡ b.max_bytes
      → b'.max_entries ≡ b.max_entries
      → Pushed b seq payload b' r
  waiting :
      (c : List ℕ)
      → b.expected < seq
      → lookup seq b.pending ≡ some c
      → b' ≡ b
      → r ≡ duplicate
      → Pushed b seq payload b' r
  room :
      b.expected < seq
      → lookup seq b.pending ≡ none
      → HasRoom b payload
      → b' ≡ enqueued b seq payload
      → r ≡ queued
      → Pushed b seq payload b' r
  full :
      b.expected < seq
      → lookup seq b.pending ≡ none
      → ¬ HasRoom b payload
      → b' ≡ b
      → r ≡ overflowed
      → Pushed b seq payload b' r

-- The result of a push whose value is known.
abbrev Outcome : ReorderBuf → ℕ → List ℕ → ReorderBuf × PushResult → Type 0
Outcome b seq payload q = IsValid q.0 × Pushed b seq payload q.0 q.1

next-Outcome :
    (b : ReorderBuf) (seq : ℕ) (payload : List ℕ)
    → IsValid b
    → seq < seq_top
    → seq ≡ b.expected
    → Outcome b seq payload (push b seq payload)
next-Outcome b seq payload v h e =
    let (b', out, p, d) = push_next b seq payload v h e in
    let start : wrapping_succ b.expected ≡ suc seq = omega (arith, e) in
    rw p (
      Drained-IsValid b b' out v d,
      next out e refl (subst (λ k. Run (λ j. lookup j b.pending) k out) start d.run)
          (omega (arith, d.advanced, start)) d.kept d.lighter d.fewer d.same_bytes d.same_entries,
    )

ahead-Outcome :
    (b : ReorderBuf) (seq : ℕ) (payload : List ℕ)
    → IsValid b
    → CanArrive seq payload
    → b.expected < seq
    → Outcome b seq payload (push b seq payload)
ahead-Outcome b seq payload v can h = elim (Option-cases (lookup seq b.pending)) [
  | inr (c, e) ↦ rw (push_waiting b v seq payload can c h e) (v, waiting c h e refl refl)
  | inl e ↦ elim (HasRoom-dec b payload) [
    | inl r ↦ let (p, v') = push_room b v seq payload can h e r in rw p (v', room h e r refl refl)
    | inr f ↦ rw (push_full b v seq payload can h e f) (v, full h e f refl refl)
  ]
]

-- Every push of a frame that can arrive keeps the invariant and takes one of five branches: the
-- frame is behind, expected, a copy of a waiting one, or ahead with or without room for it.
pub push-Pushed :
    (b : ReorderBuf) (seq : ℕ) (payload : List ℕ)
    → IsValid b
    → CanArrive seq payload
    → IsValid (push b seq payload).0
      × Pushed b seq payload (push b seq payload).0 (push b seq payload).1
push-Pushed b seq payload v can = elim (Bool-cases (ltb seq b.expected)) [
  | inl e ↦
      let lt : seq < b.expected = ground arith in
      rw (push_behind b seq payload lt) (v, behind lt refl refl)
  | inr e ↦ elim (Bool-cases (seq == b.expected)) [
    | inl e' ↦ next-Outcome b seq payload v can.seq_fits (ground arith)
    | inr e' ↦ ahead-Outcome b seq payload v can (ground arith)
  ]
]
