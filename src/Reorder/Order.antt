-- ===== src/Reorder/Order.antt =====
-- The reorder window over a whole connection: frames of one stream arrive in any order, some of them
-- more than once, and the stream is delivered.
use round_robin.Common.{
  ℕ, zero, suc, ◌+◌, ◌-◌, ◌≤◌, ◌<◌, ◌≡◌, refl, sym, ap, subst, ◌∙◌, ◌⊎◌, inl, inr, Bool, true,
  false, ◌||◌, none, some, List, [], ◌∷◌, ◌++◌, length, lookup, lookup-insert, ltb, ◌==◌,
  if◌then◌else◌, arith,
}
use round_robin.Reorder.{ReorderBuf, PushResult, push}
use round_robin.Reorder.Drain.{Run}
use round_robin.Reorder.Push.{Pushed, behind, next, waiting, room, full, enqueued}

-- The payloads of a stream that stand at `from`, `from + 1`, …, `n` of them.
abbrev pub segment : (ℕ → List ℕ) → ℕ → ℕ → List (List ℕ)
segment src from zero = []
segment src from (suc n) = src from ∷ segment src (suc from) n

-- The frames numbered by `seqs` arrive one after the other: the window, what was delivered, and
-- whether a push overflowed.
unfoldable pub push_all : ReorderBuf → (ℕ → List ℕ) → List ℕ → ReorderBuf × List (List ℕ) × Bool
push_all b src [] = (b, [], false)
push_all b src (s ∷ ss) =
    let (b', r) = push b s (src s) in
    let (last, out, over) = push_all b' src ss in (last, r.ready ++ out, r.overflow || over)

true_ne_false : ¬ (true ≡ false)
true_ne_false h = cc

pub segment-append :
    (src : ℕ → List ℕ) (from m n mid total : ℕ)
    → from + m ≡ mid
    → m + n ≡ total
    → segment src from m ++ segment src mid n ≡ segment src from total
segment-append src from zero n mid total e t = λ i. segment src (start i) (count i)
  where
    start : mid ≡ from
    start = omega arith

    count : n ≡ total
    count = omega arith
segment-append src from (suc m) n mid zero e t = absurd (omega arith)
segment-append src from (suc m) n mid (suc total) e t =
    ap (◌∷◌ (src from)) (segment-append src (suc from) m n mid total (omega arith) (omega arith))

module _ (src : ℕ → List ℕ) where
  -- The window holds payloads of the stream only.
  abbrev pub Holds : ReorderBuf → Type 0
  Holds b = (k : ℕ) (c : List ℕ) → lookup k b.pending ≡ some c → c ≡ src k

  -- The frame `k` was delivered or waits.
  abbrev pub Has : ReorderBuf → ℕ → Type 0
  Has b k = (k < b.expected) ⊎ (lookup k b.pending ≡ some (src k))

  Run-segment :
      (b : ReorderBuf) (from : ℕ) (out : List (List ℕ))
      → Holds b
      → Run (λ k. lookup k b.pending) from out
      → out ≡ segment src from (length out)
  Run-segment b from [] h r = refl
  Run-segment b from (c ∷ out) h r = λ i. h from c r.0 i ∷ Run-segment b (suc from) out h r.1 i

  -- What a push does to the stream.
  pub record Progress (b : ReorderBuf) (seq : ℕ) (b' : ReorderBuf) (r : PushResult) : Type 0 where
    pub holds : Holds b'
    pub grows : b.expected ≤ b'.expected
    pub in_order : r.ready ≡ segment src b.expected (b'.expected - b.expected)
    pub keeps : (k : ℕ) → Has b k → Has b' k
    pub takes : r.overflow ≡ false → Has b' seq

  idle-Progress :
      (b : ReorderBuf) (seq : ℕ) (b' : ReorderBuf) (r : PushResult)
      → Holds b
      → b' ≡ b
      → r.ready ≡ []
      → (r.overflow ≡ false → Has b seq)
      → Progress b seq b' r
  idle-Progress b seq b' r h e none_ready takes =
      let stay : b.expected ≡ b'.expected = λ i. (sym e i).expected in
      let zero_more : b'.expected - b.expected ≡ 0 = omega arith in
      record {
        holds = subst Holds (sym e) h;
        grows = omega arith;
        in_order = none_ready ∙ ap (segment src b.expected) (sym zero_more);
        keeps = λ k has. subst (λ w. Has w k) (sym e) has;
        takes = λ f. subst (λ w. Has w seq) (sym e) (takes f);
      }

  next-Progress :
      (b : ReorderBuf) (seq : ℕ) (b' : ReorderBuf) (r : PushResult) (out : List (List ℕ))
      → Holds b
      → seq ≡ b.expected
      → r.ready ≡ src seq ∷ out
      → Run (λ k. lookup k b.pending) (suc seq) out
      → b'.expected ≡ suc (seq + length out)
      → ((k : ℕ) → lookup k b'.pending ≡ (if ltb k b'.expected then none else lookup k b.pending))
      → Progress b seq b' r
  next-Progress b seq b' r out h e ready run ad kept =
      let more : b'.expected - b.expected ≡ suc (length out) = omega arith in
      record {
        holds = λ k c e'. ground (arith, kept k, h k c);
        grows = omega arith;
        in_order =
            ready
            ∙ ap (◌∷◌ (src seq)) (Run-segment b (suc seq) out h run)
            ∙ (λ i. segment src (e i) (sym more i));
        keeps = λ k has. ground (arith, kept k);
        takes = λ f. inl (omega arith);
      }

  room-Progress :
      (b : ReorderBuf) (seq : ℕ) (b' : ReorderBuf) (r : PushResult)
      → Holds b
      → lookup seq b.pending ≡ none
      → b' ≡ enqueued b seq (src seq)
      → r.ready ≡ []
      → Progress b seq b' r
  room-Progress b seq b' r h free e ready =
      let stay : b'.expected ≡ b.expected = λ i. (e i).expected in
      let zero_more : b'.expected - b.expected ≡ 0 = omega arith in
      let look : (k : ℕ)
          → lookup k b'.pending ≡ (if seq == k then some (src seq) else lookup k b.pending) =
        λ k.
          ap (λ (w : ReorderBuf). lookup k w.pending) e ∙ lookup-insert seq k (src seq) b.pending in
      record {
        holds = λ k c e'. ground (arith, look k, h k c);
        grows = omega arith;
        in_order = ready ∙ ap (segment src b.expected) (sym zero_more);
        keeps = λ k has. ground (arith, look k);
        takes = λ f. inr (ground (arith, look seq));
      }

  pub Pushed-Progress :
      (b : ReorderBuf) (seq : ℕ) (b' : ReorderBuf) (r : PushResult)
      → Holds b
      → Pushed b seq (src seq) b' r
      → Progress b seq b' r
  Pushed-Progress b seq b' r h (behind lt e e') =
      idle-Progress b seq b' r h e (λ i. (e' i).ready) (λ f. inl lt)
  Pushed-Progress b seq b' r h (next out e e' run ad kept l f x y) =
      next-Progress b seq b' r out h e (λ i. (e' i).ready) run ad kept
  Pushed-Progress b seq b' r h (waiting c lt e e1 e2) =
      idle-Progress b seq b' r h e1 (λ i. (e2 i).ready) (λ f. inr (e ∙ ap some (h seq c e)))
  Pushed-Progress b seq b' r h (room lt e has e1 e2) =
      room-Progress b seq b' r h e e1 (λ i. (e2 i).ready)
  Pushed-Progress b seq b' r h (full lt e tight e1 e2) =
      idle-Progress b seq b' r h e1 (λ i. (e2 i).ready)
        (λ f. absurd (true_ne_false (sym (λ i. (e2 i).overflow) ∙ f)))
