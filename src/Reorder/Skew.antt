-- ===== src/Reorder/Skew.antt =====
-- How far the frames may run ahead of the expected one before the window overflows.
use round_robin.Common.{
  HasUniqueKeys, HasUniqueKeys-remove, remove_absent, ℕ, zero, suc, ◌+◌, ◌-◌, ◌*◌, ◌^◌, ◌≤◌, ◌<◌,
  ◌≡◌, refl, sym, ap, subst, true, false, none, some, List, [], ◌∷◌, length, lookup, remove,
  lookup-remove, lookup-insert, arith,
}
use round_robin.Reorder.{ReorderBuf, PushResult, push, with_limit, new_window, is_complete_through}
use round_robin.Reorder.Window.{bytes_of}
use round_robin.Reorder.Push.{
  IsValid, HasRoom, Pushed, behind, next, waiting, room, full, push-Pushed, with_limit-IsValid,
}
use round_robin.Reorder.Order.{push_all, segment, Holds, Pushed-Progress}
use round_robin.Frame.{max_reorder_bytes}
use round_robin.Reorder.Stream.{Arrives, Among, push_all-in_order, push_all_complete}

length-remove_unique :
    (k : ℕ) (m : List (ℕ × List ℕ)) → HasUniqueKeys m → length m ≤ suc (length (remove k m))
length-remove_unique k [] u = omega arith
length-remove_unique k ((j, c) ∷ m) u = ground (arith, length-remove_unique k m, remove_absent k m)

-- At most `n` entries have their numbers among `n` consecutive ones.
pub length-le_span :
    (from n : ℕ) (m : List (ℕ × List ℕ))
    → HasUniqueKeys m
    → ((k : ℕ) → k < from → lookup k m ≡ none)
    → ((k : ℕ) → from + n ≤ k → lookup k m ≡ none)
    → length m ≤ n
length-le_span from zero [] u lo hi = omega arith
length-le_span from zero ((k, c) ∷ m) u lo hi = ground (arith, lo k, hi k)
length-le_span from (suc n) m u lo hi =
    let k = from + n in
    omega (
      arith,
      length-remove_unique k m u,
      length-le_span from n (remove k m) (HasUniqueKeys-remove k m u)
          (λ j h. ground (arith, lookup-remove k j m, lo j))
          (λ j h. ground (arith, lookup-remove k j m, hi j)),
    )

mul_le : (c m n : ℕ) → m ≤ n → m * c ≤ n * c
mul_le c m n h = grind arith

-- Every entry holds at most `chunk` bytes.
abbrev pub AreChunks : ℕ → List (ℕ × List ℕ) → Type 0
AreChunks chunk [] = Unit
AreChunks chunk ((k, c) ∷ m) = (length c ≤ chunk) × AreChunks chunk m

bytes_of-le :
    (chunk : ℕ) (m : List (ℕ × List ℕ)) → AreChunks chunk m → bytes_of m ≤ length m * chunk
bytes_of-le chunk [] h = omega arith
bytes_of-le chunk ((k, c) ∷ m) h = omega (arith, bytes_of-le chunk m h.1)

AreChunks-holds :
    (src : ℕ → List ℕ) (chunk : ℕ) (m : List (ℕ × List ℕ))
    → ((k : ℕ) → length (src k) ≤ chunk)
    → HasUniqueKeys m
    → ((k : ℕ) (c : List ℕ) → lookup k m ≡ some c → c ≡ src k)
    → AreChunks chunk m
AreChunks-holds src chunk [] small u h = tt
AreChunks-holds src chunk ((j, c) ∷ m) small u h = (
  omega (arith, ap length (h j c (ground arith)), small j),
  AreChunks-holds src chunk m small u.1 (λ k d e. h k d (ground arith)),
)

module _ (src : ℕ → List ℕ) (span : ℕ) where
  -- Each frame arrives at less than `span` numbers from the expected one.
  abbrev pub InSpan : ReorderBuf → List ℕ → Type 0
  InSpan b [] = Unit
  InSpan b (s ∷ ss) = (s < b.expected + span) × InSpan (push b s (src s)).0 ss

module _ (src : ℕ → List ℕ) (chunk span : ℕ) (small : (k : ℕ) → length (src k) ≤ chunk) where
  -- The window between two pushes of such a run.
  record Narrow (b : ReorderBuf) : Type 0 where
    narrow : (k : ℕ) → b.expected + span ≤ k → lookup k b.pending ≡ none
    entries : span ≤ b.max_entries
    bytes : span * chunk ≤ b.max_bytes

  Narrow-HasRoom :
      (b : ReorderBuf) (s : ℕ)
      → IsValid b
      → Holds src b
      → Narrow b
      → b.expected < s
      → s < b.expected + span
      → lookup s b.pending ≡ none
      → HasRoom b (src s)
  Narrow-HasRoom b s v h w lt in_span free =
      let few =
        length-le_span (suc b.expected) (span - 1) b.pending v.is_open.unique
          (λ k h'. ground (arith, v.is_open.behind k, v.drained))
          (λ k h'. w.narrow k (omega arith)) in
      let light =
        bytes_of-le chunk b.pending
          (AreChunks-holds src chunk b.pending small v.is_open.unique h) in
      let all = mul_le chunk (suc (length b.pending)) span (omega arith) in
      (omega (arith, w.entries), omega (arith, light, v.is_open.counted, small s, all, w.bytes))

  Pushed-Narrow :
      (b b' : ReorderBuf) (s : ℕ) (r : PushResult)
      → Narrow b
      → s < b.expected + span
      → Pushed b s (src s) b' r
      → Narrow b'
  Pushed-Narrow b b' s r w in_span (behind lt e e') = subst Narrow (sym e) w
  Pushed-Narrow b b' s r w in_span (waiting c lt e e1 e2) = subst Narrow (sym e1) w
  Pushed-Narrow b b' s r w in_span (full lt e tight e1 e2) = subst Narrow (sym e1) w
  Pushed-Narrow b b' s r w in_span (next out e e' run ad kept l f x y) = record {
    narrow = λ k h. ground (arith, kept k, w.narrow k);
    entries = omega (arith, w.entries);
    bytes = omega (arith, w.bytes);
  }
  Pushed-Narrow b b' s r w in_span (room lt e has e1 e2) = subst Narrow (sym e1) (record {
    narrow = λ k h. ground (arith, lookup-insert s k (src s) b.pending, w.narrow k);
    entries = w.entries;
    bytes = w.bytes;
  })

  Pushed-fits :
      (b b' : ReorderBuf) (s : ℕ) (r : PushResult)
      → IsValid b
      → Holds src b
      → Narrow b
      → s < b.expected + span
      → Pushed b s (src s) b' r
      → r.overflow ≡ false
  Pushed-fits b b' s r v h w in_span (full lt e tight e1 e2) =
      absurd (tight (Narrow-HasRoom b s v h w lt in_span e))
  Pushed-fits b b' s r v h w in_span (behind lt e e') = λ i. (e' i).overflow
  Pushed-fits b b' s r v h w in_span (waiting c lt e e1 e2) = λ i. (e2 i).overflow
  Pushed-fits b b' s r v h w in_span (next out e e' run ad kept l f x y) = λ i. (e' i).overflow
  Pushed-fits b b' s r v h w in_span (room lt e has e1 e2) = λ i. (e2 i).overflow

  push_all-fits :
      (b : ReorderBuf) (ss : List ℕ)
      → IsValid b
      → Holds src b
      → Narrow b
      → Arrives src ss
      → InSpan src span b ss
      → (push_all b src ss).2 ≡ false
  unfolding push_all
  push_all-fits b [] v h w a n = refl
  push_all-fits b (s ∷ ss) v h w a n =
      let (v', p) = push-Pushed b s (src s) v a.0 in
      rw (Pushed-fits b _ s _ v h w n.0 p) (
        push_all-fits (push b s (src s)).0 ss v' (Pushed-Progress src b s _ _ h p).holds
          (Pushed-Narrow b _ s _ w n.0 p) a.1 n.1)

  -- A fresh window whose budget covers `span` chunks, `span` not above its entry cap, never overflows
  -- while each frame holds at most a chunk and arrives less than `span` numbers ahead.
  pub with_limit_fits :
      (max_bytes : ℕ) (ss : List ℕ)
      → max_bytes < 2 ^ 63
      → span ≤ (with_limit max_bytes).max_entries
      → span * chunk ≤ max_bytes
      → Arrives src ss
      → InSpan src span (with_limit max_bytes) ss
      → (push_all (with_limit max_bytes) src ss).2 ≡ false
  unfolding with_limit
  with_limit_fits max_bytes ss h entries bytes a n =
      push_all-fits (with_limit max_bytes) ss (with_limit-IsValid max_bytes h) (λ k c e. cc)
        (record { narrow = λ k h'. refl; entries = entries; bytes = bytes }) a n

-- The default window takes the skew of eight tunnels with 128 frames of the largest chunk each: while
-- every frame arrives less than 1024 numbers ahead of the expected one, no push overflows, and once
-- the first `n` frames have arrived the stream is delivered in order to `n` at least.
pub new_window_delivers :
    (src : ℕ → List ℕ) (ss : List ℕ) (n : ℕ)
    → ((k : ℕ) → length (src k) ≤ 65535)
    → Arrives src ss
    → InSpan src (8 * 128) new_window ss
    → ((k : ℕ) → 1 ≤ k → k ≤ n → Among k ss)
    → let r = push_all new_window src ss in
      (r.2 ≡ false)
      × (r.1 ≡ segment src 1 (r.0.expected - 1))
      × (is_complete_through r.0 (n + 1) ≡ true)
unfolding new_window
new_window_delivers src ss n small a in_span all =
    let fits =
      with_limit_fits src 65535 (8 * 128) small max_reorder_bytes ss (omega arith)
        (unfold with_limit in omega arith) (omega arith) a in_span in
    (
      fits,
      push_all-in_order src max_reorder_bytes ss (omega arith) a,
      push_all_complete src max_reorder_bytes ss n (omega arith) a all fits,
    )
