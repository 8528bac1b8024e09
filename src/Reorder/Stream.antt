-- ===== src/Reorder/Stream.antt =====
-- A run of pushes: the stream is delivered in order, without a gap, and as far as it has arrived.
use round_robin.Common.{
  ℕ, ◌+◌, ◌-◌, ◌^◌, ◌≤◌, ◌<◌, ◌≡◌, sym, ap, subst, ◌∙◌, ◌⊎◌, inl, inr, Bool, true, false, ◌||◌,
  List, [], ◌∷◌, ◌++◌, leb, arith, Bool-cases, All,
}
use round_robin.Reorder.{ReorderBuf, PushResult, push, with_limit, is_complete_through}
use round_robin.Reorder.Push.{IsValid, CanArrive, push-Pushed, with_limit-IsValid}
use round_robin.Reorder.Order.{
  segment, segment-append, push_all, Holds, Has, Progress, Pushed-Progress,
}

abbrev pub Among : ℕ → List ℕ → Type 0
Among k [] = ⊥
Among k (s ∷ ss) = (k ≡ s) ⊎ Among k ss

module _ (src : ℕ → List ℕ) where
  abbrev pub Arrives : List ℕ → Type 0
  Arrives = All (λ s. CanArrive s (src s))

  -- What a run of pushes does to the stream.
  pub record Streamed (b : ReorderBuf) (ss : List ℕ) (last : ReorderBuf) (out : List (List ℕ))
      (over : Bool) : Type 0 where
    pub valid : IsValid last
    pub holds : Holds src last
    pub grows : b.expected ≤ last.expected
    pub in_order : out ≡ segment src b.expected (last.expected - b.expected)
    pub keeps : (k : ℕ) → Has src b k → Has src last k
    pub takes : over ≡ false → (k : ℕ) → Among k ss → Has src last k

  Streamed-nothing : (b : ReorderBuf) → IsValid b → Holds src b → Streamed b [] b [] false
  Streamed-nothing b v h = record {
    valid = v;
    holds = h;
    grows = omega arith;
    in_order =
        let zero_more : b.expected - b.expected ≡ 0 = omega arith in
        ap (segment src b.expected) (sym zero_more);
    keeps = λ k has. has;
    takes = λ f k m. absurd m;
  }

  Streamed-more :
      (b : ReorderBuf) (s : ℕ) (ss : List ℕ) (b' : ReorderBuf) (r : PushResult) (last : ReorderBuf)
      (out : List (List ℕ)) (over : Bool)
      → Progress src b s b' r
      → Streamed b' ss last out over
      → Streamed b (s ∷ ss) last (r.ready ++ out) (r.overflow || over)
  Streamed-more b s ss b' r last out over p t = record {
    valid = t.valid;
    holds = t.holds;
    grows = omega (arith, p.grows, t.grows);
    in_order =
        (λ i. p.in_order i ++ t.in_order i)
        ∙ segment-append src b.expected (b'.expected - b.expected) (last.expected - b'.expected)
            b'.expected (last.expected - b.expected) (omega (arith, p.grows))
            (omega (arith, p.grows, t.grows));
    keeps = λ k has. t.keeps k (p.keeps k has);
    takes = λ f k m. elim m [
      | inl e ↦ t.keeps k (subst (Has src b') (sym e) (p.takes (ground arith)))
      | inr m' ↦ t.takes (ground arith) k m'
    ];
  }

  pub push_all-Streamed :
      (b : ReorderBuf) (ss : List ℕ)
      → IsValid b
      → Holds src b
      → Arrives ss
      → let r = push_all b src ss in Streamed b ss r.0 r.1 r.2
  unfolding push_all
  push_all-Streamed b [] v h a = Streamed-nothing b v h
  push_all-Streamed b (s ∷ ss) v h a =
      let (v', p) = push-Pushed b s (src s) v a.0 in
      let progress = Pushed-Progress src b s _ _ h p in
      Streamed-more b s ss _ _ _ _ _ progress
        (push_all-Streamed (push b s (src s)).0 ss v' progress.holds a.1)

  -- Whatever arrives, in whatever order and however often, what a fresh window has delivered is
  -- the start of the stream, in order and without a gap.
  pub push_all-in_order :
      (max_bytes : ℕ) (ss : List ℕ)
      → max_bytes < 2 ^ 63
      → Arrives ss
      → let r = push_all (with_limit max_bytes) src ss in r.1 ≡ segment src 1 (r.0.expected - 1)
  unfolding with_limit
  push_all-in_order max_bytes ss h a =
      (push_all-Streamed (with_limit max_bytes) ss (with_limit-IsValid max_bytes h) (λ k c e. cc)
        a).in_order

  -- Where no push overflows and the frames up to `n` have all arrived, `is_complete_through` holds
  -- one past `n`, so that the first `n` payloads at least were delivered.
  pub push_all_complete :
      (max_bytes : ℕ) (ss : List ℕ) (n : ℕ)
      → max_bytes < 2 ^ 63
      → Arrives ss
      → ((k : ℕ) → 1 ≤ k → k ≤ n → Among k ss)
      → let r = push_all (with_limit max_bytes) src ss in
        r.2 ≡ false → is_complete_through r.0 (n + 1) ≡ true
  unfolding with_limit is_complete_through
  push_all_complete max_bytes ss n h a all f =
      let t =
        push_all-Streamed (with_limit max_bytes) ss (with_limit-IsValid max_bytes h) (λ k c e. cc)
          a in
      let r = push_all (with_limit max_bytes) src ss in
      elim (Bool-cases (leb (n + 1) r.0.expected)) [
        | inl e ↦ e
        | inr e ↦
            absurd (
              missing r.0 t.valid
                (t.takes f r.0.expected (all r.0.expected t.grows (ground arith))))
      ]
    where
      missing : (b : ReorderBuf) → IsValid b → Has src b b.expected → ⊥
      missing b v has = ground (arith, v.drained)
