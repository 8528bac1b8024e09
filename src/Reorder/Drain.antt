-- ===== src/Reorder/Drain.antt =====
-- The `while let` loop of `push`: it releases the longest run of consecutive entries.
use round_robin.Common.{
  HasUniqueKeys, HasUniqueKeys-remove, ℕ, zero, suc, ◌+◌, ◌-◌, ◌^◌, ◌≤◌, ◌<◌, ◌≡◌, refl, ap, ◌∙◌,
  inl, inr, Option, none, some, List, [], ◌∷◌, ◌++◌, append_assoc, append-nil, length, lookup,
  lookup-remove, length-remove_lt, length-remove_le, ltb, if◌then◌else◌, arith, Option-cases,
}
use round_robin.Reorder.{ReorderBuf, drain, release}
use round_robin.Reorder.Window.{bytes_of, bytes_of-remove}

-- `chunks` are the entries at `from`, `from + 1`, … up to the first that is missing.
abbrev pub Run : (ℕ → Option (List ℕ)) → ℕ → List (List ℕ) → Type 0
Run held from [] = held from ≡ none
Run held from (c ∷ cs) = (held from ≡ some c) × Run held (suc from) cs

-- The sequence numbers stay below this, so that `expected` never wraps.
abbrev pub seq_top : ℕ
seq_top = 2 ^ 64 - 1

-- What the loop relies on: the entries behind `expected` are gone.
pub record IsOpen (b : ReorderBuf) : Type 0 where
  pub unique : HasUniqueKeys b.pending
  pub counted : b.pending_bytes ≡ bytes_of b.pending
  pub bytes_fit : b.pending_bytes < 2 ^ 64
  pub behind : (k : ℕ) → k < b.expected → lookup k b.pending ≡ none
  pub below_top : (k : ℕ) → seq_top ≤ k → lookup k b.pending ≡ none

pub record Drained (b b' : ReorderBuf) (out : List (List ℕ)) : Type 0 where
  pub is_open : IsOpen b'
  pub run : Run (λ k. lookup k b.pending) b.expected out
  pub advanced : b'.expected ≡ b.expected + length out
  pub stopped : lookup b'.expected b'.pending ≡ none
  pub kept :
      (k : ℕ) → lookup k b'.pending ≡ (if ltb k b'.expected then none else lookup k b.pending)
  pub fewer : length b'.pending ≤ length b.pending
  pub lighter : b'.pending_bytes ≤ b.pending_bytes
  pub same_bytes : b'.max_bytes ≡ b.max_bytes
  pub same_entries : b'.max_entries ≡ b.max_entries

empty_lookup : (k : ℕ) (m : List (ℕ × List ℕ)) → length m ≤ 0 → lookup k m ≡ none
empty_lookup k [] h = refl
empty_lookup k (e ∷ m) h = absurd (omega arith)

release-IsOpen :
    (b : ReorderBuf) (c : List ℕ)
    → IsOpen b
    → lookup b.expected b.pending ≡ some c
    → IsOpen (release b c)
      × ((release b c).expected ≡ suc b.expected)
      × ((release b c).pending_bytes ≤ b.pending_bytes)
release-IsOpen b c o e =
    let lt : b.expected < 2 ^ 64 - 1 = ground (arith, o.below_top b.expected) in
    let bytes = bytes_of-remove b.expected b.pending c o.unique e in
    (
      record {
        unique = HasUniqueKeys-remove b.expected b.pending o.unique;
        counted = omega (arith, bytes, o.counted, o.bytes_fit);
        bytes_fit = omega (arith, bytes, o.counted, o.bytes_fit);
        behind = λ k h. ground (arith, lookup-remove b.expected k b.pending, o.behind k);
        below_top = λ k h. ground (arith, lookup-remove b.expected k b.pending, o.below_top k);
      },
      omega arith,
      omega (arith, bytes, o.counted, o.bytes_fit),
    )

-- A run looks at the numbers from its start on only.
pub Run-congr :
    (held held' : ℕ → Option (List ℕ)) (from : ℕ) (cs : List (List ℕ))
    → ((k : ℕ) → from ≤ k → held' k ≡ held k)
    → Run held from cs
    → Run held' from cs
Run-congr held held' from [] same r = same from (omega arith) ∙ r
Run-congr held held' from (c ∷ cs) same r = (
  same from (omega arith) ∙ r.0,
  Run-congr held held' (suc from) cs (λ k h. same k (omega arith)) r.1,
)

Drained-nothing : (b : ReorderBuf) → IsOpen b → lookup b.expected b.pending ≡ none → Drained b b []
Drained-nothing b o e = record {
  is_open = o;
  run = e;
  advanced = omega arith;
  stopped = e;
  kept = λ k. ground (arith, o.behind k);
  fewer = omega arith;
  lighter = omega arith;
  same_bytes = refl;
  same_entries = refl;
}

Drained-more :
    (b b' : ReorderBuf) (c : List ℕ) (out : List (List ℕ))
    → IsOpen b
    → lookup b.expected b.pending ≡ some c
    → Drained (release b c) b' out
    → Drained b b' (c ∷ out)
Drained-more b b' c out o e d =
    let (o', next, lighter) = release-IsOpen b c o e in
    record {
      is_open = d.is_open;
      run = (
        e,
        Run-congr _ _ (suc b.expected) out
            (λ k h. ground (arith, lookup-remove b.expected k b.pending)) (rw next at d.run),
      );
      advanced = omega (arith, d.advanced, next);
      stopped = d.stopped;
      kept = λ k. ground (arith, d.kept k, lookup-remove b.expected k b.pending, d.advanced, next);
      fewer = omega (arith, d.fewer, length-remove_le b.expected b.pending);
      lighter = omega (arith, d.lighter, lighter);
      same_bytes = d.same_bytes;
      same_entries = d.same_entries;
    }

-- The loop appends the longest run from `expected` on, moves `expected` behind it, and takes just
-- these entries out of the window; fuel for each entry of the window is enough.
pub drain-Drained :
    (fuel : ℕ) (b : ReorderBuf) (ready : List (List ℕ))
    → IsOpen b
    → length b.pending ≤ fuel
    → (b' : ReorderBuf) × (out : List (List ℕ)) × (drain fuel b ready ≡ (b', ready ++ out))
      × Drained b b' out
unfolding drain
drain-Drained zero b ready o h =
    (b, [], rw append-nil, Drained-nothing b o (empty_lookup b.expected b.pending (omega arith)))
drain-Drained (suc fuel) b ready o h = elim (Option-cases (lookup b.expected b.pending)) [
  | inl e ↦ (b, [], rw (e, drain, append-nil), Drained-nothing b o e)
  | inr (c, e) ↦
      let (b', out, p, d) =
        drain-Drained fuel (release b c) (ready ++ c ∷ []) (release-IsOpen b c o e).0
          (omega (arith, length-remove_lt b.expected b.pending c e)) in
      (
        b',
        c ∷ out,
        rw (e, drain) (p ∙ ap (λ r. (b', r)) (append_assoc ready (c ∷ []) out)),
        Drained-more b b' c out o e d,
      )
]
