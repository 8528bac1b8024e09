-- ===== src/Config/Ports/Outcome.antt =====
-- What `parse_ports` makes of a configuration, said without its code: the numbers that a text reads are those of
-- `Reads`, and a range is two of them around the first dash.
use round_robin.Common.{
  ℕ, ◌+◌, ◌-◌, ◌≤◌, ◌<◌, ◌≡◌, ◌↔◌, refl, sym, ap, subst, ◌∙◌, ◌⊎◌, inl, inr, true, false, none,
  some, some-injective, List, [], ◌∷◌, ◌++◌, length, contains, ltb, ◌==◌, Result, ok, err,
  Bool-cases, arith,
}
use round_robin.Config.Ports.{
  Ports, range, ports, PortsError, bad_number, starts_after_end, too_many_ports, port_zero,
  no_ports, max_ports, split_once, from_start, port_range, named_ports, retain_new, parse_ports,
}
use round_robin.Config.Ports.Distinct.{
  NoRepeats, contains-retain_new, retain_new-NoRepeats, length-retain_new_le, retain_new_some,
}
use round_robin.Config.Ports.Split.{
  split_once-cases, split_once-append, split_once-none, contains-from_start, length-from_start,
}
use round_robin.Config.Ports.Text.{Reads, parsed-cases, Reads-unique}

-- The text is the number `q` alone.
abbrev IsSingle : List ℕ → ℕ → Type 0
IsSingle s q = (contains 45 s ≡ false) × Reads s q

-- The text is the numbers `a` and `b` around its first dash.
pub record IsRange (s : List ℕ) (a b : ℕ) : Type 0 where
  pub before : List ℕ
  pub after : List ℕ
  pub text : s ≡ before ++ 45 ∷ after
  pub first_dash : contains 45 before ≡ false
  pub reads_start : Reads before a
  pub reads_end : Reads after b

-- The ports that a configuration means: those of its list, or the number that its text reads, or all from the
-- first number of its range to the last, both included.
abbrev Names : Ports → ℕ → Type 0
Names (ports v) q = contains q v ≡ true
Names (range s) q = IsSingle s q ⊎ ((a b : ℕ) × IsRange s a b × (a ≤ q) × (q ≤ b))

-- The fault of the configuration that each error tells.
abbrev Refuses : Ports → PortsError → Type 0
Refuses (ports v) bad_number = ⊥
Refuses (ports v) starts_after_end = ⊥
Refuses (ports v) too_many_ports = 256 < length v
Refuses (ports v) port_zero = contains 0 v ≡ true
Refuses (ports v) no_ports = v ≡ []
Refuses (range s) bad_number = ((q : ℕ) → ¬ IsSingle s q) × ((a b : ℕ) → ¬ IsRange s a b)
Refuses (range s) starts_after_end = (a b : ℕ) × IsRange s a b × (b < a)
Refuses (range s) too_many_ports = (a b : ℕ) × IsRange s a b × (a + 256 ≤ b)
Refuses (range s) port_zero = Names (range s) 0
Refuses (range s) no_ports = ⊥

-- A list has 256 entries at most.
abbrev HasFew : Ports → Type 0
HasFew (ports v) = length v ≤ 256
HasFew (range s) = Unit

-- The ports to listen on are just those that the configuration means.
pub record Listens (p : Ports) (out : List ℕ) : Type 0 where
  pub same : (q : ℕ) → (contains q out ≡ true) ↔ Names p q
  pub no_repeats : NoRepeats out
  pub some_port : 1 ≤ length out
  pub few : length out ≤ 256
  pub no_zero : contains 0 out ≡ false
  pub few_entries : HasFew p

abbrev pub ParsesAs : Ports → Result PortsError (List ℕ) → Type 0
ParsesAs p (ok out) = Listens p out
ParsesAs p (err e) = Refuses p e

some-none : {A : Type 0} {x : A} → ¬ (some x ≡ none)
some-none e = cc

-- The two numbers of a range stand on the sides of the first dash.
range_sides :
    (s before after : List ℕ) (a b : ℕ)
    → split_once 45 s ≡ some (before, after)
    → IsRange s a b
    → Reads before a × Reads after b
range_sides s before after a b found r =
    let sides : (r.before, r.after) ≡ (before, after) = some-injective (
      sym (split_once-append 45 r.before r.after r.first_dash)
      ∙ ap (split_once 45) (sym r.text)
      ∙ found) in
    (
      subst (λ x. Reads x a) (ap (λ x. x.0) sides) r.reads_start,
      subst (λ x. Reads x b) (ap (λ x. x.1) sides) r.reads_end,
    )

not-IsSingle :
    (s before after : List ℕ) (q : ℕ) → split_once 45 s ≡ some (before, after) → ¬ IsSingle s q
not-IsSingle s before after q found (no_dash, r) =
    some-none (sym found ∙ split_once-none 45 s no_dash)

not-IsRange : (s : List ℕ) (a b : ℕ) → split_once 45 s ≡ none → ¬ IsRange s a b
not-IsRange s a b none_ r = some-none (
    sym (split_once-append 45 r.before r.after r.first_dash)
    ∙ ap (split_once 45) (sym r.text)
    ∙ none_)

-- What the ports of a range are before the checks, or why there are none.
abbrev RangeAs : List ℕ → Result PortsError (List ℕ) → Type 0
RangeAs s (ok v) =
    ((q : ℕ) → (contains q v ≡ true) ↔ Names (range s) q) × (1 ≤ length v) × (length v ≤ 256)
RangeAs s (err e) = Refuses (range s) e

single_as :
    (s : List ℕ) (n : ℕ)
    → split_once 45 s ≡ none
    → contains 45 s ≡ false
    → Reads s n
    → RangeAs s (ok (n ∷ []))
single_as s n none_ no_dash r = (λ q. (to q, from q), omega arith, omega arith)
  where
    to : (q : ℕ) → contains q (n ∷ []) ≡ true → Names (range s) q
    to q h = let same : n ≡ q = ground arith in inl (no_dash, subst (λ x. Reads s x) same r)

    from : (q : ℕ) → Names (range s) q → contains q (n ∷ []) ≡ true
    from q (inl (d, r')) = let same : n ≡ q = Reads-unique s n q r r' in ground arith
    from q (inr (a, b, g, lo, hi)) = absurd (not-IsRange s a b none_ g)

-- The ports from `a` to `b`, both included.
port_range_as :
    (s before after : List ℕ) (a b : ℕ)
    → split_once 45 s ≡ some (before, after)
    → IsRange s a b
    → RangeAs s (port_range a b)
port_range_as s before after a b found g = elim (Bool-cases (ltb b a)) [
  | inl back ↦ rw back (a, b, g, ground arith)
  | inr up ↦ elim (Bool-cases (ltb max_ports (b - a + 1))) [
    | inl many ↦ rw (up, many) (a, b, g, ground arith)
    | inr few ↦
        rw (up, few)
          (
            λ q. (to q (ground arith), from q (ground arith)),
            sized (ground arith),
            few_ports (ground arith),
          )
  ]
]
  where
    sized : a ≤ b → 1 ≤ length (from_start a (b - a + 1))
    sized up = omega (arith, length-from_start a (b - a + 1))

    few_ports : b - a + 1 ≤ 256 → length (from_start a (b - a + 1)) ≤ 256
    few_ports few = omega (arith, length-from_start a (b - a + 1))

    to : (q : ℕ) → a ≤ b → contains q (from_start a (b - a + 1)) ≡ true → Names (range s) q
    to q up h = inr (
      a,
      b,
      g,
      ground (arith, contains-from_start q a (b - a + 1)),
      ground (arith, contains-from_start q a (b - a + 1)),
    )

    from : (q : ℕ) → a ≤ b → Names (range s) q → contains q (from_start a (b - a + 1)) ≡ true
    from q up (inl single) = absurd (not-IsSingle s before after q found single)
    from q up (inr (a', b', g', lo, hi)) =
        let (ra, rb) = range_sides s before after a b found g in
        let (ra', rb') = range_sides s before after a' b' found g' in
        let same_a : a ≡ a' = Reads-unique before a a' ra ra' in
        let same_b : b ≡ b' = Reads-unique after b b' rb rb' in
        ground (arith, contains-from_start q a (b - a + 1))

range_as : (s : List ℕ) → RangeAs s (named_ports (range s))
unfolding named_ports
range_as s = elim (split_once-cases 45 s) [
  | inl (before, after, found, text, first_dash) ↦ elim (parsed-cases before) [
    | inr (bad, unread) ↦
        rw (found, bad, named_ports)
          (
            λ q. not-IsSingle s before after q found,
            λ a b g. let (ra, rb) = range_sides s before after a b found g in unread a ra,
          )
    | inl (a, start, ra) ↦ elim (parsed-cases after) [
      | inr (bad, unread) ↦
          rw (found, start, bad, named_ports)
            (
              λ q. not-IsSingle s before after q found,
              λ a b g. let (ra, rb) = range_sides s before after a b found g in unread b rb,
            )
      | inl (b, end, rb) ↦
          rw (found, start, end, named_ports)
            (port_range_as s before after a b found (record {
              before = before;
              after = after;
              text = text;
              first_dash = first_dash;
              reads_start = ra;
              reads_end = rb;
            }))
    ]
  ]
  | inr (none_, no_dash) ↦ elim (parsed-cases s) [
    | inr (bad, unread) ↦
        rw (none_, bad, named_ports) (λ q (d, r). unread q r, λ a b. not-IsRange s a b none_)
    | inl (n, parsed, r) ↦ rw (none_, parsed, named_ports) (single_as s n none_ no_dash r)
  ]
]

-- The checks behind the named ports.
checked :
    (p : Ports) (v : List ℕ)
    → named_ports p ≡ ok v
    → ((q : ℕ) → (contains q v ≡ true) ↔ Names p q)
    → (256 < length v → Refuses p too_many_ports)
    → (contains 0 v ≡ true → Refuses p port_zero)
    → (v ≡ [] → Refuses p no_ports)
    → (length v ≤ 256 → HasFew p)
    → ParsesAs p (parse_ports p)
unfolding parse_ports
checked p v n same too_many zeros nothing few_of = elim (Bool-cases (ltb max_ports (length v))) [
  | inl many ↦ rw (n, many, parse_ports) (too_many (ground arith))
  | inr few ↦ elim (Bool-cases (contains 0 v)) [
    | inl z ↦ rw (n, few, z, parse_ports) (zeros z)
    | inr nz ↦ elim (Bool-cases (length v == 0)) [
      | inl none_left ↦
          rw (n, few, nz, retain_new_some v, none_left, parse_ports) (nothing (empty v none_left))
      | inr left ↦ rw (n, few, nz, retain_new_some v, left, parse_ports) (listens few nz left)
    ]
  ]
]
  where
    empty : (v : List ℕ) → (length v == 0) ≡ true → v ≡ []
    empty [] e = refl
    empty (x ∷ v) e = ground arith

    kept : (q : ℕ) → contains q (retain_new [] v) ≡ contains q v
    kept q = ground (arith, contains-retain_new q [] v)

    listens :
        ltb max_ports (length v) ≡ false
        → contains 0 v ≡ false
        → (length v == 0) ≡ false
        → Listens p (retain_new [] v)
    listens few nz left = record {
      same = λ q. let (to, from) = same q in (λ h. to (sym (kept q) ∙ h), λ h. kept q ∙ from h);
      no_repeats = retain_new-NoRepeats [] v;
      some_port = ground (arith, retain_new_some v);
      few = ground (arith, length-retain_new_le [] v);
      no_zero = kept 0 ∙ nz;
      few_entries = few_of (ground arith);
    }

-- A configuration of ports gives the ports that it means, each once, 1 to 256 of them and none of them 0: those of
-- its list, or the number that its text reads, or all from the first number of its range to the last, both
-- included. A text reads a number of 16 bits in decimal digits, perhaps behind a plus sign and between white space.
-- Else it is refused with the error for its fault: a text that is neither a number nor a range, a range that
-- starts behind its end, a range of more than 256 ports or a list of more than 256 entries, the port 0, or an empty
-- list.
pub parse_ports-ParsesAs : (p : Ports) → ParsesAs p (parse_ports p)
unfolding parse_ports named_ports
parse_ports-ParsesAs (ports v) =
    checked (ports v) v refl (λ q. (λ h. h, λ h. h)) (λ h. h) (λ h. h) (λ h. h) (λ h. h)
parse_ports-ParsesAs (range s) = go (named_ports (range s)) refl (range_as s)
  where
    go :
        (r : Result PortsError (List ℕ))
        → named_ports (range s) ≡ r
        → RangeAs s (named_ports (range s))
        → ParsesAs (range s) (parse_ports (range s))
    go (err e) n g = rw (n, parse_ports) (subst (RangeAs s) n g)
    go (ok v) n g =
        let (same, some_port, few) = subst (RangeAs s) n g in
        checked (range s) v n same (λ many. absurd (omega arith))
          (λ z. let (to, from) = same 0 in to z) (λ nil. absurd (omega (arith, ap length nil)))
          (λ h. tt)
