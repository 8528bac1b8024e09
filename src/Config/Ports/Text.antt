-- ===== src/Config/Ports/Text.antt =====
-- The texts of port numbers, as `trim` and `parse::<u16>` read them.
use round_robin.Common.{
  ◌&&◌, ℕ, ◌+◌, ◌-◌, ◌*◌, ◌≤◌, ◌≡◌, refl, sym, ap, ◌∙◌, ◌⊎◌, inl, inr, false, some, some-injective,
  List, [], ◌∷◌, ◌++◌, length, leb, ◌==◌, ==→eq, Result, ok, err, Bool-cases, Option-cases, All,
  arith,
}
use round_robin.Config.Ports.{
  PortsError, bad_number, is_whitespace, trim_start, trim_end, trim, digits_u16, unsigned_u16,
  parse_u16,
}
use round_robin.Config.Ports.Trim.{
  IsWhite, trim_start_split, trim_end_split, trim_start_white, trim_end_core,
}

abbrev pub IsDigit : ℕ → Type 0
IsDigit c = (48 ≤ c) × (c ≤ 57)

-- The number that digits behind `n` make.
abbrev pub value : ℕ → List ℕ → ℕ
value n [] = n
value n (c ∷ cs) = value (n * 10 + (c - 48)) cs

-- The text is the number `n` of 16 bits in decimal digits, perhaps with a plus sign, and white space around.
pub record Reads (s : List ℕ) (n : ℕ) : Type 0 where
  pub left : List ℕ
  pub sign : List ℕ
  pub digits : List ℕ
  pub right : List ℕ
  pub text : s ≡ left ++ ((sign ++ digits) ++ right)
  pub white_left : All IsWhite left
  pub white_right : All IsWhite right
  pub signed : (sign ≡ []) ⊎ (sign ≡ 43 ∷ [])
  pub some_digit : 1 ≤ length digits
  pub all_digits : All IsDigit digits
  pub counts : value 0 digits ≡ n
  pub fits : n ≤ 65535

value_le : (n : ℕ) (cs : List ℕ) → n ≤ value n cs
value_le n [] = omega arith
value_le n (c ∷ cs) = omega (arith, value_le (n * 10 + (c - 48)) cs)

digits_u16_sound :
    (n m : ℕ) (cs : List ℕ)
    → n ≤ 65535
    → digits_u16 n cs ≡ some m
    → All IsDigit cs × (value n cs ≡ m) × (m ≤ 65535)
unfolding digits_u16
digits_u16_sound n m [] h e = (tt, some-injective e, ground arith)
digits_u16_sound n m (c ∷ cs) h e =
    elim (Bool-cases (leb 48 c && leb c 57 && leb (n * 10 + (c - 48)) 65535)) [
      | inl t ↦
          let (ds, v, fits) =
            digits_u16_sound (n * 10 + (c - 48)) m cs (ground arith) (ground arith) in
          ((ground arith, ds), v, fits)
      | inr t ↦ absurd (ground arith)
    ]

digits_u16_complete :
    (n : ℕ) (cs : List ℕ)
    → All IsDigit cs
    → value n cs ≤ 65535
    → digits_u16 n cs ≡ some (value n cs)
unfolding digits_u16
digits_u16_complete n [] a h = refl
digits_u16_complete n (c ∷ cs) (d, ds) h =
    ground (arith, digits_u16_complete (n * 10 + (c - 48)) cs ds h, value_le (n * 10 + (c - 48)) cs)

digit_not_white : (c : ℕ) → IsDigit c → is_whitespace c ≡ false
digit_not_white c (lo, hi) = ground arith

digits_not_white : (cs : List ℕ) → All IsDigit cs → All (λ c. is_whitespace c ≡ false) cs
digits_not_white [] a = tt
digits_not_white (c ∷ cs) (d, ds) = (digit_not_white c d, digits_not_white cs ds)

unsigned_u16_complete :
    (cs : List ℕ)
    → 1 ≤ length cs
    → All IsDigit cs
    → value 0 cs ≤ 65535
    → unsigned_u16 cs ≡ some (value 0 cs)
unsigned_u16_complete [] some_digit ds h = absurd (omega arith)
unsigned_u16_complete (c ∷ cs) some_digit ds h = digits_u16_complete 0 (c ∷ cs) ds h

unsigned_u16_sound :
    (cs : List ℕ) (n : ℕ)
    → unsigned_u16 cs ≡ some n
    → (1 ≤ length cs) × All IsDigit cs × (value 0 cs ≡ n) × (n ≤ 65535)
unsigned_u16_sound [] n e = cc
unsigned_u16_sound (c ∷ cs) n e =
    let (ds, v, fits) = digits_u16_sound 0 n (c ∷ cs) (omega arith) e in (omega arith, ds, v, fits)

parse_u16_complete :
    (sign digits : List ℕ)
    → (sign ≡ []) ⊎ (sign ≡ 43 ∷ [])
    → 1 ≤ length digits
    → All IsDigit digits
    → value 0 digits ≤ 65535
    → parse_u16 (sign ++ digits) ≡ ok (value 0 digits)
unfolding parse_u16
parse_u16_complete sign [] signed some_digit ds h = absurd (omega arith)
parse_u16_complete sign (c ∷ cs) (inl e) some_digit (d, ds) h =
    let digit : (c == 43) ≡ false = ground arith in
    let bare : parse_u16 (c ∷ cs) ≡ ok (value 0 (c ∷ cs)) =
      rw (digit, unsigned_u16_complete (c ∷ cs) some_digit (d, ds) h, parse_u16) refl in
    ap (λ x. parse_u16 (x ++ c ∷ cs)) e ∙ bare
parse_u16_complete sign (c ∷ cs) (inr e) some_digit ds h =
    rw (e, unsigned_u16_complete (c ∷ cs) some_digit ds h, parse_u16) refl

ok-injective : {m n : ℕ} → ◌≡◌ {A = Result PortsError ℕ} (ok m) (ok n) → m ≡ n
ok-injective q = cc

-- The sign and the digits of a text that is parsed.
parse_u16_sound :
    (t : List ℕ) (n : ℕ)
    → parse_u16 t ≡ ok n
    → (sign digits : List ℕ) × (t ≡ sign ++ digits)
      × ((sign ≡ []) ⊎ (sign ≡ 43 ∷ []))
      × (1 ≤ length digits)
      × All IsDigit digits
      × (value 0 digits ≡ n)
      × (n ≤ 65535)
unfolding parse_u16
parse_u16_sound [] n e = cc
parse_u16_sound (c ∷ cs) n e = elim (Bool-cases (c == 43)) [
  | inl plus ↦ elim (Option-cases (unsigned_u16 cs)) [
    | inl none_ ↦ absurd (fails (sym (rw (plus, none_, parse_u16) refl) ∙ e))
    | inr (m, found) ↦
        let same : m ≡ n = ok-injective (sym (rw (plus, found, parse_u16) refl) ∙ e) in
        let (one, ds, v, fits) = unsigned_u16_sound cs n (found ∙ ap some same) in
        (43 ∷ [], cs, ap (λ x. x ∷ cs) (==→eq c 43 plus), inr refl, one, ds, v, fits)
  ]
  | inr bare ↦ elim (Option-cases (unsigned_u16 (c ∷ cs))) [
    | inl none_ ↦ absurd (fails (sym (rw (bare, none_, parse_u16) refl) ∙ e))
    | inr (m, found) ↦
        let same : m ≡ n = ok-injective (sym (rw (bare, found, parse_u16) refl) ∙ e) in
        let (one, ds, v, fits) = unsigned_u16_sound (c ∷ cs) n (found ∙ ap some same) in
        ([], c ∷ cs, refl, inl refl, one, ds, v, fits)
  ]
]
  where
    fails : ¬ (◌≡◌ {A = Result PortsError ℕ} (err bad_number) (ok n))
    fails q = cc

-- A text with no white space at its ends, `c` at its head and the rest `cs`, is what `trim` leaves.
trim_core :
    (left : List ℕ) (c : ℕ) (cs right : List ℕ)
    → All IsWhite left
    → All (λ d. is_whitespace d ≡ false) (c ∷ cs)
    → All IsWhite right
    → trim (left ++ ((c ∷ cs) ++ right)) ≡ c ∷ cs
unfolding trim
trim_core left c cs right wl (b, bs) wr =
    ap trim_end (trim_start_white left c (cs ++ right) wl b)
    ∙ trim_end_core (c ∷ cs) right (b, bs) wr

trim_signed :
    (left sign digits right : List ℕ)
    → (sign ≡ []) ⊎ (sign ≡ 43 ∷ [])
    → 1 ≤ length digits
    → All IsDigit digits
    → All IsWhite left
    → All IsWhite right
    → trim (left ++ ((sign ++ digits) ++ right)) ≡ sign ++ digits
trim_signed left sign [] right signed some_digit ds wl wr = absurd (omega arith)
trim_signed left sign (c ∷ cs) right (inl e) some_digit ds wl wr =
    rw e (trim_core left c cs right wl (digits_not_white (c ∷ cs) ds) wr)
trim_signed left sign (c ∷ cs) right (inr e) some_digit ds wl wr =
    rw e (trim_core left 43 (c ∷ cs) right wl (refl, digits_not_white (c ∷ cs) ds) wr)

-- A number that a text reads is what the parser makes of it.
pub Reads-parsed : (s : List ℕ) (n : ℕ) → Reads s n → parse_u16 (trim s) ≡ ok n
Reads-parsed s n r =
    ap (λ x. parse_u16 (trim x)) (r.text)
    ∙ ap parse_u16 (
        trim_signed (r.left) (r.sign) (r.digits) (r.right) (r.signed) (r.some_digit) (r.all_digits)
          (r.white_left) (r.white_right))
    ∙ parse_u16_complete (r.sign) (r.digits) (r.signed) (r.some_digit) (r.all_digits)
        (omega (arith, r.counts, r.fits))
    ∙ ap ok (r.counts)

pub parsed-Reads : (s : List ℕ) (n : ℕ) → parse_u16 (trim s) ≡ ok n → Reads s n
unfolding trim
parsed-Reads s n e =
    let (l, text_l, wl) = trim_start_split s in
    let (r, text_r, wr) = trim_end_split (trim_start s) in
    let (sign_, ds, core, signed_, some_, all_, counts_, fits_) = parse_u16_sound (trim s) n e in
    record {
      left = l;
      sign = sign_;
      digits = ds;
      right = r;
      text = text_l ∙ ap (λ x. l ++ x) (text_r ∙ ap (λ x. x ++ r) core);
      white_left = wl;
      white_right = wr;
      signed = signed_;
      some_digit = some_;
      all_digits = all_;
      counts = counts_;
      fits = fits_;
    }

parse_u16-cases : (t : List ℕ) → ((n : ℕ) × (parse_u16 t ≡ ok n)) ⊎ (parse_u16 t ≡ err bad_number)
unfolding parse_u16
parse_u16-cases [] = inr refl
parse_u16-cases (c ∷ cs) = elim (Bool-cases (c == 43)) [
  | inl plus ↦ elim (Option-cases (unsigned_u16 cs)) [
    | inl none_ ↦ inr (rw (plus, none_, parse_u16) refl)
    | inr (m, found) ↦ inl (m, rw (plus, found, parse_u16) refl)
  ]
  | inr bare ↦ elim (Option-cases (unsigned_u16 (c ∷ cs))) [
    | inl none_ ↦ inr (rw (bare, none_, parse_u16) refl)
    | inr (m, found) ↦ inl (m, rw (bare, found, parse_u16) refl)
  ]
]

ok-err : {n : ℕ} {x : PortsError} → ¬ (◌≡◌ {A = Result PortsError ℕ} (ok n) (err x))
ok-err q = cc

-- A text is parsed to the number that it reads, or refused if it reads none.
pub parsed-cases :
    (s : List ℕ)
    → ((n : ℕ) × (parse_u16 (trim s) ≡ ok n) × Reads s n)
      ⊎ (parse_u16 (trim s) ≡ err bad_number) × ((n : ℕ) → ¬ Reads s n)
parsed-cases s = elim (parse_u16-cases (trim s)) [
  | inl (n, e) ↦ inl (n, e, parsed-Reads s n e)
  | inr e ↦ inr (e, λ n r. ok-err (sym (Reads-parsed s n r) ∙ e))
]

-- A text reads one number at most.
pub Reads-unique : (s : List ℕ) (m n : ℕ) → Reads s m → Reads s n → m ≡ n
Reads-unique s m n r q = ok-injective (sym (Reads-parsed s m r) ∙ Reads-parsed s n q)
