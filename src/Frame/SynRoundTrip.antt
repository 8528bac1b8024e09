-- ===== src/Frame/SynRoundTrip.antt =====
-- `SynTarget::decode` after `SynTarget::encode`, and on any payload.
use round_robin.Common.{
  ℕ, suc, ◌+◌, ◌%◌, ◌^◌, ◌≤◌, ◌<◌, ◌≡◌, refl, ap, ◌∙◌, ◌⊎◌, inl, inr, true, false, List, [], ◌∷◌,
  ◌++◌, append_assoc, length, length-append, get_or, get_or-append_right, take, take-length_append,
  ltb, le→ltb, lt→ltb, Result, ok, err, arith, Bool-cases,
}
use round_robin.Wire.{BufMut}
use round_robin.Wire.Numbers.{be16, from_be-be16}
use round_robin.Wire.Utf8.{is_utf8}
use round_robin.Frame.{Error, address_too_long, syn_too_short, syn_truncated, invalid_utf8}
use round_robin.Frame.Decoder.{slice}
use round_robin.Frame.Syn.{SynTarget, IsSynTarget, encode_syn, decode_syn, u16_at}

-- The format of the payload.
abbrev pub syn_wire : SynTarget → List ℕ
syn_wire t = (t.proto ∷ []) ++ be16 (length t.address) ++ t.address ++ be16 t.port

-- The port stands behind the address, whatever follows it.
u16_at-syn_wire :
    (t : SynTarget) (more : List ℕ)
    → t.port < 2 ^ 16
    → u16_at (syn_wire t ++ more) (3 + length t.address) ≡ t.port
u16_at-syn_wire t more h =
    let e0 : 3 + length t.address ≡ suc (suc (suc (length t.address + 0))) = omega arith in
    let e1 : 3 + length t.address + 1 ≡ suc (suc (suc (length t.address + 1))) = omega arith in
    rw
      (
        e1,
        e0,
        append_assoc t.address (be16 t.port) more,
        get_or-append_right t.address (be16 t.port ++ more) 0 0,
        get_or-append_right t.address (be16 t.port ++ more) 1 0,
      )
      (from_be-be16 t.port h)

-- A payload that holds an address of `n` bytes of text is accepted.
decode_syn_whole :
    (n : ℕ) (p : List ℕ)
    → u16_at p 1 ≡ n
    → 5 + n ≤ length p
    → is_utf8 (slice p 3 n) ≡ true
    → decode_syn p
      ≡ ok (record { proto = get_or p 0 0; address = slice p 3 n; port = u16_at p (3 + n) })
unfolding decode_syn
decode_syn_whole n p e le text = rw (le→ltb (length p) 5 (omega arith), e, le→ltb _ _ le, text)

decode_syn-syn_wire :
    (t : SynTarget) (more : List ℕ)
    → IsSynTarget t
    → length t.address ≤ 65535
    → decode_syn (syn_wire t ++ more) ≡ ok t
decode_syn-syn_wire t more v h =
    let n = length t.address in
    let whole : slice (syn_wire t ++ more) 3 n ≡ t.address =
      ap (take n) (append_assoc t.address (be16 t.port) more)
      ∙ take-length_append t.address (be16 t.port ++ more) n refl in
    decode_syn_whole n (syn_wire t ++ more) (omega arith)
      (omega (
        arith,
        length-append t.address (be16 t.port),
        length-append (t.address ++ be16 t.port) more,
      ))
      (rw whole v.address_utf8)
    ∙ λ i.
        ok (record {
          proto = t.proto;
          address = whole i;
          port = u16_at-syn_wire t more v.port_fits i;
        })

module _ (m : BufMut) where
  open m use {put_u8_lem, put_u16_lem, put_slice_lem}

  encode_syn_wire :
      (t : SynTarget) → IsSynTarget t → length t.address ≤ 65535 → encode_syn m t ≡ ok (syn_wire t)
  unfolding encode_syn
  encode_syn_wire t v h =
      let e : length t.address % 2 ^ 16 ≡ length t.address = omega arith in
      rw
        (
          le→ltb 65535 (length t.address) h,
          put_u8_lem [] t.proto v.proto_fits,
          e,
          put_u16_lem _ (length t.address) (omega arith),
          put_slice_lem _ t.address,
          put_u16_lem _ t.port v.port_fits,
        )
        (simp append_assoc)

  -- A SYN target of at most 65535 bytes of address is encoded, and read back from the encoding;
  -- bytes behind it are not looked at. A longer address is refused.
  pub decode_syn-encode_syn :
      (t : SynTarget) (more : List ℕ)
      → IsSynTarget t
      → (length t.address ≤ 65535
          → (bytes : List ℕ) × (encode_syn m t ≡ ok bytes)
            × (length bytes ≡ 5 + length t.address)
            × (decode_syn (bytes ++ more) ≡ ok t))
        × (65535 < length t.address → encode_syn m t ≡ err (address_too_long (length t.address)))
  decode_syn-encode_syn t more v = (
    λ h. (
      syn_wire t,
      encode_syn_wire t v h,
      omega (arith, length-append t.address (be16 t.port)),
      decode_syn-syn_wire t more v h,
    ),
    λ h. unfold encode_syn in rw (lt→ltb 65535 (length t.address) h),
  )

-- What the payload of a SYN must look like for each result of the decoder.
abbrev pub DecodesAs : List ℕ → Result Error SynTarget → Type 0
DecodesAs p (ok t) =
    (5 + u16_at p 1 ≤ length p)
    × (t.address ≡ slice p 3 (u16_at p 1))
    × (is_utf8 t.address ≡ true)
    × (t.proto ≡ get_or p 0 0)
    × (t.port ≡ u16_at p (3 + u16_at p 1))
DecodesAs p (err e) =
    ((e ≡ syn_too_short) × (length p < 5))
    ⊎ ((e ≡ syn_truncated) × (5 ≤ length p) × (length p < 5 + u16_at p 1))
    ⊎ ((e ≡ invalid_utf8)
        × (5 + u16_at p 1 ≤ length p)
        × (is_utf8 (slice p 3 (u16_at p 1)) ≡ false))

-- On every payload: a target only if the address that its length field announces, and the port
-- behind it, lie inside the payload and the address is text; else the error that says why.
pub decode_syn-DecodesAs : (p : List ℕ) → DecodesAs p (decode_syn p)
unfolding decode_syn
decode_syn-DecodesAs p = elim (Bool-cases (ltb (length p) 5)) [
  | inl e ↦ rw (e, decode_syn) (inl (refl, ground arith))
  | inr e ↦ elim (Bool-cases (ltb (length p) (5 + u16_at p 1))) [
    | inl e1 ↦ rw (e, e1, decode_syn) (inr (inl (refl, ground arith, ground arith)))
    | inr e1 ↦ elim (Bool-cases (is_utf8 (slice p 3 (u16_at p 1)))) [
      | inl e2 ↦ rw (e, e1, e2, decode_syn) (ground arith, refl, e2, refl, refl)
      | inr e2 ↦ rw (e, e1, e2, decode_syn) (inr (inr (refl, ground arith, e2)))
    ]
  ]
]
