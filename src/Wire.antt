-- ===== src/Wire.antt =====
-- Bytes on the wire: big-endian numbers, and the buffer type of the `bytes` crate as an interface.
-- A byte string (`Bytes`, `BytesMut`, `&[u8]`, `String`) is the list of its bytes.
pub mod Numbers
pub mod Utf8
use round_robin.Common.{
  ℕ, ◌+◌, ◌/◌, ◌%◌, ◌^◌, ◌≤◌, ◌<◌, ◌≡◌, refl, List, [], ◌∷◌, ◌++◌, length, take, drop,
}
use Numbers.{be16, be32, be64}

-- What the source uses of `bytes::BytesMut`, with the documented behaviour of each call.
pub record BufMut : Type 0 where
  pub put_u8 : List ℕ → ℕ → List ℕ
  pub put_u16 : List ℕ → ℕ → List ℕ
  pub put_u32 : List ℕ → ℕ → List ℕ
  pub put_u64 : List ℕ → ℕ → List ℕ
  pub put_slice : List ℕ → List ℕ → List ℕ
  -- The bytes that are split off, and the buffer that is left.
  pub split_to : List ℕ → ℕ → List ℕ × List ℕ
  pub put_u8_lem : (buf : List ℕ) (n : ℕ) → n < 256 → put_u8 buf n ≡ buf ++ n ∷ []
  pub put_u16_lem : (buf : List ℕ) (n : ℕ) → n < 2 ^ 16 → put_u16 buf n ≡ buf ++ be16 n
  pub put_u32_lem : (buf : List ℕ) (n : ℕ) → n < 2 ^ 32 → put_u32 buf n ≡ buf ++ be32 n
  pub put_u64_lem : (buf : List ℕ) (n : ℕ) → n < 2 ^ 64 → put_u64 buf n ≡ buf ++ be64 n
  pub put_slice_lem : (buf s : List ℕ) → put_slice buf s ≡ buf ++ s
  pub split_to_lem :
      (buf : List ℕ) (at : ℕ) → at ≤ length buf → split_to buf at ≡ (take at buf, drop at buf)

-- A buffer that meets the interface.
abbrev pub list_buf : BufMut
list_buf = record {
  put_u8 = λ buf n. buf ++ n ∷ [];
  put_u16 = λ buf n. buf ++ be16 n;
  put_u32 = λ buf n. buf ++ be32 n;
  put_u64 = λ buf n. buf ++ be64 n;
  put_slice = λ buf s. buf ++ s;
  split_to = λ buf at. (take at buf, drop at buf);
  put_u8_lem = λ buf n h. refl;
  put_u16_lem = λ buf n h. refl;
  put_u32_lem = λ buf n h. refl;
  put_u64_lem = λ buf n h. refl;
  put_slice_lem = λ buf s. refl;
  split_to_lem = λ buf at h. refl;
}
