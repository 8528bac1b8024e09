-- ===== src/Socks5/Dialog.antt =====
-- src/socks5.rs: reads and writes on a TCP stream. The peer's bytes are a list that ends where it closes
-- the stream.
use round_robin.Common.{
  ℕ, List, [], ◌++◌, length, take, drop, ltb, if◌then◌else◌, Bool, true, false, Result, ok, err,
}
use round_robin.Socks5.{Error}

-- How a handshake fails; `address` is an error of the address codec.
pub data HandshakeError : Type 0 where
  io_error auth_required bad_request_version bad_reply_version no_methods invalid_utf8 :
      HandshakeError
  not_socks5 unsupported_cmd unsupported_address_type proxy_auth connect_failed : ℕ → HandshakeError
  address : Error → HandshakeError

-- What was written, and the value with the input that is left, or the error.
abbrev pub Dialog : Type 0 → Type 0
Dialog A = List ℕ → List ℕ × Result HandshakeError (A × List ℕ)

module _ {A : Type 0} where
  abbrev pub return : A → Dialog A
  return a = λ input. ([], ok (a, input))

  abbrev pub bail : HandshakeError → Dialog A
  bail e = λ input. ([], err e)

abbrev pub bail_if : Bool → HandshakeError → Dialog (Unit {0})
bail_if true e = bail e
bail_if false e = return tt

abbrev pub from_result : {A : Type 0} → Result Error A → Dialog A
from_result (ok a) = return a
from_result (err e) = bail (address e)

abbrev pub continue :
    {A B : Type 0}
    → (A → Dialog B)
    → List ℕ × Result HandshakeError (A × List ℕ)
    → List ℕ × Result HandshakeError (B × List ℕ)
continue k (written, err e) = (written, err e)
continue k (written, ok (a, input)) = let (more, r) = k a input in (written ++ more, r)

infixl 5 ◌>>=◌ ◌>>◌
abbrev pub ◌>>=◌ : {A B : Type 0} → Dialog A → (A → Dialog B) → Dialog B
d >>= k = λ input. continue k (d input)

abbrev pub ◌>>◌ : {B : Type 0} → Dialog (Unit {0}) → Dialog B → Dialog B
d >> k = d >>= λ _. k

-- `read_exact` into a buffer of `n` bytes.
abbrev pub read_exact : ℕ → Dialog (List ℕ)
read_exact n = λ input.
    if ltb (length input) n then ([], err io_error) else ([], ok (take n input, drop n input))

abbrev pub write_all : List ℕ → Dialog (Unit {0})
write_all bytes = λ input. (bytes, ok (tt, input))
