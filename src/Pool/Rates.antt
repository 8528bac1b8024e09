-- ===== src/Pool/Rates.antt =====
-- src/tunnel.rs: the floating-point numbers of the scheduler, and the rate at which a link drains.
use round_robin.Common.{ℕ, Bool}

-- What the code does with an `f64`; `of_nat` is `as f64`, and `decimal n k` the literal n / 10^k.
pub record Float : Type 1 where
  pub F : Type 0
  pub of_nat : ℕ → F
  pub decimal : ℕ → ℕ → F
  pub from_bits : ℕ → F
  pub to_bits : F → ℕ
  pub add : F → F → F
  pub sub : F → F → F
  pub mul : F → F → F
  pub div : F → F → F
  pub maximum : F → F → F
  pub neg : F → F
  pub exp : F → F
  pub less : F → F → Bool

module _ (float : Float) where
  open float use {F, of_nat, decimal, add, sub, mul, div, neg, exp}

  abbrev pub rate_ewma_tau_secs : F
  rate_ewma_tau_secs = decimal 25 1

  unfoldable pub ewma_rate : F → F → F → F
  ewma_rate prev inst dt_secs =
      let alpha = sub (of_nat 1) (exp (div (neg dt_secs) rate_ewma_tau_secs)) in
      add (mul prev (sub (of_nat 1) alpha)) (mul inst alpha)
