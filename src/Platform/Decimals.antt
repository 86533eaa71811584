-- ===== src/Platform/Decimals.antt =====
-- `cosmwasm_std::Decimal`: a fixed-point number with 18 fractional digits, held in 128 bits as a
-- number of atomics. `none` is a panic.
use shard_token.Common.{ℕ, ◌+◌, ◌*◌, ◌/◌, ◌^◌, ◌<◌, ◌≡◌, ◌≢◌, Option, some, none}
use shard_token.Common.Words.{u128_mod}

-- `Decimal(1_000_000_000_000_000_000)` is 1.0
abbrev pub fractional : ℕ
fractional = 10 ^ 18

pub record Decimals : Type 1 where
  pub Decimal : Type 0
  pub zero : Decimal
  -- `Decimal::from_ratio(numerator, denominator)`
  pub from_ratio : ℕ → ℕ → Option Decimal
  -- `+` on decimals
  pub add : Decimal → Decimal → Option Decimal
  -- `Uint128 * Decimal`, rounded down
  pub mul : ℕ → Decimal → Option ℕ
  pub atomics : Decimal → ℕ
  pub atomics-zero : atomics zero ≡ 0
  pub from_ratio-zero : (n : ℕ) → from_ratio n 0 ≡ none
  pub atomics-from_ratio :
      (n d : ℕ) (r : Decimal) → from_ratio n d ≡ some r → atomics r ≡ n * fractional / d
  pub from_ratio_fits :
      (n d : ℕ) → d ≢ 0 → n * fractional / d < u128_mod → (r : Decimal) × (from_ratio n d ≡ some r)
  pub atomics-add : (a b c : Decimal) → add a b ≡ some c → atomics c ≡ atomics a + atomics b
  pub add_fits :
      (a b : Decimal) → atomics a + atomics b < u128_mod → (c : Decimal) × (add a b ≡ some c)
  pub mul_value : (x : ℕ) (d : Decimal) (y : ℕ) → mul x d ≡ some y → y ≡ x * atomics d / fractional
  pub mul_fits :
      (x : ℕ) (d : Decimal) → x * atomics d / fractional < u128_mod → (y : ℕ) × (mul x d ≡ some y)
