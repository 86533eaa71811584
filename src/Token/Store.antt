-- ===== src/Token/Store.antt =====
-- The token's storage and the functions that read and write it,
-- contracts/token(erc20)/src/contract.rs: `bytes_to_u128`, `read_u128`, `read_balance`,
-- `read_allowance` and `write_allowance`.
use shard_token.Common.{ℕ, String, Option, some, none, ltb, nat_eq, length, take, if◌then◌else◌}
use shard_token.Common.Outcome.{Outcome, ok, err, panic, Action, modify}
use shard_token.Common.Words.{Bytes, to_be_bytes, from_be_bytes}
use shard_token.Platform.Errors.{StdError}
use shard_token.Platform.Storage.{Bucket, string_eq, pair_eq}
use shard_token.Token.Msg.{Constants, QueryResponse, ContractError, corrupted_data_found}

abbrev pub key_constants : String
key_constants = "constants"

abbrev pub key_total_supply : String
key_total_supply = "total_supply"

-- What the contract uses of the host: a map of bytes under each of its three prefixes, the check
-- of addresses, and the two encoders.
pub record Host : Type 1 where
  pub Binary : Type 0
  pub config_area : Bucket String Bytes
  pub balances_area : Bucket String Bytes
  -- by owner, the second level of the prefix, and spender
  pub allowances_area : Bucket (String × String) Bytes
  pub addr_validate : String → Outcome StdError String
  pub to_vec : Constants → Outcome StdError Bytes
  pub to_binary : QueryResponse → Outcome StdError Binary

pub record Store (h : Host) : Type 0 where
  pub config : Bucket.Map h.config_area
  pub balances : Bucket.Map h.balances_area
  pub allowances : Bucket.Map h.allowances_area

-- `try_into` of a slice to `[u8; 16]`
abbrev try_into_16 : Bytes → Option Bytes
try_into_16 bytes = if nat_eq (length bytes) 16 then some bytes else none

-- `data[0..16]` aborts where there are fewer than 16 bytes.
unfoldable pub bytes_to_u128 : Bytes → Outcome ContractError ℕ
bytes_to_u128 bytes = if ltb (length bytes) 16 then panic else elim (try_into_16 (take 16 bytes)) [
  | some whole ↦ ok (from_be_bytes whole)
  | none ↦ err corrupted_data_found
]

abbrev read_u128 : Option Bytes → Outcome ContractError ℕ
read_u128 (some bytes) = bytes_to_u128 bytes
read_u128 none = ok 0

module _ (h : Host) where
  unfoldable pub balance_at : String → Store h → Outcome ContractError ℕ
  balance_at owner s = read_u128 (h.balances_area.get owner s.balances)

  unfoldable pub allowance_at : String → String → Store h → Outcome ContractError ℕ
  allowance_at owner spender s = read_u128 (h.allowances_area.get (owner, spender) s.allowances)

  unfoldable pub read_balance : String → Action (Store h) ContractError ℕ
  read_balance owner s = (balance_at owner s, s)

  unfoldable pub read_allowance : String → String → Action (Store h) ContractError ℕ
  read_allowance owner spender s = (allowance_at owner spender s, s)

  -- `balances_store.set(owner, &amount.to_be_bytes())`
  unfoldable pub write_balance : String → ℕ → Action (Store h) ContractError (Unit {0})
  write_balance owner amount =
      modify
        (λ s. record s { balances = h.balances_area.set owner (to_be_bytes amount) s.balances })

  unfoldable pub write_allowance : String → String → ℕ → Action (Store h) ContractError (Unit {0})
  write_allowance owner spender amount = modify (λ s. record s {
    allowances = h.allowances_area.set (owner, spender) (to_be_bytes amount) s.allowances;
  })
