-- ===== src/Token/Msg.antt =====
-- Messages, constants and errors of the token contract: contracts/token(erc20)/src/msg.rs, state.rs
-- and error.rs. A name or a ticker symbol is the list of its UTF-8 bytes.
use shard_token.Common.{ℕ, String, List}
use shard_token.Common.Words.{Bytes}
use shard_token.Platform.Errors.{StdError}

pub record InitialBalance : Type 0 where
  pub address : String
  pub amount : ℕ

pub record InstantiateMsg : Type 0 where
  pub name : Bytes
  pub symbol : Bytes
  pub decimals : ℕ
  pub initial_balances : List InitialBalance

pub data ExecuteMsg : Type 0 where
  -- spender, amount
  approve : String → ℕ → ExecuteMsg
  -- recipient, amount
  transfer : String → ℕ → ExecuteMsg
  -- owner, recipient, amount
  transfer_from : String → String → ℕ → ExecuteMsg
  burn : ℕ → ExecuteMsg

pub data QueryMsg : Type 0 where
  balance : String → QueryMsg
  -- owner, spender
  allowance : String → String → QueryMsg

-- `BalanceResponse` and `AllowanceResponse`
pub data QueryResponse : Type 0 where
  balance_response : ℕ → QueryResponse
  allowance_response : ℕ → QueryResponse

pub record Constants : Type 0 where
  pub name : Bytes
  pub symbol : Bytes
  pub decimals : ℕ

pub data ContractError : Type 0 where
  std : StdError → ContractError
  name_wrong_format : ContractError
  ticker_wrong_symbol_format : ContractError
  decimals_exceeded : ContractError
  -- allowance, required
  insufficient_allowance : ℕ → ℕ → ContractError
  -- balance, required
  insufficient_funds : ℕ → ℕ → ContractError
  corrupted_data_found : ContractError
