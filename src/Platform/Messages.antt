-- ===== src/Platform/Messages.antt =====
-- Calls and responses of `cosmwasm_std`, and the messages of `cw20` that the contracts send.
use shard_token.Common.{ℕ, String, List, []}

-- `cosmwasm_std::MessageInfo` and `Env`, as far as they are read: the caller, and the seconds of
-- the block's time.
pub record MessageInfo : Type 0 where
  pub sender : String

pub record Env : Type 0 where
  pub seconds : ℕ

-- `cw20::Cw20ExecuteMsg` and `Cw20QueryMsg`, the constructors that are used
pub data Cw20ExecuteMsg : Type 0 where
  transfer : String → ℕ → Cw20ExecuteMsg

-- `CosmosMsg::Wasm(WasmMsg::Execute { contract_addr, msg, funds: vec![] })`, with the encoded
-- message
pub data CosmosMsg (Binary : Type 0) : Type 0 where
  wasm_execute : String → Binary → CosmosMsg Binary

-- An attribute's value: a text, or a number that the code prints by `to_string`.
pub data Shown : Type 0 where
  text : String → Shown
  number : ℕ → Shown

pub record Attribute : Type 0 where
  pub key : String
  pub value : Shown

pub record Response (Binary : Type 0) : Type 0 where
  pub messages : List (CosmosMsg Binary)
  pub attributes : List Attribute

abbrev pub attr : String → Shown → Attribute
attr k v = record { key = k; value = v }

-- `Response::default()`
abbrev pub empty_response : {Binary : Type 0} → Response Binary
empty_response = record { messages = []; attributes = [] }
