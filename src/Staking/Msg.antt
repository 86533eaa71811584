-- ===== src/Staking/Msg.antt =====
-- Messages of the staking contract, packages/shard_token/src/staking.rs, and the records that it
-- stores, contracts/staking/src/state.rs.
use shard_token.Common.{ℕ, String, List, Option}

-- `(u64, u64, Uint128)`: the first second, the last second and the amount of a distribution slot.
abbrev pub Slot : Type 0
Slot = ℕ × ℕ × ℕ

pub record InstantiateMsg : Type 0 where
  pub shard_token : String
  pub staking_token : String
  pub distribution_schedule : List Slot

-- `Cw20ReceiveMsg`
pub record Cw20ReceiveMsg (Binary : Type 0) : Type 0 where
  pub sender : String
  pub amount : ℕ
  pub msg : Binary

pub data Cw20HookMsg : Type 0 where
  bond : Cw20HookMsg

pub data ExecuteMsg (Binary : Type 0) : Type 0 where
  receive : Cw20ReceiveMsg Binary → ExecuteMsg Binary
  unbond : ℕ → ExecuteMsg Binary
  withdraw : ExecuteMsg Binary
  -- the new staking contract
  migrate_staking : String → ExecuteMsg Binary
  update_config : List Slot → ExecuteMsg Binary

pub data QueryMsg : Type 0 where
  config : QueryMsg
  -- the block time
  state : Option ℕ → QueryMsg
  -- the staker, the block time
  staker_info : String → Option ℕ → QueryMsg

pub record ConfigResponse : Type 0 where
  pub shard_token : String
  pub staking_token : String
  pub distribution_schedule : List Slot

pub record StateResponse (Decimal : Type 0) : Type 0 where
  pub last_distributed : ℕ
  pub total_bond_amount : ℕ
  pub global_reward_index : Decimal

pub record StakerInfoResponse (Decimal : Type 0) : Type 0 where
  pub staker : String
  pub reward_index : Decimal
  pub bond_amount : ℕ
  pub pending_reward : ℕ

pub data QueryResponse (Decimal : Type 0) : Type 0 where
  config_response : ConfigResponse → QueryResponse Decimal
  state_response : StateResponse Decimal → QueryResponse Decimal
  staker_info_response : StakerInfoResponse Decimal → QueryResponse Decimal

-- Canonical addresses are texts that are compared as a whole.
pub record Config : Type 0 where
  pub shard_token : String
  pub staking_token : String
  pub distribution_schedule : List Slot

pub record State (Decimal : Type 0) : Type 0 where
  pub last_distributed : ℕ
  pub total_bond_amount : ℕ
  pub global_reward_index : Decimal

pub record StakerInfo (Decimal : Type 0) : Type 0 where
  pub reward_index : Decimal
  pub bond_amount : ℕ
  pub pending_reward : ℕ
