-- ===== src/Staking/Store.antt =====
-- The storage of the staking contract, contracts/staking/src/state.rs, and what the contract uses
-- of its host.
pub mod Laws
use shard_token.Common.{ℕ, String, Option, some, none}
use shard_token.Common.Outcome.{Outcome, ok, err, Action, modify}
use shard_token.Platform.Errors.{StdError, not_found}
use shard_token.Platform.Messages.{Cw20ExecuteMsg}
use shard_token.Platform.Storage.{Bucket, Singleton, string_eq}
use shard_token.Platform.Decimals.{Decimals}
use shard_token.Staking.Msg.{Cw20HookMsg, QueryResponse, Config, State, StakerInfo}

pub record Host : Type 1 where
  pub Binary : Type 0
  pub decimals : Decimals
  pub addr_validate : String → Outcome StdError String
  pub addr_canonicalize : String → Outcome StdError String
  pub addr_humanize : String → Outcome StdError String
  -- `from_binary` of the message in a `Cw20ReceiveMsg`
  pub hook_from_binary : Binary → Option Cw20HookMsg
  pub to_binary : Cw20ExecuteMsg → Outcome StdError Binary
  -- `to_binary(&Cw20QueryMsg::Minter {})`, and the minter that a contract answers to a query
  pub minter_query : Outcome StdError Binary
  pub query_smart : String → Binary → Outcome StdError String
  pub response_to_binary : QueryResponse decimals.Decimal → Outcome StdError Binary
  pub config_cell : Singleton Config
  pub state_cell : Singleton (State decimals.Decimal)
  pub reward_bucket : Bucket String (StakerInfo decimals.Decimal)

pub record Store (h : Host) : Type 0 where
  pub config : Singleton.Cell h.config_cell
  pub state : Singleton.Cell h.state_cell
  pub rewards : Bucket.Map h.reward_bucket

-- `load` fails where nothing was saved.
abbrev loaded : {V : Type 0} → Option V → Outcome StdError V
loaded none = err not_found
loaded (some v) = ok v

module _ (h : Host) where
  abbrev pub Info : Type 0
  Info = StakerInfo h.decimals.Decimal

  -- a staker that the bucket does not know
  abbrev pub no_stake : Info
  no_stake = record { reward_index = h.decimals.zero; bond_amount = 0; pending_reward = 0 }

  abbrev or_no_stake : Option Info → Info
  or_no_stake none = no_stake
  or_no_stake (some info) = info

  unfoldable pub config_of : Store h → Outcome StdError Config
  config_of s = loaded (h.config_cell.load s.config)

  unfoldable pub state_of : Store h → Outcome StdError (State h.decimals.Decimal)
  state_of s = loaded (h.state_cell.load s.state)

  unfoldable pub info_of : String → Store h → Info
  info_of owner s = or_no_stake (h.reward_bucket.get owner s.rewards)

  abbrev pub store_config : Config → Action (Store h) StdError (Unit {0})
  store_config c = modify (λ s. record s { config = h.config_cell.save c s.config })

  abbrev pub read_config : Action (Store h) StdError Config
  read_config s = (config_of s, s)

  abbrev pub store_state : State h.decimals.Decimal → Action (Store h) StdError (Unit {0})
  store_state c = modify (λ s. record s { state = h.state_cell.save c s.state })

  abbrev pub read_state : Action (Store h) StdError (State h.decimals.Decimal)
  read_state s = (state_of s, s)

  abbrev pub store_staker_info : String → Info → Action (Store h) StdError (Unit {0})
  store_staker_info owner info =
      modify (λ s. record s { rewards = h.reward_bucket.set owner info s.rewards })

  abbrev pub remove_staker_info : String → Action (Store h) StdError (Unit {0})
  remove_staker_info owner =
      modify (λ s. record s { rewards = h.reward_bucket.remove owner s.rewards })

  abbrev pub read_staker_info : String → Action (Store h) StdError Info
  read_staker_info owner s = (ok (info_of owner s), s)
