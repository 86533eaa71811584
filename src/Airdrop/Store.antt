-- ===== src/Airdrop/Store.antt =====
-- The storage of the airdrop contract, contracts/airdrop/src/state.rs, and what the contract uses of
-- its host.
use shard_token.Common.{◌≡◌, length, ℕ, String, Bool, true, false, Option, some, none}
use shard_token.Common.Outcome.{Outcome, ok, err, Action, modify}
use shard_token.Common.Words.{Bytes}
use shard_token.Platform.Errors.{StdError, not_found}
use shard_token.Platform.Messages.{Cw20ExecuteMsg}
use shard_token.Platform.Storage.{Bucket, Singleton, string_eq, number_eq, pair_eq}
use shard_token.Airdrop.Msg.{Config, ContractError, std, QueryResponse}

pub record Host : Type 1 where
  pub Binary : Type 0
  pub addr_canonicalize : String → Outcome StdError String
  pub addr_humanize : String → Outcome StdError String
  pub to_binary : Cw20ExecuteMsg → Outcome StdError Binary
  pub response_to_binary : QueryResponse → Outcome StdError Binary
  -- `Keccak256::digest`, 32 bytes
  pub digest : Bytes → Bytes
  pub length-digest : (bytes : Bytes) → length (digest bytes) ≡ 32
  -- `hex::decode_to_slice` into 32 bytes
  pub decode_to_slice : String → Option Bytes
  pub length-decode_to_slice :
      (t : String) (bytes : Bytes) → decode_to_slice t ≡ some bytes → length bytes ≡ 32
  pub config_cell : Singleton Config
  pub stage_cell : Singleton ℕ
  pub root_bucket : Bucket ℕ String
  -- by user, the second level of the prefix, and stage
  pub claim_bucket : Bucket (String × ℕ) Bool

pub record Store (h : Host) : Type 0 where
  pub config : Singleton.Cell h.config_cell
  pub stage : Singleton.Cell h.stage_cell
  pub roots : Bucket.Map h.root_bucket
  pub claims : Bucket.Map h.claim_bucket

abbrev loaded : {V : Type 0} → Option V → Outcome ContractError V
loaded none = err (std not_found)
loaded (some v) = ok v

abbrev claimed_or_not : Option Bool → Bool
claimed_or_not none = false
claimed_or_not (some v) = v

module _ (h : Host) where
  unfoldable pub config_of : Store h → Outcome ContractError Config
  config_of s = loaded (h.config_cell.load s.config)

  unfoldable pub stage_of : Store h → Outcome ContractError ℕ
  stage_of s = loaded (h.stage_cell.load s.stage)

  unfoldable pub root_of : ℕ → Store h → Outcome ContractError String
  root_of stage s = loaded (h.root_bucket.get stage s.roots)

  unfoldable pub has_claimed : String → ℕ → Store h → Bool
  has_claimed user stage s = claimed_or_not (h.claim_bucket.get (user, stage) s.claims)

  abbrev pub store_config : Config → Action (Store h) ContractError (Unit {0})
  store_config c = modify (λ s. record s { config = h.config_cell.save c s.config })

  abbrev pub read_config : Action (Store h) ContractError Config
  read_config s = (config_of s, s)

  abbrev pub store_latest_stage : ℕ → Action (Store h) ContractError (Unit {0})
  store_latest_stage stage = modify (λ s. record s { stage = h.stage_cell.save stage s.stage })

  abbrev pub read_latest_stage : Action (Store h) ContractError ℕ
  read_latest_stage s = (stage_of s, s)

  abbrev pub store_merkle_root : ℕ → String → Action (Store h) ContractError (Unit {0})
  store_merkle_root stage root =
      modify (λ s. record s { roots = h.root_bucket.set stage root s.roots })

  abbrev pub read_merkle_root : ℕ → Action (Store h) ContractError String
  read_merkle_root stage s = (root_of stage s, s)

  abbrev pub store_claimed : String → ℕ → Action (Store h) ContractError (Unit {0})
  store_claimed user stage =
      modify (λ s. record s { claims = h.claim_bucket.set (user, stage) true s.claims })

  abbrev pub read_claimed : String → ℕ → Action (Store h) ContractError Bool
  read_claimed user stage s = (ok (has_claimed user stage s), s)
