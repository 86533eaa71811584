-- ===== src/Airdrop/Msg.antt =====
-- Messages, the stored configuration and the errors of the airdrop contract:
-- packages/shard_token/src/airdrop.rs, contracts/airdrop/src/state.rs and error.rs.
use shard_token.Common.{ℕ, String, Bool, List, Option}
use shard_token.Platform.Errors.{StdError}

pub record InstantiateMsg : Type 0 where
  pub owner : String
  pub shard_token : String

pub data ExecuteMsg : Type 0 where
  update_config : Option String → ExecuteMsg
  register_merkle_root : String → ExecuteMsg
  -- stage, amount, proof
  claim : ℕ → ℕ → List String → ExecuteMsg

pub record Config : Type 0 where
  pub owner : String
  pub shard_token : String

pub data QueryMsg : Type 0 where
  config : QueryMsg
  merkle_root : ℕ → QueryMsg
  latest_stage : QueryMsg
  is_claimed : ℕ → String → QueryMsg

-- `ConfigResponse`, `MerkleRootResponse`, `LatestStageResponse` and `IsClaimedResponse`
pub data QueryResponse : Type 0 where
  config_response : String → String → QueryResponse
  merkle_root_response : ℕ → String → QueryResponse
  latest_stage_response : ℕ → QueryResponse
  is_claimed_response : Bool → QueryResponse

pub data ContractError : Type 0 where
  std : StdError → ContractError
  already_claimed : ContractError
  invalid_hex_proof : ContractError
  invalid_hex_merkle : ContractError
  merkle_verification : ContractError
  unauthorized : ContractError
