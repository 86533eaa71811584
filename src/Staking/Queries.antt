-- ===== src/Staking/Queries.antt =====
-- `query` and its handlers of contracts/staking/src/contract.rs.
pub mod Quote
use shard_token.Common.{ℕ, String, Option, some, none}
use shard_token.Common.Outcome.{pure, lift, ◌>>=◌}
use shard_token.Staking.Msg.{
  QueryMsg, ConfigResponse, StateResponse, StakerInfoResponse, config_response, state_response,
  staker_info_response,
}
use shard_token.Staking.Store.{Host, Info, read_config, read_state, read_staker_info}
use shard_token.Staking.Rewards.{compute_reward, compute_staker_reward}
use shard_token.Staking.Contract.{Run, StateOf}

module _ (h : Host) where
  unfoldable pub query_config : Run h ConfigResponse
  query_config = do
    config ← read_config h
    shard_token ← lift (h.addr_humanize config.shard_token)
    staking_token ← lift (h.addr_humanize config.staking_token)
    pure (record {
      shard_token = shard_token;
      staking_token = staking_token;
      distribution_schedule = config.distribution_schedule;
    })

  -- `if let Some(block_time) = block_time`, for the state
  abbrev state_at : Option ℕ → StateOf h → Run h (StateOf h)
  state_at none state = pure state
  state_at (some block_time) state = do
    config ← read_config h
    lift (compute_reward h.decimals config state block_time)

  unfoldable pub query_state : Option ℕ → Run h (StateResponse h.decimals.Decimal)
  query_state block_time = do
    stored ← read_state h
    state ← state_at block_time stored
    pure (record {
      last_distributed = state.last_distributed;
      total_bond_amount = state.total_bond_amount;
      global_reward_index = state.global_reward_index;
    })

  abbrev pub info_at : Option ℕ → Info h → Run h (Info h)
  info_at none staker_info = pure staker_info
  info_at (some block_time) staker_info = do
    config ← read_config h
    state ← read_state h
    rewarded ← lift (compute_reward h.decimals config state block_time)
    lift (compute_staker_reward h.decimals rewarded staker_info)

  unfoldable pub query_staker_info :
      String → Option ℕ → Run h (StakerInfoResponse h.decimals.Decimal)
  query_staker_info staker block_time = do
    staker_raw ← lift (h.addr_canonicalize staker)
    stored ← read_staker_info h staker_raw
    staker_info ← info_at block_time stored
    pure (record {
      staker = staker;
      reward_index = staker_info.reward_index;
      bond_amount = staker_info.bond_amount;
      pending_reward = staker_info.pending_reward;
    })

  unfoldable pub query : QueryMsg → Run h h.Binary
  query QueryMsg.config = do
    answer ← query_config
    lift (h.response_to_binary (config_response answer))
  query (QueryMsg.state block_time) = do
    answer ← query_state block_time
    lift (h.response_to_binary (state_response answer))
  query (QueryMsg.staker_info staker block_time) = do
    answer ← query_staker_info staker block_time
    lift (h.response_to_binary (staker_info_response answer))
