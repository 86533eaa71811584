-- ===== src/Staking/Tests/Units.antt =====
-- The unit tests of contracts/staking/src/testing.rs, run.
use shard_token.Common.{ℕ, Bool, true, false, ◌&&◌, ◌==◌, ◌≡◌, refl, some, none, nat_eq, inl, inr}
use shard_token.Common.Outcome.{ok, err, panic}
use shard_token.Platform.Errors.{generic_err}
use shard_token.Platform.Messages.{Cw20ExecuteMsg, transfer}
use shard_token.Platform.Samples.{function_bucket, option_cell, atomic_decimals}
use shard_token.Platform.Storage.{string_eq}
use shard_token.Platform.Testing.{passes}
use shard_token.Staking.Msg.{Cw20HookMsg, QueryResponse}
use shard_token.Staking.Store.{Host, config_of, state_of, info_of}
use shard_token.Staking.Rewards.{
  prorated, slot_amount, distributed, compute_reward, compute_staker_reward,
}
use shard_token.Staking.Schedules.{
  count_one, count_slots, get_count, set_count, take_count, check_existing, check_new,
  assert_new_schedules, sum_amounts, retain_started, close_slot, close_slots,
}
use shard_token.Staking.Contract.{
  instantiate, bond, receive_cw20, unbond, withdraw, update_config, migrate_staking, execute,
}
use shard_token.Staking.Queries.{query_config, query_state, query_staker_info, query}
use shard_token.Staking.MockQuerier.{
  Base, QueryMsg, QueryRequest, invalid_request, mock_dependencies, raw_query, new,
}
use shard_token.Staking.Scenarios.{Mocks, Test}
use shard_token.Staking.Scenarios.Bonding.{proper_initialization, test_bond_tokens, test_unbond}
use shard_token.Staking.Scenarios.Rewarding.{
  test_compute_reward, test_withdraw, test_migrate_staking,
}
use shard_token.Staking.Scenarios.Updating.{test_update_config}

-- An encoded message is the message.
data Encoded : Type 0 where
  hooked : Encoded
  cw20 : Cw20ExecuteMsg → Encoded
  minter_asked : Encoded
  response : QueryResponse ℕ → Encoded

abbrev host : Host
host = record {
  Binary = Encoded;
  decimals = atomic_decimals;
  addr_validate = λ a. ok a;
  addr_canonicalize = λ a. ok a;
  addr_humanize = λ a. ok a;
  hook_from_binary = λ b. elim b [ hooked ↦ some Cw20HookMsg.bond | _ ↦ none ];
  to_binary = λ m. ok (cw20 m);
  minter_query = ok minter_asked;
  query_smart = λ token query. panic;
  response_to_binary = λ r. ok (response r);
  config_cell = option_cell;
  state_cell = option_cell;
  reward_bucket = function_bucket;
}

abbrev same : Encoded → Encoded → Bool
same (cw20 (transfer a m)) (cw20 (transfer b n)) = a == b && nat_eq m n
same _ _ = false

abbrev base : Base
base = record {
  host = host;
  storage = record { config = none; state = none; rewards = λ k. none };
  Other = Unit;
  base_query = λ r. panic;
  request_from_slice = λ b. elim b [
    | minter_asked ↦ inr (QueryRequest.smart "reward0000" minter_asked)
    | _ ↦ inl "unknown"
  ];
  system_error = λ e. generic_err "system error";
  query_from_binary = λ b. elim b [ minter_asked ↦ some QueryMsg.minter | _ ↦ none ];
}

abbrev mocks : Mocks
mocks = record {
  base = base;
  now = 1571797419;
  hook_to_binary = λ m. ok hooked;
  response_from_binary = λ b. elim b [ response r ↦ some r | _ ↦ none ];
  same_binary = same;
}

abbrev passed : Test mocks (Unit {0}) → Bool
passed test = passes test (mock_dependencies base)

-- a fresh querier has the empty minter, and no answer to what does not parse
answers_minter : raw_query base (new base) minter_asked ≡ ok ""
answers_minter = refl

answers_unparsed : raw_query base (new base) hooked ≡ err (invalid_request "unknown" hooked)
answers_unparsed = refl

all_bonding :
    (passed (proper_initialization mocks)
      && passed (test_bond_tokens mocks)
      && passed (test_unbond mocks))
    ≡ true
unfolding instantiate execute receive_cw20 bond unbond config_of state_of info_of compute_reward
    compute_staker_reward distributed slot_amount prorated query query_config query_state
    query_staker_info
all_bonding = refl

all_rewarding :
    (passed (test_compute_reward mocks)
      && passed (test_withdraw mocks)
      && passed (test_migrate_staking mocks))
    ≡ true
unfolding instantiate execute receive_cw20 bond unbond withdraw migrate_staking config_of state_of
    info_of compute_reward compute_staker_reward distributed slot_amount prorated sum_amounts
    retain_started close_slot close_slots query query_config query_state query_staker_info
all_rewarding = refl

updating : passed (test_update_config mocks) ≡ true
unfolding instantiate execute receive_cw20 bond unbond withdraw update_config config_of state_of
    info_of compute_reward compute_staker_reward distributed slot_amount prorated
    assert_new_schedules count_slots count_one get_count set_count take_count check_existing
    check_new query query_config query_state query_staker_info
updating = refl
