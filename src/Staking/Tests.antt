-- ===== src/Staking/Tests.antt =====
-- The staking contract of contracts/staking/src on a host whose storage is functions and options
-- and whose decimals are their atomics.
mod History
mod Leaving
mod Governed
mod Arithmetic
mod Spent
mod Units
use shard_token.Common.{
  ℕ, ◌^◌, ◌*◌, String, ◌≡◌, refl, arith, List, [], ◌∷◌, none, some, if◌then◌else◌, ◌==◌, true,
  false,
}
use shard_token.Common.Outcome.{Outcome, ok, err, panic}
use shard_token.Platform.Messages.{
  MessageInfo, Env, Response, wasm_execute, attr, text, number, empty_response,
}
use shard_token.Platform.Samples.{function_bucket, option_cell, atomic_decimals}
use shard_token.Platform.Storage.{string_eq}
use shard_token.Staking.Msg.{
  Slot, Config, State, StakerInfo, InstantiateMsg, ExecuteMsg, Cw20ReceiveMsg, Cw20HookMsg,
}
use shard_token.Staking.Store.{Host, Store, config_of, state_of, info_of, no_stake}
use shard_token.Staking.Rewards.{
  prorated, slot_amount, distributed, compute_reward, compute_staker_reward,
}
use shard_token.Staking.Schedules.{
  count_one, count_slots, get_count, set_count, take_count, check_existing, check_new,
  assert_new_schedules, sum_amounts, retain_started, close_slot, close_slots,
}
use shard_token.Staking.Contract.{
  instantiate, bond, receive_cw20, unbond, withdraw, update_config, migrate_staking, execute,
}
use shard_token.Staking.Governance.{
  Updated, Migrated, update_config-Updated, migrate_staking-Migrated,
}
use shard_token.Staking.Moves.Bond.{Received, receive_cw20-Received}
use shard_token.Staking.Moves.Unbond.{Unbonded, unbond-Unbonded}
use shard_token.Staking.Moves.Withdraw.{Withdrawn, withdraw-Withdrawn}
use shard_token.Staking.Invariant.{
  IsConsistent, Reach, here, next, called, instantiate-IsConsistent, execute-IsConsistent,
  Reach-IsConsistent,
}

-- An encoded message is its amount, and the hook is `Bond {}`.
abbrev pub host : Host
host = record {
  Binary = ℕ;
  decimals = atomic_decimals;
  addr_validate = λ a. ok a;
  addr_canonicalize = λ a. ok a;
  addr_humanize = λ a. ok a;
  hook_from_binary = λ b. some Cw20HookMsg.bond;
  to_binary = λ m. ok 7;
  minter_query = ok 0;
  query_smart = λ token query. ok "governor";
  response_to_binary = λ r. ok 0;
  config_cell = option_cell;
  state_cell = option_cell;
  reward_bucket = function_bucket;
}

abbrev pub caller : String → MessageInfo
caller a = record { sender = a }

abbrev pub at : ℕ → Env
at t = record { seconds = t }

abbrev pub config_with : List Slot → Config
config_with slots = record {
  shard_token = "shard";
  staking_token = "lp";
  distribution_schedule = slots;
}

-- a million over a hundred seconds
abbrev pub slots : List Slot
slots = (100, 200, 1000000) ∷ []

abbrev pub blank : Store host
blank = record { config = none; state = none; rewards = λ k. none }

abbrev pub state_with : ℕ → ℕ → ℕ → State ℕ
state_with last total index = record {
  last_distributed = last;
  total_bond_amount = total;
  global_reward_index = index;
}

abbrev pub started : Store host
started = record {
  config = some (config_with slots);
  state = some (state_with 0 0 0);
  rewards = λ k. none;
}

abbrev pub genesis : InstantiateMsg
genesis = record { shard_token = "shard"; staking_token = "lp"; distribution_schedule = slots }

pub instantiates : instantiate host (at 0) genesis blank ≡ (ok empty_response, started)
unfolding instantiate
instantiates = refl

pub unknown_staker : (a : String) → info_of host a blank ≡ no_stake host
unfolding info_of
unknown_staker a = refl

instantiate-IsConsistent_example : IsConsistent host started
instantiate-IsConsistent_example =
    instantiate-IsConsistent host (at 0) genesis blank started empty_response unknown_staker
      instantiates

pub started-IsConsistent : IsConsistent host started
started-IsConsistent =
    instantiate-IsConsistent host (at 0) genesis blank started empty_response unknown_staker
      instantiates

abbrev pub info_with : ℕ → ℕ → ℕ → StakerInfo ℕ
info_with index bond pending = record {
  reward_index = index;
  bond_amount = bond;
  pending_reward = pending;
}

-- alice bonds 100 at second 100
abbrev pub bonded : Store host
bonded = record {
  config = some (config_with slots);
  state = some (state_with 100 100 0);
  rewards = λ k. if "alice" == k then some (info_with 0 100 0) else none;
}

abbrev pub hundred : Cw20ReceiveMsg ℕ
hundred = record { sender = "alice"; amount = 100; msg = 0 }

abbrev pub bond_response : Response ℕ
bond_response = record {
  messages = [];
  attributes =
      attr "action" (text "bond") ∷ attr "owner" (text "alice") ∷ attr "amount" (number 100) ∷ [];
}

pub receives : receive_cw20 host (at 100) (caller "lp") hundred started ≡ (ok bond_response, bonded)
unfolding receive_cw20 bond config_of state_of info_of compute_reward compute_staker_reward
receives = refl

receive_cw20-Received_example : Received host 100 "lp" hundred started bonded bond_response
receive_cw20-Received_example =
    receive_cw20-Received host (at 100) (caller "lp") hundred started bonded bond_response receives

-- she unbonds 40 at second 150, when half of the slot's amount is due
abbrev unbonded : Store host
unbonded = record {
  config = some (config_with slots);
  state = some (state_with 150 60 (5 * 10 ^ 21));
  rewards = λ k.
      if "alice" == k
      then some (info_with (5 * 10 ^ 21) 60 500000)
      else if "alice" == k
      then some (info_with 0 100 0)
      else none;
}

abbrev unbond_response : Response ℕ
unbond_response = record {
  messages = wasm_execute "lp" 7 ∷ [];
  attributes =
      attr "action" (text "unbond") ∷ attr "owner" (text "alice") ∷ attr "amount" (number 40) ∷ [];
}

unbonds : unbond host (at 150) (caller "alice") 40 bonded ≡ (ok unbond_response, unbonded)
unfolding unbond config_of state_of info_of compute_reward compute_staker_reward distributed
    slot_amount prorated
unbonds = refl

unbond-Unbonded_example : Unbonded host 150 "alice" 40 bonded unbonded unbond_response
unbond-Unbonded_example =
    unbond-Unbonded host (at 150) (caller "alice") 40 bonded unbonded unbond_response unbonds

-- or she withdraws the reward at that time
abbrev pub withdrawn : Store host
withdrawn = record {
  config = some (config_with slots);
  state = some (state_with 150 100 (5 * 10 ^ 21));
  rewards = λ k.
      if "alice" == k
      then some (info_with (5 * 10 ^ 21) 100 0)
      else if "alice" == k
      then some (info_with 0 100 0)
      else none;
}

abbrev pub withdraw_response : Response ℕ
withdraw_response = record {
  messages = wasm_execute "shard" 7 ∷ [];
  attributes =
      attr "action" (text "withdraw")
      ∷ attr "owner" (text "alice")
      ∷ attr "amount" (number 500000)
      ∷ [];
}

pub withdraws : withdraw host (at 150) (caller "alice") bonded ≡ (ok withdraw_response, withdrawn)
unfolding withdraw config_of state_of info_of compute_reward compute_staker_reward distributed
    slot_amount prorated
withdraws = refl

withdraw-Withdrawn_example : Withdrawn host 150 "alice" bonded withdrawn withdraw_response
withdraw-Withdrawn_example =
    withdraw-Withdrawn host (at 150) (caller "alice") bonded withdrawn withdraw_response withdraws
