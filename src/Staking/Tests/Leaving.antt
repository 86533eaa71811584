-- ===== src/Staking/Tests/Leaving.antt =====
-- A query, and the withdrawal, the unbonding and the further bond that it promises.
use shard_token.Common.{ℕ, ◌+◌, ◌*◌, ◌^◌, ◌≡◌, refl, arith, some, [], ◌∷◌}
use shard_token.Common.Outcome.{ok, same_value}
use shard_token.Platform.Messages.{Response, wasm_execute}
use shard_token.Staking.Msg.{StakerInfoResponse}
use shard_token.Staking.Store.{Store, config_of, state_of, info_of}
use shard_token.Staking.Rewards.{
  prorated, slot_amount, distributed, compute_reward, compute_staker_reward,
}
use shard_token.Staking.Contract.{unbond, withdraw, receive_cw20}
use shard_token.Staking.Queries.{query_staker_info}
use shard_token.Staking.Queries.Quote.{withdraw_pays_quote}
use shard_token.Staking.Invariant.Entry.{receive_succeeds}
use shard_token.Staking.Invariant.Exit.{unbond_succeeds}
use shard_token.Staking.Tests.{host, caller, at, config_with, slots, state_with, bonded, hundred}
use shard_token.Staking.Tests.History.{bonded-IsConsistent}

abbrev answer : StakerInfoResponse ℕ
answer = record {
  staker = "alice";
  reward_index = 5 * 10 ^ 21;
  bond_amount = 100;
  pending_reward = 500000;
}

asks : query_staker_info host "alice" (some 150) bonded ≡ (ok answer, bonded)
unfolding query_staker_info config_of state_of info_of compute_reward compute_staker_reward
    distributed slot_amount prorated
asks = refl

configured : config_of host bonded ≡ ok (config_with slots)
unfolding config_of
configured = refl

stored : state_of host bonded ≡ ok (state_with 100 100 0)
unfolding state_of
stored = refl

withdraw_pays_quote_example :
    (r : Response ℕ) × ((withdraw host (at 150) (caller "alice") bonded).0 ≡ ok r)
    × (r.messages ≡ wasm_execute "shard" 7 ∷ [])
withdraw_pays_quote_example =
    withdraw_pays_quote host (at 150) (caller "alice") bonded bonded answer (config_with slots)
      "shard" 7 asks configured refl refl

unbond_succeeds_example :
    (r : Response ℕ) × ((unbond host (at 150) (caller "alice") 40 bonded).0 ≡ ok r)
    × (r.messages ≡ wasm_execute "lp" 7 ∷ [])
unbond_succeeds_example =
    unbond_succeeds host (at 150) (caller "alice") 40 bonded bonded answer (config_with slots) "lp"
      7 bonded-IsConsistent asks (omega arith) configured refl refl

receive_succeeds_example :
    (r : Response ℕ) × (s' : Store host) × (receive_cw20 host (at 150) (caller "lp") hundred bonded
      ≡ (ok r, s'))
    × ((info_of host "alice" s').bond_amount ≡ 100 + 100)
receive_succeeds_example =
    receive_succeeds host (at 150) (caller "lp") hundred bonded bonded answer (config_with slots)
      "alice" "alice" bonded-IsConsistent refl refl asks configured refl refl
      (rw (same_value bonded-IsConsistent.is_state stored) (omega arith))
