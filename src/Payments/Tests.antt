-- ===== src/Payments/Tests.antt =====
-- A reward and a claim that the token pays, on hosts that encode a transfer as itself.
use shard_token.Common.{ℕ, ◌*◌, ◌^◌, String, ◌≡◌, refl, arith, Option, some, [], ◌∷◌, eq_iff, false}
use shard_token.Common.Outcome.{ok, err}
use shard_token.Common.Sums.{contains}
use shard_token.Platform.Errors.{generic_err}
use shard_token.Platform.Messages.{Response, Cw20ExecuteMsg, transfer, wasm_execute}
use shard_token.Token.Msg.{InstantiateMsg, ExecuteMsg}
use shard_token.Token.Store.{Store as TokenStore}
use shard_token.Token.Genesis.{begun}
use shard_token.Token.Genesis.Sound.{begun_ledger, begun-Represents}
use shard_token.Token.Supply.{IsSound}
use shard_token.Token.Covered.{Transferred}
use shard_token.Token.Tests.{host as token_host, empty, genesis, fresh}
use shard_token.Staking.Msg.{StakerInfoResponse, Cw20HookMsg}
use shard_token.Staking.Store.{
  Host as StakingHost, Store as StakingStore, config_of, state_of, info_of,
}
use shard_token.Staking.Rewards.{
  prorated, slot_amount, distributed, compute_reward, compute_staker_reward,
}
use shard_token.Staking.Contract.{withdraw}
use shard_token.Staking.Queries.{query_staker_info}
use shard_token.Staking.Tests.{host as staking_host, caller, at, bonded, config_with, slots}
use shard_token.Airdrop.Store.{
  Host as AirdropHost, Store as AirdropStore, config_of as airdrop_config, root_of, has_claimed,
}
use shard_token.Airdrop.Leaf.{user_input}
use shard_token.Airdrop.Contract.{claim}
use shard_token.Airdrop.Merkle.{hash_of, Proof, leaf, at_leaf, in_left}
use shard_token.Airdrop.Tests.{
  host as airdrop_host, alice, allocation, open_stage, decode as decode_hex,
}
use shard_token.Payments.{Decodes, withdraw-Transferred, claim-Transferred}

abbrev decode : Cw20ExecuteMsg → Option ExecuteMsg
decode (transfer recipient amount) = some (ExecuteMsg.transfer recipient amount)

-- the token, with what the two contracts hold
abbrev funded : InstantiateMsg
funded = record genesis { initial_balances = record { address = "vault"; amount = 900000 } ∷ [] }

abbrev tokens : TokenStore token_host
tokens = begun token_host funded (97 ∷ 98 ∷ 99 ∷ []) empty

vault_alone :
    (a : String)
    → contains ("vault" ∷ []) a ≡ false
    → (begun_ledger token_host funded empty (97 ∷ 98 ∷ 99 ∷ [])).balance a ≡ 0
vault_alone a absent = ground (arith, eq_iff "vault" a, eq_iff a "vault")

abbrev tokens-IsSound : IsSound token_host tokens
tokens-IsSound = record {
  ledger = begun_ledger token_host funded empty (97 ∷ 98 ∷ 99 ∷ []);
  represents = begun-Represents token_host funded empty (97 ∷ 98 ∷ 99 ∷ []) (omega arith) fresh;
  backed = record {
    names = "vault" ∷ [];
    distinct = (refl, tt);
    covered = vault_alone;
    summed = refl;
  };
}

abbrev staking : StakingHost
staking = record staking_host {
  Binary = Cw20ExecuteMsg;
  hook_from_binary = λ b. some Cw20HookMsg.bond;
  to_binary = λ m. ok m;
  minter_query = err (generic_err "no query");
  query_smart = λ token query. ok "governor";
  response_to_binary = λ r. err (generic_err "no answer");
}

abbrev stakers : StakingStore staking
stakers = record { config = bonded.config; state = bonded.state; rewards = bonded.rewards }

abbrev answer : StakerInfoResponse ℕ
answer = record {
  staker = "alice";
  reward_index = 5 * 10 ^ 21;
  bond_amount = 100;
  pending_reward = 500000;
}

asks : query_staker_info staking "alice" (some 150) stakers ≡ (ok answer, stakers)
unfolding query_staker_info config_of state_of info_of compute_reward compute_staker_reward
    distributed slot_amount prorated
asks = refl

configured : config_of staking stakers ≡ ok (config_with slots)
unfolding config_of
configured = refl

decodes : Decodes staking.to_binary decode
decodes recipient amount msg e = ground arith

withdraw-Transferred_example :
    (r : Response Cw20ExecuteMsg) × ((withdraw staking (at 150) (caller "alice") stakers).0 ≡ ok r)
    × (r.messages ≡ wasm_execute "shard" (transfer "alice" 500000) ∷ [])
    × (m : ExecuteMsg) × (decode (transfer "alice" 500000) ≡ some m)
    × Transferred token_host tokens-IsSound.ledger "vault" "alice" 500000 m tokens
withdraw-Transferred_example =
    withdraw-Transferred staking token_host decode (at 150) (caller "alice") stakers stakers answer
      (config_with slots) "shard" (transfer "alice" 500000) tokens tokens-IsSound "vault" "alice"
      decodes asks configured refl refl refl refl (omega arith)

abbrev airdrop : AirdropHost
airdrop = record airdrop_host {
  Binary = Cw20ExecuteMsg;
  to_binary = λ m. ok m;
  response_to_binary = λ r. err (generic_err "no answer");
}

abbrev claimants : AirdropStore airdrop
claimants = record {
  config = open_stage.config;
  stage = open_stage.stage;
  roots = open_stage.roots;
  claims = open_stage.claims;
}

owned : airdrop_config airdrop claimants ≡ ok (record { owner = "owner"; shard_token = "shard" })
unfolding airdrop_config
owned = refl

root_found : root_of airdrop 1 claimants ≡ ok "root"
unfolding root_of
root_found = refl

root_decoded : airdrop.decode_to_slice "root" ≡ some (hash_of airdrop allocation)
unfolding decode_hex hash_of
root_decoded = refl

leaf_decoded : airdrop.decode_to_slice "leaf" ≡ some (hash_of airdrop (leaf (user_input "bob" 9)))
unfolding decode_hex hash_of
leaf_decoded = refl

proved : Proof airdrop allocation (user_input "alice" 7) ("leaf" ∷ [])
proved = in_left "leaf" at_leaf leaf_decoded refl

unclaimed : has_claimed airdrop "alice" 1 claimants ≡ false
unfolding has_claimed
unclaimed = refl

claim-Transferred_example :
    (r : Response Cw20ExecuteMsg) × ((claim airdrop alice 1 7 ("leaf" ∷ []) claimants).0 ≡ ok r)
    × (r.messages ≡ wasm_execute "shard" (transfer "alice" 7) ∷ [])
    × (m : ExecuteMsg) × (decode (transfer "alice" 7) ≡ some m)
    × Transferred token_host tokens-IsSound.ledger "vault" "alice" 7 m tokens
claim-Transferred_example =
    claim-Transferred airdrop token_host decode alice 1 7 ("leaf" ∷ []) claimants
      (record { owner = "owner"; shard_token = "shard" }) allocation "root" "alice" "shard"
      (transfer "alice" 7) tokens tokens-IsSound "vault" "alice" decodes owned root_found
      root_decoded proved refl unclaimed refl refl refl refl (omega arith)
