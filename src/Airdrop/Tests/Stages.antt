-- ===== src/Airdrop/Tests/Stages.antt =====
-- Roots that are registered, and a claim between them.
use shard_token.Common.{
  ℕ, String, ◌≡◌, refl, arith, some, none, [], ◌∷◌, ltb, nat_eq, ◌&&◌, if◌then◌else◌,
}
use shard_token.Common.Outcome.{ok, err, panic}
use shard_token.Platform.Messages.{MessageInfo, Response, attr, text, number, empty_response}
use shard_token.Airdrop.Msg.{ExecuteMsg, InstantiateMsg, already_claimed}
use shard_token.Airdrop.Store.{Store, config_of, stage_of, root_of}
use shard_token.Airdrop.Contract.{instantiate, register_merkle_root, execute, claim}
use shard_token.Airdrop.Stages.{Registered, register_merkle_root-Registered}
use shard_token.Airdrop.Invariant.{Missing, IsOrderly, instantiate-IsOrderly, execute-IsOrderly}
use shard_token.Airdrop.Invariant.History.{Reach, here, next, called, claimed_for_good}
use shard_token.Airdrop.Invariant.Calm.{IsCalm, execute_aborts}
use shard_token.Airdrop.Tests.{host, alice, open_stage, after_claim, response, claims, decode}

abbrev owner : MessageInfo
owner = record { sender = "owner" }

abbrev genesis : InstantiateMsg
genesis = record { owner = "owner"; shard_token = "shard" }

abbrev blank : Store host
blank = record { config = none; stage = none; roots = λ n. none; claims = λ k. none }

abbrev begun : Store host
begun = record {
  config = some (record { owner = "owner"; shard_token = "shard" });
  stage = some 0;
  roots = λ n. none;
  claims = λ k. none;
}

no_roots : (n : ℕ) → Missing host n blank
unfolding root_of
no_roots n = refl

instantiates : instantiate host genesis blank ≡ (ok empty_response, begun)
unfolding instantiate
instantiates = refl

begun-IsOrderly : IsOrderly host begun
begun-IsOrderly =
    instantiate-IsOrderly host genesis blank begun empty_response no_roots instantiates

abbrev registered : ℕ → Response ℕ
registered stage = record {
  messages = [];
  attributes =
      attr "action" (text "register_merkle_root")
      ∷ attr "stage" (number stage)
      ∷ attr "merkle_root" (text "root")
      ∷ [];
}

registers : register_merkle_root host owner "root" begun ≡ (ok (registered 1), open_stage)
unfolding register_merkle_root config_of stage_of decode
registers = refl

register_merkle_root-Registered_example : Registered host "owner" "root" begun open_stage
register_merkle_root-Registered_example =
    register_merkle_root-Registered host owner "root" begun open_stage (registered 1) registers

register_call :
    execute host owner (ExecuteMsg.register_merkle_root "root") begun
    ≡ (ok (registered 1), open_stage)
unfolding execute
register_call = registers

execute-IsOrderly_example : IsOrderly host open_stage
execute-IsOrderly_example =
    execute-IsOrderly host owner (ExecuteMsg.register_merkle_root "root") begun open_stage
      (registered 1) register_call begun-IsOrderly

open-IsOrderly : IsOrderly host open_stage
open-IsOrderly =
    execute-IsOrderly host owner (ExecuteMsg.register_merkle_root "root") begun open_stage
      (registered 1) register_call begun-IsOrderly

-- a second stage after the claim
abbrev two_stages : Store host
two_stages = record after_claim {
  stage = some 2;
  roots = λ n. if nat_eq 2 n then some "root" else after_claim.roots n;
}

second_call :
    execute host owner (ExecuteMsg.register_merkle_root "root") after_claim
    ≡ (ok (registered 2), two_stages)
unfolding execute register_merkle_root config_of stage_of decode
second_call = refl

later : Reach host after_claim two_stages
later =
    next here
      (called two_stages owner (ExecuteMsg.register_merkle_root "root") (registered 2) second_call)

claimed_for_good_example : claim host alice 1 8 [] two_stages ≡ (err already_claimed, two_stages)
claimed_for_good_example =
    claimed_for_good host alice 1 7 8 ("leaf" ∷ []) [] open_stage after_claim two_stages response
      open-IsOrderly claims later

-- all 255 stages are open
abbrev full : Store host
full = record begun {
  stage = some 255;
  roots = λ n. if ltb 0 n && ltb n 256 then some "root" else none;
}

full-IsOrderly : IsOrderly host full
unfolding config_of stage_of root_of decode
full-IsOrderly = record {
  config = record { owner = "owner"; shard_token = "shard" };
  is_config = refl;
  latest = 255;
  is_latest = refl;
  small = omega arith;
  none_at_zero = refl;
  opened = λ n from to. record { root = "root"; hash = _; is_root = ground arith; is_hash = refl };
  none_after = λ n after. ground arith;
}

calm : IsCalm host
calm = record {
  canonicalize = λ a e. ground arith;
  humanize = λ a e. ground arith;
  encode = λ m e. ground arith;
}

aborts : (execute host owner (ExecuteMsg.register_merkle_root "root") full).0 ≡ panic
unfolding execute register_merkle_root config_of stage_of decode
aborts = refl

execute_aborts_example :
    (root : String) × (ExecuteMsg.register_merkle_root "root"
      ≡ ExecuteMsg.register_merkle_root root)
    × (full-IsOrderly.latest ≡ 255)
execute_aborts_example =
    execute_aborts host owner (ExecuteMsg.register_merkle_root "root") full full-IsOrderly calm
      aborts
