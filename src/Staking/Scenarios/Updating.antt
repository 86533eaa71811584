-- ===== src/Staking/Scenarios/Updating.antt =====
-- `test_update_config` of contracts/staking/src/testing.rs.
use shard_token.Common.{ℕ, ◌+◌, List, [], ◌∷◌}
use shard_token.Common.Outcome.{◌>>=◌, ◌>>◌}
use shard_token.Platform.Messages.{attr, text}
use shard_token.Platform.Testing.{unwrap, assert, same_attributes}
use shard_token.Staking.Msg.{Slot, ExecuteMsg}
use shard_token.Staking.Scenarios.{
  Mocks, Test, env_after, slot, instantiated, called, bonded, with_minter, assert_sends, refused,
  config_is,
}

module _ (m : Mocks) where
  -- slots of a hundred seconds, one after the other, with these amounts
  abbrev hundreds : ℕ → List ℕ → List Slot
  hundreds from [] = []
  hundreds from (amount ∷ amounts) = slot m from (from + 100) amount ∷ hundreds (from + 100) amounts

  abbrev schedule : List ℕ → List Slot
  schedule amounts = hundreds 0 amounts

  -- an update by "gov0000" that is accepted and then shown by the query
  abbrev updated : List ℕ → Test m (Unit {0})
  updated amounts = do
    with_minter m "gov0000"
    res ← unwrap (called m (env_after m 0) "gov0000" (ExecuteMsg.update_config (schedule amounts)))
    assert (same_attributes res.attributes (attr "action" (text "update_config") ∷ []))
    config_is m (schedule amounts)

  -- an update of a slot that has begun
  abbrev removes_started : Test m (Unit {0})
  removes_started = do
    with_minter m "gov0000"
    refused m (env_after m 0) "gov0000"
        (ExecuteMsg.update_config
          (schedule (5000000 ∷ 10000000 ∷ 10000000 ∷ 10000000 ∷ 10000000 ∷ [])))
        "new schedule removes already started distribution"

  abbrev pub test_update_config : Test m (Unit {0})
  test_update_config = do
    instantiated m (schedule (1000000 ∷ 10000000 ∷ 10000000 ∷ 10000000 ∷ 10000000 ∷ []))
    with_minter m "gov0000"
    refused m (env_after m 0) "notgov" (ExecuteMsg.update_config (slot m 300 400 10000000 ∷ []))
        "unauthorized"
    bonded m (env_after m 0) 100
    res ← unwrap (called m (env_after m 100) "addr0000" ExecuteMsg.withdraw)
    assert_sends m res "reward0000" "addr0000" 1000000
    removes_started
    bonded m (env_after m 100) 100
    _ ← unwrap (called m (env_after m 200) "addr0000" ExecuteMsg.withdraw)
    removes_started
    updated (1000000 ∷ 10000000 ∷ 10000000 ∷ 20000000 ∷ 10000000 ∷ [])
    updated (1000000 ∷ 10000000 ∷ 10000000 ∷ 20000000 ∷ 50000000 ∷ [])
    updated (1000000 ∷ 10000000 ∷ 10000000 ∷ 90000000 ∷ 80000000 ∷ [])
    updated (1000000 ∷ 10000000 ∷ 10000000 ∷ 90000000 ∷ 80000000 ∷ 60000000 ∷ [])
