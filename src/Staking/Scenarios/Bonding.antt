-- ===== src/Staking/Scenarios/Bonding.antt =====
-- `proper_initialization`, `test_bond_tokens` and `test_unbond` of contracts/staking/src/testing.rs.
use shard_token.Common.{none, [], ◌∷◌}
use shard_token.Common.Outcome.{◌>>=◌, ◌>>◌}
use shard_token.Platform.Testing.{unwrap}
use shard_token.Staking.Msg.{ExecuteMsg}
use shard_token.Staking.Scenarios.{
  Mocks, Test, env_after, two_slots, instantiated, called, bond_message, bonded, assert_sends,
  refused, config_is, state_is, staker_is,
}

module _ (m : Mocks) where
  abbrev pub proper_initialization : Test m (Unit {0})
  proper_initialization = do
    instantiated m ((100, 200, 1000000) ∷ [])
    config_is m ((100, 200, 1000000) ∷ [])
    state_is m 0 0 0

  abbrev pub test_bond_tokens : Test m (Unit {0})
  test_bond_tokens = do
    instantiated m (two_slots m)
    bonded m (env_after m 0) 100
    staker_is m none 0 0 100
    state_is m 0 100 0
    bonded m (env_after m 10) 100
    staker_is m none 1000 100000 200
    state_is m 10 200 1000
    msg ← bond_message m 100
    refused m (env_after m 0) "staking0001" msg "unauthorized"

  abbrev pub test_unbond : Test m (Unit {0})
  test_unbond = do
    instantiated m ((12345, 12445, 1000000) ∷ (12445, 12545, 10000000) ∷ [])
    bonded m (env_after m 0) 100
    refused m (env_after m 0) "addr0000" (ExecuteMsg.unbond 150)
        "Cannot unbond more than bond amount"
    res ← unwrap (called m (env_after m 0) "addr0000" (ExecuteMsg.unbond 100))
    assert_sends m res "staking0000" "addr0000" 100
