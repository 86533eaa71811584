-- ===== src/Staking/Scenarios/Rewarding.antt =====
-- `test_compute_reward`, `test_withdraw` and `test_migrate_staking` of
-- contracts/staking/src/testing.rs.
use shard_token.Common.{◌+◌, none, some, [], ◌∷◌}
use shard_token.Common.Outcome.{◌>>=◌, ◌>>◌}
use shard_token.Platform.Messages.{attr, text, number}
use shard_token.Platform.Testing.{unwrap, assert, same_attributes}
use shard_token.Staking.Msg.{ExecuteMsg}
use shard_token.Staking.Scenarios.{
  Mocks, Test, env_after, slot, two_slots, instantiated, called, bonded, with_minter, assert_sends,
  refused, config_is, staker_is,
}

module _ (m : Mocks) where
  abbrev pub test_compute_reward : Test m (Unit {0})
  test_compute_reward = do
    instantiated m (two_slots m)
    bonded m (env_after m 0) 100
    bonded m (env_after m 100) 100
    staker_is m none 10000 1000000 200
    _ ← unwrap (called m (env_after m 110) "addr0000" (ExecuteMsg.unbond 100))
    staker_is m none 15000 2000000 100
    staker_is m (some (m.now + 120)) 25000 3000000 100

  -- A hundred seconds after a bond of 100, all of the first slot is paid.
  abbrev pub test_withdraw : Test m (Unit {0})
  test_withdraw = do
    instantiated m (two_slots m)
    bonded m (env_after m 0) 100
    res ← unwrap (called m (env_after m 100) "addr0000" ExecuteMsg.withdraw)
    assert_sends m res "reward0000" "addr0000" 1000000

  abbrev pub test_migrate_staking : Test m (Unit {0})
  test_migrate_staking = do
    instantiated m (two_slots m)
    bonded m (env_after m 0) 100
    res ← unwrap (called m (env_after m 100) "addr0000" ExecuteMsg.withdraw)
    assert_sends m res "reward0000" "addr0000" 1000000
    with_minter m "gov0000"
    refused m (env_after m 150) "notgov0000" (ExecuteMsg.migrate_staking "newstaking0000")
        "unauthorized"
    moved ←
        unwrap (called m (env_after m 150) "gov0000" (ExecuteMsg.migrate_staking "newstaking0000"))
    assert (
        same_attributes moved.attributes (
          attr "action" (text "migrate_staking")
          ∷ attr "distributed_amount" (number 6000000)
          ∷ attr "remaining_amount" (number 5000000)
          ∷ []))
    assert_sends m moved "reward0000" "newstaking0000" 5000000
    config_is m (slot m 0 100 1000000 ∷ slot m 100 150 5000000 ∷ [])
