-- ===== src/Staking/Tests/Spent.antt =====
-- A bond and a withdrawal from `instantiate` on, with what they pay.
use shard_token.Common.{◌+◌, ◌≤◌, refl, arith}
use shard_token.Platform.Messages.{empty_response}
use shard_token.Staking.Msg.{ExecuteMsg}
use shard_token.Staking.Store.{config_of, state_of, info_of}
use shard_token.Staking.Rewards.Slots.{schedule_owes, amounts}
use shard_token.Staking.Solvency.History.{Trace, begin, call, Trace-solvent}
use shard_token.Staking.Solvency.Budget.{IsQuiet, Trace-budget}
use shard_token.Staking.Tests.{
  host, caller, at, genesis, blank, instantiates, unknown_staker, started, slots, bonded, hundred,
  bond_response, withdrawn, withdraw_response,
}
use shard_token.Staking.Tests.History.{bond_call, withdraw_call}

spent : Trace host started 500000 500000 1 withdrawn
unfolding config_of state_of schedule_owes
spent =
    call 0 0 1 bonded
      (call 0 0 0 started (begin refl refl refl) (at 100) (caller "lp") (ExecuteMsg.receive hundred)
        bond_response bond_call refl refl refl)
      (at 150) (caller "alice") ExecuteMsg.withdraw withdraw_response withdraw_call refl refl refl

Trace-solvent_example : 500000 + (info_of host "alice" withdrawn).pending_reward ≤ 500000 + 1
Trace-solvent_example =
    Trace-solvent host (at 0) genesis blank started withdrawn empty_response 500000 500000 1 "alice"
      unknown_staker instantiates spent

spent-IsQuiet : IsQuiet 0 spent
unfolding spent
spent-IsQuiet = (refl, omega arith, (refl, omega arith, tt))

Trace-budget_example : 500000 + (info_of host "alice" withdrawn).pending_reward ≤ amounts slots + 1
Trace-budget_example =
    Trace-budget host (at 0) genesis blank started withdrawn empty_response 500000 500000 1 "alice"
      unknown_staker instantiates spent spent-IsQuiet
