-- ===== src/Staking/Tests/History.antt =====
-- A bond and a withdrawal, one after the other.
use shard_token.Common.{◌≡◌}
use shard_token.Common.Outcome.{ok}
use shard_token.Staking.Msg.{ExecuteMsg}
use shard_token.Staking.Contract.{execute}
use shard_token.Staking.Invariant.{
  IsConsistent, Reach, here, next, called, execute-IsConsistent, Reach-IsConsistent,
}
use shard_token.Staking.Tests.{
  host, caller, at, started, started-IsConsistent, bonded, hundred, bond_response, receives,
  withdrawn, withdraw_response, withdraws,
}

pub bond_call :
    execute host (at 100) (caller "lp") (ExecuteMsg.receive hundred) started
    ≡ (ok bond_response, bonded)
unfolding execute
bond_call = receives

pub withdraw_call :
    execute host (at 150) (caller "alice") ExecuteMsg.withdraw bonded
    ≡ (ok withdraw_response, withdrawn)
unfolding execute
withdraw_call = withdraws

history : Reach host started withdrawn
history =
    next
      (next here
        (called bonded (at 100) (caller "lp") (ExecuteMsg.receive hundred) bond_response bond_call))
      (called withdrawn (at 150) (caller "alice") ExecuteMsg.withdraw withdraw_response
        withdraw_call)

execute-IsConsistent_example : IsConsistent host bonded
execute-IsConsistent_example =
    execute-IsConsistent host (at 100) (caller "lp") (ExecuteMsg.receive hundred) started bonded
      bond_response bond_call started-IsConsistent

Reach-IsConsistent_example : IsConsistent host withdrawn
Reach-IsConsistent_example = Reach-IsConsistent host history started-IsConsistent

pub bonded-IsConsistent : IsConsistent host bonded
bonded-IsConsistent =
    execute-IsConsistent host (at 100) (caller "lp") (ExecuteMsg.receive hundred) started bonded
      bond_response bond_call started-IsConsistent
