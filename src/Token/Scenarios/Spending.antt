-- ===== src/Token/Scenarios/Spending.antt =====
-- `mod transfer_from` of the tests of contracts/token(erc20)/src/contract.rs.
use shard_token.Common.{ℕ, Bool, false, ◌&&◌, nat_eq, [], ◌∷◌}
use shard_token.Common.Outcome.{◌>>◌}
use shard_token.Platform.Messages.{attr, text}
use shard_token.Platform.Testing.{expect_err}
use shard_token.Token.Msg.{ExecuteMsg, ContractError, insufficient_allowance}
use shard_token.Token.Contract.{execute}
use shard_token.Token.Scenarios.{
  Mocks, Test, make_instantiate_msg, make_spender, mock_env_height, get_balance, get_allowance,
  equals, created, executed,
}
use shard_token.Token.Scenarios.Transfers.{is_short}
use shard_token.Token.Scenarios.Approvals.{approved}

-- `InsufficientAllowance` with these numbers
abbrev is_refused : ℕ → ℕ → ContractError → Bool
is_refused allowance required (insufficient_allowance a r) = nat_eq a allowance && nat_eq r required
is_refused allowance required _ = false

module _ (m : Mocks) where
  -- "addr0000" approves the amount, as each of the tests begins.
  abbrev allowed : ℕ → Test m (Unit {0})
  allowed amount = do
    created m make_instantiate_msg
    executed m "addr0000" (ExecuteMsg.approve make_spender amount)
        (approved "addr0000" make_spender)
    equals m (get_balance m "addr0000") 11
    equals m (get_allowance m "addr0000" make_spender) amount

  abbrev pub works : Test m (Unit {0})
  works = do
    allowed 4
    executed m make_spender (ExecuteMsg.transfer_from "addr0000" "addr1212" 3) (
        attr "action" (text "transfer_from")
        ∷ attr "spender" (text make_spender)
        ∷ attr "sender" (text "addr0000")
        ∷ attr "recipient" (text "addr1212")
        ∷ [])
    equals m (get_balance m "addr0000") 8
    equals m (get_allowance m "addr0000" make_spender) 1

  abbrev pub fails_when_allowance_too_low : Test m (Unit {0})
  fails_when_allowance_too_low = do
    allowed 2
    expect_err (is_refused 2 3) (
        execute m.host (mock_env_height make_spender)
          (ExecuteMsg.transfer_from "addr0000" "addr1212" 3))

  abbrev pub fails_when_allowance_is_set_but_balance_too_low : Test m (Unit {0})
  fails_when_allowance_is_set_but_balance_too_low = do
    allowed 20
    expect_err (is_short 11 15) (
        execute m.host (mock_env_height make_spender)
          (ExecuteMsg.transfer_from "addr0000" "addr1212" 15))
