-- ===== src/Token/Scenarios/Burns.antt =====
-- `mod burn` of the tests of contracts/token(erc20)/src/contract.rs.
use shard_token.Common.{ℕ, List, [], ◌∷◌}
use shard_token.Common.Outcome.{◌>>◌}
use shard_token.Platform.Messages.{Attribute, attr, text, number}
use shard_token.Platform.Testing.{expect_err}
use shard_token.Token.Msg.{InstantiateMsg, ExecuteMsg}
use shard_token.Token.Contract.{execute}
use shard_token.Token.Scenarios.{
  Mocks, Test, row, cash, mock_env_height, get_balance, get_total_supply, equals, created, executed,
}
use shard_token.Token.Scenarios.Transfers.{is_short}

abbrev pub make_instantiate_msg : InstantiateMsg
make_instantiate_msg = cash (row "addr0000" 11 ∷ row "addr1111" 22 ∷ [])

-- what a burning by "addr0000" shows
abbrev burned : ℕ → List Attribute
burned amount =
    attr "action" (text "burn")
    ∷ attr "account" (text "addr0000")
    ∷ attr "amount" (number amount)
    ∷ []

module _ (m : Mocks) where
  -- the two accounts and the supply
  abbrev hold : ℕ → ℕ → ℕ → Test m (Unit {0})
  hold first second supply = do
    equals m (get_balance m "addr0000") first
    equals m (get_balance m "addr1111") second
    equals m (get_total_supply m) supply

  abbrev pub can_burn_from_existing_account : Test m (Unit {0})
  can_burn_from_existing_account = do
    created m make_instantiate_msg
    hold 11 22 33
    executed m "addr0000" (ExecuteMsg.burn 1) (burned 1)
    hold 10 22 32

  abbrev pub can_burn_zero_amount : Test m (Unit {0})
  can_burn_zero_amount = do
    created m make_instantiate_msg
    hold 11 22 33
    executed m "addr0000" (ExecuteMsg.burn 0) (burned 0)
    hold 11 22 33

  abbrev pub fails_on_insufficient_balance : Test m (Unit {0})
  fails_on_insufficient_balance = do
    created m make_instantiate_msg
    hold 11 22 33
    expect_err (is_short 11 12) (execute m.host (mock_env_height "addr0000") (ExecuteMsg.burn 12))
    hold 11 22 33
