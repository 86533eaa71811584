-- ===== src/Token/Scenarios/Approvals.antt =====
-- `mod approve` of the tests of contracts/token(erc20)/src/contract.rs.
use shard_token.Common.{String, List, [], ◌∷◌}
use shard_token.Common.Outcome.{◌>>◌}
use shard_token.Platform.Messages.{Attribute, attr, text}
use shard_token.Token.Msg.{ExecuteMsg}
use shard_token.Token.Scenarios.{
  Mocks, Test, make_instantiate_msg, make_spender, get_allowance, equals, created, executed,
}

-- what an approval shows
abbrev pub approved : String → String → List Attribute
approved owner spender =
    attr "action" (text "approve") ∷ attr "owner" (text owner) ∷ attr "spender" (text spender) ∷ []

module _ (m : Mocks) where
  abbrev pub has_zero_allowance_by_default : Test m (Unit {0})
  has_zero_allowance_by_default = do
    created m make_instantiate_msg
    equals m (get_allowance m "addr0000" make_spender) 0
    equals m (get_allowance m "addr4567" make_spender) 0

  abbrev pub can_set_allowance : Test m (Unit {0})
  can_set_allowance = do
    created m make_instantiate_msg
    equals m (get_allowance m "addr7654" make_spender) 0
    executed m "addr7654" (ExecuteMsg.approve make_spender 334422)
        (approved "addr7654" make_spender)
    equals m (get_allowance m "addr7654" make_spender) 334422
    executed m "addr7654" (ExecuteMsg.approve make_spender 777888)
        (approved "addr7654" make_spender)
    equals m (get_allowance m "addr7654" make_spender) 777888
