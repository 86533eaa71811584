-- ===== src/Token/Scenarios/Transfers.antt =====
-- `mod transfer` of the tests of contracts/token(erc20)/src/contract.rs.
use shard_token.Common.{ℕ, String, Bool, false, ◌&&◌, nat_eq, List, [], ◌∷◌}
use shard_token.Common.Outcome.{◌>>◌}
use shard_token.Platform.Messages.{Attribute, attr, text}
use shard_token.Platform.Testing.{expect_err}
use shard_token.Token.Msg.{ExecuteMsg, ContractError, insufficient_funds}
use shard_token.Token.Contract.{execute}
use shard_token.Token.Scenarios.{
  Mocks, Test, make_instantiate_msg, mock_env_height, get_balance, get_total_supply, equals,
  created, executed, holds,
}

-- `InsufficientFunds` with these numbers
abbrev pub is_short : ℕ → ℕ → ContractError → Bool
is_short balance required (insufficient_funds b r) = nat_eq b balance && nat_eq r required
is_short balance required _ = false

-- what a transfer by "addr0000" shows
abbrev sent : String → List Attribute
sent recipient =
    attr "action" (text "transfer")
    ∷ attr "sender" (text "addr0000")
    ∷ attr "recipient" (text recipient)
    ∷ []

module _ (m : Mocks) where
  abbrev pub can_send_to_existing_recipient : Test m (Unit {0})
  can_send_to_existing_recipient = do
    created m make_instantiate_msg
    holds m 11 22 33
    executed m "addr0000" (ExecuteMsg.transfer "addr1111" 1) (sent "addr1111")
    holds m 10 23 33

  abbrev pub can_send_to_non_existent_recipient : Test m (Unit {0})
  can_send_to_non_existent_recipient = do
    created m make_instantiate_msg
    holds m 11 22 33
    executed m "addr0000" (ExecuteMsg.transfer "addr2323" 1) (sent "addr2323")
    equals m (get_balance m "addr0000") 10
    equals m (get_balance m "addr1111") 22
    equals m (get_balance m "addr2323") 1
    equals m (get_balance m "addrbbbb") 33
    equals m (get_total_supply m) 66

  abbrev pub can_send_zero_amount : Test m (Unit {0})
  can_send_zero_amount = do
    created m make_instantiate_msg
    holds m 11 22 33
    executed m "addr0000" (ExecuteMsg.transfer "addr1111" 0) (sent "addr1111")
    holds m 11 22 33

  abbrev pub can_send_to_sender : Test m (Unit {0})
  can_send_to_sender = do
    created m make_instantiate_msg
    equals m (get_balance m "addr0000") 11
    executed m "addr0000" (ExecuteMsg.transfer "addr0000" 3) (sent "addr0000")
    equals m (get_balance m "addr0000") 11

  abbrev pub fails_on_insufficient_balance : Test m (Unit {0})
  fails_on_insufficient_balance = do
    created m make_instantiate_msg
    holds m 11 22 33
    expect_err (is_short 11 12)
        (execute m.host (mock_env_height "addr0000") (ExecuteMsg.transfer "addr1111" 12))
    holds m 11 22 33
