-- ===== src/Token/Scenarios/Answering.antt =====
-- `mod query` of the tests of contracts/token(erc20)/src/contract.rs.
use shard_token.Common.{String, [], ◌∷◌}
use shard_token.Common.Outcome.{◌>>=◌, ◌>>◌}
use shard_token.Common.Texts.{as_bytes}
use shard_token.Platform.Testing.{unwrap, assert}
use shard_token.Token.Msg.{InstantiateMsg, ExecuteMsg, QueryMsg}
use shard_token.Token.Contract.{query}
use shard_token.Token.Scenarios.{Mocks, Test, row, cash, same_bytes, created, executed}
use shard_token.Token.Scenarios.Approvals.{approved}

-- The addresses are those of the indices 1, 2 and 3 in `address`; the tests have no others but 4.
abbrev pub make_instantiate_msg : InstantiateMsg
make_instantiate_msg = cash (row "addr1111" 11 ∷ row "addr4321" 22 ∷ row "addr5432" 33 ∷ [])

module _ (m : Mocks) where
  -- a query whose answer is these bytes
  abbrev answers : QueryMsg → String → Test m (Unit {0})
  answers msg expected = do
    query_result ← unwrap (query m.host msg)
    assert (same_bytes (m.as_slice query_result) (as_bytes expected))

  abbrev pub can_query_balance_of_existing_address : Test m (Unit {0})
  can_query_balance_of_existing_address = do
    created m make_instantiate_msg
    answers (QueryMsg.balance "addr1111") "{\"balance\":\"11\"}"

  abbrev pub can_query_balance_of_nonexisting_address : Test m (Unit {0})
  can_query_balance_of_nonexisting_address = do
    created m make_instantiate_msg
    answers (QueryMsg.balance "addr6543") "{\"balance\":\"0\"}"

  -- `address(2)` approves 42 for `address(1)`.
  abbrev approves : Test m (Unit {0})
  approves = do
    created m make_instantiate_msg
    executed m "addr4321" (ExecuteMsg.approve "addr1111" 42) (approved "addr4321" "addr1111")

  abbrev pub can_query_allowance_of_existing_addresses : Test m (Unit {0})
  can_query_allowance_of_existing_addresses = do
    approves
    answers (QueryMsg.allowance "addr4321" "addr1111") "{\"allowance\":\"42\"}"

  abbrev pub can_query_allowance_of_nonexisting_owner : Test m (Unit {0})
  can_query_allowance_of_nonexisting_owner = do
    approves
    answers (QueryMsg.allowance "addr4321" "addr5432") "{\"allowance\":\"0\"}"
    answers (QueryMsg.allowance "addr5432" "addr1111") "{\"allowance\":\"0\"}"
