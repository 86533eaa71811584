-- ===== src/Token/Tests/Units.antt =====
-- The unit tests of contracts/token(erc20)/src/contract.rs, run.
use shard_token.Common.{Bool, true, ◌&&◌, ◌≡◌, refl, ◌++◌, some, none}
use shard_token.Common.Outcome.{ok}
use shard_token.Common.Words.{Bytes, be_bytes, be_value, from_be_bytes, to_be_bytes}
use shard_token.Common.Texts.{as_bytes, digits, to_string}
use shard_token.Platform.Samples.{function_bucket}
use shard_token.Platform.Storage.{string_eq, pair_eq}
use shard_token.Platform.Testing.{passes}
use shard_token.Token.Msg.{QueryResponse, balance_response, allowance_response}
use shard_token.Token.Store.{
  Host, bytes_to_u128, balance_at, allowance_at, read_balance, read_allowance, write_balance,
  write_allowance,
}
use shard_token.Token.Contract.{
  is_valid_name, is_valid_symbol, supply_at, perform_transfer, try_transfer, try_transfer_from,
  try_approve, try_burn, execute, store_balances, instantiate, query,
}
use shard_token.Token.Scenarios.{Mocks, Test}
use shard_token.Token.Scenarios.Instantiating
use shard_token.Token.Scenarios.Transfers
use shard_token.Token.Scenarios.Approvals
use shard_token.Token.Scenarios.Spending
use shard_token.Token.Scenarios.Burns
use shard_token.Token.Scenarios.Answering

-- answers as the texts that JSON has for them
abbrev json : QueryResponse → Bytes
json (balance_response n) = as_bytes "{\"balance\":\"" ++ to_string n ++ as_bytes "\"}"
json (allowance_response n) = as_bytes "{\"allowance\":\"" ++ to_string n ++ as_bytes "\"}"

-- The constants are stored as their name alone, as the tests have no other symbol or decimals.
abbrev host : Host
host = record {
  Binary = Bytes;
  config_area = function_bucket;
  balances_area = function_bucket;
  allowances_area = function_bucket;
  addr_validate = λ a. ok a;
  to_vec = λ c. ok c.name;
  to_binary = λ q. ok (json q);
}

abbrev mocks : Mocks
mocks = record {
  host = host;
  storage = record { config = λ k. none; balances = λ k. none; allowances = λ k. none };
  from_slice = λ bytes. some (record { name = bytes; symbol = as_bytes "CASH"; decimals = 9 });
  as_slice = λ b. b;
}

abbrev passed : {A : Type 0} → (Test mocks A) → Bool
passed test = passes test mocks.storage

all_instantiating :
    (passed (Instantiating.works mocks)
      && passed (Instantiating.works_with_empty_balance mocks)
      && passed (Instantiating.works_with_multiple_balances mocks)
      && passed (Instantiating.works_with_balance_larger_than_53_bit mocks)
      && passed (Instantiating.works_with_balance_larger_than_64_bit mocks)
      && passed (Instantiating.fails_for_large_decimals mocks)
      && passed (Instantiating.fails_for_name_too_short mocks)
      && passed (Instantiating.fails_for_name_too_long mocks)
      && passed (Instantiating.fails_for_symbol_too_short mocks)
      && passed (Instantiating.fails_for_symbol_too_long mocks)
      && passed (Instantiating.fails_for_symbol_lowercase mocks))
    ≡ true
unfolding instantiate store_balances is_valid_name is_valid_symbol balance_at supply_at
    bytes_to_u128 write_balance from_be_bytes to_be_bytes be_bytes be_value
all_instantiating = refl

all_transfers :
    (passed (Transfers.can_send_to_existing_recipient mocks)
      && passed (Transfers.can_send_to_non_existent_recipient mocks)
      && passed (Transfers.can_send_zero_amount mocks)
      && passed (Transfers.can_send_to_sender mocks)
      && passed (Transfers.fails_on_insufficient_balance mocks))
    ≡ true
unfolding instantiate store_balances is_valid_name is_valid_symbol balance_at supply_at
    bytes_to_u128 write_balance read_balance from_be_bytes to_be_bytes be_bytes be_value execute
    try_transfer perform_transfer
all_transfers = refl

all_approvals :
    (passed (Approvals.has_zero_allowance_by_default mocks)
      && passed (Approvals.can_set_allowance mocks))
    ≡ true
unfolding instantiate store_balances is_valid_name is_valid_symbol balance_at allowance_at supply_at
    bytes_to_u128 write_balance write_allowance read_allowance from_be_bytes to_be_bytes be_bytes
    be_value execute try_approve
all_approvals = refl

all_spending :
    (passed (Spending.works mocks)
      && passed (Spending.fails_when_allowance_too_low mocks)
      && passed (Spending.fails_when_allowance_is_set_but_balance_too_low mocks))
    ≡ true
unfolding instantiate store_balances is_valid_name is_valid_symbol balance_at allowance_at supply_at
    bytes_to_u128 write_balance read_balance write_allowance read_allowance from_be_bytes
    to_be_bytes be_bytes be_value execute try_approve try_transfer_from perform_transfer
all_spending = refl

all_burns :
    (passed (Burns.can_burn_from_existing_account mocks)
      && passed (Burns.can_burn_zero_amount mocks)
      && passed (Burns.fails_on_insufficient_balance mocks))
    ≡ true
unfolding instantiate store_balances is_valid_name is_valid_symbol balance_at supply_at
    bytes_to_u128 write_balance read_balance from_be_bytes to_be_bytes be_bytes be_value execute
    try_burn
all_burns = refl

all_answering :
    (passed (Answering.can_query_balance_of_existing_address mocks)
      && passed (Answering.can_query_balance_of_nonexisting_address mocks)
      && passed (Answering.can_query_allowance_of_existing_addresses mocks)
      && passed (Answering.can_query_allowance_of_nonexisting_owner mocks))
    ≡ true
unfolding instantiate store_balances is_valid_name is_valid_symbol balance_at allowance_at supply_at
    bytes_to_u128 write_balance read_balance write_allowance read_allowance from_be_bytes
    to_be_bytes be_bytes be_value execute try_approve query digits to_string
all_answering = refl
