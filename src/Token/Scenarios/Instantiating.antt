-- ===== src/Token/Scenarios/Instantiating.antt =====
-- `mod instantiate` of the tests of contracts/token(erc20)/src/contract.rs.
use shard_token.Common.{ℕ, String, Bool, true, false, [], ◌∷◌}
use shard_token.Common.Outcome.{◌>>=◌, ◌>>◌}
use shard_token.Common.Texts.{as_bytes}
use shard_token.Platform.Testing.{assert, expect_err}
use shard_token.Token.Msg.{
  InstantiateMsg, ContractError, name_wrong_format, ticker_wrong_symbol_format, decimals_exceeded,
}
use shard_token.Token.Contract.{instantiate}
use shard_token.Token.Scenarios.{
  Mocks, Test, row, cash, same_constants, get_constants, get_balance, get_total_supply, equals,
  created,
}

abbrev is_name : ContractError → Bool
is_name name_wrong_format = true
is_name _ = false

abbrev is_symbol : ContractError → Bool
is_symbol ticker_wrong_symbol_format = true
is_symbol _ = false

abbrev is_decimals : ContractError → Bool
is_decimals decimals_exceeded = true
is_decimals _ = false

-- a message with no balances
abbrev named : String → String → ℕ → InstantiateMsg
named name symbol decimals = record {
  name = as_bytes name;
  symbol = as_bytes symbol;
  decimals = decimals;
  initial_balances = [];
}

module _ (m : Mocks) where
  -- one account that holds everything
  abbrev holds_all : ℕ → Test m (Unit {0})
  holds_all amount = do
    created m (cash (row "addr0000" amount ∷ []))
    equals m (get_balance m "addr0000") amount
    equals m (get_total_supply m) amount

  abbrev pub works : Test m (Unit {0})
  works = do
    created m (cash (row "addr0000" 4000 ∷ []))
    constants ← get_constants m
    assert (
        same_constants constants
          (record { name = as_bytes "Cash Token"; symbol = as_bytes "CASH"; decimals = 9 }))
    equals m (get_balance m "addr0000") 4000
    equals m (get_total_supply m) 4000

  abbrev pub works_with_empty_balance : Test m (Unit {0})
  works_with_empty_balance = do created m (cash []); equals m (get_total_supply m) 0

  abbrev pub works_with_multiple_balances : Test m (Unit {0})
  works_with_multiple_balances = do
    created m (cash (row "addr0000" 11 ∷ row "addr1111" 22 ∷ row "addrbbbb" 33 ∷ []))
    equals m (get_balance m "addr0000") 11
    equals m (get_balance m "addr1111") 22
    equals m (get_balance m "addrbbbb") 33
    equals m (get_total_supply m) 66

  abbrev pub works_with_balance_larger_than_53_bit : Test m (Unit {0})
  works_with_balance_larger_than_53_bit = holds_all 9007199254740993

  abbrev pub works_with_balance_larger_than_64_bit : Test m (Unit {0})
  works_with_balance_larger_than_64_bit = holds_all 100000000000000000000000000

  abbrev pub fails_for_large_decimals : Test m (Unit {0})
  fails_for_large_decimals =
      expect_err is_decimals (instantiate m.host (named "Cash Token" "CASH" 42))

  abbrev pub fails_for_name_too_short : Test m (Unit {0})
  fails_for_name_too_short = expect_err is_name (instantiate m.host (named "CC" "CASH" 9))

  abbrev pub fails_for_name_too_long : Test m (Unit {0})
  fails_for_name_too_long =
      expect_err is_name
        (instantiate m.host (named "Cash coin. Cash coin. Cash coin. Cash coin." "CASH" 9))

  abbrev pub fails_for_symbol_too_short : Test m (Unit {0})
  fails_for_symbol_too_short = expect_err is_symbol (instantiate m.host (named "De De" "DD" 9))

  abbrev pub fails_for_symbol_too_long : Test m (Unit {0})
  fails_for_symbol_too_long =
      expect_err is_symbol (instantiate m.host (named "Super Coin" "SUPERCOIN" 9))

  abbrev pub fails_for_symbol_lowercase : Test m (Unit {0})
  fails_for_symbol_lowercase =
      expect_err is_symbol (instantiate m.host (named "Cash Token" "CaSH" 9))
