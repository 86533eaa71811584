-- ===== src/Token/Tests.antt =====
-- The token contract of contracts/token(erc20)/src on a host whose areas are functions.
mod Units
mod Spender
use shard_token.Common.{ℕ, String, ◌≡◌, refl, arith, [], ◌∷◌, none, some, if◌then◌else◌, ◌==◌, ◌≢◌}
use shard_token.Common.Outcome.{ok, err, panic}
use shard_token.Common.Sums.{AllDistinct}
use shard_token.Common.Words.{Bytes, be_bytes, be_value, from_be_bytes, to_be_bytes}
use shard_token.Platform.Messages.{MessageInfo, attr, text, number, Response, empty_response}
use shard_token.Platform.Samples.{function_bucket}
use shard_token.Platform.Storage.{string_eq, pair_eq}
use shard_token.Token.Msg.{InstantiateMsg, ExecuteMsg, corrupted_data_found}
use shard_token.Token.Store.{Host, Store, bytes_to_u128, balance_at}
use shard_token.Token.Contract.{execute, try_burn, supply_at, instantiate}
use shard_token.Token.Ledger.{apply}
use shard_token.Token.Represents.{Represents, bytes_to_u128-to_be_bytes, bytes_to_u128_ends}
use shard_token.Token.Refines.{Implements, execute-Implements}
use shard_token.Token.Supply.{
  IsSound, EndsSound, here, next, accepted, execute-EndsSound, Reach-IsSound,
}
use shard_token.Token.Genesis.{IsAcceptable, begun, instantiate_acceptable, accepted-IsAcceptable}
use shard_token.Token.Genesis.Sound.{
  addresses, IsFresh, begun_ledger, begun-Represents, instantiate-IsSound, instantiate_duplicate,
}

abbrev pub host : Host
host = record {
  Binary = ℕ;
  config_area = function_bucket;
  balances_area = function_bucket;
  allowances_area = function_bucket;
  addr_validate = λ a. ok a;
  to_vec = λ c. ok c.name;
  to_binary = λ q. ok 0;
}

abbrev pub empty : Store host
empty = record { config = λ k. none; balances = λ k. none; allowances = λ k. none }

abbrev pub caller : String → MessageInfo
caller a = record { sender = a }

-- "abc" and "TOK", with two rows
abbrev pub genesis : InstantiateMsg
genesis = record {
  name = 97 ∷ 98 ∷ 99 ∷ [];
  symbol = 84 ∷ 79 ∷ 75 ∷ [];
  decimals = 6;
  initial_balances =
      record { address = "alice"; amount = 70 } ∷ record { address = "bob"; amount = 30 } ∷ [];
}

-- the same with two rows for one address
abbrev repeated : InstantiateMsg
repeated = record genesis {
  initial_balances =
      record { address = "alice"; amount = 70 } ∷ record { address = "alice"; amount = 30 } ∷ [];
}

abbrev pub start : Store host
start = begun host genesis (97 ∷ 98 ∷ 99 ∷ []) empty

genesis-IsAcceptable : IsAcceptable genesis
genesis-IsAcceptable = record {
  name_from = omega arith;
  name_to = omega arith;
  symbol_from = omega arith;
  symbol_to = omega arith;
  symbol_upper =
      (omega arith, omega arith, (omega arith, omega arith, (omega arith, omega arith, tt)));
  decimals_to = omega arith;
  supply_fits = omega arith;
}

repeated-IsAcceptable : IsAcceptable repeated
repeated-IsAcceptable = record {
  name_from = omega arith;
  name_to = omega arith;
  symbol_from = omega arith;
  symbol_to = omega arith;
  symbol_upper =
      (omega arith, omega arith, (omega arith, omega arith, (omega arith, omega arith, tt)));
  decimals_to = omega arith;
  supply_fits = omega arith;
}

pub fresh : IsFresh host empty
fresh = (λ a. refl, λ o p. refl)

pub start-Represents : Represents host start (begun_ledger host genesis empty (97 ∷ 98 ∷ 99 ∷ []))
start-Represents =
    begun-Represents host genesis empty (97 ∷ 98 ∷ 99 ∷ []) genesis-IsAcceptable.supply_fits fresh

abbrev transfer_20 : ExecuteMsg
transfer_20 = ExecuteMsg.transfer "bob" 20

execute-Implements_example :
    Implements host
      (apply host.addr_validate "alice" transfer_20
        (begun_ledger host genesis empty (97 ∷ 98 ∷ 99 ∷ [])))
      (execute host (caller "alice") transfer_20 start)
execute-Implements_example =
    execute-Implements host start (begun_ledger host genesis empty (97 ∷ 98 ∷ 99 ∷ []))
      (caller "alice") transfer_20 start-Represents tt

bytes_to_u128-to_be_bytes_example : bytes_to_u128 (to_be_bytes 258) ≡ ok 258
bytes_to_u128-to_be_bytes_example = bytes_to_u128-to_be_bytes 258 (omega arith)

instantiate_acceptable_example : instantiate host genesis empty ≡ (ok empty_response, start)
instantiate_acceptable_example =
    instantiate_acceptable host genesis empty (97 ∷ 98 ∷ 99 ∷ []) refl genesis-IsAcceptable

instantiates : (instantiate host genesis empty).0 ≡ ok empty_response
instantiates = rw instantiate_acceptable_example

accepted-IsAcceptable_example : IsAcceptable genesis
accepted-IsAcceptable_example = accepted-IsAcceptable host genesis empty empty_response instantiates

distinct_rows : AllDistinct (addresses genesis.initial_balances)
distinct_rows = (refl, (refl, tt))

instantiate-IsSound_example : IsSound host (instantiate host genesis empty).1
instantiate-IsSound_example =
    instantiate-IsSound host genesis empty (97 ∷ 98 ∷ 99 ∷ []) refl genesis-IsAcceptable
      distinct_rows fresh

instantiate_duplicate_example : ¬ IsSound host (instantiate host repeated empty).1
instantiate_duplicate_example =
    instantiate_duplicate host repeated empty (97 ∷ 98 ∷ 99 ∷ []) "alice" 70 30 refl (omega arith)
      refl repeated-IsAcceptable fresh

answers : (a : String) → host.addr_validate a ≢ panic
answers a e = ground arith

execute-EndsSound_example :
    EndsSound host (execute host (caller "alice") transfer_20 (instantiate host genesis empty).1)
execute-EndsSound_example =
    execute-EndsSound host (instantiate host genesis empty).1 (caller "alice") transfer_20 answers
      tt instantiate-IsSound_example

abbrev burnt : Response ℕ
burnt = record {
  messages = [];
  attributes =
      attr "action" (text "burn") ∷ attr "account" (text "bob") ∷ attr "amount" (number 10) ∷ [];
}

abbrev after_burn : Store host
after_burn = record start {
  config = λ k. if "total_supply" == k then some (to_be_bytes 90) else start.config k;
  balances = λ k. if "bob" == k then some (to_be_bytes 20) else start.balances k;
}

burns : execute host (caller "bob") (ExecuteMsg.burn 10) start ≡ (ok burnt, after_burn)
unfolding execute try_burn balance_at supply_at bytes_to_u128 from_be_bytes to_be_bytes be_bytes
    be_value
burns = refl

start-IsSound : IsSound host start
start-IsSound = rw instantiate_acceptable_example at instantiate-IsSound_example

Reach-IsSound_example : IsSound host after_burn
Reach-IsSound_example =
    Reach-IsSound host answers
      (next here (accepted after_burn (caller "bob") (ExecuteMsg.burn 10) burnt tt burns))
      start-IsSound

abbrev three_bytes : Bytes
three_bytes = 1 ∷ 2 ∷ 3 ∷ []

bytes_to_u128_ends_example :
    (bytes_to_u128 three_bytes ≡ panic) × (bytes_to_u128 three_bytes ≢ err corrupted_data_found)
bytes_to_u128_ends_example = bytes_to_u128_ends three_bytes
