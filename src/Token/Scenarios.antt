-- ===== src/Token/Scenarios.antt =====
-- The unit tests of contracts/token(erc20)/src/contract.rs as runs of the model: what they share. What
-- they take of `cosmwasm_std::testing` is a parameter.
pub mod Instantiating
pub mod Transfers
pub mod Approvals
pub mod Spending
pub mod Burns
pub mod Answering
use shard_token.Common.{ℕ, String, Bool, ◌&&◌, Option, some, none, List, [], ◌∷◌, nat_eq}
use shard_token.Common.Outcome.{Outcome, ok, err, panic, or_panic, Action, lift, gets, ◌>>=◌, ◌>>◌}
use shard_token.Common.Words.{Bytes}
use shard_token.Common.Texts.{as_bytes}
use shard_token.Platform.Messages.{MessageInfo, Response, Attribute}
use shard_token.Platform.Testing.{unwrap, assert, is_nil, same_list, same_attributes}
use shard_token.Token.Msg.{Constants, InitialBalance, InstantiateMsg, ExecuteMsg, ContractError}
use shard_token.Token.Store.{Host, Store, key_constants, balance_at, allowance_at}
use shard_token.Token.Contract.{supply_at, instantiate, execute}

-- A host with an empty storage, `mock_dependencies_with_balance(&[])`, the decoder of the constants,
-- and the bytes of an encoded answer.
pub record Mocks : Type 1 where
  pub host : Host
  pub storage : Store host
  pub from_slice : Bytes → Option Constants
  pub as_slice : Host.Binary host → Bytes

-- `mock_env_height`: no handler reads the block.
abbrev pub mock_env_height : String → MessageInfo
mock_env_height signer = record { sender = signer }

abbrev pub same_bytes : Bytes → Bytes → Bool
same_bytes = same_list nat_eq

abbrev pub same_constants : Constants → Constants → Bool
same_constants a b =
    same_bytes a.name b.name && same_bytes a.symbol b.symbol && nat_eq a.decimals b.decimals

abbrev pub row : String → ℕ → InitialBalance
row address amount = record { address = address; amount = amount }

-- the message of most tests, for the rows
abbrev pub cash : List InitialBalance → InstantiateMsg
cash rows = record {
  name = as_bytes "Cash Token";
  symbol = as_bytes "CASH";
  decimals = 9;
  initial_balances = rows;
}

-- `make_instantiate_msg` of the modules on transfers and approvals
abbrev pub make_instantiate_msg : InstantiateMsg
make_instantiate_msg = cash (row "addr0000" 11 ∷ row "addr1111" 22 ∷ row "addrbbbb" 33 ∷ [])

abbrev pub make_spender : String
make_spender = "dadadadadadadada"

module _ (m : Mocks) where
  abbrev pub Test : Type 0 → Type 0
  Test A = Action (Store m.host) ContractError A

  abbrev pub get_constants : Test Constants
  get_constants s = (
    elim (m.host.config_area.get key_constants s.config) [
      | none ↦ panic
      | some stored ↦ or_panic (m.from_slice stored)
    ],
    s,
  )

  abbrev pub get_total_supply : Test ℕ
  get_total_supply = unwrap (λ s. (supply_at m.host s, s))

  abbrev pub get_balance : String → Test ℕ
  get_balance address = unwrap (λ s. (balance_at m.host address s, s))

  abbrev pub get_allowance : String → String → Test ℕ
  get_allowance owner spender = unwrap (λ s. (allowance_at m.host owner spender s, s))

  -- `assert_eq!` on one of these
  abbrev pub equals : Test ℕ → ℕ → Test (Unit {0})
  equals got expected = do value ← got; assert (nat_eq value expected)

  -- `instantiate` by "creator", which succeeds and sends no messages
  abbrev pub created : InstantiateMsg → Test (Unit {0})
  created msg = do res ← unwrap (instantiate m.host msg); assert (is_nil res.messages)

  -- a message of `signer` that succeeds, sends no messages and shows the attributes
  abbrev pub executed : String → ExecuteMsg → List Attribute → Test (Unit {0})
  executed signer msg attributes = do
    res ← unwrap (execute m.host (mock_env_height signer) msg)
    assert (is_nil res.messages)
    assert (same_attributes res.attributes attributes)

  -- the three accounts of `make_instantiate_msg`, and the supply
  abbrev pub holds : ℕ → ℕ → ℕ → Test (Unit {0})
  holds first second third = do
    equals (get_balance "addr0000") first
    equals (get_balance "addr1111") second
    equals (get_balance "addrbbbb") third
    equals get_total_supply 66
