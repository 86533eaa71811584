-- ===== src/Staking/Scenarios.antt =====
-- The unit tests of contracts/staking/src/testing.rs as runs of the model: what they share. What they
-- take of `cosmwasm_std` is a parameter.
pub mod Bonding
pub mod Rewarding
pub mod Updating
use shard_token.Common.{
  ℕ, ◌+◌, String, Bool, true, false, ◌&&◌, ◌==◌, Option, List, [], ◌∷◌, nat_eq, if◌then◌else◌,
}
use shard_token.Common.Outcome.{
  Outcome, ok, err, panic, or_panic, Action, lift, modify, ◌>>=◌, ◌>>◌,
}
use shard_token.Platform.Errors.{StdError, generic_err}
use shard_token.Platform.Messages.{
  MessageInfo, Env, Response, Attribute, CosmosMsg, wasm_execute, transfer,
}
use shard_token.Platform.Testing.{unwrap, assert, expect_err, same_list, same_attributes}
use shard_token.Staking.Msg.{
  Slot, InstantiateMsg, Cw20ReceiveMsg, Cw20HookMsg, ExecuteMsg, QueryMsg, ConfigResponse,
  StateResponse, StakerInfoResponse, QueryResponse, config_response, state_response,
  staker_info_response,
}
use shard_token.Staking.Store.{Host, Store}
use shard_token.Staking.Contract.{instantiate, execute}
use shard_token.Staking.Queries.{query}
use shard_token.Staking.MockQuerier.{Base, WasmMockQuerier, Deps, mocked, with_anc_minter}

-- The dependencies, the seconds of `mock_env().block.time`, the encoder of the hook, the decoder of
-- answers, and the comparison of encoded messages.
pub record Mocks : Type 1 where
  pub base : Base
  pub now : ℕ
  pub hook_to_binary : Cw20HookMsg → Outcome StdError (Base.host base).Binary
  pub response_from_binary :
      (Base.host base).Binary → Option (QueryResponse (Base.host base).decimals.Decimal)
  pub same_binary : (Base.host base).Binary → (Base.host base).Binary → Bool

abbrev pub mock_info : String → MessageInfo
mock_info sender = record { sender = sender }

abbrev pub same_slot : Slot → Slot → Bool
same_slot a b = nat_eq a.0 b.0 && nat_eq a.1 b.1 && nat_eq a.2 b.2

abbrev pub is_generic : String → StdError → Bool
is_generic expected (generic_err msg) = msg == expected
is_generic expected _ = false

-- the message of every test, for a schedule
abbrev pub genesis : List Slot → InstantiateMsg
genesis slots = record {
  shard_token = "reward0000";
  staking_token = "staking0000";
  distribution_schedule = slots;
}

module _ (m : Mocks) where
  abbrev Binary : Type 0
  Binary = m.base.host.Binary

  abbrev pub Test : Type 0 → Type 0
  Test A = Action (Deps m.base) StdError A

  -- `mock_env()`, and an environment that many seconds later
  abbrev pub env_after : ℕ → Env
  env_after seconds = record { seconds = m.now + seconds }

  -- a slot by the seconds from `mock_env()` on
  abbrev pub slot : ℕ → ℕ → ℕ → Slot
  slot from to amount = (m.now + from, m.now + to, amount)

  -- a call of the contract on the dependencies
  abbrev on_contract :
      {A : Type 0}
      → ((querier : WasmMockQuerier m.base) → Action (Store (mocked m.base querier)) StdError A)
      → Test A
  on_contract call deps =
      let (r, s) = call deps.querier deps.storage in
      (r, record { querier = deps.querier; storage = s })

  abbrev pub instantiated : List Slot → Test (Unit {0})
  instantiated slots = do
    _ ←
        unwrap (
          on_contract
            (λ querier. instantiate (mocked m.base querier) (env_after 0) (genesis slots)))
    lift (ok tt)

  abbrev pub called : Env → String → ExecuteMsg Binary → Test (Response Binary)
  called env sender msg =
      on_contract (λ querier. execute (mocked m.base querier) env (mock_info sender) msg)

  abbrev asked : QueryMsg → Test (QueryResponse m.base.host.decimals.Decimal)
  asked msg = do
    res ← unwrap (on_contract (λ querier. query (mocked m.base querier) msg))
    lift (or_panic (m.response_from_binary res))

  -- `Cw20HookMsg::Bond {}` from "addr0000" with an amount, in a call by a token
  abbrev pub bond_message : ℕ → Test (ExecuteMsg Binary)
  bond_message amount = do
    msg ← unwrap (lift (m.hook_to_binary Cw20HookMsg.bond))
    lift (ok (ExecuteMsg.receive (record { sender = "addr0000"; amount = amount; msg = msg })))

  abbrev pub bonded : Env → ℕ → Test (Unit {0})
  bonded env amount = do
    msg ← bond_message amount
    _ ← unwrap (called env "staking0000" msg)
    lift (ok tt)

  abbrev pub with_minter : String → Test (Unit {0})
  with_minter minter = modify (with_anc_minter m.base minter)

  -- `assert_eq!` on the messages of a response: one transfer of a token
  abbrev pub assert_sends : Response Binary → String → String → ℕ → Test (Unit {0})
  assert_sends res token recipient amount = do
    expected ← unwrap (lift (m.base.host.to_binary (transfer recipient amount)))
    assert (
        same_list
          (λ a b. elim a [
            | wasm_execute address msg ↦ elim b [
              | wasm_execute address' msg' ↦ address == address' && m.same_binary msg msg'
            ]
          ])
          res.messages (wasm_execute token expected ∷ []))

  abbrev pub refused : Env → String → ExecuteMsg Binary → String → Test (Unit {0})
  refused env sender msg reason = expect_err (is_generic reason) (called env sender msg)

  abbrev same_config : List Slot → QueryResponse m.base.host.decimals.Decimal → Bool
  same_config slots (config_response c) =
      c.shard_token == "reward0000"
      && c.staking_token == "staking0000"
      && same_list same_slot c.distribution_schedule slots
  same_config slots _ = false

  abbrev pub config_is : List Slot → Test (Unit {0})
  config_is slots = do answer ← asked QueryMsg.config; assert (same_config slots answer)

  -- The expected index is `Decimal::from_ratio` of a number and one.
  abbrev whole : ℕ → Test m.base.host.decimals.Decimal
  whole n = lift (or_panic (m.base.host.decimals.from_ratio n 1))

  abbrev same_index : m.base.host.decimals.Decimal → m.base.host.decimals.Decimal → Bool
  same_index a b = nat_eq (m.base.host.decimals.atomics a) (m.base.host.decimals.atomics b)

  abbrev same_state :
      ℕ → ℕ → m.base.host.decimals.Decimal → QueryResponse m.base.host.decimals.Decimal → Bool
  same_state last total index (state_response st) =
      nat_eq st.last_distributed last
      && nat_eq st.total_bond_amount total
      && same_index st.global_reward_index index
  same_state last total index _ = false

  -- the state that is stored: the seconds from `mock_env()` on, the total, and the index
  abbrev pub state_is : ℕ → ℕ → ℕ → Test (Unit {0})
  state_is last total ratio = do
    answer ← asked (QueryMsg.state Option.none)
    index ← whole ratio
    assert (same_state (m.now + last) total index answer)

  abbrev same_staker :
      ℕ → ℕ → m.base.host.decimals.Decimal → QueryResponse m.base.host.decimals.Decimal → Bool
  same_staker bond pending index (staker_info_response i) =
      i.staker == "addr0000"
      && same_index i.reward_index index
      && nat_eq i.bond_amount bond
      && nat_eq i.pending_reward pending
  same_staker bond pending index _ = false

  -- what "addr0000" has, at a time or as stored: the index, the reward, and the bond
  abbrev pub staker_is : Option ℕ → ℕ → ℕ → ℕ → Test (Unit {0})
  staker_is block_time ratio pending bond = do
    answer ← asked (QueryMsg.staker_info "addr0000" block_time)
    index ← whole ratio
    assert (same_staker bond pending index answer)

  -- a million over the first hundred seconds and ten over the next
  abbrev pub two_slots : List Slot
  two_slots = slot 0 100 1000000 ∷ slot 100 200 10000000 ∷ []
