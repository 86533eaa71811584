-- ===== src/Staking/MockQuerier.antt =====
-- The querier of the staking tests, contracts/staking/src/mock_querier.rs. `MockQuerier` and the
-- decoders of `cosmwasm_std` are parameters.
use shard_token.Common.{String, Option, some, none, ◌⊎◌, inl, inr}
use shard_token.Common.Outcome.{Outcome, ok, err, panic, map_err}
use shard_token.Platform.Errors.{StdError}
use shard_token.Staking.Store.{Host, Store}

-- `MinterQuerier::default()` has the empty address.
pub record MinterQuerier : Type 0 where
  pub minter_addr : String

abbrev pub minter_querier_default : MinterQuerier
minter_querier_default = record { minter_addr = "" }

pub data QueryMsg : Type 0 where
  minter : QueryMsg

-- `QueryRequest`: `WasmQuery::Smart`, or one for the base querier
pub data QueryRequest (Binary : Type 0) (Other : Type 0) : Type 0 where
  smart : String → Binary → QueryRequest Binary Other
  other : Other → QueryRequest Binary Other

-- `SystemError::InvalidRequest`: the parser's error, without the words before it, and the request
pub data SystemError (Binary : Type 0) : Type 0 where
  invalid_request : String → Binary → SystemError Binary

-- What the querier uses of `cosmwasm_std`: its storage, services and encoders, the requests that the
-- base querier answers, the decoders of requests and of the query for the minter, and what a contract
-- sees of a system error. An answer is the minter that it decodes to.
pub record Base : Type 1 where
  pub host : Host
  pub storage : Store host
  pub Other : Type 0
  pub base_query : Other → Outcome (SystemError (Host.Binary host)) String
  pub request_from_slice : Host.Binary host → String ⊎ QueryRequest (Host.Binary host) Other
  pub query_from_binary : Host.Binary host → Option QueryMsg
  pub system_error : SystemError (Host.Binary host) → StdError

module _ (b : Base) where
  -- The field `base` is the same for every querier.
  pub record WasmMockQuerier : Type 0 where
    pub minter_querier : MinterQuerier

  abbrev pub Request : Type 0
  Request = QueryRequest b.host.Binary b.Other

  abbrev pub Result : Type 0
  Result = Outcome (SystemError b.host.Binary) String

  -- Any other query to a contract aborts.
  abbrev answer_minter : WasmMockQuerier → Option QueryMsg → Result
  answer_minter querier (some QueryMsg.minter) = ok querier.minter_querier.minter_addr
  answer_minter querier none = panic

  abbrev pub handle_query : WasmMockQuerier → Request → Result
  handle_query querier (smart _ msg) = answer_minter querier (b.query_from_binary msg)
  handle_query querier (other request) = b.base_query request

  -- `Querier::raw_query`
  abbrev pub raw_query : WasmMockQuerier → b.host.Binary → Result
  raw_query querier bin_request = elim (b.request_from_slice bin_request) [
    | inr request ↦ handle_query querier request
    | inl error ↦ err (invalid_request error bin_request)
  ]

  -- `WasmMockQuerier::new`
  abbrev pub new : WasmMockQuerier
  new = record { minter_querier = minter_querier_default }

  -- The host of a contract whose queries this querier answers.
  abbrev pub mocked : WasmMockQuerier → Host
  mocked querier = record b.host {
    query_smart = λ contract_addr msg.
        map_err b.system_error (handle_query querier (smart contract_addr msg));
  }

  -- `OwnedDeps`: the querier, and the storage
  pub record Deps : Type 0 where
    pub querier : WasmMockQuerier
    pub storage : Store (mocked querier)

  abbrev pub mock_dependencies : Deps
  mock_dependencies = record {
    querier = new;
    storage = record {
      config = b.storage.config;
      state = b.storage.state;
      rewards = b.storage.rewards;
    };
  }

  abbrev pub with_anc_minter : String → Deps → Deps
  with_anc_minter minter_addr deps = record {
    querier = record { minter_querier = record { minter_addr = minter_addr } };
    storage = record {
      config = deps.storage.config;
      state = deps.storage.state;
      rewards = deps.storage.rewards;
    };
  }
