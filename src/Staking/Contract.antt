-- ===== src/Staking/Contract.antt =====
-- `instantiate`, `execute`, its handlers and `migrate` of contracts/staking/src/contract.rs, and
-- querier.rs.
use shard_token.Common.{
  ℕ, String, true, false, ◌&&◌, ◌==◌, Option, some, none, List, [], ◌∷◌, ltb, nat_eq, if◌then◌else◌,
}
use shard_token.Common.Outcome.{Outcome, and_then, Action, pure, raise, lift, raise_if, ◌>>=◌, ◌>>◌}
use shard_token.Platform.Errors.{StdError, generic_err}
use shard_token.Platform.Messages.{
  MessageInfo, Env, Attribute, attr, text, number, CosmosMsg, wasm_execute, transfer, Response,
  empty_response,
}
use shard_token.Staking.Msg.{Slot, InstantiateMsg, Cw20ReceiveMsg, Cw20HookMsg, ExecuteMsg, State}
use shard_token.Staking.Store.{
  Host, Store, store_config, read_config, store_state, read_state, store_staker_info,
  remove_staker_info, read_staker_info,
}
use shard_token.Staking.Rewards.{
  checked_sub, compute_reward, compute_staker_reward, increase_bond_amount, decrease_bond_amount,
}
use shard_token.Staking.Schedules.{assert_new_schedules, sum_amounts, retain_started, close_slots}

abbrev pub unauthorized : StdError
unauthorized = generic_err "unauthorized"

abbrev pub bond_exceeded : StdError
bond_exceeded = generic_err "Cannot unbond more than bond amount"

module _ (h : Host) where
  abbrev pub Run : Type 0 → Type 0
  Run A = Action (Store h) StdError A

  abbrev pub StateOf : Type 0
  StateOf = State h.decimals.Decimal

  abbrev pub send : CosmosMsg h.Binary → List Attribute → Response h.Binary
  send message attributes = record { messages = message ∷ []; attributes = attributes }

  -- `query_anc_minter` of querier.rs
  abbrev pub query_anc_minter : String → Outcome StdError String
  query_anc_minter shard_token = and_then h.minter_query (λ msg. h.query_smart shard_token msg)

  unfoldable pub instantiate : Env → InstantiateMsg → Run (Response h.Binary)
  instantiate env msg = do
    shard_token ← lift (h.addr_canonicalize msg.shard_token)
    staking_token ← lift (h.addr_canonicalize msg.staking_token)
    store_config h (record {
      shard_token = shard_token;
      staking_token = staking_token;
      distribution_schedule = msg.distribution_schedule;
    })
    store_state h (record {
      last_distributed = env.seconds;
      total_bond_amount = 0;
      global_reward_index = h.decimals.zero;
    })
    pure empty_response

  unfoldable pub bond : Env → String → ℕ → Run (Response h.Binary)
  bond env sender_addr amount = do
    sender_addr_raw ← lift (h.addr_canonicalize sender_addr)
    config ← read_config h
    state ← read_state h
    staker_info ← read_staker_info h sender_addr_raw
    rewarded ← lift (compute_reward h.decimals config state env.seconds)
    settled ← lift (compute_staker_reward h.decimals rewarded staker_info)
    bonded ← lift (increase_bond_amount h.decimals rewarded settled amount)
    store_staker_info h sender_addr_raw bonded.1
    store_state h bonded.0
    pure (record {
      messages = [];
      attributes =
          attr "action" (text "bond")
          ∷ attr "owner" (text sender_addr)
          ∷ attr "amount" (number amount)
          ∷ [];
    })

  -- `from_binary` of the hook message fails, or it is `Bond {}`, the one constructor.
  abbrev pub hook : Option Cw20HookMsg → Run (Response h.Binary) → Run (Response h.Binary)
  hook none run = raise (generic_err "data should be given")
  hook (some Cw20HookMsg.bond) run = run

  unfoldable pub receive_cw20 :
      Env → MessageInfo → Cw20ReceiveMsg h.Binary → Run (Response h.Binary)
  receive_cw20 env info cw20_msg = do
    config ← read_config h
    hook (h.hook_from_binary cw20_msg.msg) (do
      caller ← lift (h.addr_canonicalize info.sender)
      raise_if (if config.staking_token == caller then false else true) unauthorized
      cw20_sender ← lift (h.addr_validate cw20_msg.sender)
      bond env cw20_sender cw20_msg.amount)

  unfoldable pub unbond : Env → MessageInfo → ℕ → Run (Response h.Binary)
  unbond env info amount = do
    config ← read_config h
    sender_addr_raw ← lift (h.addr_canonicalize info.sender)
    state ← read_state h
    staker_info ← read_staker_info h sender_addr_raw
    raise_if (ltb staker_info.bond_amount amount) bond_exceeded
    rewarded ← lift (compute_reward h.decimals config state env.seconds)
    settled ← lift (compute_staker_reward h.decimals rewarded staker_info)
    bonded ← lift (decrease_bond_amount h.decimals rewarded settled amount)
    (if nat_eq bonded.1.pending_reward 0 && nat_eq bonded.1.bond_amount 0
        then remove_staker_info h sender_addr_raw
        else store_staker_info h sender_addr_raw bonded.1)
    store_state h bonded.0
    contract_addr ← lift (h.addr_humanize config.staking_token)
    msg ← lift (h.to_binary (transfer info.sender amount))
    pure (
        send (wasm_execute contract_addr msg) (
          attr "action" (text "unbond")
          ∷ attr "owner" (text info.sender)
          ∷ attr "amount" (number amount)
          ∷ []))

  unfoldable pub withdraw : Env → MessageInfo → Run (Response h.Binary)
  withdraw env info = do
    sender_addr_raw ← lift (h.addr_canonicalize info.sender)
    config ← read_config h
    state ← read_state h
    staker_info ← read_staker_info h sender_addr_raw
    rewarded ← lift (compute_reward h.decimals config state env.seconds)
    settled ← lift (compute_staker_reward h.decimals rewarded staker_info)
    (if nat_eq settled.bond_amount 0
        then remove_staker_info h sender_addr_raw
        else store_staker_info h sender_addr_raw (record settled { pending_reward = 0 }))
    store_state h rewarded
    contract_addr ← lift (h.addr_humanize config.shard_token)
    msg ← lift (h.to_binary (transfer info.sender settled.pending_reward))
    pure (
        send (wasm_execute contract_addr msg) (
          attr "action" (text "withdraw")
          ∷ attr "owner" (text info.sender)
          ∷ attr "amount" (number settled.pending_reward)
          ∷ []))

  unfoldable pub update_config : MessageInfo → List Slot → Run (Response h.Binary)
  update_config info distribution_schedule = do
    config ← read_config h
    state ← read_state h
    sender_addr_raw ← lift (h.addr_canonicalize info.sender)
    anc_token ← lift (h.addr_humanize config.shard_token)
    minter ← lift (query_anc_minter anc_token)
    gov_addr_raw ← lift (h.addr_canonicalize minter)
    raise_if (if sender_addr_raw == gov_addr_raw then false else true) unauthorized
    lift (assert_new_schedules config state distribution_schedule)
    store_config h (record config { distribution_schedule = distribution_schedule })
    pure (record { messages = []; attributes = attr "action" (text "update_config") ∷ [] })

  unfoldable pub migrate_staking : Env → MessageInfo → String → Run (Response h.Binary)
  migrate_staking env info new_staking_contract = do
    sender_addr_raw ← lift (h.addr_canonicalize info.sender)
    config ← read_config h
    state ← read_state h
    anc_token ← lift (h.addr_humanize config.shard_token)
    minter ← lift (query_anc_minter anc_token)
    gov_addr_raw ← lift (h.addr_canonicalize minter)
    raise_if (if sender_addr_raw == gov_addr_raw then false else true) unauthorized
    rewarded ← lift (compute_reward h.decimals config state env.seconds)
    total_distribution_amount ← lift (sum_amounts config.distribution_schedule 0)
    closed ← lift (
        close_slots h.decimals env.seconds (retain_started env.seconds config.distribution_schedule)
          0)
    store_config h (record config { distribution_schedule = closed.0 })
    store_state h rewarded
    remaining_anc ← lift (checked_sub total_distribution_amount closed.1)
    msg ← lift (h.to_binary (transfer new_staking_contract remaining_anc))
    pure (
        send (wasm_execute anc_token msg) (
          attr "action" (text "migrate_staking")
          ∷ attr "distributed_amount" (number closed.1)
          ∷ attr "remaining_amount" (number remaining_anc)
          ∷ []))

  unfoldable pub execute : Env → MessageInfo → ExecuteMsg h.Binary → Run (Response h.Binary)
  execute env info (ExecuteMsg.receive msg) = receive_cw20 env info msg
  execute env info (ExecuteMsg.unbond amount) = unbond env info amount
  execute env info ExecuteMsg.withdraw = withdraw env info
  execute env info (ExecuteMsg.migrate_staking new_staking_contract) =
      migrate_staking env info new_staking_contract
  execute env info (ExecuteMsg.update_config distribution_schedule) =
      update_config info distribution_schedule

  unfoldable pub migrate : Run (Response h.Binary)
  migrate = pure empty_response
