-- ===== src/Token/Contract.antt =====
-- The entry points of the token and their handlers, contracts/token(erc20)/src/contract.rs.
use shard_token.Common.{
  ℕ, String, Bool, true, false, ◌||◌, Option, some, none, List, [], ◌∷◌, ltb, length, if◌then◌else◌,
}
use shard_token.Common.Outcome.{
  Outcome, ok, err, panic, map_err, Action, pure, lift, modify, raise_if, ◌>>=◌, ◌>>◌,
}
use shard_token.Common.Words.{Bytes, to_be_bytes, add_u128, sub_word}
use shard_token.Platform.Errors.{StdError}
use shard_token.Platform.Messages.{
  MessageInfo, Attribute, attr, text, number, Response, empty_response,
}
use shard_token.Token.Msg.{
  InitialBalance, InstantiateMsg, ExecuteMsg, QueryMsg, balance_response, allowance_response,
  ContractError, std, name_wrong_format, ticker_wrong_symbol_format, decimals_exceeded,
  insufficient_allowance, insufficient_funds,
}
use shard_token.Token.Store.{
  Host, Store, key_constants, key_total_supply, bytes_to_u128, read_balance, read_allowance,
  write_balance, write_allowance,
}

unfoldable pub is_valid_name : Bytes → Bool
is_valid_name name = if ltb (length name) 3 || ltb 30 (length name) then false else true

-- the loop over the bytes of the symbol
abbrev pub all_upper : Bytes → Bool
all_upper [] = true
all_upper (byte ∷ rest) =
    let more = all_upper rest in if ltb byte 65 || ltb 90 byte then false else more

unfoldable pub is_valid_symbol : Bytes → Bool
is_valid_symbol symbol =
    if ltb (length symbol) 3 || ltb 6 (length symbol) then false else all_upper symbol

module _ (h : Host) where
  abbrev pub Run : Type 0 → Type 0
  Run A = Action (Store h) ContractError A

  -- `?` on what the host answers
  abbrev pub host_call : {A : Type 0} → Outcome StdError A → Run A
  host_call r = lift (map_err std r)

  abbrev pub answer : List Attribute → Response h.Binary
  answer attributes = record { messages = []; attributes = attributes }

  abbrev pub write_config : String → Bytes → Run (Unit {0})
  write_config key bytes = modify (λ s. record s { config = h.config_area.set key bytes s.config })

  -- `get(KEY_TOTAL_SUPPLY).expect(…)`, then `bytes_to_u128(…).unwrap()`
  abbrev unwrap_supply : Option Bytes → Outcome ContractError ℕ
  unwrap_supply none = panic
  unwrap_supply (some bytes) = elim (bytes_to_u128 bytes) [
    | ok v ↦ ok v
    | err _ ↦ panic
    | panic ↦ panic
  ]

  unfoldable pub supply_at : Store h → Outcome ContractError ℕ
  supply_at s = unwrap_supply (h.config_area.get key_total_supply s.config)

  unfoldable pub perform_transfer : String → String → ℕ → Run (Unit {0})
  unfolding read_balance write_balance
  perform_transfer from to amount = do
    from_balance ← read_balance h from
    raise_if (ltb from_balance amount) (insufficient_funds from_balance amount)
    left ← lift (sub_word from_balance amount)
    write_balance h from left
    to_balance ← read_balance h to
    sum ← lift (add_u128 to_balance amount)
    write_balance h to sum

  unfoldable pub try_transfer : MessageInfo → String → ℕ → Run (Response h.Binary)
  try_transfer info recipient amount = do
    to ← host_call (h.addr_validate recipient)
    perform_transfer info.sender to amount
    pure (
        answer (
          attr "action" (text "transfer")
          ∷ attr "sender" (text info.sender)
          ∷ attr "recipient" (text recipient)
          ∷ []))

  unfoldable pub try_transfer_from : MessageInfo → String → String → ℕ → Run (Response h.Binary)
  unfolding read_allowance write_allowance
  try_transfer_from info owner recipient amount = do
    owner_address ← host_call (h.addr_validate owner)
    recipient_address ← host_call (h.addr_validate recipient)
    allowance ← read_allowance h owner_address info.sender
    raise_if (ltb allowance amount) (insufficient_allowance allowance amount)
    left ← lift (sub_word allowance amount)
    write_allowance h owner_address info.sender left
    perform_transfer owner_address recipient_address amount
    pure (
        answer (
          attr "action" (text "transfer_from")
          ∷ attr "spender" (text info.sender)
          ∷ attr "sender" (text owner)
          ∷ attr "recipient" (text recipient)
          ∷ []))

  unfoldable pub try_approve : MessageInfo → String → ℕ → Run (Response h.Binary)
  unfolding write_allowance
  try_approve info spender amount = do
    spender_address ← host_call (h.addr_validate spender)
    write_allowance h info.sender spender_address amount
    pure (
        answer (
          attr "action" (text "approve")
          ∷ attr "owner" (text info.sender)
          ∷ attr "spender" (text spender)
          ∷ []))

  unfoldable pub try_burn : MessageInfo → ℕ → Run (Response h.Binary)
  unfolding read_balance write_balance
  try_burn info amount = do
    account_balance ← read_balance h info.sender
    raise_if (ltb account_balance amount) (insufficient_funds account_balance amount)
    left ← lift (sub_word account_balance amount)
    write_balance h info.sender left
    total_supply ← (λ s. (supply_at s, s))
    rest ← lift (sub_word total_supply amount)
    write_config key_total_supply (to_be_bytes rest)
    pure (
        answer (
          attr "action" (text "burn")
          ∷ attr "account" (text info.sender)
          ∷ attr "amount" (number amount)
          ∷ []))

  unfoldable pub execute : MessageInfo → ExecuteMsg → Run (Response h.Binary)
  execute info (ExecuteMsg.approve spender amount) = try_approve info spender amount
  execute info (ExecuteMsg.transfer recipient amount) = try_transfer info recipient amount
  execute info (ExecuteMsg.transfer_from owner recipient amount) =
      try_transfer_from info owner recipient amount
  execute info (ExecuteMsg.burn amount) = try_burn info amount

  -- the loop over `initial_balances`, from the total so far
  unfoldable pub store_balances : List InitialBalance → ℕ → Run ℕ
  unfolding write_balance
  store_balances [] total = pure total
  store_balances (row ∷ rows) total = do
    write_balance h row.address row.amount
    sum ← lift (add_u128 total row.amount)
    store_balances rows sum

  unfoldable pub instantiate : InstantiateMsg → Run (Response h.Binary)
  unfolding is_valid_name is_valid_symbol
  instantiate msg = do
    total_supply ← store_balances msg.initial_balances 0
    raise_if (if is_valid_name msg.name then false else true) name_wrong_format
    raise_if (if is_valid_symbol msg.symbol then false else true) ticker_wrong_symbol_format
    raise_if (ltb 18 msg.decimals) decimals_exceeded
    constants ←
        host_call
          (h.to_vec (record { name = msg.name; symbol = msg.symbol; decimals = msg.decimals }))
    write_config key_constants constants
    write_config key_total_supply (to_be_bytes total_supply)
    pure empty_response

  unfoldable pub query : QueryMsg → Run h.Binary
  unfolding read_balance read_allowance
  query (QueryMsg.balance address) = do
    address_key ← host_call (h.addr_validate address)
    balance ← read_balance h address_key
    host_call (h.to_binary (balance_response balance))
  query (QueryMsg.allowance owner spender) = do
    owner_key ← host_call (h.addr_validate owner)
    spender_key ← host_call (h.addr_validate spender)
    allowance ← read_allowance h owner_key spender_key
    host_call (h.to_binary (allowance_response allowance))
