-- ===== src/Airdrop/Contract.antt =====
-- The entry points of the airdrop contract and their handlers, contracts/airdrop/src/contract.rs.
use shard_token.Common.{
  ℕ, String, Bool, true, false, Option, some, none, List, [], ◌∷◌, ◌++◌, ltb, nat_eq, ◌==◌, ◌&&◌,
  ◌+◌, if◌then◌else◌,
}
use shard_token.Common.Outcome.{
  Outcome, ok, err, panic, map_err, or_panic, Action, pure, lift, raise_if, ◌>>=◌, ◌>>◌,
}
use shard_token.Common.Words.{Bytes}
use shard_token.Platform.Errors.{StdError}
use shard_token.Platform.Messages.{
  MessageInfo, attr, text, number, wasm_execute, transfer, Response, empty_response,
}
use shard_token.Airdrop.Msg.{
  InstantiateMsg, ExecuteMsg, QueryMsg, QueryResponse, config_response, merkle_root_response,
  latest_stage_response, is_claimed_response, Config, ContractError, std, already_claimed,
  invalid_hex_proof, invalid_hex_merkle, merkle_verification, unauthorized,
}
use shard_token.Airdrop.Leaf.{user_input}
use shard_token.Airdrop.Store.{
  Host, Store, store_config, read_config, store_latest_stage, read_latest_stage, store_merkle_root,
  read_merkle_root, store_claimed, read_claimed,
}

-- `+` on `u8`
abbrev pub add_u8 : ℕ → ℕ → Outcome ContractError ℕ
add_u8 a b = if ltb (a + b) 256 then ok (a + b) else panic

-- `bytes_cmp(a, b) == Ordering::Less`, byte by byte from the first
unfoldable pub bytes_less : Bytes → Bytes → Bool
bytes_less [] [] = false
bytes_less [] (b ∷ ys) = false
bytes_less (a ∷ xs) [] = false
bytes_less (a ∷ xs) (b ∷ ys) =
    let rest = bytes_less xs ys in if ltb b a then false else if ltb a b then true else rest

-- equality of two arrays of bytes
unfoldable pub bytes_eq : Bytes → Bytes → Bool
bytes_eq [] [] = true
bytes_eq [] (b ∷ ys) = false
bytes_eq (a ∷ xs) [] = false
bytes_eq (a ∷ xs) (b ∷ ys) = nat_eq a b && bytes_eq xs ys

-- `if let Some(owner) = owner`
abbrev pub changed_owner :
    Option String → Config → (String → Outcome StdError String) → Outcome StdError Config
changed_owner none config canonicalize = ok config
changed_owner (some owner) config canonicalize = elim (canonicalize owner) [
  | ok raw ↦ ok (record config { owner = raw })
  | err e ↦ err e
  | panic ↦ panic
]

abbrev pub decoded : ContractError → Option Bytes → Outcome ContractError Bytes
decoded e none = err e
decoded e (some bytes) = ok bytes

module _ (h : Host) where
  abbrev pub Run : Type 0 → Type 0
  Run A = Action (Store h) ContractError A

  abbrev pub host_call : {A : Type 0} → Outcome StdError A → Run A
  host_call r = lift (map_err std r)

  unfoldable pub instantiate : InstantiateMsg → Run (Response h.Binary)
  instantiate msg = do
    owner ← host_call (h.addr_canonicalize msg.owner)
    shard_token ← host_call (h.addr_canonicalize msg.shard_token)
    store_config h (record { owner = owner; shard_token = shard_token })
    store_latest_stage h 0
    pure empty_response

  unfoldable pub update_config : MessageInfo → Option String → Run (Response h.Binary)
  update_config info owner = do
    config ← read_config h
    sender ← host_call (h.addr_canonicalize info.sender)
    raise_if (if sender == config.owner then false else true) unauthorized
    changed ← host_call (changed_owner owner config h.addr_canonicalize)
    store_config h changed
    pure (record { messages = []; attributes = attr "action" (text "update_config") ∷ [] })

  unfoldable pub register_merkle_root : MessageInfo → String → Run (Response h.Binary)
  register_merkle_root info merkle_root = do
    config ← read_config h
    sender ← host_call (h.addr_canonicalize info.sender)
    raise_if (if sender == config.owner then false else true) unauthorized
    root_buf ← lift (decoded invalid_hex_merkle (h.decode_to_slice merkle_root))
    latest_stage ← read_latest_stage h
    stage ← lift (add_u8 latest_stage 1)
    store_merkle_root h stage merkle_root
    store_latest_stage h stage
    pure (record {
      messages = [];
      attributes =
          attr "action" (text "register_merkle_root")
          ∷ attr "stage" (number stage)
          ∷ attr "merkle_root" (text merkle_root)
          ∷ [];
    })

  -- one level of the tree
  abbrev pub combine : Bytes → Bytes → Bytes
  combine hash proof_buf =
      if bytes_less hash proof_buf
      then h.digest (hash ++ proof_buf)
      else h.digest (proof_buf ++ hash)

  -- the loop over the proof
  unfoldable pub climb : List String → Bytes → Outcome ContractError Bytes
  climb [] hash = ok hash
  climb (p ∷ proof) hash = elim (h.decode_to_slice p) [
    | none ↦ err invalid_hex_proof
    | some proof_buf ↦ climb proof (combine hash proof_buf)
  ]

  unfoldable pub claim : MessageInfo → ℕ → ℕ → List String → Run (Response h.Binary)
  claim info stage amount proof = do
    config ← read_config h
    merkle_root ← read_merkle_root h stage
    user_raw ← host_call (h.addr_canonicalize info.sender)
    claimed ← read_claimed h user_raw stage
    raise_if claimed already_claimed
    hash ← lift (climb proof (h.digest (user_input info.sender amount)))
    root_buf ← lift (or_panic (h.decode_to_slice merkle_root))
    raise_if (if bytes_eq root_buf hash then false else true) merkle_verification
    store_claimed h user_raw stage
    contract_addr ← host_call (h.addr_humanize config.shard_token)
    msg ← host_call (h.to_binary (transfer info.sender amount))
    pure (record {
      messages = wasm_execute contract_addr msg ∷ [];
      attributes =
          attr "action" (text "claim")
          ∷ attr "stage" (number stage)
          ∷ attr "address" (text info.sender)
          ∷ attr "amount" (number amount)
          ∷ [];
    })

  unfoldable pub execute : MessageInfo → ExecuteMsg → Run (Response h.Binary)
  execute info (ExecuteMsg.update_config owner) = update_config info owner
  execute info (ExecuteMsg.register_merkle_root merkle_root) = register_merkle_root info merkle_root
  execute info (ExecuteMsg.claim stage amount proof) = claim info stage amount proof

  unfoldable pub query_config : Run QueryResponse
  query_config = do
    config ← read_config h
    owner ← host_call (h.addr_humanize config.owner)
    shard_token ← host_call (h.addr_humanize config.shard_token)
    pure (config_response owner shard_token)

  unfoldable pub query_merkle_root : ℕ → Run QueryResponse
  query_merkle_root stage = do
    merkle_root ← read_merkle_root h stage
    pure (merkle_root_response stage merkle_root)

  unfoldable pub query_latest_stage : Run QueryResponse
  query_latest_stage = do
    latest_stage ← read_latest_stage h
    pure (latest_stage_response latest_stage)

  unfoldable pub query_is_claimed : ℕ → String → Run QueryResponse
  query_is_claimed stage address = do
    user_raw ← host_call (h.addr_canonicalize address)
    is_claimed ← read_claimed h user_raw stage
    pure (is_claimed_response is_claimed)

  -- The handlers of queries answer with a `StdError`, which stands under `std` here.
  abbrev query_answer : QueryMsg → Run QueryResponse
  query_answer QueryMsg.config = query_config
  query_answer (QueryMsg.merkle_root stage) = query_merkle_root stage
  query_answer QueryMsg.latest_stage = query_latest_stage
  query_answer (QueryMsg.is_claimed stage address) = query_is_claimed stage address

  unfoldable pub query : QueryMsg → Run h.Binary
  query msg = do answer ← query_answer msg; host_call (h.response_to_binary answer)

  unfoldable pub migrate : Run (Response h.Binary)
  migrate = pure empty_response
