-- ===== src/Payments.antt =====
-- Where the contracts meet: the messages that contracts/staking/src/contract.rs and
-- contracts/airdrop/src/contract.rs answer with, executed by contracts/token(erc20)/src/contract.rs.
-- How a chain passes a message on is a parameter: the decoder of the bytes that a contract encoded.
mod Tests
use shard_token.Common.{ℕ, ◌≤◌, String, true, false, ◌≡◌, refl, ◌==◌, Option, some, List, [], ◌∷◌}
use shard_token.Common.Outcome.{Outcome, ok}
use shard_token.Platform.Errors.{StdError}
use shard_token.Platform.Messages.{
  MessageInfo, Env, Response, Cw20ExecuteMsg, transfer, wasm_execute,
}
use shard_token.Token.Msg.{ExecuteMsg}
use shard_token.Token.Store.{Host as TokenHost, Store as TokenStore}
use shard_token.Token.Supply.{IsSound}
use shard_token.Token.Covered.{Transferred, transfer-Transferred}
use shard_token.Staking.Msg.{StakerInfoResponse, Config as StakingConfig}
use shard_token.Staking.Store.{
  Host as StakingHost, Store as StakingStore, config_of as staking_config,
}
use shard_token.Staking.Contract.{withdraw}
use shard_token.Staking.Queries.{query_staker_info}
use shard_token.Staking.Queries.Quote.{withdraw_pays_quote}
use shard_token.Airdrop.Msg.{Config as AirdropConfig}
use shard_token.Airdrop.Store.{
  Host as AirdropHost, Store as AirdropStore, config_of as airdrop_config, root_of, has_claimed,
}
use shard_token.Airdrop.Leaf.{user_input}
use shard_token.Airdrop.Contract.{claim}
use shard_token.Airdrop.Merkle.{Tree, hash_of, Proof}
use shard_token.Airdrop.Allocation.{claim_succeeds}

-- The token reads the transfer that a contract encoded.
abbrev pub Decodes :
    {Binary : Type 0}
    → (Cw20ExecuteMsg → Outcome StdError Binary)
    → (Binary → Option ExecuteMsg)
    → Type 0
Decodes {Binary} encode decode =
    (recipient : String) (amount : ℕ) (msg : Binary)
    → encode (transfer recipient amount) ≡ ok msg
    → decode msg ≡ some (ExecuteMsg.transfer recipient amount)

-- A staker whose query for the time of the block is answered can withdraw in that block, and where
-- the token is sound and covers the pending reward of the answer by the balance of the staking
-- contract, the one message of the response is a transfer that the token accepts: the reward reaches
-- the staker. The transfer can be encoded and is decoded, and the staker is not the contract.
pub withdraw-Transferred :
    (h : StakingHost) (k : TokenHost) (decode : h.Binary → Option ExecuteMsg) (env : Env)
    (info : MessageInfo) (s s' : StakingStore h) (answer : StakerInfoResponse h.decimals.Decimal)
    (c : StakingConfig) (token : String) (msg : h.Binary) (t : TokenStore k) (sound : IsSound k t)
    (contract to : String)
    → Decodes h.to_binary decode
    → query_staker_info h info.sender (some env.seconds) s ≡ (ok answer, s')
    → staking_config h s ≡ ok c
    → h.addr_humanize c.shard_token ≡ ok token
    → h.to_binary (transfer info.sender answer.pending_reward) ≡ ok msg
    → k.addr_validate info.sender ≡ ok to
    → (contract == to) ≡ false
    → answer.pending_reward ≤ sound.ledger.balance contract
    → (r : Response h.Binary) × ((withdraw h env info s).0 ≡ ok r)
      × (r.messages ≡ wasm_execute token msg ∷ [])
      × (m : ExecuteMsg) × (decode msg ≡ some m)
      × Transferred k sound.ledger contract to answer.pending_reward m t
withdraw-Transferred h k decode env info s s' answer c token msg t sound contract to decodes asked
      is_c is_token is_msg is_to apart covered =
    let (r, done, sent) =
      withdraw_pays_quote h env info s s' answer c token msg asked is_c is_token is_msg in
    let amount = answer.pending_reward in
    (
      r,
      done,
      sent,
      ExecuteMsg.transfer info.sender amount,
      decodes info.sender amount msg is_msg,
      transfer-Transferred k t sound contract info.sender to amount is_to apart covered,
    )

-- Where a stage's root is the digest of a tree that has the text of a sender and an amount, a sender
-- who has not claimed the stage can claim the amount with the proof of the text, and where the token
-- is sound and covers the amount by the balance of the airdrop, the one message of the response is a
-- transfer that the token accepts: the amount reaches the sender. The transfer can be encoded and is
-- decoded, and the sender is not the airdrop.
pub claim-Transferred :
    (h : AirdropHost) (k : TokenHost) (decode : h.Binary → Option ExecuteMsg) (info : MessageInfo)
    (stage amount : ℕ) (proof : List String) (s : AirdropStore h) (c : AirdropConfig) (tree : Tree)
    (root user token : String) (msg : h.Binary) (t : TokenStore k) (sound : IsSound k t)
    (contract to : String)
    → Decodes h.to_binary decode
    → airdrop_config h s ≡ ok c
    → root_of h stage s ≡ ok root
    → h.decode_to_slice root ≡ some (hash_of h tree)
    → Proof h tree (user_input info.sender amount) proof
    → h.addr_canonicalize info.sender ≡ ok user
    → has_claimed h user stage s ≡ false
    → h.addr_humanize c.shard_token ≡ ok token
    → h.to_binary (transfer info.sender amount) ≡ ok msg
    → k.addr_validate info.sender ≡ ok to
    → (contract == to) ≡ false
    → amount ≤ sound.ledger.balance contract
    → (r : Response h.Binary) × ((claim h info stage amount proof s).0 ≡ ok r)
      × (r.messages ≡ wasm_execute token msg ∷ [])
      × (m : ExecuteMsg) × (decode msg ≡ some m)
      × Transferred k sound.ledger contract to amount m t
claim-Transferred h k decode info stage amount proof s c tree root user token msg t sound contract
      to decodes is_c is_root is_tree proved is_user unclaimed is_token is_msg is_to apart covered =
    let (r, done, sent) =
      claim_succeeds h info stage amount proof s c tree root user token msg is_c is_root is_tree
        proved is_user unclaimed is_token is_msg in
    (
      r,
      done,
      sent,
      ExecuteMsg.transfer info.sender amount,
      decodes info.sender amount msg is_msg,
      transfer-Transferred k t sound contract info.sender to amount is_to apart covered,
    )
