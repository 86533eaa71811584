-- ===== src/Staking/Moves/Payment.antt =====
-- The end of `unbond` and `withdraw`, contracts/staking/src/contract.rs: the account is stored or
-- removed, the state is saved, and a transfer is sent.
use shard_token.Common.{String, ◌≡◌, refl, ap, sym, Bool, true, false, List, [], ◌∷◌, if◌then◌else◌}
use shard_token.Common.Outcome.{◌>>◌, ◌>>=◌, lift, pure, Outcome, ok, with_ok}
use shard_token.Platform.Messages.{Response, Attribute, Cw20ExecuteMsg, CosmosMsg, wasm_execute}
use shard_token.Platform.Errors.{StdError}
use shard_token.Staking.Msg.{State}
use shard_token.Staking.Store.{
  Host, Store, Info, store_state, store_staker_info, remove_staker_info,
}
use shard_token.Staking.Contract.{send}

abbrev pub messages_of : {E B : Type 0} → Outcome E (Response B) → List (CosmosMsg B)
messages_of (ok r) = r.messages
messages_of _ = []

-- What is sent when the address of a token contract and the transfer have both been encoded.
pub record Paid (h : Host) (token : String) (m : Cw20ExecuteMsg) (attributes : List Attribute)
    (r : Response h.Binary) : Type 0 where
  pub contract : String
  pub is_contract : h.addr_humanize token ≡ ok contract
  pub msg : h.Binary
  pub is_msg : h.to_binary m ≡ ok msg
  pub sent : r.messages ≡ wasm_execute contract msg ∷ []
  pub shown : r.attributes ≡ attributes

abbrev pub attributes_of : {E B : Type 0} → Outcome E (Response B) → List Attribute
attributes_of (ok r) = r.attributes
attributes_of _ = []

abbrev pay :
    (h : Host)
    → State h.decimals.Decimal
    → String
    → Cw20ExecuteMsg
    → List Attribute
    → Store h
    → Outcome StdError (Response h.Binary) × Store h
pay h st token m attributes =
    store_state h st
    >> (lift (h.addr_humanize token) >>= λ contract.
        lift (h.to_binary m) >>= λ msg. pure (send h (wasm_execute contract msg) attributes))

with_payment :
    (h : Host) {P : Type 0} (st : State h.decimals.Decimal) (token : String) (m : Cw20ExecuteMsg)
    (attributes : List Attribute) (s : Store h) {r : Response h.Binary} {s' : Store h}
    → pay h st token m attributes s ≡ (ok r, s')
    → (Paid h token m attributes r → record s { state = h.state_cell.save st s.state } ≡ s' → P)
    → P
with_payment h st token m attributes s e go =
    let s₁ = record s { state = h.state_cell.save st s.state } in
    with_ok (h.addr_humanize token) _ s₁ e λ contract is_contract e₁.
      with_ok (h.to_binary m) _ s₁ e₁ λ msg is_msg e₂.
        go
          (record {
            contract = contract;
            is_contract = is_contract;
            msg = msg;
            is_msg = is_msg;
            sent = sym (ap (λ p. messages_of p.0) e₂);
            shown = sym (ap (λ p. attributes_of p.0) e₂);
          })
          (ap (λ p. p.1) e₂)

-- A call that succeeded after it stored or removed an account, saved the state and paid.
pub with_settlement :
    (h : Host) {P : Type 0} (empty : Bool) (owner : String) (info : Info h)
    (st : State h.decimals.Decimal) (token : String) (m : Cw20ExecuteMsg)
    (attributes : List Attribute) (s : Store h) {r : Response h.Binary} {s' : Store h}
    → ((if empty then remove_staker_info h owner else store_staker_info h owner info)
          >> pay h st token m attributes)
        s
      ≡ (ok r, s')
    → (empty ≡ true
        → record s {
          state = h.state_cell.save st s.state;
          rewards = h.reward_bucket.remove owner s.rewards;
        }
          ≡ s'
        → Paid h token m attributes r
        → P)
    → (empty ≡ false
        → record s {
          state = h.state_cell.save st s.state;
          rewards = h.reward_bucket.set owner info s.rewards;
        }
          ≡ s'
        → Paid h token m attributes r
        → P)
    → P
with_settlement h true owner info st token m attributes s e removed stored =
    with_payment h st token m attributes _ e λ paid same. removed refl same paid
with_settlement h false owner info st token m attributes s e removed stored =
    with_payment h st token m attributes _ e λ paid same. stored refl same paid
