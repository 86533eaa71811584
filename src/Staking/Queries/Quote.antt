-- ===== src/Staking/Queries/Quote.antt =====
-- What `query_staker_info` of contracts/staking/src/contract.rs tells a staker, and what `withdraw`
-- then pays.
use shard_token.Common.{
  ℕ, String, ◌≡◌, refl, ap, sym, ◌∙◌, arith, some, [], ◌∷◌, Bool-cases, inl, inr, nat_eq,
}
use shard_token.Common.Outcome.{Outcome, ok, with_ok, with_first}
use shard_token.Platform.Errors.{StdError}
use shard_token.Platform.Messages.{
  MessageInfo, Env, Response, attr, text, number, wasm_execute, transfer,
}
use shard_token.Staking.Msg.{Config, State, StakerInfoResponse}
use shard_token.Staking.Store.{Host, Store, Info, config_of, state_of, info_of}
use shard_token.Staking.Rewards.{compute_reward, compute_staker_reward}
use shard_token.Staking.Contract.{send, withdraw}
use shard_token.Staking.Queries.{query_staker_info, info_at}

-- What a staker who asks at a time is told: the account, brought up to that time.
pub record Quoted (h : Host) (now : ℕ) (sender : String) (s : Store h)
    (answer : StakerInfoResponse h.decimals.Decimal) : Type 0 where
  pub owner : String
  pub config : Config
  pub state : State h.decimals.Decimal
  pub rewarded : State h.decimals.Decimal
  pub settled : Info h
  pub is_owner : h.addr_canonicalize sender ≡ ok owner
  pub is_config : config_of h s ≡ ok config
  pub is_state : state_of h s ≡ ok state
  pub is_rewarded : compute_reward h.decimals config state now ≡ ok rewarded
  pub is_settled : compute_staker_reward h.decimals rewarded (info_of h owner s) ≡ ok settled
  pub is_pending : answer.pending_reward ≡ settled.pending_reward
  pub is_bond : answer.bond_amount ≡ settled.bond_amount

abbrev pending_of : (h : Host) {E : Type 0} → Outcome E (StakerInfoResponse h.decimals.Decimal) → ℕ
pending_of h (ok answer) = answer.pending_reward
pending_of h _ = 0

abbrev bond_of : (h : Host) {E : Type 0} → Outcome E (StakerInfoResponse h.decimals.Decimal) → ℕ
bond_of h (ok answer) = answer.bond_amount
bond_of h _ = 0

-- the answer that `query_staker_info` makes of an account
abbrev answered :
    (h : Host)
    → String
    → Info h
    → Store h
    → Outcome StdError (StakerInfoResponse h.decimals.Decimal) × Store h
answered h sender info s = (
  ok (record {
    staker = sender;
    reward_index = info.reward_index;
    bond_amount = info.bond_amount;
    pending_reward = info.pending_reward;
  }),
  s,
)

pub query_staker_info-Quoted :
    (h : Host) (now : ℕ) (sender : String) (s t : Store h)
    (answer : StakerInfoResponse h.decimals.Decimal)
    → query_staker_info h sender (some now) s ≡ (ok answer, t)
    → Quoted h now sender s answer
unfolding query_staker_info
query_staker_info-Quoted h now sender s t answer e =
    with_ok (h.addr_canonicalize sender) _ s e λ owner is_owner e₁.
      with_first (info_at h (some now) (info_of h owner s) s) (answered h sender) e₁
        λ settled s₁ found e₂. with_ok (config_of h s) _ s found λ c is_c f₁.
          with_ok (state_of h s) _ s f₁ λ st is_st f₂.
            with_ok (compute_reward h.decimals c st now) _ s f₂ λ rewarded is_rewarded f₃. record {
              owner = owner;
              config = c;
              state = st;
              rewarded = rewarded;
              settled = settled;
              is_owner = is_owner;
              is_config = is_c;
              is_state = is_st;
              is_rewarded = is_rewarded;
              is_settled = ap (λ p. p.0) f₃;
              is_pending = ap (λ p. pending_of h p.0) (sym e₂);
              is_bond = ap (λ p. bond_of h p.0) (sym e₂);
            }

-- the account that `withdraw` settles
withdraw_ends :
    (h : Host) (env : Env) (info : MessageInfo) (s : Store h) (token : String) (msg : h.Binary)
    (owner : String) (c : Config) (st rewarded : State h.decimals.Decimal) (settled : Info h)
    → h.addr_canonicalize info.sender ≡ ok owner
    → config_of h s ≡ ok c
    → state_of h s ≡ ok st
    → compute_reward h.decimals c st env.seconds ≡ ok rewarded
    → compute_staker_reward h.decimals rewarded (info_of h owner s) ≡ ok settled
    → h.addr_humanize c.shard_token ≡ ok token
    → h.to_binary (transfer info.sender settled.pending_reward) ≡ ok msg
    → (withdraw h env info s).0
      ≡ ok (
          send h (wasm_execute token msg) (
            attr "action" (text "withdraw")
            ∷ attr "owner" (text info.sender)
            ∷ attr "amount" (number settled.pending_reward)
            ∷ []))
unfolding withdraw
withdraw_ends h env info s token msg owner c st rewarded settled e₁ e₂ e₃ e₄ e₅ e₆ e₇ =
    elim (Bool-cases (nat_eq settled.bond_amount 0)) [
      | inl nothing ↦ ground arith
      | inr kept ↦ ground arith
    ]

-- A staker whose query for the time of the block is answered can withdraw in that block, and is paid
-- the pending reward of the answer, where the transfer can be encoded.
pub withdraw_pays_quote :
    (h : Host) (env : Env) (info : MessageInfo) (s t : Store h)
    (answer : StakerInfoResponse h.decimals.Decimal) (c : Config) (token : String) (msg : h.Binary)
    → query_staker_info h info.sender (some env.seconds) s ≡ (ok answer, t)
    → config_of h s ≡ ok c
    → h.addr_humanize c.shard_token ≡ ok token
    → h.to_binary (transfer info.sender answer.pending_reward) ≡ ok msg
    → (r : Response h.Binary) × ((withdraw h env info s).0 ≡ ok r)
      × (r.messages ≡ wasm_execute token msg ∷ [])
withdraw_pays_quote h env info s t answer c token msg asked is_c is_token is_msg =
    let q = query_staker_info-Quoted h env.seconds info.sender s t answer asked in
    let same : q.config ≡ c = cc (q.is_config, is_c) in
    (
      _,
      withdraw_ends h env info s token msg q.owner q.config q.state q.rewarded q.settled q.is_owner
          q.is_config q.is_state q.is_rewarded q.is_settled
          (ap (λ c. h.addr_humanize c.shard_token) same ∙ is_token)
          (ap (λ n. h.to_binary (transfer info.sender n)) (sym q.is_pending) ∙ is_msg),
      refl,
    )
