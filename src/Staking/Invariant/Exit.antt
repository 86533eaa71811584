-- ===== src/Staking/Invariant/Exit.antt =====
-- When a staker can leave: `unbond` of contracts/staking/src/contract.rs in a consistent state.
use shard_token.Common.{
  ℕ, ◌≤◌, String, ◌≡◌, refl, ap, ◌∙◌, arith, some, [], ◌∷◌, Bool-cases, inl, inr, nat_eq, ◌&&◌, ◌-◌,
}
use shard_token.Common.Outcome.{ok, same_value}
use shard_token.Common.Sums.{IsTotal-le}
use shard_token.Platform.Messages.{
  MessageInfo, Env, Response, attr, text, number, wasm_execute, transfer,
}
use shard_token.Staking.Msg.{Config, State, StakerInfoResponse}
use shard_token.Staking.Store.{Host, Store, Info, config_of, state_of, info_of}
use shard_token.Staking.Rewards.{compute_reward, compute_staker_reward}
use shard_token.Staking.Rewards.Settle.{settled_value}
use shard_token.Staking.Rewards.Solvent.{compute_reward-Advanced}
use shard_token.Staking.Contract.{send, unbond}
use shard_token.Staking.Queries.{query_staker_info}
use shard_token.Staking.Queries.Quote.{query_staker_info-Quoted}
use shard_token.Staking.Invariant.{IsConsistent, bonds_of}

unbond_ends :
    (h : Host) (env : Env) (info : MessageInfo) (amount : ℕ) (s : Store h) (token : String)
    (msg : h.Binary) (owner : String) (c : Config) (st rewarded : State h.decimals.Decimal)
    (settled : Info h)
    → h.addr_canonicalize info.sender ≡ ok owner
    → config_of h s ≡ ok c
    → state_of h s ≡ ok st
    → compute_reward h.decimals c st env.seconds ≡ ok rewarded
    → compute_staker_reward h.decimals rewarded (info_of h owner s) ≡ ok settled
    → h.addr_humanize c.staking_token ≡ ok token
    → h.to_binary (transfer info.sender amount) ≡ ok msg
    → amount ≤ (info_of h owner s).bond_amount
    → amount ≤ settled.bond_amount
    → amount ≤ rewarded.total_bond_amount
    → (unbond h env info amount s).0
      ≡ ok (
          send h (wasm_execute token msg) (
            attr "action" (text "unbond")
            ∷ attr "owner" (text info.sender)
            ∷ attr "amount" (number amount)
            ∷ []))
unfolding unbond
unbond_ends h env info amount s token msg owner c st rewarded settled e₁ e₂ e₃ e₄ e₅ e₆ e₇ l₁ l₂
      l₃ =
    elim (Bool-cases (nat_eq settled.pending_reward 0 && nat_eq (settled.bond_amount - amount) 0)) [
      | inl nothing ↦ ground arith
      | inr kept ↦ ground arith
    ]

-- In a consistent state, a staker whose query for the time of the block is answered can unbond in
-- that block any amount up to the bond of the answer, and is sent it, where the transfer can be
-- encoded.
pub unbond_succeeds :
    (h : Host) (env : Env) (info : MessageInfo) (amount : ℕ) (s t : Store h)
    (answer : StakerInfoResponse h.decimals.Decimal) (c : Config) (token : String) (msg : h.Binary)
    → IsConsistent h s
    → query_staker_info h info.sender (some env.seconds) s ≡ (ok answer, t)
    → amount ≤ answer.bond_amount
    → config_of h s ≡ ok c
    → h.addr_humanize c.staking_token ≡ ok token
    → h.to_binary (transfer info.sender amount) ≡ ok msg
    → (r : Response h.Binary) × ((unbond h env info amount s).0 ≡ ok r)
      × (r.messages ≡ wasm_execute token msg ∷ [])
unbond_succeeds h env info amount s t answer c token msg sound asked within is_c is_token is_msg =
    let q = query_staker_info-Quoted h env.seconds info.sender s t answer asked in
    let same : q.config ≡ c = same_value q.is_config is_c in
    let now : sound.state ≡ q.state = same_value sound.is_state q.is_state in
    let held = settled_value h.decimals q.rewarded (info_of h q.owner s) q.settled q.is_settled in
    let grown =
      compute_reward-Advanced h.decimals q.config env.seconds q.state q.rewarded q.is_rewarded in
    let part = IsTotal-le (bonds_of h s) q.owner sound.state.total_bond_amount sound.backed in
    let total = ap (λ st. st.total_bond_amount) now in
    let bond = q.is_bond in
    let kept = held.1 in
    let stays = grown.bonds in
    (
      _,
      unbond_ends h env info amount s token msg q.owner q.config q.state q.rewarded q.settled
          q.is_owner q.is_config q.is_state q.is_rewarded q.is_settled
          (ap (λ c. h.addr_humanize c.staking_token) same ∙ is_token) is_msg (omega arith)
          (omega arith) (omega arith),
      refl,
    )
