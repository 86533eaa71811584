-- ===== src/Staking/Invariant/Entry.antt =====
-- When tokens can be bonded: `receive_cw20` and `bond` of contracts/staking/src/contract.rs in a
-- consistent state.
use shard_token.Common.{ℕ, ◌+◌, ◌<◌, String, ◌≡◌, ap, subst, arith, some, [], ◌∷◌, eq_refl}
use shard_token.Common.Outcome.{ok, same_value}
use shard_token.Common.Sums.{IsTotal-le}
use shard_token.Common.Words.{u128_mod}
use shard_token.Platform.Messages.{MessageInfo, Env, Response, attr, text, number}
use shard_token.Staking.Msg.{Config, State, Cw20ReceiveMsg, Cw20HookMsg, StakerInfoResponse}
use shard_token.Staking.Store.{Host, Store, Info, config_of, state_of, info_of}
use shard_token.Staking.Rewards.{compute_reward, compute_staker_reward}
use shard_token.Staking.Rewards.Settle.{settled_value}
use shard_token.Staking.Rewards.Solvent.{compute_reward-Advanced}
use shard_token.Staking.Contract.{bond, receive_cw20}
use shard_token.Staking.Moves.Bond.{receive_cw20-Received}
use shard_token.Staking.Queries.{query_staker_info}
use shard_token.Staking.Queries.Quote.{query_staker_info-Quoted}
use shard_token.Staking.Invariant.{IsConsistent, bonds_of}

abbrev bond_shown : (h : Host) → String → ℕ → Response h.Binary
bond_shown h sender amount = record {
  messages = [];
  attributes =
      attr "action" (text "bond") ∷ attr "owner" (text sender) ∷ attr "amount" (number amount) ∷ [];
}

bond_ends :
    (h : Host) (env : Env) (sender : String) (amount : ℕ) (s : Store h) (owner : String)
    (c : Config) (st rewarded : State h.decimals.Decimal) (settled : Info h)
    → h.addr_canonicalize sender ≡ ok owner
    → config_of h s ≡ ok c
    → state_of h s ≡ ok st
    → compute_reward h.decimals c st env.seconds ≡ ok rewarded
    → compute_staker_reward h.decimals rewarded (info_of h owner s) ≡ ok settled
    → rewarded.total_bond_amount + amount < u128_mod
    → settled.bond_amount + amount < u128_mod
    → (bond h env sender amount s).0 ≡ ok (bond_shown h sender amount)
unfolding bond
bond_ends h env sender amount s owner c st rewarded settled e₁ e₂ e₃ e₄ e₅ l₁ l₂ = ground arith

receive_ends :
    (h : Host) (env : Env) (info : MessageInfo) (msg : Cw20ReceiveMsg h.Binary) (s : Store h)
    (c : Config) (sender : String) (r : Response h.Binary)
    → config_of h s ≡ ok c
    → h.hook_from_binary msg.msg ≡ some Cw20HookMsg.bond
    → h.addr_canonicalize info.sender ≡ ok c.staking_token
    → h.addr_validate msg.sender ≡ ok sender
    → (bond h env sender msg.amount s).0 ≡ ok r
    → (receive_cw20 h env info msg s).0 ≡ ok r
unfolding receive_cw20
receive_ends h env info msg s c sender r e₁ e₂ e₃ e₄ e₅ = ground (arith, eq_refl c.staking_token)

-- In a consistent state, where the query of a staker for the time of the block is answered, the
-- staking token's message that the staker sent it an amount to bond is accepted if the total of the
-- bonds then fits a `u128`, and the staker's bond is that of the answer and the amount.
pub receive_succeeds :
    (h : Host) (env : Env) (info : MessageInfo) (msg : Cw20ReceiveMsg h.Binary) (s t : Store h)
    (answer : StakerInfoResponse h.decimals.Decimal) (c : Config) (sender owner : String)
    (sound : IsConsistent h s)
    → h.addr_validate msg.sender ≡ ok sender
    → h.addr_canonicalize sender ≡ ok owner
    → query_staker_info h sender (some env.seconds) s ≡ (ok answer, t)
    → config_of h s ≡ ok c
    → h.addr_canonicalize info.sender ≡ ok c.staking_token
    → h.hook_from_binary msg.msg ≡ some Cw20HookMsg.bond
    → sound.state.total_bond_amount + msg.amount < u128_mod
    → (r : Response h.Binary) × (s' : Store h) × (receive_cw20 h env info msg s ≡ (ok r, s'))
      × ((info_of h owner s').bond_amount ≡ answer.bond_amount + msg.amount)
receive_succeeds h env info msg s t answer c sender owner sound is_sender is_owner asked is_c
      is_token is_hook fits =
    let q = query_staker_info-Quoted h env.seconds sender s t answer asked in
    let now : sound.state ≡ q.state = same_value sound.is_state q.is_state in
    let held = settled_value h.decimals q.rewarded (info_of h q.owner s) q.settled q.is_settled in
    let grown =
      compute_reward-Advanced h.decimals q.config env.seconds q.state q.rewarded q.is_rewarded in
    let part = IsTotal-le (bonds_of h s) q.owner sound.state.total_bond_amount sound.backed in
    let total = ap (λ st. st.total_bond_amount) now in
    let kept = held.1 in
    let stays = grown.bonds in
    let r = bond_shown h sender msg.amount in
    let s' = (receive_cw20 h env info msg s).1 in
    let done = receive_ends h env info msg s c sender r is_c is_hook is_token is_sender (
      bond_ends h env sender msg.amount s q.owner q.config q.state q.rewarded q.settled q.is_owner
        q.is_config q.is_state q.is_rewarded q.is_settled (omega arith) (omega arith)) in
    let whole : receive_cw20 h env info msg s ≡ (ok r, s') = ap (λ o. (o, s')) done in
    let got = receive_cw20-Received h env info msg s s' r whole in
    let same_sender : got.sender ≡ sender = same_value got.is_sender is_sender in
    let same_owner : got.bonded.owner ≡ owner =
      same_value got.bonded.is_owner (rw same_sender is_owner) in
    let quoted : q.owner ≡ owner = same_value q.is_owner is_owner in
    let after =
      subst (λ o. (info_of h o s').bond_amount ≡ (info_of h o s).bond_amount + msg.amount)
        same_owner got.bonded.moved.new_bond in
    let before = subst (λ o. q.settled.bond_amount ≡ (info_of h o s).bond_amount) quoted kept in
    (r, s', whole, omega (arith, after, before, q.is_bond))
