-- ===== src/Staking/Moves/Withdraw.antt =====
-- `withdraw` of contracts/staking/src/contract.rs.
use shard_token.Common.{
  List, [], ◌∷◌, ℕ, ◌+◌, String, ◌≡◌, refl, ap, sym, subst, ◌∙◌, arith, true, nat_eq,
}
use shard_token.Common.Outcome.{ok, with_ok}
use shard_token.Platform.Messages.{
  Attribute, attr, text, number, MessageInfo, Env, Response, transfer,
}
use shard_token.Staking.Store.{Host, Store, config_of, state_of, info_of}
use shard_token.Staking.Rewards.{compute_reward, compute_staker_reward}
use shard_token.Staking.Contract.{withdraw}
use shard_token.Staking.Moves.{Accrued, Moved, stored-Moved, removed-Moved, settled_bond}
use shard_token.Staking.Moves.Payment.{Paid, with_settlement}

-- what the answer says
abbrev pub withdraw_attributes : String → ℕ → List Attribute
withdraw_attributes sender amount =
    attr "action" (text "withdraw")
    ∷ attr "owner" (text sender)
    ∷ attr "amount" (number amount)
    ∷ []

pub record Withdrawn (h : Host) (now : ℕ) (sender : String) (s s' : Store h) (r : Response h.Binary)
    : Type 0 where
  pub owner : String
  pub is_owner : h.addr_canonicalize sender ≡ ok owner
  pub acc : Accrued h now owner s
  pub moved : Moved h now owner s s' acc (info_of h owner s).bond_amount 0
  pub paid :
      Paid h acc.config.shard_token
        (transfer sender acc.settled.pending_reward)
        (withdraw_attributes sender acc.settled.pending_reward)
        r

nat_eq→≡ : (a b : ℕ) → nat_eq a b ≡ true → a ≡ b
nat_eq→≡ a b h = ground arith

-- A successful `withdraw` sends the whole settled reward, leaves none pending, keeps the bonds and
-- touches no other account.
pub withdraw-Withdrawn :
    (h : Host) (env : Env) (info : MessageInfo) (s s' : Store h) (r : Response h.Binary)
    → withdraw h env info s ≡ (ok r, s')
    → Withdrawn h env.seconds info.sender s s' r
unfolding withdraw
withdraw-Withdrawn h env info s s' r e =
    with_ok (h.addr_canonicalize info.sender) _ s e λ owner is_owner e₁.
      with_ok (config_of h s) _ s e₁ λ c is_c e₂. with_ok (state_of h s) _ s e₂ λ st is_st e₃.
        with_ok (compute_reward h.decimals c st env.seconds) _ s e₃ λ rewarded is_rewarded e₄.
          with_ok (compute_staker_reward h.decimals rewarded (info_of h owner s)) _ s e₄
            λ settled is_settled e₅.
              let acc : Accrued h env.seconds owner s = record {
                config = c;
                state = st;
                rewarded = rewarded;
                settled = settled;
                is_config = is_c;
                is_state = is_st;
                is_rewarded = is_rewarded;
                is_settled = is_settled;
              } in
              let held = (info_of h owner s).bond_amount in
              let same = settled_bond h acc in
              let balanced : rewarded.total_bond_amount + held ≡ rewarded.total_bond_amount + held =
                refl in
              let finish : (t : Store h)
                  → Moved h env.seconds owner s t acc held 0
                  → t ≡ s'
                  → Paid h c.shard_token (transfer info.sender settled.pending_reward)
                      (withdraw_attributes info.sender settled.pending_reward) r
                  → Withdrawn h env.seconds info.sender s s' r =
                λ t m at paid. record {
                  owner = owner;
                  is_owner = is_owner;
                  acc = acc;
                  moved = subst (λ t. Moved h env.seconds owner s t acc held 0) at m;
                  paid = paid;
                } in
              with_settlement h (nat_eq settled.bond_amount 0) owner
                (record settled { pending_reward = 0 }) rewarded c.shard_token
                (transfer info.sender settled.pending_reward) _ s e₅
                (λ empty. finish _ (
                  removed-Moved h acc rewarded rewarded.total_bond_amount held 0 refl
                    (sym same ∙ nat_eq→≡ settled.bond_amount 0 empty) refl balanced))
                (λ kept. finish _ (
                  stored-Moved h acc rewarded (record settled { pending_reward = 0 })
                    rewarded.total_bond_amount held 0 refl
                    (ap (λ n. record settled { bond_amount = n; pending_reward = 0 }) same)
                    balanced))
