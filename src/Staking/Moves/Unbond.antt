-- ===== src/Staking/Moves/Unbond.antt =====
-- `unbond` of contracts/staking/src/contract.rs.
use shard_token.Common.{
  List, [], ◌∷◌, ℕ, ◌+◌, ◌-◌, ◌≤◌, String, ◌≡◌, ap, sym, subst, ◌∙◌, arith, true, ◌&&◌, ltb, nat_eq,
  ltb→le,
}
use shard_token.Common.Outcome.{ok, with_ok, with_guard}
use shard_token.Platform.Messages.{
  Attribute, attr, text, number, MessageInfo, Env, Response, transfer,
}
use shard_token.Platform.Decimals.{Decimals}
use shard_token.Staking.Msg.{State, StakerInfo}
use shard_token.Staking.Store.{Host, Store, config_of, state_of, info_of}
use shard_token.Staking.Rewards.{compute_reward, compute_staker_reward, decrease_bond_amount}
use shard_token.Staking.Contract.{unbond}
use shard_token.Staking.Moves.{Accrued, Moved, stored-Moved, removed-Moved, settled_bond}
use shard_token.Staking.Moves.Payment.{Paid, with_settlement}

decreased :
    (d : Decimals) (st : State d.Decimal) (i : StakerInfo d.Decimal) (amount : ℕ)
    (r : State d.Decimal × StakerInfo d.Decimal)
    → decrease_bond_amount d st i amount ≡ ok r
    → (r.0 ≡ record st { total_bond_amount = st.total_bond_amount - amount })
      × (r.1 ≡ record i { bond_amount = i.bond_amount - amount })
      × (amount ≤ st.total_bond_amount)
decreased d st i amount r h = ground arith

-- what the answer says
abbrev pub unbond_attributes : String → ℕ → List Attribute
unbond_attributes sender amount =
    attr "action" (text "unbond") ∷ attr "owner" (text sender) ∷ attr "amount" (number amount) ∷ []

pub record Unbonded (h : Host) (now : ℕ) (sender : String) (amount : ℕ) (s s' : Store h)
    (r : Response h.Binary) : Type 0 where
  pub owner : String
  pub is_owner : h.addr_canonicalize sender ≡ ok owner
  pub acc : Accrued h now owner s
  pub covered : amount ≤ (info_of h owner s).bond_amount
  pub moved :
      Moved h now owner s s' acc
        ((info_of h owner s).bond_amount - amount)
        acc.settled.pending_reward
  pub paid :
      Paid h acc.config.staking_token (transfer sender amount) (unbond_attributes sender amount) r

-- `unbond` removes an account that is left with nothing.
nothing_left :
    (pending bond : ℕ) → (nat_eq pending 0 && nat_eq bond 0) ≡ true → (pending ≡ 0) × (bond ≡ 0)
nothing_left pending bond h = ground arith

-- A successful `unbond` is covered by the sender's bond, settles the reward, takes the amount off
-- the bond and the total, touches no other account, and sends the amount in staking tokens.
pub unbond-Unbonded :
    (h : Host) (env : Env) (info : MessageInfo) (amount : ℕ) (s s' : Store h)
    (r : Response h.Binary)
    → unbond h env info amount s ≡ (ok r, s')
    → Unbonded h env.seconds info.sender amount s s' r
unfolding unbond
unbond-Unbonded h env info amount s s' r e = with_ok (config_of h s) _ s e λ c is_c e₁.
    with_ok (h.addr_canonicalize info.sender) _ s e₁ λ owner is_owner e₂.
      with_ok (state_of h s) _ s e₂ λ st is_st e₃.
        with_guard (ltb (info_of h owner s).bond_amount amount) _ _ s e₃ λ enough e₄.
          with_ok (compute_reward h.decimals c st env.seconds) _ s e₄ λ rewarded is_rewarded e₅.
            with_ok (compute_staker_reward h.decimals rewarded (info_of h owner s)) _ s e₅
              λ settled is_settled e₆.
                with_ok (decrease_bond_amount h.decimals rewarded settled amount) _ s e₆
                  λ new is_new e₇.
                    let acc : Accrued h env.seconds owner s = record {
                      config = c;
                      state = st;
                      rewarded = rewarded;
                      settled = settled;
                      is_config = is_c;
                      is_state = is_st;
                      is_rewarded = is_rewarded;
                      is_settled = is_settled;
                    } in
                    let (new_state, new_info, within) =
                      decreased h.decimals rewarded settled amount new is_new in
                    let held = (info_of h owner s).bond_amount in
                    let left = rewarded.total_bond_amount - amount in
                    let covered = ltb→le held amount enough in
                    let balanced : left + held ≡ rewarded.total_bond_amount + (held - amount) =
                      omega arith in
                    let is_info =
                      new_info
                      ∙ ap (λ n. record settled { bond_amount = n - amount })
                          (settled_bond h acc) in
                    let finish : (t : Store h)
                        → Moved h env.seconds owner s t acc (held - amount) settled.pending_reward
                        → t ≡ s'
                        → Paid h c.staking_token (transfer info.sender amount)
                            (unbond_attributes info.sender amount) r
                        → Unbonded h env.seconds info.sender amount s s' r =
                      λ t m same paid. record {
                        owner = owner;
                        is_owner = is_owner;
                        acc = acc;
                        covered = covered;
                        moved =
                            subst
                              (λ t.
                                Moved h env.seconds owner s t acc (held - amount)
                                  settled.pending_reward)
                              same m;
                        paid = paid;
                      } in
                    with_settlement h (nat_eq new.1.pending_reward 0 && nat_eq new.1.bond_amount 0)
                      owner new.1 new.0 c.staking_token (transfer info.sender amount) _ s e₇
                      (λ empty. finish _ (
                        removed-Moved h acc new.0 left (held - amount) settled.pending_reward
                          new_state
                          (sym (ap (λ i. i.bond_amount) is_info)
                            ∙ (nothing_left new.1.pending_reward new.1.bond_amount empty).1)
                          (sym (ap (λ i. i.pending_reward) is_info)
                            ∙ (nothing_left new.1.pending_reward new.1.bond_amount empty).0)
                          balanced))
                      (λ kept. finish _ (
                        stored-Moved h acc new.0 new.1 left (held - amount) settled.pending_reward
                          new_state is_info balanced))
