-- ===== src/Staking/Moves.antt =====
-- What `bond`, `unbond` and `withdraw` of contracts/staking/src/contract.rs do to the storage.
pub mod Payment
pub mod Bond
pub mod Unbond
pub mod Withdraw
use shard_token.Common.{
  ◌*◌, ◌/◌, ℕ, ◌+◌, ◌-◌, ◌≤◌, String, ◌≡◌, refl, ap, sym, subst, ◌∙◌, arith, ◌==◌, eq_iff, eq_refl,
  Bool, true, false, ◌&&◌, Bool-cases, inl, inr, List, [], ◌∷◌, if◌then◌else◌, nat_eq, ltb,
}
use shard_token.Common.Outcome.{
  ◌>>◌, ◌>>=◌, lift, pure, Outcome, ok, err, panic, with_ok, with_guard, modify,
}
use shard_token.Common.Words.{add_u128}
use shard_token.Platform.Messages.{
  MessageInfo, Env, Response, Attribute, Cw20ExecuteMsg, CosmosMsg, wasm_execute, transfer,
}
use shard_token.Platform.Errors.{StdError}
use shard_token.Platform.Decimals.{Decimals, fractional}
use shard_token.Staking.Msg.{Config, State, StakerInfo}
use shard_token.Staking.Store.{
  Host, Store, Info, store_state, store_staker_info, remove_staker_info, no_stake, config_of,
  state_of, info_of,
}
use shard_token.Staking.Store.Laws.{config_of-save, state_of-save, info_of-set, info_of-remove}
use shard_token.Staking.Rewards.{
  compute_reward, compute_staker_reward, increase_bond_amount, decrease_bond_amount,
}
use shard_token.Staking.Rewards.Settle.{settled_value}
use shard_token.Staking.Contract.{send, bond, unbond, withdraw, bond_exceeded}

-- The rewards of `owner`, brought up to `now`.
pub record Accrued (h : Host) (now : ℕ) (owner : String) (s : Store h) : Type 0 where
  pub config : Config
  pub state : State h.decimals.Decimal
  pub rewarded : State h.decimals.Decimal
  pub settled : Info h
  pub is_config : config_of h s ≡ ok config
  pub is_state : state_of h s ≡ ok state
  pub is_rewarded : compute_reward h.decimals config state now ≡ ok rewarded
  pub is_settled : compute_staker_reward h.decimals rewarded (info_of h owner s) ≡ ok settled

-- The account of `owner` is brought up to `now` and its bond is changed, and the total with it. No
-- other account is touched.
pub record Moved (h : Host) (now : ℕ) (owner : String) (s s' : Store h)
    (acc : Accrued h now owner s) (bond pending : ℕ) : Type 0 where
  pub total : ℕ
  pub new_config : config_of h s' ≡ ok acc.config
  pub new_state : state_of h s' ≡ ok (record acc.rewarded { total_bond_amount = total })
  pub new_bond : (info_of h owner s').bond_amount ≡ bond
  pub new_pending : (info_of h owner s').pending_reward ≡ pending
  pub new_index :
      h.decimals.atomics (info_of h owner s').reward_index
      ≤ h.decimals.atomics acc.rewarded.global_reward_index
  -- what the bond has earned up to the account's index is what it has earned up to now
  pub level :
      bond * h.decimals.atomics (info_of h owner s').reward_index / fractional
      ≡ bond * h.decimals.atomics acc.rewarded.global_reward_index / fractional
  pub balanced : total + (info_of h owner s).bond_amount ≡ acc.rewarded.total_bond_amount + bond
  pub others : (a : String) → (owner == a) ≡ false → info_of h a s' ≡ info_of h a s

module _ (h : Host) {now : ℕ} {owner : String} {s : Store h} (acc : Accrued h now owner s) where
  settled_index : acc.settled.reward_index ≡ acc.rewarded.global_reward_index
  settled_index =
      (settled_value h.decimals acc.rewarded (info_of h owner s) acc.settled acc.is_settled).2

  pub settled_bond : acc.settled.bond_amount ≡ (info_of h owner s).bond_amount
  settled_bond =
      (settled_value h.decimals acc.rewarded (info_of h owner s) acc.settled acc.is_settled).1

  -- storing an account
  stored_account :
      (total b p : ℕ)
      → total + (info_of h owner s).bond_amount ≡ acc.rewarded.total_bond_amount + b
      → Moved h now owner s
          (record s {
            state = h.state_cell.save (record acc.rewarded { total_bond_amount = total }) s.state;
            rewards =
                h.reward_bucket.set owner
                  (record acc.settled { bond_amount = b; pending_reward = p })
                  s.rewards;
          })
          acc
          b
          p
  unfolding info_of
  stored_account total b p balanced =
      let new = record acc.settled { bond_amount = b; pending_reward = p } in
      let st = record acc.rewarded { total_bond_amount = total } in
      let s₁ : Store h = record s { state = h.state_cell.save st s.state } in
      let s₂ : Store h = record s { rewards = h.reward_bucket.set owner new s.rewards } in
      let at = info_of-set h s₁ owner in
      let own : info_of h owner (record s₁ { rewards = s₂.rewards }) ≡ new =
        at owner new ∙ rw (eq_refl owner) in
      record {
        total = total;
        new_config = unfold config_of in acc.is_config;
        new_state = state_of-save h s₂ st;
        new_bond = ap (λ i. i.bond_amount) own;
        new_pending = ap (λ i. i.pending_reward) own;
        new_index = rw (own, settled_index) (omega arith);
        level = rw (own, settled_index);
        balanced = balanced;
        others = λ a other. at a new ∙ rw other;
      }

  pub stored-Moved :
      (st : State h.decimals.Decimal) (info : Info h) (total b p : ℕ)
      → st ≡ record acc.rewarded { total_bond_amount = total }
      → info ≡ record acc.settled { bond_amount = b; pending_reward = p }
      → total + (info_of h owner s).bond_amount ≡ acc.rewarded.total_bond_amount + b
      → Moved h now owner s
          (record s {
            state = h.state_cell.save st s.state;
            rewards = h.reward_bucket.set owner info s.rewards;
          })
          acc
          b
          p
  stored-Moved st info total b p is_st is_info balanced =
      rw (is_st, is_info) (stored_account total b p balanced)

  -- removing an account with nothing bonded
  removed_account :
      (total : ℕ)
      → total + (info_of h owner s).bond_amount ≡ acc.rewarded.total_bond_amount + 0
      → Moved h now owner s
          (record s {
            state = h.state_cell.save (record acc.rewarded { total_bond_amount = total }) s.state;
            rewards = h.reward_bucket.remove owner s.rewards;
          })
          acc
          0
          0
  unfolding info_of
  removed_account total balanced =
      let st = record acc.rewarded { total_bond_amount = total } in
      let s₁ : Store h = record s { state = h.state_cell.save st s.state } in
      let s₂ : Store h = record s { rewards = h.reward_bucket.remove owner s.rewards } in
      let at = info_of-remove h s₁ owner in
      let own : info_of h owner (record s₁ { rewards = s₂.rewards }) ≡ no_stake h =
        at owner ∙ rw (eq_refl owner) in
      record {
        total = total;
        new_config = unfold config_of in acc.is_config;
        new_state = state_of-save h s₂ st;
        new_bond = ap (λ i. i.bond_amount) own;
        new_pending = ap (λ i. i.pending_reward) own;
        new_index = rw (own, h.decimals.atomics-zero) (omega arith);
        level = omega arith;
        balanced = balanced;
        others = λ a other. at a ∙ rw other;
      }

  pub removed-Moved :
      (st : State h.decimals.Decimal) (total b p : ℕ)
      → st ≡ record acc.rewarded { total_bond_amount = total }
      → b ≡ 0
      → p ≡ 0
      → total + (info_of h owner s).bond_amount ≡ acc.rewarded.total_bond_amount + b
      → Moved h now owner s
          (record s {
            state = h.state_cell.save st s.state;
            rewards = h.reward_bucket.remove owner s.rewards;
          })
          acc
          b
          p
  removed-Moved st total b p is_st is_b is_p balanced =
      rw (is_st, is_b, is_p) (removed_account total (rw (is_b) at balanced))
