-- ===== src/Staking/Rewards/Settle.antt =====
-- `compute_staker_reward` of contracts/staking/src/contract.rs: what a staker is credited.
use shard_token.Common.{ℕ, ◌+◌, ◌*◌, ◌/◌, ◌≡◌, arith, Option-cases, inl, inr}
use shard_token.Common.Outcome.{ok}
use shard_token.Platform.Decimals.{Decimals, fractional}
use shard_token.Staking.Msg.{State, StakerInfo}
use shard_token.Staking.Rewards.{compute_staker_reward}

module _ (d : Decimals) where
  -- What a bond has earned since index zero, rounded down.
  abbrev pub earned : ℕ → d.Decimal → ℕ
  earned bond index = bond * d.atomics index / fractional

  -- Where settling at one index and then at another succeeds, settling once at the second succeeds
  -- with the same result.
  pub settle_twice :
      (now later : State d.Decimal) (i j k : StakerInfo d.Decimal)
      → compute_staker_reward d now i ≡ ok j
      → compute_staker_reward d later j ≡ ok k
      → compute_staker_reward d later i ≡ ok k
  unfolding compute_staker_reward
  settle_twice now later i j k first second = ground arith

  -- A settlement that succeeds credits exactly the growth of what the bond has earned, keeps the bond
  -- and takes over the global index.
  pub settled_value :
      (state : State d.Decimal) (i j : StakerInfo d.Decimal)
      → compute_staker_reward d state i ≡ ok j
      → (j.pending_reward + earned i.bond_amount i.reward_index
          ≡ i.pending_reward + earned i.bond_amount state.global_reward_index)
        × (j.bond_amount ≡ i.bond_amount)
        × (j.reward_index ≡ state.global_reward_index)
  unfolding compute_staker_reward
  settled_value state i j h = elim (Option-cases (d.mul i.bond_amount state.global_reward_index)) [
    | inl over ↦ ground arith
    | inr (e, is_e) ↦ elim (Option-cases (d.mul i.bond_amount i.reward_index)) [
      | inl over ↦ ground arith
      | inr (s, is_s) ↦ ground (
        arith,
        d.mul_value i.bond_amount state.global_reward_index e is_e,
        d.mul_value i.bond_amount i.reward_index s is_s,
      )
    ]
  ]
