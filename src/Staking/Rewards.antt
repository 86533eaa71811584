-- ===== src/Staking/Rewards.antt =====
-- The reward arithmetic of contracts/staking/src/contract.rs: `compute_reward`,
-- `compute_staker_reward`, `increase_bond_amount` and `decrease_bond_amount`.
pub mod Settle
pub mod Slots
pub mod Live
pub mod Seconds
pub mod Solvent
use shard_token.Common.{
  ℕ, ◌+◌, ◌-◌, Bool, true, false, ◌||◌, List, [], ◌∷◌, ltb, nat_eq, min_of, max_of, if◌then◌else◌,
}
use shard_token.Common.Outcome.{Outcome, ok, err, panic, or_panic}
use shard_token.Common.Checked.{◌>>=◌}
use shard_token.Common.Words.{add_u128, sub_word}
use shard_token.Platform.Errors.{StdError, overflow}
use shard_token.Platform.Decimals.{Decimals}
use shard_token.Staking.Msg.{Slot, Config, State, StakerInfo}

-- `Uint128::checked_sub`
abbrev pub checked_sub : ℕ → ℕ → Outcome StdError ℕ
checked_sub a b = if ltb a b then err overflow else ok (a - b)

-- the test of `continue`
abbrev pub is_outside : ℕ → ℕ → Slot → Bool
is_outside last block_time s = ltb block_time s.0 || ltb s.1 last

module _ (d : Decimals) where
  -- `Decimal::from_ratio(amount, time)` times the seconds that passed
  unfoldable pub prorated : ℕ → ℕ → ℕ → Outcome StdError ℕ
  prorated amount time passed = do
    rate ← or_panic (d.from_ratio amount time)
    or_panic (d.mul passed rate)

  -- The body of the loop over the schedule, for a slot that `continue` does not skip.
  unfoldable pub slot_amount : ℕ → ℕ → Slot → Outcome StdError ℕ
  slot_amount last block_time s = do
    passed_time ← sub_word (min_of s.1 block_time) (max_of s.0 last)
    time ← sub_word s.1 s.0
    prorated s.2 time passed_time

  -- The loop, from the amount so far.
  unfoldable pub distributed : ℕ → ℕ → List Slot → ℕ → Outcome StdError ℕ
  distributed last block_time [] amount = ok amount
  distributed last block_time (s ∷ rest) amount = do
    more ← if is_outside last block_time s then ok 0 else slot_amount last block_time s
    sum ← add_u128 amount more
    distributed last block_time rest sum

  unfoldable pub compute_reward : Config → State d.Decimal → ℕ → Outcome StdError (State d.Decimal)
  compute_reward config state block_time =
      if nat_eq state.total_bond_amount 0
      then ok (record state { last_distributed = block_time })
      else do
        amount ← distributed state.last_distributed block_time config.distribution_schedule 0
        increase ← or_panic (d.from_ratio amount state.total_bond_amount)
        index ← or_panic (d.add state.global_reward_index increase)
        ok (record state { last_distributed = block_time; global_reward_index = index })

  unfoldable pub compute_staker_reward :
      State d.Decimal → StakerInfo d.Decimal → Outcome StdError (StakerInfo d.Decimal)
  compute_staker_reward state info = do
    earned ← or_panic (d.mul info.bond_amount state.global_reward_index)
    settled ← or_panic (d.mul info.bond_amount info.reward_index)
    pending_reward ← checked_sub earned settled
    sum ← add_u128 info.pending_reward pending_reward
    ok (record info { reward_index = state.global_reward_index; pending_reward = sum })

  abbrev pub increase_bond_amount :
      State d.Decimal
      → StakerInfo d.Decimal
      → ℕ
      → Outcome StdError (State d.Decimal × StakerInfo d.Decimal)
  increase_bond_amount state info amount = do
    total ← add_u128 state.total_bond_amount amount
    bond ← add_u128 info.bond_amount amount
    ok (record state { total_bond_amount = total }, record info { bond_amount = bond })

  abbrev pub decrease_bond_amount :
      State d.Decimal
      → StakerInfo d.Decimal
      → ℕ
      → Outcome StdError (State d.Decimal × StakerInfo d.Decimal)
  decrease_bond_amount state info amount = do
    total ← checked_sub state.total_bond_amount amount
    bond ← checked_sub info.bond_amount amount
    ok (record state { total_bond_amount = total }, record info { bond_amount = bond })
