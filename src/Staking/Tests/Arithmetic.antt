-- ===== src/Staking/Tests/Arithmetic.antt =====
-- The reward arithmetic on small schedules.
use shard_token.Common.{◌+◌, ◌*◌, ◌^◌, ◌<◌, ◌≡◌, ◌≤◌, ◌↔◌, List, refl, arith, [], ◌∷◌, ◌++◌}
use shard_token.Common.Outcome.{ok, panic}
use shard_token.Common.Words.{u128_mod}
use shard_token.Platform.Samples.{atomic_decimals}
use shard_token.Staking.Rewards.{
  prorated, slot_amount, distributed, compute_reward, compute_staker_reward,
}
use shard_token.Staking.Rewards.Settle.{settle_twice}
use shard_token.Staking.Rewards.Slots.{schedule_owes, amounts}
use shard_token.Staking.Msg.{Slot}
use shard_token.Staking.Rewards.Seconds.{
  seconds_shared, counted_owes, AllAnswered, AllRated, distributed_iff,
}
use shard_token.Staking.Rewards.Live.{AllTimed, distributed_fits, distributed_aborts}
use shard_token.Staking.Rewards.Solvent.{
  Advanced, compute_reward-Advanced, credits, credits_covered,
}
use shard_token.Staking.Tests.{config_with, slots, state_with, info_with}

advances :
    compute_reward atomic_decimals (config_with slots) (state_with 100 100 0) 150
    ≡ ok (state_with 150 100 (5 * 10 ^ 21))
unfolding compute_reward distributed slot_amount prorated
advances = refl

compute_reward-Advanced_example :
    Advanced atomic_decimals
      (config_with slots)
      150
      (state_with 100 100 0)
      (state_with 150 100 (5 * 10 ^ 21))
compute_reward-Advanced_example =
    compute_reward-Advanced atomic_decimals (config_with slots) 150 (state_with 100 100 0)
      (state_with 150 100 (5 * 10 ^ 21)) advances

credits_covered_example : credits 0 (5 * 10 ^ 21) (70 ∷ 30 ∷ []) ≤ schedule_owes 100 150 slots + 2
credits_covered_example =
    credits_covered atomic_decimals (config_with slots) 150 (state_with 100 100 0)
      (state_with 150 100 (5 * 10 ^ 21)) (70 ∷ 30 ∷ []) advances refl

settle_twice_example :
    compute_staker_reward atomic_decimals (state_with 180 60 (9 * 10 ^ 18)) (info_with 0 60 1)
    ≡ ok (info_with (9 * 10 ^ 18) 60 541)
unfolding compute_staker_reward
settle_twice_example =
    settle_twice atomic_decimals (state_with 150 60 (5 * 10 ^ 18)) (state_with 180 60 (9 * 10 ^ 18))
      (info_with 0 60 1) (info_with (5 * 10 ^ 18) 60 301) (info_with (9 * 10 ^ 18) 60 541) refl refl

settles :
    compute_staker_reward atomic_decimals (state_with 150 60 (5 * 10 ^ 18)) (info_with 0 60 1)
    ≡ ok (info_with (5 * 10 ^ 18) 60 301)
unfolding compute_staker_reward
settles = refl

slots_last : AllTimed slots
slots_last = ((omega arith, omega arith), tt)

room : 9 + amounts slots < u128_mod
unfolding amounts
room = omega arith

distributed_fits_example :
    distributed atomic_decimals 100 150 slots 9 ≡ ok (9 + schedule_owes 100 150 slots)
distributed_fits_example =
    distributed_fits atomic_decimals 100 150 slots 9 (omega arith) slots_last room

distributed_aborts_example :
    distributed atomic_decimals 100 150 (slots ++ (120, 120, 50) ∷ []) 0 ≡ panic
distributed_aborts_example =
    distributed_aborts atomic_decimals 100 150 slots [] (120, 120, 50) 0 (omega arith) (omega arith)
      refl

-- a slot that is over, one that runs, and one of no length that begins later
abbrev mixed : List Slot
mixed = (20, 60, 40) ∷ (100, 200, 1000000) ∷ (300, 300, 5) ∷ []

mixed-AllRated : AllRated mixed
mixed-AllRated = (omega arith, (omega arith, (omega arith, tt)))

mixed_room : 9 + amounts mixed < u128_mod
unfolding amounts
mixed_room = omega arith

distributed_iff_example :
    (distributed atomic_decimals 100 150 mixed 9 ≡ ok 500009)
    ↔ (AllAnswered 100 150 mixed × (500009 ≡ 9 + counted_owes 100 150 mixed))
distributed_iff_example =
    distributed_iff atomic_decimals 100 150 mixed 9 500009 (omega arith) mixed-AllRated mixed_room

-- both sides hold here
distributed_counted : distributed atomic_decimals 100 150 mixed 9 ≡ ok 500009
unfolding distributed slot_amount prorated
distributed_counted = refl

counted : 500009 ≡ 9 + counted_owes 100 150 mixed
unfolding counted_owes seconds_shared
counted = refl
