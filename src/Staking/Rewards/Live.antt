-- ===== src/Staking/Rewards/Live.antt =====
-- When the loop of `compute_reward` ends with an amount, and when it aborts,
-- contracts/staking/src/contract.rs.
use shard_token.Common.{
  ℕ, ◌+◌, ◌-◌, ◌*◌, ◌/◌, ◌<◌, ◌≤◌, ◌≡◌, ◌≢◌, ap, arith, Bool-cases, inl, inr, List, [], ◌∷◌, ◌++◌,
  if◌then◌else◌,
}
use shard_token.Common.Outcome.{Outcome, ok, err, panic, Outcome-cases, known, failed, aborted}
use shard_token.Common.Words.{u128_mod}
use shard_token.Platform.Errors.{StdError}
use shard_token.Platform.Decimals.{Decimals, fractional}
use shard_token.Staking.Msg.{Slot}
use shard_token.Staking.Rewards.{prorated, is_outside, slot_amount, distributed}
use shard_token.Staking.Rewards.Slots.{pro_rata, overlap, owed, owed_le, schedule_owes, amounts}

-- A slot that lasts, and whose rate per second fits a `Decimal`.
abbrev pub IsTimed : Slot → Type 0
IsTimed s = (s.0 < s.1) × (s.2 * fractional / (s.1 - s.0) < u128_mod)

abbrev pub AllTimed : List Slot → Type 0
AllTimed [] = Unit
AllTimed (s ∷ rest) = IsTimed s × AllTimed rest

no_time : (a b : ℕ) → a ≡ b → b - a ≡ 0
no_time a b e = omega arith

module _ (d : Decimals) where
  prorated_fits :
      (amount time passed : ℕ)
      → time ≢ 0
      → amount * fractional / time < u128_mod
      → pro_rata amount time passed < u128_mod
      → prorated d amount time passed ≡ ok (pro_rata amount time passed)
  unfolding prorated
  prorated_fits amount time passed pos rate_fits fits =
      let (rate, e) = d.from_ratio_fits amount time pos rate_fits in
      let atoms = d.atomics-from_ratio amount time rate e in
      let (x, e') = d.mul_fits passed rate (rw atoms fits) in
      let value = d.mul_value passed rate x e' in rw (e, e', value, atoms)

  abbrev pub share : ℕ → ℕ → Slot → Outcome StdError ℕ
  share t u s = if is_outside t u s then ok 0 else slot_amount d t u s

  pub share_fits :
      (t u : ℕ) (s : Slot) → t ≤ u → IsTimed s → s.2 < u128_mod → share t u s ≡ ok (owed t u s)
  unfolding slot_amount
  share_fits t u s h timed fits = elim (Bool-cases (is_outside t u s)) [
    | inl skipped ↦ ground arith
    | inr inside ↦
        let value =
          prorated_fits s.2 (s.1 - s.0) (overlap t u s) (omega arith) timed.1
            (omega (arith, owed_le t u s)) in
        ground (arith, value)
  ]

  -- Over slots that last and whose rates fit a `Decimal`, from one time to one that is not earlier,
  -- and where the amounts with the sum so far fit a `u128`, the loop ends with what is owed.
  pub distributed_fits :
      (t u : ℕ) (slots : List Slot) (acc : ℕ)
      → t ≤ u
      → AllTimed slots
      → acc + amounts slots < u128_mod
      → distributed d t u slots acc ≡ ok (acc + schedule_owes t u slots)
  unfolding distributed schedule_owes amounts
  distributed_fits t u [] acc h timed fits = ap (λ n. ok n) (omega arith)
  distributed_fits t u (s ∷ rest) acc h timed fits =
      let le = owed_le t u s in
      let one = share_fits t u s h timed.0 (omega arith) in
      let others = distributed_fits t u rest (acc + owed t u s) h timed.1 (omega arith) in
      ground (arith, one, others)

  -- such a slot alone, where the loop does not skip it
  empty_slot_aborts : (t u : ℕ) (s : Slot) → t ≤ s.0 → s.0 ≤ u → s.0 ≡ s.1 → share t u s ≡ panic
  unfolding slot_amount prorated
  empty_slot_aborts t u s h k e =
      ground (arith, d.from_ratio-zero s.2, ap (λ n. d.from_ratio s.2 n) (no_time s.0 s.1 e))

  share-ne-err : (t u : ℕ) (s : Slot) (f : StdError) → share t u s ≢ err f
  unfolding slot_amount prorated
  share-ne-err t u s f h = ground arith

  -- A slot that begins and ends in one second, from the last distribution to now, aborts the loop,
  -- whatever slots stand before and after it.
  pub distributed_aborts :
      (t u : ℕ) (before after : List Slot) (s : Slot) (acc : ℕ)
      → t ≤ s.0
      → s.0 ≤ u
      → s.0 ≡ s.1
      → distributed d t u (before ++ s ∷ after) acc ≡ panic
  unfolding distributed
  distributed_aborts t u [] after s acc h k e = ground (arith, empty_slot_aborts t u s h k e)
  distributed_aborts t u (b ∷ before) after s acc h k e = elim (Outcome-cases (share t u b)) [
    | known x is_x ↦ ground (arith, is_x, distributed_aborts t u before after s (acc + x) h k e)
    | failed f is_f ↦ absurd (share-ne-err t u b f is_f)
    | aborted is_abort ↦ ground (arith, is_abort)
  ]
