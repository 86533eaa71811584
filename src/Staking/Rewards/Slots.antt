-- ===== src/Staking/Rewards/Slots.antt =====
-- The loop of `compute_reward` over the distribution schedule, contracts/staking/src/contract.rs.
use shard_token.Common.{
  ℕ, zero, suc, ◌+◌, ◌-◌, ◌*◌, ◌/◌, ◌≤◌, ◌≡◌, ◌≢◌, ap, Bool-cases, arith, Option-cases, inl, inr,
  List, [], ◌∷◌, min_of, max_of, if◌then◌else◌,
}
use shard_token.Common.Outcome.{Outcome, ok}
use shard_token.Common.Checked.{chain_ok}
use shard_token.Common.Words.{add_u128}
use shard_token.Platform.Errors.{StdError}
use shard_token.Platform.Decimals.{Decimals, fractional}
use shard_token.Staking.Msg.{Slot}
use shard_token.Staking.Rewards.{prorated, is_outside, slot_amount, distributed}

-- a part of a whole, first divided and then multiplied
scaled_le : (a f t p : ℕ) → p ≤ t → t ≢ 0 → f ≢ 0 → p * (a * f / t) / f ≤ a
scaled_le a f t p le pos fpos = grind arith

mul_mono : (p r x : ℕ) → p ≤ r → p * x ≤ r * x
mul_mono p r x le = grind arith

split_le : (p q r x : ℕ) → p + q ≤ r → p * x / fractional + q * x / fractional ≤ r * x / fractional
split_le p q r x le = omega (arith, mul_mono (p + q) r x le)

-- The value of a share: the rate rounded down, times the seconds, rounded down.
abbrev pub pro_rata : ℕ → ℕ → ℕ → ℕ
pro_rata amount time passed = passed * (amount * fractional / time) / fractional

-- The seconds of a slot that lie between two times: none where the later beginning is not before the
-- earlier end, as a difference stops at 0.
abbrev pub overlap : ℕ → ℕ → Slot → ℕ
overlap last block_time s = min_of s.1 block_time - max_of s.0 last

pub added : {E : Type 0} (a b c : ℕ) → add_u128 {E = E} a b ≡ ok c → c ≡ a + b
added a b c h = ground arith

module _ (d : Decimals) where
  pub prorated_value :
      (amount time passed x : ℕ)
      → prorated d amount time passed ≡ ok x
      → (time ≢ 0) × (x ≡ pro_rata amount time passed)
  unfolding prorated
  prorated_value amount time passed x h = elim (Option-cases (d.from_ratio amount time)) [
    | inl zero_time ↦ ground arith
    | inr (rate, e) ↦
        let as_atoms = d.atomics-from_ratio amount time rate e in
        let value = d.mul_value passed rate x (ground arith) in
        (
          (λ z. cc (d.from_ratio-zero amount, ap (λ t. d.from_ratio amount t) z, e)),
          rw (← as_atoms) value,
        )
  ]

  abbrev share : ℕ → ℕ → Slot → Outcome StdError ℕ
  share last block_time s =
      if is_outside last block_time s then ok 0 else slot_amount d last block_time s

  share_value :
      (last block_time : ℕ) (s : Slot) (x : ℕ)
      → share last block_time s ≡ ok x
      → x ≡ pro_rata s.2 (s.1 - s.0) (overlap last block_time s)
  unfolding slot_amount
  share_value last block_time s x h = elim (Bool-cases (is_outside last block_time s)) [
    | inl skipped ↦ ground arith
    | inr inside ↦
        let value = prorated_value s.2 (s.1 - s.0) (min_of s.1 block_time - max_of s.0 last) x in
        ground (arith, value)
  ]

-- One interval, cut in two: no second is counted twice.
overlap_split :
    (t u v : ℕ) (s : Slot) → t ≤ u → u ≤ v → overlap t u s + overlap u v s ≤ overlap t v s
overlap_split t u v s h k = ground arith

pub overlap_le : (t u : ℕ) (s : Slot) → overlap t u s ≤ s.1 - s.0
overlap_le t u s = ground arith

-- What each slot owes for an interval, and the schedule together.
abbrev pub owed : ℕ → ℕ → Slot → ℕ
owed last block_time s = pro_rata s.2 (s.1 - s.0) (overlap last block_time s)

unfoldable pub schedule_owes : ℕ → ℕ → List Slot → ℕ
schedule_owes last block_time [] = 0
schedule_owes last block_time (s ∷ rest) =
    owed last block_time s + schedule_owes last block_time rest

unfoldable pub amounts : List Slot → ℕ
amounts [] = 0
amounts (s ∷ rest) = s.2 + amounts rest

pub pro_rata_le : (amount time passed : ℕ) → passed ≤ time → pro_rata amount time passed ≤ amount
pro_rata_le amount zero passed le = let e : passed ≡ 0 = omega arith in rw e (omega arith)
pro_rata_le amount (suc n) passed le =
    scaled_le amount fractional (suc n) passed le (omega arith) (omega arith)

pub owed_le : (t u : ℕ) (s : Slot) → owed t u s ≤ s.2
owed_le t u s = pro_rata_le s.2 (s.1 - s.0) (overlap t u s) (overlap_le t u s)

pub schedule_owes-le : (t u : ℕ) (slots : List Slot) → schedule_owes t u slots ≤ amounts slots
unfolding schedule_owes amounts
schedule_owes-le t u [] = omega arith
schedule_owes-le t u (s ∷ rest) = omega (arith, owed_le t u s, schedule_owes-le t u rest)

owed_split : (t u v : ℕ) (s : Slot) → t ≤ u → u ≤ v → owed t u s + owed u v s ≤ owed t v s
owed_split t u v s h k =
    split_le (overlap t u s) (overlap u v s) (overlap t v s) (s.2 * fractional / (s.1 - s.0))
      (overlap_split t u v s h k)

pub schedule_owes_split :
    (t u v : ℕ) (slots : List Slot)
    → t ≤ u
    → u ≤ v
    → schedule_owes t u slots + schedule_owes u v slots ≤ schedule_owes t v slots
unfolding schedule_owes
schedule_owes_split t u v [] h k = omega arith
schedule_owes_split t u v (s ∷ rest) h k =
    omega (arith, owed_split t u v s h k, schedule_owes_split t u v rest h k)

module _ (d : Decimals) where
  -- Where the loop succeeds, it has added what the schedule owes for the interval.
  pub distributed_value :
      (t u : ℕ) (slots : List Slot) (acc a : ℕ)
      → distributed d t u slots acc ≡ ok a
      → a ≡ acc + schedule_owes t u slots
  unfolding distributed schedule_owes
  distributed_value t u [] acc a h = ground arith
  distributed_value t u (s ∷ rest) acc a h =
      let (more, is_share, h') = chain_ok (share d t u s) _ h in
      let (sum, is_sum, h'') = chain_ok (add_u128 acc more) _ h' in
      omega (
        arith,
        share_value d t u s more is_share,
        distributed_value t u rest sum a h'',
        added acc more sum is_sum,
      )
