-- ===== src/Staking/Schedules/Migration.antt =====
-- The loops of `migrate_staking`, contracts/staking/src/contract.rs: what they give out and what
-- they keep in the schedule.
use shard_token.Common.{
  ℕ, ◌+◌, ◌-◌, ◌≤◌, ◌<◌, ◌≡◌, arith, Bool-cases, inl, inr, List, [], ◌∷◌, ltb, ltb→lt, ltb→le,
}
use shard_token.Common.Outcome.{ok}
use shard_token.Common.Checked.{chain_ok}
use shard_token.Common.Words.{add_u128}
use shard_token.Platform.Decimals.{Decimals}
use shard_token.Staking.Msg.{Slot}
use shard_token.Staking.Rewards.Slots.{pro_rata, pro_rata_le, prorated_value, added, amounts}
use shard_token.Staking.Schedules.{sum_amounts, retain_started, close_slot, close_slots}

sum_amounts_value :
    (slots : List Slot) (acc t : ℕ) → sum_amounts slots acc ≡ ok t → t ≡ acc + amounts slots
unfolding sum_amounts amounts
sum_amounts_value [] acc t h = ground arith
sum_amounts_value (s ∷ rest) acc t h =
    let (sum, is_sum, h') = chain_ok (add_u128 acc s.2) _ h in
    omega (arith, added acc s.2 sum is_sum, sum_amounts_value rest sum t h')

retain_started-le :
    (now : ℕ) (slots : List Slot) → amounts (retain_started now slots) ≤ amounts slots
unfolding retain_started amounts
retain_started-le now [] = omega arith
retain_started-le now (s ∷ rest) = ground (arith, retain_started-le now rest)

-- A slot as it is left: over by `now`, with the amount that it gave out.
abbrev IsClosed : ℕ → Slot → Type 0
IsClosed now s = (s.0 < now) × (s.1 ≤ now)

abbrev pub AllClosed : ℕ → List Slot → Type 0
AllClosed now [] = Unit
AllClosed now (s ∷ rest) = IsClosed now s × AllClosed now rest

abbrev AllStarted : ℕ → List Slot → Type 0
AllStarted now [] = Unit
AllStarted now (s ∷ rest) = (s.0 < now) × AllStarted now rest

retain_started-AllStarted :
    (now : ℕ) (slots : List Slot) → AllStarted now (retain_started now slots)
unfolding retain_started
retain_started-AllStarted now [] = tt
retain_started-AllStarted now (s ∷ rest) = ground (arith, retain_started-AllStarted now rest)

-- What a migration at `now` makes of a schedule, slot by slot: a slot that has not begun is dropped, one
-- that is over stays as it is, and one that is running ends now, with what its rate gave out since it
-- began.
pub data Closes (now : ℕ) : List Slot → List Slot → Type 0 where
  done : Closes now [] []
  drops :
      {s : Slot} {rest kept : List Slot}
      → now ≤ s.0
      → Closes now rest kept
      → Closes now (s ∷ rest) kept
  keeps :
      {s : Slot} {rest kept : List Slot}
      → s.0 < now
      → s.1 < now
      → Closes now rest kept
      → Closes now (s ∷ rest) (s ∷ kept)
  ends :
      {s : Slot} {rest kept : List Slot} (c : Slot)
      → s.0 < now
      → now ≤ s.1
      → c ≡ (s.0, now, pro_rata s.2 (s.1 - s.0) (now - s.0))
      → Closes now rest kept
      → Closes now (s ∷ rest) (c ∷ kept)

module _ (d : Decimals) where
  close_slot-Closes :
      (now : ℕ) (s : Slot) (rest kept : List Slot) (r : Slot × ℕ)
      → s.0 < now
      → close_slot d now s ≡ ok r
      → Closes now rest kept
      → Closes now (s ∷ rest) (r.0 ∷ kept)
  unfolding close_slot
  close_slot-Closes now s rest kept r started h others = elim (Bool-cases (ltb s.1 now)) [
    | inl over ↦
        let same : r.0 ≡ s = ground arith in rw same (keeps started (ltb→lt _ _ over) others)
    | inr running ↦
        let value = prorated_value d s.2 (s.1 - s.0) (now - s.0) r.1 in
        ends r.0 started (ltb→le _ _ running) (ground (arith, value)) others
  ]

  close_slots-Closes :
      (now : ℕ) (slots : List Slot) (acc : ℕ) (r : List Slot × ℕ)
      → close_slots d now (retain_started now slots) acc ≡ ok r
      → Closes now slots r.0
  unfolding close_slots retain_started
  close_slots-Closes now [] acc r h = let same : r.0 ≡ [] = ground arith in rw same done
  close_slots-Closes now (s ∷ rest) acc r h = elim (Bool-cases (ltb s.0 now)) [
    | inl started ↦
        let h₀ : close_slots d now (s ∷ retain_started now rest) acc ≡ ok r = rw started at h in
        let (closed, is_closed, h₁) = chain_ok (close_slot d now s) _ h₀ in
        let (sum, is_sum, h₂) = chain_ok (add_u128 acc closed.1) _ h₁ in
        let (others, is_others, h₃) =
          chain_ok (close_slots d now (retain_started now rest) sum) _ h₂ in
        let same : r.0 ≡ closed.0 ∷ others.0 = ground arith in
        rw same (
          close_slot-Closes now s rest others.0 closed (ltb→lt _ _ started) is_closed
            (close_slots-Closes now rest sum others is_others))
    | inr later ↦ drops (ltb→le _ _ later) (close_slots-Closes now rest acc r (rw later at h))
  ]

  close_slot_value :
      (now : ℕ) (s : Slot) (r : Slot × ℕ)
      → s.0 < now
      → close_slot d now s ≡ ok r
      → (r.1 ≡ r.0.2) × (r.1 ≤ s.2) × IsClosed now r.0
  unfolding close_slot
  close_slot_value now s r started h = elim (Bool-cases (ltb s.1 now)) [
    | inl over ↦ ground arith
    | inr running ↦
        let value = prorated_value d s.2 (s.1 - s.0) (now - s.0) r.1 in
        let le = pro_rata_le s.2 (s.1 - s.0) (now - s.0) in ground (arith, value, le)
  ]

  -- What was given out is what the closed slots hold, and no more than the schedule held.
  pub close_slots_value :
      (now : ℕ) (slots : List Slot) (acc : ℕ) (r : List Slot × ℕ)
      → AllStarted now slots
      → close_slots d now slots acc ≡ ok r
      → (r.1 ≡ acc + amounts r.0) × (amounts r.0 ≤ amounts slots) × AllClosed now r.0
  unfolding close_slots amounts
  close_slots_value now [] acc r started h = ground arith
  close_slots_value now (s ∷ rest) acc r started h =
      let (closed, is_closed, h₁) = chain_ok (close_slot d now s) _ h in
      let (sum, is_sum, h₂) = chain_ok (add_u128 acc closed.1) _ h₁ in
      let (others, is_others, h₃) = chain_ok (close_slots d now rest sum) _ h₂ in
      let one = close_slot_value now s closed started.0 is_closed in
      let ih = close_slots_value now rest sum others started.1 is_others in
      let total = added acc closed.1 sum is_sum in ground (arith, one, ih, total)

  -- The sum of the schedule splits into what is kept in the closed slots and what remains.
  pub migration_splits :
      (now : ℕ) (slots : List Slot) (total : ℕ) (r : List Slot × ℕ)
      → sum_amounts slots 0 ≡ ok total
      → close_slots d now (retain_started now slots) 0 ≡ ok r
      → (r.1 ≡ amounts r.0)
        × (r.1 ≤ total)
        × (total ≡ amounts slots)
        × AllClosed now r.0
        × Closes now slots r.0
  migration_splits now slots total r is_total is_closed =
      let value = sum_amounts_value slots 0 total is_total in
      let le = retain_started-le now slots in
      let (same, fits, closed) =
        close_slots_value now (retain_started now slots) 0 r (retain_started-AllStarted now slots)
          is_closed in
      (omega arith, omega arith, omega arith, closed, close_slots-Closes now slots 0 r is_closed)
