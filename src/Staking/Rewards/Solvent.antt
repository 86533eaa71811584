-- ===== src/Staking/Rewards/Solvent.antt =====
-- What the stakers are credited against what the schedule gives out: the step of the global index
-- in `compute_reward` of contracts/staking/src/contract.rs.
use shard_token.Common.{
  ℕ, ◌+◌, ◌-◌, ◌*◌, ◌/◌, ◌≤◌, ◌≡◌, ◌≢◌, ap, arith, Bool-cases, nat_eq, Option-cases, inl, inr, List,
  [], ◌∷◌, length, if◌then◌else◌,
}
use shard_token.Common.Outcome.{ok, Outcome-cases, known, failed, aborted}
use shard_token.Platform.Decimals.{Decimals, fractional}
use shard_token.Staking.Msg.{Config, State}
use shard_token.Staking.Rewards.{distributed, compute_reward}
use shard_token.Staking.Rewards.Slots.{schedule_owes, distributed_value}

-- a total that is shared out by a rate rounded down
rate_covers : (a t f : ℕ) → t ≢ 0 → t * (a * f / t) ≤ a * f
rate_covers a t f pos = grind arith

abbrev pub sum : List ℕ → ℕ
sum [] = 0
sum (b ∷ bonds) = b + sum bonds

-- what the bonds are credited together when the index grows from one value to another
unfoldable pub credits : ℕ → ℕ → List ℕ → ℕ
credits g g' [] = 0
credits g g' (b ∷ bonds) = b * g' / fractional - b * g / fractional + credits g g' bonds

credits_le :
    (g more : ℕ) (bonds : List ℕ)
    → credits g (g + more) bonds ≤ sum bonds * more / fractional + length bonds
unfolding credits
credits_le g more [] = omega arith
credits_le g more (b ∷ bonds) = omega (arith, credits_le g more bonds)

shared_out :
    (owes total : ℕ) (bonds : List ℕ)
    → sum bonds ≡ total
    → total ≢ 0
    → sum bonds * (owes * fractional / total) / fractional ≤ owes
shared_out owes total bonds all pos = rw all (omega (arith, rate_covers owes total fractional pos))

module _ (d : Decimals) where
  -- Time passes, the bonds stay, and the index grows by what the schedule owes for each unit of
  -- bond, rounded down; with no bond it stays.
  pub record Advanced (config : Config) (now : ℕ) (st st' : State d.Decimal) : Type 0 where
    pub time : st'.last_distributed ≡ now
    pub bonds : st'.total_bond_amount ≡ st.total_bond_amount
    pub index :
        d.atomics st'.global_reward_index
        ≡ d.atomics st.global_reward_index
          + (if nat_eq st.total_bond_amount 0
              then 0
              else schedule_owes st.last_distributed now config.distribution_schedule
                * fractional
                / st.total_bond_amount)

  ap_atomics :
      (st st' : State d.Decimal)
      → st ≡ st'
      → d.atomics st.global_reward_index ≡ d.atomics st'.global_reward_index
  ap_atomics st st' e = ap (λ s. d.atomics s.global_reward_index) e

  -- Where `compute_reward` succeeds, it advances the time, keeps the total, and grows the index by
  -- what the schedule owes for each unit of bond, or not at all with no bond.
  pub compute_reward-Advanced :
      (config : Config) (now : ℕ) (st st' : State d.Decimal)
      → compute_reward d config st now ≡ ok st'
      → Advanced config now st st'
  unfolding compute_reward
  compute_reward-Advanced config now st st' h = elim (Bool-cases (nat_eq st.total_bond_amount 0)) [
    | inl none_bonded ↦ record {
      time = ground arith;
      bonds = ground arith;
      index = ground (arith, ap_atomics st st');
    }
    | inr bonded ↦
        let total = st.total_bond_amount in
        let last = st.last_distributed in
        elim (Outcome-cases (distributed d last now config.distribution_schedule 0)) [
          | failed f e ↦ absurd (ground arith)
          | aborted e ↦ absurd (ground arith)
          | known amount e ↦ elim (Option-cases (d.from_ratio amount total)) [
            | inl e₁ ↦ absurd (ground arith)
            | inr (more, e₁) ↦ elim (Option-cases (d.add st.global_reward_index more)) [
              | inl e₂ ↦ absurd (ground arith)
              | inr (index, e₂) ↦
                  let owes = distributed_value d last now config.distribution_schedule 0 amount e in
                  let ratio = d.atomics-from_ratio amount total more e₁ in
                  let grown = d.atomics-add st.global_reward_index more index e₂ in
                  record {
                    time = ground arith;
                    bonds = ground arith;
                    index = ground (arith, owes, ratio, grown);
                  }
            ]
          ]
        ]
  ]

  -- Where `compute_reward` succeeds and the bonds add up to the total, the stakers together are
  -- credited at most what the schedule owes for the interval, and one unit for each of them, by which
  -- their roundings may differ.
  pub credits_covered :
      (config : Config) (now : ℕ) (st st' : State d.Decimal) (bonds : List ℕ)
      → compute_reward d config st now ≡ ok st'
      → sum bonds ≡ st.total_bond_amount
      → credits (d.atomics st.global_reward_index) (d.atomics st'.global_reward_index) bonds
        ≤ schedule_owes st.last_distributed now config.distribution_schedule + length bonds
  credits_covered config now st st' bonds h all =
      let owes = schedule_owes st.last_distributed now config.distribution_schedule in
      let total = st.total_bond_amount in
      let g = d.atomics st.global_reward_index in
      rw ((compute_reward-Advanced config now st st' h).index) (elim (Bool-cases (nat_eq total 0)) [
        | inl none_bonded ↦
            let idle : sum bonds * 0 / fractional ≡ 0 = omega arith in
            rw none_bonded (omega (arith, credits_le g 0 bonds, idle))
        | inr bonded ↦ rw bonded (
            omega (
              arith,
              credits_le g (owes * fractional / total) bonds,
              shared_out owes total bonds all (ground arith),
            ))
      ])
