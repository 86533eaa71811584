-- ===== src/Staking/Solvency/Growth.antt =====
-- How far the index of contracts/staking/src/contract.rs grows, and how that moves the books where no
-- account is settled, as in `migrate_staking` and `update_config`.
use shard_token.Common.{
  ℕ, ◌+◌, ◌*◌, ◌/◌, ◌≤◌, String, ◌≡◌, ◌≢◌, ap, sym, ◌∙◌, arith, inl, inr, Bool-cases, nat_eq,
}
use shard_token.Common.Outcome.{ok, same_value}
use shard_token.Common.Sums.{sum_over-ext}
use shard_token.Platform.Decimals.{Decimals, fractional}
use shard_token.Staking.Msg.{Config, State}
use shard_token.Staking.Store.{Host, Store, state_of, info_of}
use shard_token.Staking.Rewards.{compute_reward}
use shard_token.Staking.Rewards.Slots.{schedule_owes}
use shard_token.Staking.Rewards.Solvent.{compute_reward-Advanced}
use shard_token.Staking.Invariant.{bonds_of}
use shard_token.Staking.Solvency.{due_to, due_grows}
use shard_token.Staking.Solvency.Books.{Books, due_after}

share-le : (owes total : ℕ) → total ≢ 0 → total * (owes * fractional / total) ≤ owes * fractional
share-le owes total pos = grind arith

-- The index grows by some number, and what that gives to all bonds is no more than the schedule owes.
pub grown :
    (d : Decimals) (c : Config) (now : ℕ) (st st' : State d.Decimal)
    → compute_reward d c st now ≡ ok st'
    → (more : ℕ) × (d.atomics st'.global_reward_index ≡ d.atomics st.global_reward_index + more)
      × (st.total_bond_amount * more
          ≤ schedule_owes st.last_distributed now c.distribution_schedule * fractional)
grown d c now st st' e =
    let a = compute_reward-Advanced d c now st st' e in
    let owes = schedule_owes st.last_distributed now c.distribution_schedule in
    elim (Bool-cases (nat_eq st.total_bond_amount 0)) [
      | inl idle ↦ (0, ground (arith, a.index), omega arith)
      | inr bonded ↦ (
        owes * fractional / st.total_bond_amount,
        ground (arith, a.index),
        share-le owes st.total_bond_amount (ground arith),
      )
    ]

module _ (h : Host) {s s' : Store h} {paid given moves : ℕ} (k : Books h s paid given moves)
    (st st' : State h.decimals.Decimal) (is_st : state_of h s ≡ ok st)
    (is_st' : state_of h s' ≡ ok st') (bonds : st'.total_bond_amount ≡ st.total_bond_amount)
    (infos : (a : String) → info_of h a s' ≡ info_of h a s) where
  -- The accounts stay, and the index grows.
  pub kept-Books :
      (more owes : ℕ)
      → h.decimals.atomics st'.global_reward_index
        ≡ h.decimals.atomics st.global_reward_index + more
      → st.total_bond_amount * more ≤ owes * fractional
      → Books h s' paid (given + owes) moves
  kept-Books more owes grows shared =
      let same : k.state ≡ st = same_value k.is_state is_st in
      let was = ap (λ t. h.decimals.atomics t.global_reward_index) same in
      let total = ap (λ t. t.total_bond_amount) same in
      let top : h.decimals.atomics st'.global_reward_index
          ≡ h.decimals.atomics k.state.global_reward_index + more =
        omega arith in
      let due_same : (a : String)
          → due_to h s' (h.decimals.atomics st'.global_reward_index) a
            ≡ due_to h s (h.decimals.atomics k.state.global_reward_index + more) a =
        λ a. rw (top, infos a) in
      let grows_by : (a : String)
          → due_to h s (h.decimals.atomics k.state.global_reward_index + more) a
            ≡ due_to h s (h.decimals.atomics k.state.global_reward_index) a
              + bonds_of h s a * more =
        λ a.
          let info = info_of h a s in
          due_grows info.pending_reward info.bond_amount (h.decimals.atomics info.reward_index)
            (h.decimals.atomics k.state.global_reward_index) more (k.behind a) in
      record {
        state = st';
        is_state = is_st';
        names = k.names;
        distinct = k.distinct;
        no_bond = λ a out. ap (λ i. i.bond_amount) (infos a) ∙ k.no_bond a out;
        nothing_due = λ a out.
            due_same a
            ∙ omega (
              arith,
              grows_by a,
              k.nothing_due a out,
              ap (λ (n : ℕ). n * more) (k.no_bond a out),
            );
        bonds =
            sum_over-ext (bonds_of h s) (bonds_of h s') (λ a. ap (λ i. i.bond_amount) (infos a))
              k.names
            ∙ k.bonds
            ∙ total
            ∙ sym bonds;
        behind = λ a. rw (infos a) (omega (arith, k.behind a));
        within = omega (
          arith,
          sum_over-ext (due_to h s (h.decimals.atomics k.state.global_reward_index + more))
              (due_to h s' (h.decimals.atomics st'.global_reward_index)) due_same k.names,
          due_after h k more,
          ap (λ (n : ℕ). n * more) total,
          k.within,
        );
      }
