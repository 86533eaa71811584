-- ===== src/Staking/Solvency/Moves.antt =====
-- How the calls of contracts/staking/src/contract.rs move the books: `bond`, `unbond` and `withdraw`
-- through the account that they settle.
use shard_token.Common.{
  ℕ, ◌+◌, ◌*◌, ◌/◌, ◌≤◌, String, true, false, ◌≡◌, ap, sym, ◌∙◌, arith, inl, inr, Bool-cases, ◌==◌,
  eq_iff,
}
use shard_token.Common.Outcome.{same_value}
use shard_token.Common.Sums.{update, contains, sum_over, sum_over-update, sum_over-ext}
use shard_token.Platform.Decimals.{fractional}
use shard_token.Staking.Store.{Host, Store, info_of}
use shard_token.Staking.Rewards.Slots.{schedule_owes}
use shard_token.Staking.Rewards.Settle.{settled_value}
use shard_token.Staking.Rewards.Solvent.{compute_reward-Advanced}
use shard_token.Staking.Moves.{Accrued, Moved}
use shard_token.Staking.Invariant.{bonds_of}
use shard_token.Staking.Solvency.{due, due_to, due_grows, due_moved, due_paid}
use shard_token.Staking.Solvency.Growth.{grown}
use shard_token.Staking.Solvency.Books.{Books, with_account, due_after}

module _ (h : Host) {s s' : Store h} {now : ℕ} {owner : String} (acc : Accrued h now owner s)
    {bond pending : ℕ} (m : Moved h now owner s s' acc bond pending) where
  abbrev global : ℕ
  global = h.decimals.atomics acc.rewarded.global_reward_index

  bonds_after : (a : String) → bonds_of h s' a ≡ update owner bond (bonds_of h s) a
  bonds_after a = elim (Bool-cases (owner == a)) [
    | inl own ↦ rw (own, sym ((eq_iff owner a).0 own)) m.new_bond
    | inr other ↦ rw other (ap (λ i. i.bond_amount) (m.others a other))
  ]

  due_moved_after :
      (a : String)
      → due_to h s' global a ≡ update owner (due_to h s' global owner) (due_to h s global) a
  due_moved_after a = elim (Bool-cases (owner == a)) [
    | inl own ↦ rw (own, sym ((eq_iff owner a).0 own))
    | inr other ↦ rw other (
        ap (λ i. due i.pending_reward i.bond_amount (h.decimals.atomics i.reward_index) global)
          (m.others a other))
  ]

  module _ {paid given moves : ℕ} (k : Books h s paid given moves) where
    same_state : k.state ≡ acc.state
    same_state = same_value k.is_state acc.is_state

    before : ℕ
    before = h.decimals.atomics k.state.global_reward_index

    -- the growth of the index
    growth :
        (more : ℕ) × (global ≡ h.decimals.atomics k.state.global_reward_index + more)
        × (k.state.total_bond_amount * more
            ≤ schedule_owes acc.state.last_distributed now acc.config.distribution_schedule
              * fractional)
    growth =
        let (more, is_more, shared) =
          grown h.decimals acc.config now acc.state acc.rewarded acc.is_rewarded in
        (more, rw same_state is_more, rw same_state shared)

    same_total : acc.rewarded.total_bond_amount ≡ k.state.total_bond_amount
    same_total =
        (compute_reward-Advanced h.decimals acc.config now acc.state acc.rewarded
          acc.is_rewarded).bonds
        ∙ ap (λ t. t.total_bond_amount) (sym same_state)

    other_name :
        (a : String)
        → contains k.names owner ≡ true
        → contains k.names a ≡ false
        → (owner == a) ≡ false
    other_name a old out = elim (Bool-cases (owner == a)) [
      | inl own ↦
          let e : owner ≡ a = (eq_iff owner a).0 own in
          cc (old, out, ap (λ b. contains k.names b) e)
      | inr other ↦ other
    ]

    due_now :
        (a : String)
        → due_to h s global a
          ≡ due_to h s (h.decimals.atomics k.state.global_reward_index) a
            + bonds_of h s a * growth.0
    due_now a =
        let info = info_of h a s in
        rw (growth.1) (
          due_grows info.pending_reward info.bond_amount (h.decimals.atomics info.reward_index)
            (h.decimals.atomics k.state.global_reward_index) growth.0 (k.behind a))

    nothing_now : (a : String) → contains k.names a ≡ false → due_to h s global a ≡ 0
    nothing_now a out =
        omega
          (arith, due_now a, k.nothing_due a out, ap (λ (n : ℕ). n * growth.0) (k.no_bond a out))

    bonds_sum : contains k.names owner ≡ true → sum_over (bonds_of h s') k.names ≡ m.total
    bonds_sum old = omega (
      arith,
      sum_over-ext (update owner bond (bonds_of h s)) (bonds_of h s') bonds_after k.names,
      sum_over-update (bonds_of h s) owner bond k.names k.distinct old,
      k.bonds,
      m.balanced,
      same_total,
    )

    due_sum :
        contains k.names owner ≡ true
        → sum_over (due_to h s' global) k.names + due_to h s global owner
          ≡ sum_over (due_to h s global) k.names + due_to h s' global owner
    due_sum old =
        ap (λ t. t + due_to h s global owner)
          (sum_over-ext (update owner (due_to h s' global owner) (due_to h s global))
            (due_to h s' global) due_moved_after k.names)
        ∙ sum_over-update (due_to h s global) owner (due_to h s' global owner) k.names k.distinct
            old

    moved_known-Books :
        (pays changes : ℕ)
        → contains k.names owner ≡ true
        → due_to h s' global owner + pays * fractional
          ≤ due_to h s global owner + changes * fractional
        → Books h s'
            (paid + pays)
            (given + schedule_owes acc.state.last_distributed now acc.config.distribution_schedule)
            (moves + changes)
    moved_known-Books pays changes old step =
        let all : sum_over (due_to h s global) k.names
            ≡ sum_over (due_to h s (h.decimals.atomics k.state.global_reward_index)) k.names
              + k.state.total_bond_amount * growth.0 =
          rw (growth.1) (due_after h k growth.0) in
        record {
          state = record acc.rewarded { total_bond_amount = m.total };
          is_state = m.new_state;
          names = k.names;
          distinct = k.distinct;
          no_bond = λ a out. bonds_after a ∙ rw (other_name a old out) (k.no_bond a out);
          nothing_due = λ a out. due_moved_after a ∙ rw (other_name a old out) (nothing_now a out);
          bonds = bonds_sum old;
          behind = λ a. elim (Bool-cases (owner == a)) [
            | inl own ↦ rw (sym ((eq_iff owner a).0 own)) m.new_index
            | inr other ↦ rw (m.others a other) (omega (arith, growth.1, k.behind a))
          ];
          within = omega (arith, due_sum old, all, growth.2, k.within, step);
        }

  -- A call that settles one account keeps the books.
  pub moved-Books :
      {paid given moves : ℕ} (pays changes : ℕ)
      → due_to h s' global owner + pays * fractional
        ≤ due_to h s global owner + changes * fractional
      → Books h s paid given moves
      → Books h s'
          (paid + pays)
          (given + schedule_owes acc.state.last_distributed now acc.config.distribution_schedule)
          (moves + changes)
  moved-Books pays changes step k =
      let (k', old) = with_account h k owner in moved_known-Books k' pays changes old step

  owner_behind :
      {paid given moves : ℕ}
      → Books h s paid given moves
      → h.decimals.atomics (info_of h owner s).reward_index ≤ global
  owner_behind k = let g = growth k in omega (arith, g.1, k.behind owner)

  settled_sum :
      acc.settled.pending_reward
        + (info_of h owner s).bond_amount
          * h.decimals.atomics (info_of h owner s).reward_index
          / fractional
      ≡ (info_of h owner s).pending_reward + (info_of h owner s).bond_amount * global / fractional
  settled_sum =
      (settled_value h.decimals acc.rewarded (info_of h owner s) acc.settled acc.is_settled).0

  -- the reward stays pending, and the bond changes
  pub changed-Books :
      {paid given moves : ℕ}
      → pending ≡ acc.settled.pending_reward
      → Books h s paid given moves
      → Books h s'
          (paid + 0)
          (given + schedule_owes acc.state.last_distributed now acc.config.distribution_schedule)
          (moves + 1)
  changed-Books kept k =
      let info = info_of h owner s in
      let step =
        due_moved info.pending_reward info.bond_amount (h.decimals.atomics info.reward_index) global
          acc.settled.pending_reward bond (h.decimals.atomics (info_of h owner s').reward_index)
          (owner_behind k) settled_sum m.level in
      moved-Books 0 1 (rw (m.new_pending, kept, m.new_bond) (omega (arith, step))) k

  -- the reward is paid, and the bond stays
  pub paid-Books :
      {paid given moves : ℕ}
      → pending ≡ 0
      → bond ≡ (info_of h owner s).bond_amount
      → Books h s paid given moves
      → Books h s'
          (paid + acc.settled.pending_reward)
          (given + schedule_owes acc.state.last_distributed now acc.config.distribution_schedule)
          (moves + 0)
  paid-Books none_left same k =
      let info = info_of h owner s in
      let step =
        due_paid info.pending_reward info.bond_amount (h.decimals.atomics info.reward_index) global
          acc.settled.pending_reward (h.decimals.atomics (info_of h owner s').reward_index)
          (owner_behind k) settled_sum (rw same at m.level) in
      moved-Books acc.settled.pending_reward 0
        (rw (m.new_pending, none_left, m.new_bond, same) (omega (arith, step))) k
