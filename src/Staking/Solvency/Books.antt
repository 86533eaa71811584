-- ===== src/Staking/Solvency/Books.antt =====
-- The books of the stakers: the sum of what is owed, against what was given out and what was paid.
use shard_token.Common.{
  ℕ, ◌+◌, ◌*◌, ◌≤◌, String, true, false, ◌≡◌, ap, ◌∙◌, arith, List, ◌∷◌, inl, inr, Bool-cases,
  eq_refl,
}
use shard_token.Common.Outcome.{ok}
use shard_token.Common.Sums.{contains, AllDistinct, sum_over}
use shard_token.Platform.Decimals.{fractional}
use shard_token.Staking.Msg.{State}
use shard_token.Staking.Store.{Host, Store, state_of, info_of}
use shard_token.Staking.Invariant.{bonds_of}
use shard_token.Staking.Solvency.{due_to, due_grows, sum_over-grow}

-- After `paid` units were paid, `given` units were given out and `moves` bonds were changed: the stakers
-- are the named accounts, and what was paid and what is owed them is no more than was given out, with
-- one unit for each change of a bond.
pub record Books (h : Host) (s : Store h) (paid given moves : ℕ) : Type 0 where
  pub state : State h.decimals.Decimal
  pub is_state : state_of h s ≡ ok state
  pub names : List String
  pub distinct : AllDistinct names
  pub no_bond : (a : String) → contains names a ≡ false → bonds_of h s a ≡ 0
  pub nothing_due :
      (a : String)
      → contains names a ≡ false
      → due_to h s (h.decimals.atomics state.global_reward_index) a ≡ 0
  pub bonds : sum_over (bonds_of h s) names ≡ state.total_bond_amount
  pub behind :
      (a : String)
      → h.decimals.atomics (info_of h a s).reward_index
        ≤ h.decimals.atomics state.global_reward_index
  pub within :
      paid * fractional + sum_over (due_to h s (h.decimals.atomics state.global_reward_index)) names
      ≤ (given + moves) * fractional

module _ (h : Host) {s : Store h} {paid given moves : ℕ} (k : Books h s paid given moves) where
  abbrev global : ℕ
  global = h.decimals.atomics k.state.global_reward_index

  -- the books with one more account
  opened : (owner : String) → contains k.names owner ≡ false → Books h s paid given moves
  opened owner absent =
      let no_bond = k.no_bond owner absent in
      let nothing = k.nothing_due owner absent in
      record {
        state = k.state;
        is_state = k.is_state;
        names = owner ∷ k.names;
        distinct = (absent, k.distinct);
        no_bond = λ a out. k.no_bond a (ground arith);
        nothing_due = λ a out. k.nothing_due a (ground arith);
        bonds = omega (arith, k.bonds);
        behind = k.behind;
        within = omega (arith, k.within);
      }

  -- An account is among those named, or can be.
  pub with_account :
      (owner : String) → (k' : Books h s paid given moves) × (contains k'.names owner ≡ true)
  unfolding opened
  with_account owner = elim (Bool-cases (contains k.names owner)) [
    | inl old ↦ (k, old)
    | inr absent ↦ (opened owner absent, rw (eq_refl owner))
  ]

  -- what is owed when the global index has grown
  pub due_after :
      (more : ℕ)
      → sum_over (due_to h s (global + more)) k.names
        ≡ sum_over (due_to h s global) k.names + k.state.total_bond_amount * more
  due_after more =
      sum_over-grow (due_to h s global) (bonds_of h s) (due_to h s (global + more)) more
        (λ a.
          let info = info_of h a s in
          due_grows info.pending_reward info.bond_amount (h.decimals.atomics info.reward_index)
            global more (k.behind a))
        k.names
      ∙ ap (λ t. sum_over (due_to h s global) k.names + t * more) k.bonds
