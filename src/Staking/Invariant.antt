-- ===== src/Staking/Invariant.antt =====
-- What holds of the storage of the staking contract between calls, contracts/staking/src/contract.rs:
-- the entry points `instantiate` and `execute`.
pub mod Exit
pub mod Entry
use shard_token.Common.{
  ℕ, List, ◌+◌, ◌≤◌, String, ◌≡◌, refl, ap, sym, subst, ◌∙◌, arith, ◌==◌, Bool-cases, inl, inr, [],
  eq_iff,
}
use shard_token.Common.Outcome.{Outcome, ok, with_ok, same_value}
use shard_token.Common.Sums.{update, IsTotal, IsTotal-update, IsTotal-ext}
use shard_token.Platform.Messages.{MessageInfo, Env, Response}
use shard_token.Platform.Decimals.{Decimals}
use shard_token.Staking.Msg.{Slot, Config, State, ExecuteMsg, InstantiateMsg}
use shard_token.Staking.Store.{Host, Store, no_stake, config_of, state_of, info_of}
use shard_token.Staking.Store.Laws.{config_of-save, state_of-save}
use shard_token.Staking.Rewards.{compute_reward}
use shard_token.Staking.Rewards.Solvent.{compute_reward-Advanced}
use shard_token.Staking.Governance.{update_config-Updated, migrate_staking-Migrated}
use shard_token.Staking.Moves.{Accrued, Moved}
use shard_token.Staking.Moves.Bond.{receive_cw20-Received}
use shard_token.Staking.Moves.Unbond.{unbond-Unbonded}
use shard_token.Staking.Moves.Withdraw.{withdraw-Withdrawn}
use shard_token.Staking.Contract.{instantiate, execute}

abbrev pub bonds_of : (h : Host) → Store h → String → ℕ
bonds_of h s a = (info_of h a s).bond_amount

-- The total of the state is the sum of the bonds, and no account is ahead of the global index.
pub record IsConsistent (h : Host) (s : Store h) : Type 0 where
  pub state : State h.decimals.Decimal
  pub is_state : state_of h s ≡ ok state
  pub backed : IsTotal (bonds_of h s) state.total_bond_amount
  pub behind :
      (a : String)
      → h.decimals.atomics (info_of h a s).reward_index
        ≤ h.decimals.atomics state.global_reward_index

-- the index only grows, whatever the time
index_grows :
    (d : Decimals) (now : ℕ) (config : Config) (st st' : State d.Decimal)
    → compute_reward d config st now ≡ ok st'
    → d.atomics st.global_reward_index ≤ d.atomics st'.global_reward_index
index_grows d now config st st' e =
    omega (arith, (compute_reward-Advanced d config now st st' e).index)

module _ (h : Host) {s s' : Store h} where
  Moved-IsConsistent :
      {now : ℕ} {owner : String} (acc : Accrued h now owner s) {bond pending : ℕ}
      → Moved h now owner s s' acc bond pending
      → IsConsistent h s
      → IsConsistent h s'
  Moved-IsConsistent {now} {owner} acc {bond} m sound =
      let same : sound.state ≡ acc.state = same_value sound.is_state acc.is_state in
      let total : acc.rewarded.total_bond_amount ≡ sound.state.total_bond_amount =
        (compute_reward-Advanced h.decimals acc.config now acc.state acc.rewarded
          acc.is_rewarded).bonds
        ∙ ap (λ t. t.total_bond_amount) (sym same) in
      let grown = index_grows h.decimals now acc.config acc.state acc.rewarded acc.is_rewarded in
      let was = ap (λ t. h.decimals.atomics t.global_reward_index) same in
      record {
        state = record acc.rewarded { total_bond_amount = m.total };
        is_state = m.new_state;
        backed =
            IsTotal-ext (update owner bond (bonds_of h s)) (bonds_of h s') m.total
              (λ a. elim (Bool-cases (owner == a)) [
                | inl own ↦ rw (own, sym ((eq_iff owner a).0 own)) m.new_bond
                | inr other ↦ rw other (ap (λ i. i.bond_amount) (m.others a other))
              ])
              (IsTotal-update (bonds_of h s) owner bond sound.state.total_bond_amount m.total
                (m.balanced ∙ ap (λ t. t + bond) total) sound.backed);
        behind = λ a. elim (Bool-cases (owner == a)) [
          | inl own ↦ rw (sym ((eq_iff owner a).0 own)) m.new_index
          | inr other ↦ rw (m.others a other) (omega (arith, grown, was, sound.behind a))
        ];
      }

  -- The accounts stay and the state is brought up to date, or stays.
  kept-IsConsistent :
      (st st' : State h.decimals.Decimal)
      → state_of h s ≡ ok st
      → state_of h s' ≡ ok st'
      → st'.total_bond_amount ≡ st.total_bond_amount
      → h.decimals.atomics st.global_reward_index ≤ h.decimals.atomics st'.global_reward_index
      → ((a : String) → info_of h a s' ≡ info_of h a s)
      → IsConsistent h s
      → IsConsistent h s'
  kept-IsConsistent st st' e e' bonds grown infos sound =
      let same : sound.state ≡ st = same_value sound.is_state e in
      let was = ap (λ t. h.decimals.atomics t.global_reward_index) same in
      record {
        state = st';
        is_state = e';
        backed =
            IsTotal-ext (bonds_of h s) (bonds_of h s') st'.total_bond_amount
              (λ a. ap (λ i. i.bond_amount) (infos a)) (rw (bonds, sym same) sound.backed);
        behind = λ a. rw (infos a) (omega (arith, grown, was, sound.behind a));
      }

-- A call that succeeds in a consistent state leaves a consistent state: the total bonded amount stays the sum
-- of the bonds, and no account gets ahead of the global index, whatever the message, its sender and
-- the time.
pub execute-IsConsistent :
    (h : Host) (env : Env) (info : MessageInfo) (msg : ExecuteMsg h.Binary) (s s' : Store h)
    (r : Response h.Binary)
    → execute h env info msg s ≡ (ok r, s')
    → IsConsistent h s
    → IsConsistent h s'
unfolding execute
execute-IsConsistent h env info (ExecuteMsg.receive msg) s s' r e sound =
    let received = receive_cw20-Received h env info msg s s' r e in
    Moved-IsConsistent h received.bonded.acc received.bonded.moved sound
execute-IsConsistent h env info (ExecuteMsg.unbond amount) s s' r e sound =
    let unbonded = unbond-Unbonded h env info amount s s' r e in
    Moved-IsConsistent h unbonded.acc unbonded.moved sound
execute-IsConsistent h env info ExecuteMsg.withdraw s s' r e sound =
    let withdrawn = withdraw-Withdrawn h env info s s' r e in
    Moved-IsConsistent h withdrawn.acc withdrawn.moved sound
execute-IsConsistent h env info (ExecuteMsg.migrate_staking new_contract) s s' r e sound =
    let m = migrate_staking-Migrated h env info new_contract s s' r e in
    kept-IsConsistent h m.state m.rewarded m.old_state m.new_state
      (compute_reward-Advanced h.decimals m.config env.seconds m.state m.rewarded
        m.is_rewarded).bonds
      (index_grows h.decimals env.seconds m.config m.state m.rewarded m.is_rewarded) m.same_infos
      sound
execute-IsConsistent h env info (ExecuteMsg.update_config slots) s s' r e sound =
    let u = update_config-Updated h info slots s s' r e in
    kept-IsConsistent h u.state u.state u.old_state u.same_state refl (omega arith) u.same_infos
      sound

-- what `instantiate` leaves: the schedule, an empty state, and no accounts
pub record Started (h : Host) (now : ℕ) (slots : List Slot) (s : Store h) : Type 0 where
  pub config : Config
  pub is_config : config_of h s ≡ ok config
  pub schedule : config.distribution_schedule ≡ slots
  pub state : State h.decimals.Decimal
  pub is_state : state_of h s ≡ ok state
  pub time : state.last_distributed ≡ now
  pub nothing_bonded : state.total_bond_amount ≡ 0
  pub no_infos : (a : String) → info_of h a s ≡ no_stake h

pub instantiate-Started :
    (h : Host) (env : Env) (msg : InstantiateMsg) (s s' : Store h) (r : Response h.Binary)
    → ((a : String) → info_of h a s ≡ no_stake h)
    → instantiate h env msg s ≡ (ok r, s')
    → Started h env.seconds msg.distribution_schedule s'
unfolding instantiate
instantiate-Started h env msg s s' r empty e =
    with_ok (h.addr_canonicalize msg.shard_token) _ s e λ shard_token is_shard e₁.
      with_ok (h.addr_canonicalize msg.staking_token) _ s e₁ λ staking_token is_staking e₂.
        let start : State h.decimals.Decimal = record {
          last_distributed = env.seconds;
          total_bond_amount = 0;
          global_reward_index = h.decimals.zero;
        } in
        let c : Config = record {
          shard_token = shard_token;
          staking_token = staking_token;
          distribution_schedule = msg.distribution_schedule;
        } in
        let s₁ : Store h = record s { config = h.config_cell.save c s.config } in
        subst (λ t. Started h env.seconds msg.distribution_schedule t) (ap (λ p. p.1) e₂)
          (record {
            config = c;
            is_config = unfold config_of in config_of-save h s c;
            schedule = refl;
            state = start;
            is_state = state_of-save h s₁ start;
            time = refl;
            nothing_bonded = refl;
            no_infos = λ a. unfold info_of in empty a;
          })

-- An `instantiate` that succeeds on a storage with no accounts leaves a consistent state.
pub instantiate-IsConsistent :
    (h : Host) (env : Env) (msg : InstantiateMsg) (s s' : Store h) (r : Response h.Binary)
    → ((a : String) → info_of h a s ≡ no_stake h)
    → instantiate h env msg s ≡ (ok r, s')
    → IsConsistent h s'
instantiate-IsConsistent h env msg s s' r empty e =
    let start = instantiate-Started h env msg s s' r empty e in
    record {
      state = start.state;
      is_state = start.is_state;
      backed = record {
        names = [];
        distinct = tt;
        covered = λ a absent. ap (λ i. i.bond_amount) (start.no_infos a);
        summed = sym start.nothing_bonded;
      };
      behind = λ a. rw (start.no_infos a) (omega (arith, h.decimals.atomics-zero));
    }

-- A call that succeeded, at any time and by any sender.
pub data Step (h : Host) : Store h → Store h → Type 0 where
  called :
      {s : Store h} (s' : Store h) (env : Env) (info : MessageInfo) (msg : ExecuteMsg h.Binary)
      (answer : Response h.Binary)
      → execute h env info msg s ≡ (ok answer, s')
      → Step h s s'

pub data Reach (h : Host) (s : Store h) : Store h → Type 0 where
  here : Reach h s s
  next : {t u : Store h} → Reach h s t → Step h t u → Reach h s u

-- Every history of successful calls leads from a consistent state to a consistent state.
pub Reach-IsConsistent :
    (h : Host) {s t : Store h} → Reach h s t → IsConsistent h s → IsConsistent h t
Reach-IsConsistent h here sound = sound
Reach-IsConsistent h (next r (called {s} s' env info msg answer e)) sound =
    execute-IsConsistent h env info msg s s' answer e (Reach-IsConsistent h r sound)
