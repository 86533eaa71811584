-- ===== src/Staking/Solvency/History.antt =====
-- Histories of calls of contracts/staking/src/contract.rs, from `instantiate` on: what the stakers were
-- paid against what the schedules gave out.
use shard_token.Common.{
  ℕ, ◌+◌, ◌*◌, ◌≤◌, String, ◌≡◌, refl, ap, sym, arith, List, [], ◌∷◌, inl, inr, Bool-cases,
}
use shard_token.Common.Outcome.{Outcome, ok}
use shard_token.Common.Sums.{contains, sum_over, sum_over-member}
use shard_token.Platform.Errors.{StdError}
use shard_token.Platform.Decimals.{fractional}
use shard_token.Platform.Messages.{MessageInfo, Env, Response, Attribute, Shown, text, number}
use shard_token.Staking.Msg.{Config, State, InstantiateMsg, ExecuteMsg}
use shard_token.Staking.Store.{Host, Store, no_stake, config_of, state_of, info_of}
use shard_token.Staking.Rewards.Slots.{schedule_owes}
use shard_token.Staking.Rewards.Solvent.{compute_reward-Advanced}
use shard_token.Staking.Governance.{update_config-Updated, migrate_staking-Migrated}
use shard_token.Staking.Moves.Bond.{receive_cw20-Received}
use shard_token.Staking.Moves.Unbond.{unbond-Unbonded}
use shard_token.Staking.Moves.Withdraw.{withdraw-Withdrawn}
use shard_token.Staking.Contract.{instantiate, execute}
use shard_token.Staking.Invariant.{instantiate-Started}
use shard_token.Staking.Solvency.{due, due_to, due_pending}
use shard_token.Staking.Solvency.Books.{Books}
use shard_token.Staking.Solvency.Growth.{grown, kept-Books}
use shard_token.Staking.Solvency.Moves.{changed-Books, paid-Books}

-- the amount that an answer shows
abbrev shown_number : Shown → ℕ
shown_number (number n) = n
shown_number (text _) = 0

abbrev shown_amount : List Attribute → ℕ
shown_amount (a ∷ b ∷ c ∷ []) = shown_number c.value
shown_amount _ = 0

-- what the answer to a message says that was paid as a reward
abbrev pub paid_by : {B : Type 0} → ExecuteMsg B → Response B → ℕ
paid_by ExecuteMsg.withdraw answer = shown_amount answer.attributes
paid_by (ExecuteMsg.receive _) answer = 0
paid_by (ExecuteMsg.unbond _) answer = 0
paid_by (ExecuteMsg.migrate_staking _) answer = 0
paid_by (ExecuteMsg.update_config _) answer = 0

-- whether a message changes a bond
abbrev pub changes_of : {B : Type 0} → ExecuteMsg B → ℕ
changes_of (ExecuteMsg.receive _) = 1
changes_of (ExecuteMsg.unbond _) = 1
changes_of ExecuteMsg.withdraw = 0
changes_of (ExecuteMsg.migrate_staking _) = 0
changes_of (ExecuteMsg.update_config _) = 0

abbrev owes_from : {D : Type 0} → Outcome StdError Config → Outcome StdError (State D) → ℕ → ℕ
owes_from (ok c) (ok st) now = schedule_owes st.last_distributed now c.distribution_schedule
owes_from (ok c) _ now = 0
owes_from _ _ now = 0

-- What the schedule in force gives out from the last distribution to the call, for a message that
-- distributes.
abbrev pub given_by : (h : Host) → Env → ExecuteMsg h.Binary → Store h → ℕ
given_by h env (ExecuteMsg.update_config _) s = 0
given_by h env (ExecuteMsg.receive _) s = owes_from (config_of h s) (state_of h s) env.seconds
given_by h env (ExecuteMsg.unbond _) s = owes_from (config_of h s) (state_of h s) env.seconds
given_by h env ExecuteMsg.withdraw s = owes_from (config_of h s) (state_of h s) env.seconds
given_by h env (ExecuteMsg.migrate_staking _) s =
    owes_from (config_of h s) (state_of h s) env.seconds

-- Calls that succeeded one after the other, with what they paid and gave out and how many changed a
-- bond, all together.
pub data Trace (h : Host) (s : Store h) : ℕ → ℕ → ℕ → Store h → Type 0 where
  begin :
      {paid given changes : ℕ} → paid ≡ 0 → given ≡ 0 → changes ≡ 0 → Trace h s paid given changes s
  call :
      {paid given changes : ℕ} {t : Store h} (paid' given' changes' : ℕ) (u : Store h)
      → Trace h s paid' given' changes' u
      → (env : Env) (info : MessageInfo) (msg : ExecuteMsg h.Binary) (answer : Response h.Binary)
      → execute h env info msg u ≡ (ok answer, t)
      → paid ≡ paid' + paid_by msg answer
      → given ≡ given' + given_by h env msg u
      → changes ≡ changes' + changes_of msg
      → Trace h s paid given changes t

recount :
    (h : Host) (s : Store h) {p p' g g' c c' : ℕ}
    → p' ≡ p
    → g' ≡ g
    → c' ≡ c
    → Books h s p g c
    → Books h s p' g' c'
recount h s ep eg ec k = rw (ep, eg, ec) k

call-Books :
    (h : Host) (env : Env) (info : MessageInfo) (msg : ExecuteMsg h.Binary) (s s' : Store h)
    (r : Response h.Binary) {paid given changes : ℕ}
    → execute h env info msg s ≡ (ok r, s')
    → Books h s paid given changes
    → Books h s' (paid + paid_by msg r) (given + given_by h env msg s) (changes + changes_of msg)
unfolding execute
call-Books h env info (ExecuteMsg.receive msg) s s' r e k =
    let b = (receive_cw20-Received h env info msg s s' r e).bonded in
    rw (b.acc.is_config, b.acc.is_state) (changed-Books h b.acc b.moved refl k)
call-Books h env info (ExecuteMsg.unbond amount) s s' r e k =
    let u = unbond-Unbonded h env info amount s s' r e in
    rw (u.acc.is_config, u.acc.is_state) (changed-Books h u.acc u.moved refl k)
call-Books h env info ExecuteMsg.withdraw s s' r e k =
    let w = withdraw-Withdrawn h env info s s' r e in
    let amount : shown_amount r.attributes ≡ w.acc.settled.pending_reward =
      ap shown_amount w.paid.shown in
    rw (w.acc.is_config, w.acc.is_state, amount) (paid-Books h w.acc w.moved refl refl k)
call-Books h env info (ExecuteMsg.migrate_staking new_contract) s s' r {paid} {given} {changes} e
      k =
    let m = migrate_staking-Migrated h env info new_contract s s' r e in
    let (more, grows, shared) =
      grown h.decimals m.config env.seconds m.state m.rewarded m.is_rewarded in
    let stays =
      (compute_reward-Advanced h.decimals m.config env.seconds m.state m.rewarded
        m.is_rewarded).bonds in
    rw (m.old_config, m.old_state)
      (recount h s' (omega arith) refl (omega arith) (
        kept-Books h k m.state m.rewarded m.old_state m.new_state stays m.same_infos more
          (schedule_owes m.state.last_distributed env.seconds m.config.distribution_schedule) grows
          shared))
call-Books h env info (ExecuteMsg.update_config slots) s s' r e k =
    let u = update_config-Updated h info slots s s' r e in
    recount h s' (omega arith) refl (omega arith) (
      kept-Books h k u.state u.state u.old_state u.same_state refl u.same_infos 0 0 (omega arith)
        (omega arith))

-- A trace moves the books by what it counts.
Trace-Books :
    (h : Host) (s t : Store h) (paid given changes : ℕ)
    → Trace h s paid given changes t
    → Books h s 0 0 0
    → Books h t paid given changes
Trace-Books h s t paid given changes (begin p g c) k = recount h s p g c k
Trace-Books h s t paid given changes (call p g c u trace env info msg answer e ep eg ec) k =
    recount h t ep eg ec (call-Books h env info msg u t answer e (Trace-Books h s u p g c trace k))

begun-Books :
    (h : Host) (env : Env) (msg : InstantiateMsg) (s s' : Store h) (r : Response h.Binary)
    → ((a : String) → info_of h a s ≡ no_stake h)
    → instantiate h env msg s ≡ (ok r, s')
    → Books h s' 0 0 0
begun-Books h env msg s s' r empty e =
    let start = instantiate-Started h env msg s s' r empty e in
    record {
      state = start.state;
      is_state = start.is_state;
      names = [];
      distinct = tt;
      no_bond = λ a out. ap (λ i. i.bond_amount) (start.no_infos a);
      nothing_due = λ a out. unfold due in rw (start.no_infos a) (omega arith);
      bonds = sym start.nothing_bonded;
      behind = λ a. rw (start.no_infos a) (omega (arith, h.decimals.atomics-zero));
      within = omega arith;
    }

covered-pending :
    (h : Host) (s : Store h) {paid given changes : ℕ} (k : Books h s paid given changes)
    (a : String)
    → (info_of h a s).pending_reward * fractional
      ≤ sum_over (due_to h s (h.decimals.atomics k.state.global_reward_index)) k.names
covered-pending h s k a =
    let info = info_of h a s in
    let global = h.decimals.atomics k.state.global_reward_index in
    let some_due =
      due_pending info.pending_reward info.bond_amount (h.decimals.atomics info.reward_index) global
        (k.behind a) in
    elim (Bool-cases (contains k.names a)) [
      | inl named ↦ omega (arith, some_due, sum_over-member (due_to h s global) a k.names named)
      | inr out ↦ omega (arith, some_due, k.nothing_due a out)
    ]

-- From an `instantiate` with no accounts on, whatever the messages, their senders and the times: what
-- was paid as rewards, with the reward that is pending for any one account, is no more than what the
-- schedules in force gave out between the calls, and one unit for each change of a bond.
pub Trace-solvent :
    (h : Host) (env : Env) (msg : InstantiateMsg) (before s t : Store h) (r : Response h.Binary)
    (paid given changes : ℕ) (a : String)
    → ((b : String) → info_of h b before ≡ no_stake h)
    → instantiate h env msg before ≡ (ok r, s)
    → Trace h s paid given changes t
    → paid + (info_of h a t).pending_reward ≤ given + changes
Trace-solvent h env msg before s t r paid given changes a empty e trace =
    let k = Trace-Books h s t paid given changes trace (begun-Books h env msg before s r empty e) in
    omega (arith, covered-pending h t k a, k.within)
