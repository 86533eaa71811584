-- ===== src/Staking/Solvency/Budget.antt =====
-- Histories of bonds, unbondings and withdrawals of contracts/staking/src/contract.rs whose block
-- times do not go back: what they pay against the amounts of the schedule.
use shard_token.Common.{ℕ, ◌+◌, ◌≤◌, Bool, true, false, String, ◌≡◌, ap, ◌∙◌, arith}
use shard_token.Common.Outcome.{ok, same_value}
use shard_token.Platform.Messages.{MessageInfo, Env, Response}
use shard_token.Staking.Msg.{Config, State, InstantiateMsg, ExecuteMsg}
use shard_token.Staking.Store.{Host, Store, no_stake, config_of, state_of, info_of}
use shard_token.Staking.Rewards.Slots.{
  schedule_owes, schedule_owes_split, schedule_owes-le, amounts,
}
use shard_token.Staking.Rewards.Solvent.{compute_reward-Advanced}
use shard_token.Staking.Moves.{Accrued, Moved}
use shard_token.Staking.Moves.Bond.{receive_cw20-Received}
use shard_token.Staking.Moves.Unbond.{unbond-Unbonded}
use shard_token.Staking.Moves.Withdraw.{withdraw-Withdrawn}
use shard_token.Staking.Contract.{instantiate, execute}
use shard_token.Staking.Invariant.{instantiate-Started}
use shard_token.Staking.Solvency.History.{Trace, begin, call, given_by, Trace-solvent}

-- a message of a staker, which leaves the schedule as it is
abbrev pub is_move : {B : Type 0} → ExecuteMsg B → Bool
is_move (ExecuteMsg.receive _) = true
is_move (ExecuteMsg.unbond _) = true
is_move ExecuteMsg.withdraw = true
is_move (ExecuteMsg.migrate_staking _) = false
is_move (ExecuteMsg.update_config _) = false

-- the time of the last call, or the time before the calls
abbrev pub last_time :
    {h : Host} {s t : Store h} {paid given changes : ℕ} → ℕ → Trace h s paid given changes t → ℕ
last_time from (begin _ _ _) = from
last_time from (call _ _ _ _ _ env _ _ _ _ _ _ _) = env.seconds

-- The calls are moves of stakers, and no block time is before that of the call before.
abbrev pub IsQuiet :
    {h : Host} {s t : Store h} {paid given changes : ℕ}
    → ℕ
    → Trace h s paid given changes t
    → Type 0
IsQuiet from (begin _ _ _) = Unit
IsQuiet from (call _ _ _ _ trace env _ msg _ _ _ _ _) =
    (is_move msg ≡ true) × (last_time from trace ≤ env.seconds) × IsQuiet from trace

-- The configuration, and the time up to which rewards are distributed.
pub record Stands (h : Host) (config : Config) (time : ℕ) (s : Store h) : Type 0 where
  pub state : State h.decimals.Decimal
  pub is_config : config_of h s ≡ ok config
  pub is_state : state_of h s ≡ ok state
  pub last : state.last_distributed ≡ time

module _ (h : Host) {now : ℕ} {owner : String} {s s' : Store h} (acc : Accrued h now owner s) where
  Moved-Stands :
      {bond pending time : ℕ} {config : Config}
      → Moved h now owner s s' acc bond pending
      → Stands h config time s
      → Stands h config now s'
        × (schedule_owes acc.state.last_distributed now acc.config.distribution_schedule
            ≡ schedule_owes time now config.distribution_schedule)
  Moved-Stands m k =
      let same_config = same_value acc.is_config k.is_config in
      let same_state = same_value acc.is_state k.is_state in
      let advanced =
        compute_reward-Advanced h.decimals acc.config now acc.state acc.rewarded acc.is_rewarded in
      let last = ap (λ st. st.last_distributed) same_state ∙ k.last in
      (
        record {
          state = record acc.rewarded { total_bond_amount = m.total };
          is_config = m.new_config ∙ ap ok same_config;
          is_state = m.new_state;
          last = advanced.time;
        },
        rw (last, same_config),
      )

call-Stands :
    (h : Host) (env : Env) (info : MessageInfo) (msg : ExecuteMsg h.Binary) (s s' : Store h)
    (r : Response h.Binary) (config : Config) (time : ℕ)
    → execute h env info msg s ≡ (ok r, s')
    → is_move msg ≡ true
    → Stands h config time s
    → Stands h config env.seconds s'
      × (given_by h env msg s ≡ schedule_owes time env.seconds config.distribution_schedule)
unfolding execute
call-Stands h env info (ExecuteMsg.receive msg) s s' r config time e move k =
    let b = (receive_cw20-Received h env info msg s s' r e).bonded in
    rw (b.acc.is_config, b.acc.is_state) (Moved-Stands h b.acc b.moved k)
call-Stands h env info (ExecuteMsg.unbond amount) s s' r config time e move k =
    let u = unbond-Unbonded h env info amount s s' r e in
    rw (u.acc.is_config, u.acc.is_state) (Moved-Stands h u.acc u.moved k)
call-Stands h env info ExecuteMsg.withdraw s s' r config time e move k =
    let w = withdraw-Withdrawn h env info s s' r e in
    rw (w.acc.is_config, w.acc.is_state) (Moved-Stands h w.acc w.moved k)
call-Stands h env info (ExecuteMsg.migrate_staking _) s s' r config time e move k =
    absurd (ground arith)
call-Stands h env info (ExecuteMsg.update_config _) s s' r config time e move k =
    absurd (ground arith)

from_le :
    {h : Host} {s t : Store h} {paid given changes : ℕ} (from : ℕ)
    (trace : Trace h s paid given changes t)
    → IsQuiet from trace
    → from ≤ last_time from trace
from_le from (begin _ _ _) quiet = omega arith
from_le from (call _ _ _ _ trace _ _ _ _ _ _ _ _) (_, later, quiet) =
    omega (arith, later, from_le from trace quiet)

-- What was given out is no more than what the schedule owes up to the last call.
Trace-Stands :
    (h : Host) (config : Config) (from : ℕ) (s t : Store h) (paid given changes : ℕ)
    (trace : Trace h s paid given changes t)
    → IsQuiet from trace
    → Stands h config from s
    → Stands h config (last_time from trace) t
      × (given ≤ schedule_owes from (last_time from trace) config.distribution_schedule)
Trace-Stands h config from s t paid given changes (begin p g c) quiet k = (k, omega (arith, g))
Trace-Stands h config from s t paid given changes
      (call p' g' c' u trace env info msg answer e ep eg ec) (move, later, quiet) k =
    let time = last_time from trace in
    let (stands, within) = Trace-Stands h config from s u p' g' c' trace quiet k in
    let (after, more) = call-Stands h env info msg u t answer config time e move stands in
    let whole =
      schedule_owes_split from time env.seconds config.distribution_schedule
        (from_le from trace quiet) later in
    (after, omega (arith, eg, within, more, whole))

-- From an `instantiate` with no accounts on, where there are only bonds, unbondings and withdrawals
-- and block times do not go back: what was paid as rewards, with the reward that is pending for any
-- one account, is no more than the amounts of the schedule of the `InstantiateMsg`, and one unit for
-- each change of a bond.
pub Trace-budget :
    (h : Host) (env : Env) (msg : InstantiateMsg) (before s t : Store h) (r : Response h.Binary)
    (paid given changes : ℕ) (a : String)
    → ((b : String) → info_of h b before ≡ no_stake h)
    → instantiate h env msg before ≡ (ok r, s)
    → (trace : Trace h s paid given changes t) → IsQuiet env.seconds trace
    → paid + (info_of h a t).pending_reward ≤ amounts msg.distribution_schedule + changes
Trace-budget h env msg before s t r paid given changes a empty e trace quiet =
    let start = instantiate-Started h env msg before s r empty e in
    let stands : Stands h start.config env.seconds s = record {
      state = start.state;
      is_config = start.is_config;
      is_state = start.is_state;
      last = start.time;
    } in
    let within =
      (Trace-Stands h start.config env.seconds s t paid given changes trace quiet stands).1 in
    let until = last_time env.seconds trace in
    omega (
      arith,
      Trace-solvent h env msg before s t r paid given changes a empty e trace,
      (rw (start.schedule) at within),
      schedule_owes-le env.seconds until msg.distribution_schedule,
    )
