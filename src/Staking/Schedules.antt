-- ===== src/Staking/Schedules.antt =====
-- Changes of the distribution schedule, contracts/staking/src/contract.rs: the check
-- `assert_new_schedules` of an update, and the loops of `migrate_staking`.
pub mod Counts
pub mod Loops
pub mod Update
pub mod Migration
use shard_token.Common.{
  ℕ, ◌+◌, ◌-◌, Bool, true, false, ◌||◌, ◌&&◌, Option, none, some, List, [], ◌∷◌, ltb, leb, nat_eq,
  length, if◌then◌else◌,
}
use shard_token.Common.Outcome.{Outcome, ok, err, panic, or_panic}
use shard_token.Common.Checked.{◌>>=◌}
use shard_token.Common.Words.{add_u128, sub_word}
use shard_token.Platform.Errors.{StdError, generic_err}
use shard_token.Platform.Decimals.{Decimals}
use shard_token.Staking.Msg.{Slot, Config, State}
use shard_token.Staking.Rewards.{prorated}

-- The order of the keys of a `BTreeMap`.
abbrev pub slot_eq : Slot → Slot → Bool
slot_eq a b = nat_eq a.0 b.0 && (nat_eq a.1 b.1 && nat_eq a.2 b.2)

abbrev pub slot_lt : Slot → Slot → Bool
slot_lt a b = ltb a.0 b.0 || (nat_eq a.0 b.0 && (ltb a.1 b.1 || (nat_eq a.1 b.1 && ltb a.2 b.2)))

-- `BTreeMap<(u64, u64, Uint128), u32>`: its entries in the order of the keys. A count is at most
-- the length of a list in memory, which a `u32` holds.
abbrev pub Counts : Type 0
Counts = List (Slot × ℕ)

-- `*entry(slot).or_insert(0) += 1`
unfoldable pub count_one : Slot → Counts → Counts
count_one slot [] = (slot, 1) ∷ []
count_one slot ((key, count) ∷ rest) =
    if slot_eq slot key
    then (key, count + 1) ∷ rest
    else if slot_lt slot key
    then (slot, 1) ∷ (key, count) ∷ rest
    else (key, count) ∷ count_one slot rest

unfoldable pub count_slots : List Slot → Counts → Counts
count_slots [] counts = counts
count_slots (slot ∷ rest) counts = count_slots rest (count_one slot counts)

unfoldable pub get_count : Slot → Counts → Option ℕ
get_count slot [] = none
get_count slot ((key, count) ∷ rest) = if slot_eq slot key then some count else get_count slot rest

abbrev pub count_or_zero : Option ℕ → ℕ
count_or_zero none = 0
count_or_zero (some count) = count

unfoldable pub set_count : Slot → ℕ → Counts → Counts
set_count slot value [] = []
set_count slot value ((key, count) ∷ rest) =
    if slot_eq slot key then (key, value) ∷ rest else (key, count) ∷ set_count slot value rest

-- `*new_counts.get_mut(&slot).unwrap() -= count`
unfoldable pub take_count : Slot → ℕ → Counts → Outcome StdError Counts
take_count slot count counts = do
  present ← or_panic (get_count slot counts)
  left ← sub_word present count
  ok (set_count slot left counts)

abbrev pub error_shorter : StdError
error_shorter =
    generic_err "cannot update; the new schedule must support all of the previous schedule"

abbrev pub error_removes : StdError
error_removes = generic_err "new schedule removes already started distribution"

abbrev pub error_adds : StdError
error_adds = generic_err "new schedule adds an already started distribution"

-- One turn of the loop over the existing counts.
abbrev pub keep_existing : ℕ → Slot → ℕ → Counts → Outcome StdError Counts
keep_existing last slot count new_counts =
    if leb slot.0 last
    then if ltb (count_or_zero (get_count slot new_counts)) count
      then err error_removes
      else take_count slot count new_counts
    else ok new_counts

unfoldable pub check_existing : ℕ → Counts → Counts → Outcome StdError Counts
check_existing last [] new_counts = ok new_counts
check_existing last ((slot, count) ∷ rest) new_counts = do
  left ← keep_existing last slot count new_counts
  check_existing last rest left

unfoldable pub check_new : ℕ → Counts → Outcome StdError (Unit {0})
check_new last [] = ok tt
check_new last ((slot, count) ∷ rest) =
    let more = check_new last rest in
    if ltb 0 count && leb slot.0 last then err error_adds else more

module _ {Decimal : Type 0} where
  unfoldable pub assert_new_schedules :
      Config → State Decimal → List Slot → Outcome StdError (Unit {0})
  assert_new_schedules config state distribution_schedule =
      if ltb (length distribution_schedule) (length config.distribution_schedule)
      then err error_shorter
      else do
        let existing_counts = count_slots config.distribution_schedule []
        let new_counts = count_slots distribution_schedule []
        left ← check_existing state.last_distributed existing_counts new_counts
        check_new state.last_distributed left

-- `distribution_schedule.iter().map(|item| item.2).sum()`, from the sum so far
unfoldable pub sum_amounts : List Slot → ℕ → Outcome StdError ℕ
sum_amounts [] total = ok total
sum_amounts (s ∷ rest) total = do sum ← add_u128 total s.2; sum_amounts rest sum

-- `retain(|slot| slot.0 < block_time)`
unfoldable pub retain_started : ℕ → List Slot → List Slot
retain_started block_time [] = []
retain_started block_time (s ∷ rest) =
    let kept = retain_started block_time rest in if ltb s.0 block_time then s ∷ kept else kept

module _ (d : Decimals) where
  -- One turn of the loop of `migrate_staking`: the slot as it is left, and what it distributed.
  unfoldable pub close_slot : ℕ → Slot → Outcome StdError (Slot × ℕ)
  close_slot block_time s = if ltb s.1 block_time then ok (s, s.2) else do
    whole_time ← sub_word s.1 s.0
    passed_time ← sub_word block_time s.0
    amount ← prorated d s.2 whole_time passed_time
    ok ((s.0, block_time, amount), amount)

  unfoldable pub close_slots : ℕ → List Slot → ℕ → Outcome StdError (List Slot × ℕ)
  close_slots block_time [] amount = ok ([], amount)
  close_slots block_time (s ∷ rest) amount = do
    closed ← close_slot block_time s
    sum ← add_u128 amount closed.1
    others ← close_slots block_time rest sum
    ok (closed.0 ∷ others.0, others.1)
