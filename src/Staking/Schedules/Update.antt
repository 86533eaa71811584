-- ===== src/Staking/Schedules/Update.antt =====
-- Which schedules `assert_new_schedules` of contracts/staking/src/contract.rs accepts.
use shard_token.Common.{
  ℕ, ◌≤◌, ◌≡◌, ◌↔◌, ◌∙◌, refl, arith, true, Bool-cases, inl, inr, List, [], ◌∷◌, ltb, leb, le→ltb,
  ltb→le, le→leb, length,
}
use shard_token.Common.Outcome.{ok}
use shard_token.Common.Checked.{◌>>=◌, chain_ok}
use shard_token.Staking.Msg.{Slot, Config, State}
use shard_token.Staking.Schedules.{
  slot_eq, Counts, count_slots, keep_existing, check_existing, check_new, assert_new_schedules,
}
use shard_token.Staking.Schedules.Counts.{
  occurs, count_of, IsAbove-eq, IsOrdered, IsPositive, count_of-nil, count_of-IsAbove,
  count_of-cons, count_slots-IsOrdered, count_slots-IsPositive, count_of-count_slots, slot_eq_refl,
}
use shard_token.Staking.Schedules.Loops.{
  begun, begun_zero, kept, keep_existing_lem, count_of-kept, check_existing-Remains,
}

-- The first loop succeeds where every count that has begun is covered.
check_existing_covered :
    (last : ℕ) (existing new : Counts)
    → IsPositive existing
    → IsOrdered existing
    → ((x : Slot) → begun last x (count_of x existing) ≤ count_of x new)
    → (left : Counts) × (check_existing last existing new ≡ ok left)
unfolding check_existing IsPositive IsOrdered
check_existing_covered last [] new pos ord h = (new, refl)
check_existing_covered last ((k, c) ∷ rest) new pos ord h =
    let fits : begun last k c ≤ count_of k new =
      rw (count_of-cons k k c rest, slot_eq_refl k) at (h k) in
    let first : keep_existing last k c new ≡ ok (kept last k c new) =
      rw (le→ltb _ _ fits) at (keep_existing_lem last k c new pos.0) in
    rw first (
      check_existing_covered last rest (kept last k c new) pos.1 ord.1 λ x.
        elim (Bool-cases (slot_eq x k)) [
          | inl same ↦
              let gone = count_of-IsAbove x rest (IsAbove-eq x k rest same ord.0) in
              rw (gone, begun_zero last x) (omega arith)
          | inr other ↦
              let step : count_of x (kept last k c new) ≡ count_of x new =
                rw other at (count_of-kept last x k c new pos.0 fits) in
              rw step (rw (count_of-cons x k c rest, other) at (h x))
        ])

-- The second loop succeeds where no slot that has begun is left.
check_new_iff :
    (last : ℕ) (m : Counts)
    → IsOrdered m
    → (check_new last m ≡ ok tt) ↔ ((x : Slot) → leb x.0 last ≡ true → count_of x m ≡ 0)
unfolding check_new IsOrdered
check_new_iff last [] ord = ((λ h x started. count_of-nil x), (λ h. refl))
check_new_iff last ((k, c) ∷ rest) ord =
    let ih = check_new_iff last rest ord.1 in
    (
      (λ h x started. elim (Bool-cases (slot_eq x k)) [
        | inl same ↦ rw (count_of-cons x k c rest, same) (ground arith)
        | inr other ↦ rw (count_of-cons x k c rest, other) (ih.0 (ground arith) x started)
      ]),
      (λ h.
          let own : leb k.0 last ≡ true → c ≡ 0 =
            λ started. rw (count_of-cons k k c rest, slot_eq_refl k) at (h k started) in
          let rest_done : check_new last rest ≡ ok tt = ih.1 (λ x started.
            elim (Bool-cases (slot_eq x k)) [
              | inl same ↦ count_of-IsAbove x rest (IsAbove-eq x k rest same ord.0)
              | inr other ↦ rw (count_of-cons x k c rest, other) at (h x started)
            ]) in
          ground (arith, own, rest_done)),
    )

-- The new schedule is not shorter, and each slot that has begun occurs in it as often as before.
pub record Extends (last : ℕ) (old new : List Slot) : Type 0 where
  pub long_enough : length old ≤ length new
  pub same_started : (x : Slot) → x.0 ≤ last → occurs x new ≡ occurs x old

counted : (x : Slot) (xs : List Slot) → count_of x (count_slots xs []) ≡ occurs x xs
unfolding IsOrdered
counted x xs = count_of-count_slots x xs [] tt ∙ rw (count_of-nil x) (omega arith)

ordered : (xs : List Slot) → IsOrdered (count_slots xs [])
unfolding IsOrdered
ordered xs = count_slots-IsOrdered xs [] tt

positive : (xs : List Slot) → IsPositive (count_slots xs [])
unfolding IsPositive
positive xs = count_slots-IsPositive xs [] tt

-- The two loops succeed exactly where the slots that have begun occur equally often.
loops_iff :
    (last : ℕ) (old new : List Slot)
    → ((check_existing last (count_slots old []) (count_slots new []) >>= check_new last) ≡ ok tt)
      ↔ ((x : Slot) → x.0 ≤ last → occurs x new ≡ occurs x old)
loops_iff last old new = (
  (λ h x started.
      let (left, is_left, done) =
        chain_ok (check_existing last (count_slots old []) (count_slots new [])) (check_new last)
          h in
      let (remains, ord) =
        check_existing-Remains last (count_slots old []) (count_slots new []) left (positive old)
          (ordered old) (ordered new) is_left in
      let none_left : count_of x left ≡ 0 =
        (check_new_iff last left ord).0 done x (le→leb _ _ started) in
      let balance = remains x in ground (arith, none_left, balance, counted x old, counted x new)),
  (λ h.
      let covers : (x : Slot)
          → begun last x (count_of x (count_slots old [])) ≤ count_of x (count_slots new []) =
        λ x. ground (arith, h x, counted x old, counted x new) in
      let (left, is_left) =
        check_existing_covered last (count_slots old []) (count_slots new []) (positive old)
          (ordered old) covers in
      let (remains, ord) =
        check_existing-Remains last (count_slots old []) (count_slots new []) left (positive old)
          (ordered old) (ordered new) is_left in
      rw is_left (
        (check_new_iff last left ord).1
          λ x started. ground (arith, remains x, h x, counted x old, counted x new))),
)

-- `assert_new_schedules` accepts exactly the schedules that extend the old one.
pub assert_new_schedules_iff :
    {Decimal : Type 0} (config : Config) (state : State Decimal) (new : List Slot)
    → (assert_new_schedules config state new ≡ ok tt)
      ↔ Extends state.last_distributed config.distribution_schedule new
unfolding assert_new_schedules
assert_new_schedules_iff config state new =
    let old = config.distribution_schedule in
    let last = state.last_distributed in
    elim (Bool-cases (ltb (length new) (length old))) [
      | inl short ↦
          ((λ h. absurd (ground arith)), (λ e. let le = e.long_enough in absurd (ground arith)))
      | inr long ↦ rw long (
        (λ h. record {
          long_enough = ltb→le _ _ long;
          same_started = (loops_iff last old new).0 h;
        }),
        (λ e. (loops_iff last old new).1 e.same_started),
      )
    ]
