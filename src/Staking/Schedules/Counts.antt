-- ===== src/Staking/Schedules/Counts.antt =====
-- The counting maps of `assert_new_schedules`, contracts/staking/src/contract.rs: the entries of a
-- `BTreeMap` stay in the order of their keys, and the count of a slot is how often it occurs.
use shard_token.Common.{
  ℕ, ◌+◌, ◌≤◌, ◌≡◌, refl, arith, true, false, Bool-cases, inl, inr, List, [], ◌∷◌, if◌then◌else◌,
}
use shard_token.Staking.Msg.{Slot}
use shard_token.Staking.Schedules.{
  slot_eq, slot_lt, Counts, count_one, count_slots, get_count, count_or_zero,
}

-- How often a slot occurs in a schedule.
abbrev pub occurs : Slot → List Slot → ℕ
occurs x [] = 0
occurs x (s ∷ rest) = (if slot_eq x s then 1 else 0) + occurs x rest

unfoldable pub count_of : Slot → Counts → ℕ
count_of x m = count_or_zero (get_count x m)

unfoldable pub IsAbove : Slot → Counts → Type 0
IsAbove k [] = Unit
IsAbove k ((j, c) ∷ m) = (slot_lt k j ≡ true) × IsAbove k m

unfoldable pub IsOrdered : Counts → Type 0
IsOrdered [] = Unit
IsOrdered ((k, c) ∷ m) = IsAbove k m × IsOrdered m

slot_lt_trans : (a b c : Slot) → slot_lt a b ≡ true → slot_lt b c ≡ true → slot_lt a c ≡ true
slot_lt_trans a b c h k = ground arith

slot_lt-ne : (a b : Slot) → slot_lt a b ≡ true → slot_eq a b ≡ false
slot_lt-ne a b h = ground arith

slot_lt-eq_left : (a b c : Slot) → slot_eq a b ≡ true → slot_lt b c ≡ true → slot_lt a c ≡ true
slot_lt-eq_left a b c h k = ground arith

slot_total : (a b : Slot) → slot_eq a b ≡ false → slot_lt a b ≡ false → slot_lt b a ≡ true
slot_total a b h k = ground arith

IsAbove-trans : (a b : Slot) (m : Counts) → slot_lt a b ≡ true → IsAbove b m → IsAbove a m
unfolding IsAbove
IsAbove-trans a b [] h k = tt
IsAbove-trans a b ((j, c) ∷ m) h k = (slot_lt_trans a b j h k.0, IsAbove-trans a b m h k.1)

pub IsAbove-eq : (a b : Slot) (m : Counts) → slot_eq a b ≡ true → IsAbove b m → IsAbove a m
unfolding IsAbove
IsAbove-eq a b [] h k = tt
IsAbove-eq a b ((j, c) ∷ m) h k = (slot_lt-eq_left a b j h k.0, IsAbove-eq a b m h k.1)

-- What stands below every key is not counted.
pub count_of-IsAbove : (k : Slot) (m : Counts) → IsAbove k m → count_of k m ≡ 0
unfolding IsAbove count_of get_count
count_of-IsAbove k [] h = refl
count_of-IsAbove k ((j, c) ∷ m) h = rw (slot_lt-ne k j h.0) (count_of-IsAbove k m h.1)

count_one-IsAbove :
    (a k : Slot) (m : Counts) → slot_lt a k ≡ true → IsAbove a m → IsAbove a (count_one k m)
unfolding IsAbove count_one
count_one-IsAbove a k [] h above = (h, tt)
count_one-IsAbove a k ((j, c) ∷ m) h above = elim (Bool-cases (slot_eq k j)) [
  | inl same ↦ rw same above
  | inr other ↦ elim (Bool-cases (slot_lt k j)) [
    | inl before ↦ rw (other, before) (h, above)
    | inr after ↦ rw (other, after) (above.0, count_one-IsAbove a k m h above.1)
  ]
]

pub count_one-IsOrdered : (k : Slot) (m : Counts) → IsOrdered m → IsOrdered (count_one k m)
unfolding IsOrdered count_one
count_one-IsOrdered k [] h = unfold IsAbove in (tt, tt)
count_one-IsOrdered k ((j, c) ∷ m) h = elim (Bool-cases (slot_eq k j)) [
  | inl same ↦ rw same h
  | inr other ↦ elim (Bool-cases (slot_lt k j)) [
    | inl before ↦
        rw (other, before) ((unfold IsAbove in (before, IsAbove-trans k j m before h.0)), h)
    | inr after ↦
        rw (other, after)
          (count_one-IsAbove j k m (slot_total k j other after) h.0, count_one-IsOrdered k m h.1)
  ]
]

below :
    (x k j : Slot) (c : ℕ) (m : Counts)
    → slot_eq x k ≡ true
    → slot_lt k j ≡ true
    → IsAbove j m
    → IsAbove x ((j, c) ∷ m)
unfolding IsAbove
below x k j c m e before h =
    (slot_lt-eq_left x k j e before, IsAbove-eq x k m e (IsAbove-trans k j m before h))

pub slot_eq_right : (x a b : Slot) → slot_eq a b ≡ true → slot_eq x a ≡ slot_eq x b
slot_eq_right x a b h = ground arith

pub slot_eq_left : (x y a : Slot) → slot_eq x y ≡ true → slot_eq x a ≡ slot_eq y a
slot_eq_left x y a h = ground arith

pub slot_eq_apart : (x a b : Slot) → slot_eq a b ≡ false → slot_eq x b ≡ true → slot_eq x a ≡ false
slot_eq_apart x a b h k = ground arith

pub slot_eq_refl : (a : Slot) → slot_eq a a ≡ true
slot_eq_refl a = ground arith

pub count_of-nil : (x : Slot) → count_of x [] ≡ 0
unfolding count_of get_count
count_of-nil x = refl

pub count_of-cons :
    (x k : Slot) (c : ℕ) (m : Counts)
    → count_of x ((k, c) ∷ m) ≡ (if slot_eq x k then c else count_of x m)
unfolding count_of get_count
count_of-cons x k c m = elim (Bool-cases (slot_eq x k)) [
  | inl same ↦ rw same
  | inr other ↦ rw other
]

pub count_of-count_one :
    (x k : Slot) (m : Counts)
    → IsOrdered m
    → count_of x (count_one k m) ≡ (if slot_eq x k then 1 else 0) + count_of x m
unfolding IsOrdered count_one
count_of-count_one x k [] h = unfold count_of get_count in ground arith
count_of-count_one x k ((j, c) ∷ m) h = elim (Bool-cases (slot_eq k j)) [
  | inl same ↦
      rw (same, count_of-cons x j (c + 1) m, count_of-cons x j c m, slot_eq_right x k j same)
        (elim (Bool-cases (slot_eq x j)) [
          | inl e ↦ rw e (omega arith)
          | inr e ↦ rw e (omega arith)
        ])
  | inr other ↦ elim (Bool-cases (slot_lt k j)) [
    | inl before ↦
        rw (other, before, count_of-cons x k 1 ((j, c) ∷ m))
          (elim (Bool-cases (slot_eq x k)) [
            | inl e ↦
                rw (e, count_of-IsAbove x ((j, c) ∷ m) (below x k j c m e before h.0)) (omega arith)
            | inr e ↦ rw e (omega arith)
          ])
    | inr after ↦
        rw (other, after, count_of-cons x j c (count_one k m), count_of-cons x j c m)
          (elim (Bool-cases (slot_eq x j)) [
            | inl e ↦ rw (e, slot_eq_apart x k j other e) (omega arith)
            | inr e ↦ rw e (count_of-count_one x k m h.1)
          ])
  ]
]

pub count_slots-IsOrdered :
    (xs : List Slot) (m : Counts) → IsOrdered m → IsOrdered (count_slots xs m)
unfolding count_slots
count_slots-IsOrdered [] m h = h
count_slots-IsOrdered (s ∷ rest) m h =
    count_slots-IsOrdered rest (count_one s m) (count_one-IsOrdered s m h)

-- The count of a slot grows by its occurrences.
pub count_of-count_slots :
    (x : Slot) (xs : List Slot) (m : Counts)
    → IsOrdered m
    → count_of x (count_slots xs m) ≡ occurs x xs + count_of x m
unfolding count_slots
count_of-count_slots x [] m h = omega arith
count_of-count_slots x (s ∷ rest) m h =
    let ih = count_of-count_slots x rest (count_one s m) (count_one-IsOrdered s m h) in
    omega (arith, ih, count_of-count_one x s m h)

unfoldable pub IsPositive : Counts → Type 0
IsPositive [] = Unit
IsPositive ((k, c) ∷ m) = (1 ≤ c) × IsPositive m

count_one-IsPositive : (k : Slot) (m : Counts) → IsPositive m → IsPositive (count_one k m)
unfolding IsPositive count_one
count_one-IsPositive k [] h = (omega arith, tt)
count_one-IsPositive k ((j, c) ∷ m) h = elim (Bool-cases (slot_eq k j)) [
  | inl same ↦ rw same (omega arith, h.1)
  | inr other ↦ elim (Bool-cases (slot_lt k j)) [
    | inl before ↦ rw (other, before) (omega arith, h)
    | inr after ↦ rw (other, after) (h.0, count_one-IsPositive k m h.1)
  ]
]

pub count_slots-IsPositive :
    (xs : List Slot) (m : Counts) → IsPositive m → IsPositive (count_slots xs m)
unfolding count_slots
count_slots-IsPositive [] m h = h
count_slots-IsPositive (s ∷ rest) m h =
    count_slots-IsPositive rest (count_one s m) (count_one-IsPositive s m h)
