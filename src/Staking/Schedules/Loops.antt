-- ===== src/Staking/Schedules/Loops.antt =====
-- The first loop of `assert_new_schedules`, contracts/staking/src/contract.rs: what it leaves of the
-- counts of the new schedule.
use shard_token.Common.{
  ℕ, ◌+◌, ◌-◌, ◌≤◌, ◌≡◌, subst, ◌∙◌, refl, arith, true, Bool-cases, Option-cases, inl, inr, [], ◌∷◌,
  some, if◌then◌else◌, ltb, leb, ltb→le,
}
use shard_token.Common.Outcome.{ok, err}
use shard_token.Common.Checked.{chain_ok}
use shard_token.Staking.Msg.{Slot}
use shard_token.Staking.Schedules.{
  slot_eq, Counts, get_count, set_count, take_count, keep_existing, check_existing, error_removes,
}
use shard_token.Staking.Schedules.Counts.{
  count_of, IsAbove, IsOrdered, IsPositive, IsAbove-eq, count_of-nil, count_of-IsAbove,
  count_of-cons, slot_eq_left, slot_eq_right, slot_eq_apart,
}

count_of-set_count :
    (x k : Slot) (v p : ℕ) (m : Counts)
    → get_count k m ≡ some p
    → count_of x (set_count k v m) ≡ (if slot_eq x k then v else count_of x m)
unfolding get_count set_count
count_of-set_count x k v p [] h = cc
count_of-set_count x k v p ((j, c) ∷ m) h = elim (Bool-cases (slot_eq k j)) [
  | inl same ↦
      rw (same, count_of-cons x j v m, count_of-cons x j c m, slot_eq_right x k j same)
        (elim (Bool-cases (slot_eq x j)) [ inl e ↦ rw e | inr e ↦ rw e ])
  | inr other ↦
      let ih = count_of-set_count x k v p m (rw other at h) in
      rw (other, count_of-cons x j c (set_count k v m), count_of-cons x j c m, ih)
        (elim (Bool-cases (slot_eq x j)) [
          | inl e ↦ rw (e, slot_eq_apart x k j other e)
          | inr e ↦ rw e
        ])
]

set_count-IsAbove : (a k : Slot) (v : ℕ) (m : Counts) → IsAbove a m → IsAbove a (set_count k v m)
unfolding IsAbove set_count
set_count-IsAbove a k v [] h = tt
set_count-IsAbove a k v ((j, c) ∷ m) h = elim (Bool-cases (slot_eq k j)) [
  | inl same ↦ rw same h
  | inr other ↦ rw other (h.0, set_count-IsAbove a k v m h.1)
]

set_count-IsOrdered : (k : Slot) (v : ℕ) (m : Counts) → IsOrdered m → IsOrdered (set_count k v m)
unfolding IsOrdered set_count
set_count-IsOrdered k v [] h = tt
set_count-IsOrdered k v ((j, c) ∷ m) h = elim (Bool-cases (slot_eq k j)) [
  | inl same ↦ rw same h
  | inr other ↦ rw other (set_count-IsAbove j k v m h.0, set_count-IsOrdered k v m h.1)
]

-- The part of a count that has begun, and must be matched.
abbrev pub begun : ℕ → Slot → ℕ → ℕ
begun last x n = if leb x.0 last then n else 0

-- the counts of the new schedule after a turn of the first loop
abbrev pub kept : ℕ → Slot → ℕ → Counts → Counts
kept last k c new = if leb k.0 last then set_count k (count_of k new - c) new else new

pub keep_existing_lem :
    (last : ℕ) (k : Slot) (c : ℕ) (new : Counts)
    → 1 ≤ c
    → keep_existing last k c new ≡ (
        if ltb (count_of k new) (begun last k c) then err error_removes else ok (kept last k c new))
unfolding take_count count_of
keep_existing_lem last k c new pos = elim (Bool-cases (leb k.0 last)) [
  | inr later ↦ ground arith
  | inl started ↦ elim (Option-cases (get_count k new)) [
    | inl absent ↦ ground arith
    | inr (p, e) ↦ ground arith
  ]
]

pub kept-IsOrdered :
    (last : ℕ) (k : Slot) (c : ℕ) (new : Counts) → IsOrdered new → IsOrdered (kept last k c new)
kept-IsOrdered last k c new h = ground (arith, set_count-IsOrdered k (count_of k new - c) new h)

count_of_present : (k : Slot) (m : Counts) → 1 ≤ count_of k m → (p : ℕ) × (get_count k m ≡ some p)
unfolding count_of
count_of_present k m h = elim (Option-cases (get_count k m)) [
  | inl absent ↦ absurd (ground arith)
  | inr found ↦ found
]

pub count_of_eq : (x k : Slot) (m : Counts) → slot_eq x k ≡ true → count_of x m ≡ count_of k m
count_of_eq x k [] h = unfold count_of get_count in refl
count_of_eq x k ((j, c) ∷ m) h =
    rw (count_of-cons x j c m, count_of-cons k j c m, slot_eq_left x k j h, count_of_eq x k m h)

pub count_of-kept :
    (last : ℕ) (x k : Slot) (c : ℕ) (new : Counts)
    → 1 ≤ c
    → begun last k c ≤ count_of k new
    → count_of x (kept last k c new)
      ≡ (if slot_eq x k then count_of x new - begun last k c else count_of x new)
count_of-kept last x k c new pos fits = elim (Bool-cases (leb k.0 last)) [
  | inr later ↦ ground arith
  | inl started ↦
      let (p, e) = count_of_present k new (ground arith) in
      let value = count_of-set_count x k (count_of k new - c) p new e in
      ground (arith, value, count_of_eq x k new)
]

-- `left` is what the first loop leaves of the counts of the new schedule.
abbrev pub Remains : ℕ → Counts → Counts → Counts → Type 0
Remains last existing new left =
    (x : Slot) → count_of x left + begun last x (count_of x existing) ≡ count_of x new

same_start : (last : ℕ) (x k : Slot) (n : ℕ) → slot_eq x k ≡ true → begun last x n ≡ begun last k n
same_start last x k n h = ground arith

pub begun_zero : (last : ℕ) (x : Slot) → begun last x 0 ≡ 0
begun_zero last x = ground arith

-- a turn that succeeds
turn :
    (last : ℕ) (k : Slot) (c : ℕ) (new mid : Counts)
    → 1 ≤ c
    → keep_existing last k c new ≡ ok mid
    → (begun last k c ≤ count_of k new) × (mid ≡ kept last k c new)
turn last k c new mid pos h = elim (Bool-cases (ltb (count_of k new) (begun last k c))) [
  | inl short ↦ absurd (cc (rw short at (keep_existing_lem last k c new pos), h))
  | inr enough ↦
      (ltb→le _ _ enough, ground (arith, rw enough at (keep_existing_lem last k c new pos), h))
]

pub check_existing-Remains :
    (last : ℕ) (existing new left : Counts)
    → IsPositive existing
    → IsOrdered existing
    → IsOrdered new
    → check_existing last existing new ≡ ok left
    → Remains last existing new left × IsOrdered left
unfolding check_existing IsPositive IsOrdered
check_existing-Remains last [] new left pos ord ord' h =
    let same : new ≡ left = ground arith in
    (
      (λ x. rw (← same, count_of-nil x, begun_zero last x) (omega arith)),
      subst (λ m. IsOrdered m) same ord',
    )
check_existing-Remains last ((k, c) ∷ rest) new left pos ord ord' h =
    let (mid, is_mid, h') = chain_ok (keep_existing last k c new) _ h in
    let (fits, is_kept) = turn last k c new mid pos.0 is_mid in
    let (remains, ord'') =
      check_existing-Remains last rest (kept last k c new) left pos.1 ord.1
        (kept-IsOrdered last k c new ord') (rw is_kept at h') in
    (
      (λ x. elim (Bool-cases (slot_eq x k)) [
        | inl same ↦
            let gone = count_of-IsAbove x rest (IsAbove-eq x k rest same ord.0) in
            rw
              (count_of-cons x k c rest, same, same_start last x k c same, count_of_eq x k new same)
              (let step : count_of x (kept last k c new) ≡ count_of x new - begun last k c =
                  rw same at (count_of-kept last x k c new pos.0 fits) in
                let idle : begun last x (count_of x rest) ≡ 0 = rw gone (begun_zero last x) in
                omega (arith, step, idle, remains x, fits, count_of_eq x k new same))
        | inr other ↦
            let step : count_of x (kept last k c new) ≡ count_of x new =
              rw other at (count_of-kept last x k c new pos.0 fits) in
            rw (count_of-cons x k c rest, other) (remains x ∙ step)
      ]),
      ord'',
    )
