-- ===== src/Staking/Rewards/Seconds.antt =====
-- The loop of `compute_reward` over the distribution schedule, contracts/staking/src/contract.rs,
-- against the seconds of each slot, counted one by one.
use shard_token.Common.{
  ℕ, zero, suc, ◌+◌, ◌-◌, ◌*◌, ◌/◌, ◌<◌, ◌≤◌, ◌≡◌, ◌↔◌, ◌⊎◌, ◌∙◌, inl, inr, ap, refl, arith,
  Bool-cases, ◌&&◌, List, [], ◌∷◌, ltb, leb, min_of, max_of, if◌then◌else◌,
}
use shard_token.Common.Outcome.{ok}
use shard_token.Common.Words.{u128_mod}
use shard_token.Staking.Msg.{Slot}
use shard_token.Platform.Decimals.{Decimals, fractional}
use shard_token.Staking.Rewards.{slot_amount, distributed}
use shard_token.Staking.Rewards.Slots.{
  pro_rata, overlap, owed, owed_le, schedule_owes, amounts, prorated_value, distributed_value,
}
use shard_token.Staking.Rewards.Live.{share, share_fits}
use shard_token.Common.Checked.{chain_ok}
use shard_token.Common.Words.{add_u128, sub_word}

-- The seconds before `until` that are not before `from` and lie in the slot.
unfoldable pub seconds_shared : ℕ → ℕ → Slot → ℕ
seconds_shared from zero s = 0
seconds_shared from (suc n) s =
    let earlier = seconds_shared from n s in
    if leb from n && (leb s.0 n && ltb n s.1) then suc earlier else earlier

seconds_shared_value : (t u : ℕ) (s : Slot) → seconds_shared t u s ≡ overlap t u s
unfolding seconds_shared
seconds_shared_value t zero s = ground arith
seconds_shared_value t (suc n) s = ground (arith, seconds_shared_value t n s)

-- What each slot gives out for the seconds counted, together.
unfoldable pub counted_owes : ℕ → ℕ → List Slot → ℕ
counted_owes from until [] = 0
counted_owes from until (s ∷ rest) =
    pro_rata s.2 (s.1 - s.0) (seconds_shared from until s) + counted_owes from until rest

pub counted_owes_value :
    (t u : ℕ) (slots : List Slot) → counted_owes t u slots ≡ schedule_owes t u slots
unfolding counted_owes schedule_owes
counted_owes_value t u [] = refl
counted_owes_value t u (s ∷ rest) = rw (seconds_shared_value t u s, counted_owes_value t u rest)

-- A slot lies after the interval or before it, or it lasts.
abbrev pub IsAnswered : ℕ → ℕ → Slot → Type 0
IsAnswered t u s = ((u < s.0) ⊎ (s.1 < t)) ⊎ (s.0 < s.1)

abbrev pub AllAnswered : ℕ → ℕ → List Slot → Type 0
AllAnswered t u [] = Unit
AllAnswered t u (s ∷ rest) = IsAnswered t u s × AllAnswered t u rest

-- The rates of the slots fit a `Decimal`; the quotient is 0 for a slot that does not last.
abbrev pub AllRated : List Slot → Type 0
AllRated [] = Unit
AllRated (s ∷ rest) = (s.2 * fractional / (s.1 - s.0) < u128_mod) × AllRated rest

difference : {E : Type 0} (a b c : ℕ) → sub_word {E = E} a b ≡ ok c → (b ≤ a) × (c ≡ a - b)
difference a b c h = ground arith

module _ (d : Decimals) where
  slot_amount-lasts : (t u : ℕ) (s : Slot) (x : ℕ) → slot_amount d t u s ≡ ok x → s.0 < s.1
  unfolding slot_amount
  slot_amount-lasts t u s x h =
      let (passed, is_passed, h₁) = chain_ok (sub_word (min_of s.1 u) (max_of s.0 t)) _ h in
      let (time, is_time, h₂) = chain_ok (sub_word s.1 s.0) _ h₁ in
      let pos = (prorated_value d s.2 time passed x h₂).0 in
      omega (arith, difference s.1 s.0 time is_time, pos)

  share-IsAnswered : (t u : ℕ) (s : Slot) (x : ℕ) → share d t u s ≡ ok x → IsAnswered t u s
  share-IsAnswered t u s x h = elim (Bool-cases (ltb u s.0)) [
    | inl after ↦ inl (inl (ground arith))
    | inr begun ↦ elim (Bool-cases (ltb s.1 t)) [
      | inl before ↦ inl (inr (ground arith))
      | inr going ↦ inr (slot_amount-lasts t u s x (ground arith))
    ]
  ]

  share_answers :
      (t u : ℕ) (s : Slot)
      → t ≤ u
      → IsAnswered t u s
      → s.2 * fractional / (s.1 - s.0) < u128_mod
      → s.2 < u128_mod
      → share d t u s ≡ ok (owed t u s)
  share_answers t u s h (inl (inl after)) rated fits = ground arith
  share_answers t u s h (inl (inr before)) rated fits = ground arith
  share_answers t u s h (inr lasts) rated fits = share_fits d t u s h (lasts, rated) fits

  distributed_answers :
      (t u : ℕ) (slots : List Slot) (acc : ℕ)
      → t ≤ u
      → AllRated slots
      → acc + amounts slots < u128_mod
      → AllAnswered t u slots
      → distributed d t u slots acc ≡ ok (acc + schedule_owes t u slots)
  unfolding distributed schedule_owes amounts
  distributed_answers t u [] acc h rated fits answered = ap (λ n. ok n) (omega arith)
  distributed_answers t u (s ∷ rest) acc h rated fits answered =
      let le = owed_le t u s in
      let one = share_answers t u s h answered.0 rated.0 (omega arith) in
      let others =
        distributed_answers t u rest (acc + owed t u s) h rated.1 (omega arith) answered.1 in
      ground (arith, one, others)

  distributed-AllAnswered :
      (t u : ℕ) (slots : List Slot) (acc a : ℕ)
      → distributed d t u slots acc ≡ ok a
      → AllAnswered t u slots
  unfolding distributed
  distributed-AllAnswered t u [] acc a h = tt
  distributed-AllAnswered t u (s ∷ rest) acc a h =
      let (more, is_share, h₁) = chain_ok (share d t u s) _ h in
      let (sum, is_sum, h₂) = chain_ok (add_u128 acc more) _ h₁ in
      (share-IsAnswered t u s more is_share, distributed-AllAnswered t u rest sum a h₂)

  -- From one time to one that is not earlier, where the rates of the slots that last fit a `Decimal`
  -- and the amounts with the sum so far fit a `u128`: the loop ends with a sum exactly where every
  -- slot lies after the interval, before it, or lasts, and the sum is the one so far with what each
  -- slot gives out for the seconds that it shares with the interval, counted one by one.
  pub distributed_iff :
      (t u : ℕ) (slots : List Slot) (acc a : ℕ)
      → t ≤ u
      → AllRated slots
      → acc + amounts slots < u128_mod
      → (distributed d t u slots acc ≡ ok a)
        ↔ (AllAnswered t u slots × (a ≡ acc + counted_owes t u slots))
  distributed_iff t u slots acc a h rated fits =
      let counted = counted_owes_value t u slots in
      (
        λ e. (
          distributed-AllAnswered t u slots acc a e,
          rw counted (distributed_value d t u slots acc a e),
        ),
        λ (answered, is_a).
            distributed_answers t u slots acc h rated fits answered ∙ ap (λ n. ok n) (omega arith),
      )
