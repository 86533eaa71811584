-- ===== src/Staking/Solvency.antt =====
-- What the staking contract owes its stakers, to the fraction of a unit, and how each call of
-- contracts/staking/src/contract.rs moves it: the reward that is pending, and what the bond has earned
-- since the account was settled. Everything is in units of the last decimal digit, as the index is.
pub mod Books
pub mod Growth
pub mod Moves
pub mod History
pub mod Budget
use shard_token.Common.{ℕ, ◌+◌, ◌-◌, ◌*◌, ◌/◌, ◌≤◌, ◌<◌, String, ◌≡◌, refl, arith, List, [], ◌∷◌}
use shard_token.Common.Sums.{sum_over}
use shard_token.Platform.Decimals.{fractional}
use shard_token.Staking.Store.{Host, Store, info_of}

-- for a pending reward, a bond, the account's index and the global index
unfoldable pub due : ℕ → ℕ → ℕ → ℕ → ℕ
due pending bond index global =
    pending * fractional + bond * global - bond * index / fractional * fractional

mul_mono : (b i g : ℕ) → i ≤ g → b * i ≤ b * g
mul_mono b i g h = grind arith

-- The index grows: the bond earns the growth.
pub due_grows : (p b i g more : ℕ) → i ≤ g → due p b i (g + more) ≡ due p b i g + b * more
unfolding due
due_grows p b i g more h =
    let spread : b * (g + more) ≡ b * g + b * more = grind arith in omega (arith, mul_mono b i g h)

-- The account is settled at the global index, and its bond changes: less than a unit comes up.
pub due_moved :
    (p b i g settled b' i' : ℕ)
    → i ≤ g
    → settled + b * i / fractional ≡ p + b * g / fractional
    → b' * i' / fractional ≡ b' * g / fractional
    → due settled b' i' g ≤ due p b i g + fractional
unfolding due
due_moved p b i g settled b' i' h e level = omega (arith, mul_mono b i g h)

-- The account is settled, and its reward paid: exactly that is owed no more.
pub due_paid :
    (p b i g settled i' : ℕ)
    → i ≤ g
    → settled + b * i / fractional ≡ p + b * g / fractional
    → b * i' / fractional ≡ b * g / fractional
    → due 0 b i' g + settled * fractional ≡ due p b i g
unfolding due
due_paid p b i g settled i' h e level = omega (arith, mul_mono b i g h)

pub due_pending : (p b i g : ℕ) → i ≤ g → p * fractional ≤ due p b i g
unfolding due
due_pending p b i g h = omega (arith, mul_mono b i g h)

pub sum_over-grow :
    (f g f' : String → ℕ) (k : ℕ)
    → ((a : String) → f' a ≡ f a + g a * k)
    → (xs : List String) → sum_over f' xs ≡ sum_over f xs + sum_over g xs * k
sum_over-grow f g f' k e [] = omega arith
sum_over-grow f g f' k e (x ∷ xs) =
    let spread : (g x + sum_over g xs) * k ≡ g x * k + sum_over g xs * k = grind arith in
    omega (arith, e x, sum_over-grow f g f' k e xs)

module _ (h : Host) where
  -- what is owed to an account at a value of the global index
  abbrev pub due_to : Store h → ℕ → String → ℕ
  due_to s global a =
      let info = info_of h a s in
      due info.pending_reward info.bond_amount (h.decimals.atomics info.reward_index) global
