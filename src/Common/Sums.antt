-- ===== src/Common/Sums.antt =====
-- Sums of a number for each name, over a list of distinct names that covers every name with a
-- number other than zero: the total of a map whose keys are not enumerated by the program.
use text.Mathlib.Text.{◌==◌}
use text.Mathlib.TextEquality.{eq_iff}
use Prim.Native.Nat.{ℕ, ◌+◌, ◌≤◌}
use Prim.Native.String.{String}
use mathlib.Core.Path.{◌≡◌, refl}
use mathlib.Core.Logic.{inl, inr}
use mathlib.Core.Bool.{Bool, true, false, ◌||◌}
use mathlib.Core.List.{List, [], ◌∷◌}
use native.Mathlib.Omega.{arith}
use shard_token.Common.Tests.{if◌then◌else◌, Bool-cases}

abbrev pub update : {V : Type 0} → String → V → (String → V) → String → V
update k v f j = if k == j then v else f j

abbrev pub contains : List String → String → Bool
contains [] a = false
contains (x ∷ xs) a = (x == a) || contains xs a

abbrev pub AllDistinct : List String → Type 0
AllDistinct [] = Unit
AllDistinct (x ∷ xs) = (contains xs x ≡ false) × AllDistinct xs

abbrev pub sum_over : (String → ℕ) → List String → ℕ
sum_over f [] = 0
sum_over f (x ∷ xs) = f x + sum_over f xs

pub sum_over-update_absent :
    (f : String → ℕ) (k : String) (v : ℕ) (xs : List String)
    → contains xs k ≡ false
    → sum_over (update k v f) xs ≡ sum_over f xs
sum_over-update_absent f k v [] h = refl
sum_over-update_absent f k v (x ∷ xs) h =
    ground (arith, eq_iff k x, eq_iff x k, sum_over-update_absent f k v xs)

pub sum_over-update :
    (f : String → ℕ) (k : String) (v : ℕ) (xs : List String)
    → AllDistinct xs
    → contains xs k ≡ true
    → sum_over (update k v f) xs + f k ≡ sum_over f xs + v
sum_over-update f k v [] d h = ground arith
sum_over-update f k v (x ∷ xs) d h =
    ground
      (arith, eq_iff k x, eq_iff x k, sum_over-update f k v xs d.1, sum_over-update_absent f k v xs)

-- `total` is the sum of `f` over all names.
pub record IsTotal (f : String → ℕ) (total : ℕ) : Type 0 where
  pub names : List String
  pub distinct : AllDistinct names
  pub covered : (a : String) → contains names a ≡ false → f a ≡ 0
  pub summed : sum_over f names ≡ total

-- The total moves with the number of one name.
pub IsTotal-update :
    (f : String → ℕ) (k : String) (v t u : ℕ)
    → u + f k ≡ t + v
    → IsTotal f t
    → IsTotal (update k v f) u
IsTotal-update f k v t u e h = elim (Bool-cases (contains h.names k)) [
  | inl old ↦ record {
    names = h.names;
    distinct = h.distinct;
    covered = λ a absent. ground (arith, eq_iff k a, h.covered a absent);
    summed = omega (arith, sum_over-update f k v h.names h.distinct old, h.summed);
  }
  | inr new ↦ record {
    names = k ∷ h.names;
    distinct = (new, h.distinct);
    covered = λ a absent. ground (arith, eq_iff k a, h.covered a);
    summed =
        ground
          (arith, eq_iff k k, sum_over-update_absent f k v h.names new, h.summed, h.covered k new);
  }
]

-- No number is more than the total.
pub sum_over-member :
    (f : String → ℕ) (k : String) (xs : List String) → contains xs k ≡ true → f k ≤ sum_over f xs
sum_over-member f k [] h = ground arith
sum_over-member f k (x ∷ xs) h = ground (arith, eq_iff x k, sum_over-member f k xs)

pub IsTotal-le : (f : String → ℕ) (k : String) (t : ℕ) → IsTotal f t → f k ≤ t
IsTotal-le f k t h = elim (Bool-cases (contains h.names k)) [
  | inl old ↦ omega (arith, sum_over-member f k h.names old, h.summed)
  | inr new ↦ omega (arith, h.covered k new)
]

pub sum_over-ext :
    (f g : String → ℕ)
    → ((a : String) → g a ≡ f a)
    → (xs : List String) → sum_over g xs ≡ sum_over f xs
sum_over-ext f g same [] = refl
sum_over-ext f g same (x ∷ xs) = rw (same x, sum_over-ext f g same xs)

pub IsTotal-ext :
    (f g : String → ℕ) (t : ℕ) → ((a : String) → g a ≡ f a) → IsTotal f t → IsTotal g t
IsTotal-ext f g t same h = record {
  names = h.names;
  distinct = h.distinct;
  covered = λ a absent. rw (same a) (h.covered a absent);
  summed = rw (sum_over-ext f g same h.names) h.summed;
}
