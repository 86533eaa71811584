-- ===== src/Platform/Samples.antt =====
-- Concrete hosts, which show that the interfaces can be met and serve the tests: a bucket as a
-- function, a cell as an option, and decimals as their atomics.
use shard_token.Common.{
  ℕ, ◌+◌, ◌*◌, ◌/◌, ◌<◌, ◌≡◌, refl, ◌≢◌, Option, some, none, if◌then◌else◌, arith, ltb, nat_eq,
}
use shard_token.Common.Words.{u128_mod}
use shard_token.Platform.Storage.{Eq, Bucket, Singleton}
use shard_token.Platform.Decimals.{Decimals, fractional}

abbrev pub function_bucket : {K V : Type 0} ⦃e : Eq K⦄ → Bucket K V
function_bucket {K} {V} ⦃e⦄ = record {
  Map = K → Option V;
  get = λ k m. m k;
  set = λ k v m j. if e.beq k j then some v else m j;
  remove = λ k m j. if e.beq k j then none else m j;
  get-set = λ k j v m. refl;
  get-remove = λ k j m. refl;
}

abbrev pub option_cell : {V : Type 0} → Singleton V
option_cell {V} = record {
  Cell = Option V;
  load = λ c. c;
  save = λ v c. some v;
  load-save = λ v c. refl;
}

abbrev fitting : ℕ → Option ℕ
fitting n = if ltb n u128_mod then some n else none

abbrev ratio : ℕ → ℕ → Option ℕ
ratio n d = if nat_eq d 0 then none else fitting (n * fractional / d)

pub fitting_value : (n r : ℕ) → fitting n ≡ some r → r ≡ n
fitting_value n r h = ground arith

pub fitting_fits : (n : ℕ) → n < u128_mod → (r : ℕ) × (fitting n ≡ some r)
fitting_fits n h = (n, ground arith)

pub ratio_value : (n d r : ℕ) → ratio n d ≡ some r → r ≡ n * fractional / d
ratio_value n d r h = ground arith

pub ratio_fits : (n d : ℕ) → d ≢ 0 → n * fractional / d < u128_mod → (r : ℕ) × (ratio n d ≡ some r)
ratio_fits n d h k = (n * fractional / d, ground arith)

abbrev pub atomic_decimals : Decimals
atomic_decimals = record {
  Decimal = ℕ;
  zero = 0;
  from_ratio = ratio;
  add = λ a b. fitting (a + b);
  mul = λ x d. fitting (x * d / fractional);
  atomics = λ d. d;
  atomics-zero = refl;
  from_ratio-zero = λ n. refl;
  atomics-from_ratio = ratio_value;
  from_ratio_fits = ratio_fits;
  atomics-add = λ a b c h. fitting_value (a + b) c h;
  add_fits = λ a b h. fitting_fits (a + b) h;
  mul_value = λ x d y h. fitting_value (x * d / fractional) y h;
  mul_fits = λ x d h. fitting_fits (x * d / fractional) h;
}
