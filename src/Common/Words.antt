-- ===== src/Common/Words.antt =====
-- Machine words: `u8`, `u64` and `u128` (which `Uint128` wraps) as numbers, with arithmetic that
-- aborts where the result does not fit, as `overflow-checks = true` and `Uint128` make it; and the
-- big-endian bytes of a `u128`.
use native.Mathlib.Nat.{pow-suc}
use shard_token.Common.Tests.{ltb, length, take, if◌then◌else◌}
use shard_token.Common.Outcome.{Outcome, ok, panic}
use Prim.Native.Nat.{ℕ, zero, suc, ◌+◌, ◌-◌, ◌*◌, ◌/◌, ◌%◌, ◌^◌, ◌<◌}
use mathlib.Core.Path.{◌≡◌, refl, ap, ◌∙◌}
use mathlib.Core.List.{List, [], ◌∷◌, ◌++◌}
use native.Mathlib.Omega.{arith}

abbrev pub u8_mod : ℕ
u8_mod = 2 ^ 8

abbrev pub u128_mod : ℕ
u128_mod = 2 ^ 128

abbrev pub checked : {E : Type 0} → ℕ → ℕ → Outcome E ℕ
checked bound n = if ltb n bound then ok n else panic

-- `a + b` on `u128` and `Uint128`
abbrev pub add_u128 : {E : Type 0} → ℕ → ℕ → Outcome E ℕ
add_u128 a b = checked u128_mod (a + b)

-- `a - b` on an unsigned word of any width
abbrev pub sub_word : {E : Type 0} → ℕ → ℕ → Outcome E ℕ
sub_word a b = if ltb a b then panic else ok (a - b)

abbrev pub Bytes : Type 0
Bytes = List ℕ

-- the `n` low bytes of `v`, the highest first
unfoldable pub be_bytes : ℕ → ℕ → Bytes
be_bytes zero v = []
be_bytes (suc n) v = be_bytes n (v / 256) ++ (v % 256) ∷ []

-- `u128::to_be_bytes`
unfoldable pub to_be_bytes : ℕ → Bytes
unfolding be_bytes
to_be_bytes v = be_bytes 16 v

unfoldable pub be_value : ℕ → Bytes → ℕ
be_value acc [] = acc
be_value acc (b ∷ bs) = be_value (acc * 256 + b) bs

-- `u128::from_be_bytes`
unfoldable pub from_be_bytes : Bytes → ℕ
unfolding be_value
from_be_bytes = be_value 0

be_value-snoc :
    (acc : ℕ) (bs : Bytes) (b : ℕ) → be_value acc (bs ++ b ∷ []) ≡ be_value acc bs * 256 + b
unfolding be_value
be_value-snoc acc [] b = refl
be_value-snoc acc (c ∷ bs) b = be_value-snoc (acc * 256 + c) bs b

div-lt-pow : (n v : ℕ) → v < 256 ^ suc n → v / 256 < 256 ^ n
div-lt-pow n v h = let p : v < 256 ^ n * 256 = rw (← pow-suc) h in omega arith

be_value-be_bytes : (n v : ℕ) → v < 256 ^ n → be_value 0 (be_bytes n v) ≡ v
unfolding be_bytes
be_value-be_bytes zero v h = unfold be_value in omega arith
be_value-be_bytes (suc n) v h =
    let ih = be_value-be_bytes n (v / 256) (div-lt-pow n v h) in
    be_value-snoc 0 (be_bytes n (v / 256)) (v % 256) ∙ rw ih (omega arith)

-- Every `u128` is read back from its 16 bytes.
pub from_be_bytes-to_be_bytes : (v : ℕ) → v < u128_mod → from_be_bytes (to_be_bytes v) ≡ v
unfolding from_be_bytes to_be_bytes
from_be_bytes-to_be_bytes v h = be_value-be_bytes 16 v h

pub length-snoc : (xs : Bytes) (b : ℕ) → length (xs ++ b ∷ []) ≡ suc (length xs)
length-snoc [] b = refl
length-snoc (x ∷ xs) b = ap suc (length-snoc xs b)

pub length-be_bytes : (n v : ℕ) → length (be_bytes n v) ≡ n
unfolding be_bytes
length-be_bytes zero v = refl
length-be_bytes (suc n) v =
    omega (arith, length-snoc (be_bytes n (v / 256)) (v % 256), length-be_bytes n (v / 256))

pub length-to_be_bytes : (v : ℕ) → length (to_be_bytes v) ≡ 16
unfolding to_be_bytes
length-to_be_bytes v = length-be_bytes 16 v

pub take_all : (xs : Bytes) → take (length xs) xs ≡ xs
take_all [] = refl
take_all (x ∷ xs) = ap (λ ys. x ∷ ys) (take_all xs)
