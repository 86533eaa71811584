-- ===== src/Airdrop/Leaf.antt =====
-- The text that a leaf of the tree is the digest of, `claim` of contracts/airdrop/src/contract.rs:
-- the sender's address and then the amount in decimal digits, as bytes.
use mathlib.Core.List.{append_assoc, append_cancel_left}
use native.Mathlib.Nat.{pow-suc}
use shard_token.Common.{
  ℕ, zero, suc, ◌+◌, ◌-◌, ◌*◌, ◌/◌, ◌%◌, ◌^◌, ◌<◌, String, ◌≡◌, ◌≢◌, refl, ap, sym, ◌∙◌, arith,
  false, ltb, [], ◌∷◌, ◌++◌, Bool-cases, inl, inr,
}
use shard_token.Common.Words.{Bytes, u128_mod}
use shard_token.Common.Texts.{as_bytes, digits, to_string}

-- `info.sender.to_string() + &amount.to_string()`, as bytes
unfoldable pub user_input : String → ℕ → Bytes
user_input sender amount = as_bytes sender ++ to_string amount

-- the number that digits stand for
abbrev pub value : ℕ → Bytes → ℕ
value acc [] = acc
value acc (d ∷ ds) = value (acc * 10 + (d - 48)) ds

value-snoc :
    (acc : ℕ) (ds : Bytes) (d : ℕ) → value acc (ds ++ d ∷ []) ≡ value acc ds * 10 + (d - 48)
value-snoc acc [] d = refl
value-snoc acc (c ∷ ds) d = value-snoc (acc * 10 + (c - 48)) ds d

tenth-lt : (fuel n : ℕ) → n < 10 ^ suc fuel → n / 10 < 10 ^ fuel
tenth-lt fuel n h = let p : n < 10 ^ fuel * 10 = rw (← pow-suc) h in omega arith

value-digits : (fuel n : ℕ) → n < 10 ^ suc fuel → value 0 (digits (suc fuel) n) ≡ n
unfolding digits
value-digits zero n h = ground arith
value-digits (suc fuel) n h = elim (Bool-cases (ltb n 10)) [
  | inl small ↦ ground arith
  | inr large ↦ rw large (
      omega (
        arith,
        value-snoc 0 (digits (suc fuel) (n / 10)) (48 + n % 10),
        value-digits fuel (n / 10) (tenth-lt (suc fuel) n h),
      ))
]

-- The digits of a `u128` read back as the number.
pub value-to_string : (n : ℕ) → n < u128_mod → value 0 (to_string n) ≡ n
unfolding to_string
value-to_string n h = value-digits 38 n (omega arith)

digits-fuel : (fuel n : ℕ) → n < 10 ^ suc fuel → digits (suc (suc fuel)) n ≡ digits (suc fuel) n
unfolding digits
digits-fuel zero n h = ground arith
digits-fuel (suc fuel) n h = elim (Bool-cases (ltb n 10)) [
  | inl small ↦ ground arith
  | inr large ↦ rw large (rw (digits-fuel fuel (n / 10) (tenth-lt (suc fuel) n h)))
]

to_string-digit : (d : ℕ) → d < 10 → to_string d ≡ (48 + d) ∷ []
unfolding to_string digits
to_string-digit d small = ground arith

digits-snoc :
    (fuel n d : ℕ)
    → n ≢ 0
    → d < 10
    → digits (suc fuel) (n * 10 + d) ≡ digits fuel n ++ (48 + d) ∷ []
unfolding digits
digits-snoc fuel n d pos small =
    let q : (n * 10 + d) / 10 ≡ n = omega arith in
    let r : (n * 10 + d) % 10 ≡ d = omega arith in
    let large : ltb (n * 10 + d) 10 ≡ false = ground arith in rw (large, q, r)

to_string-snoc :
    (n d : ℕ) → n ≢ 0 → d < 10 → n < 10 ^ 38 → to_string (n * 10 + d) ≡ to_string n ++ (48 + d) ∷ []
unfolding to_string
to_string-snoc n d pos small fits =
    digits-snoc 38 n d pos small ∙ ap (λ ds. ds ++ (48 + d) ∷ []) (sym (digits-fuel 37 n fits))

-- The texts of one sender and two amounts are the same only where the amounts are.
pub user_input-amount :
    (sender : String) (a b : ℕ)
    → a < u128_mod
    → b < u128_mod
    → user_input sender a ≡ user_input sender b
    → a ≡ b
unfolding user_input
user_input-amount sender a b fits_a fits_b same =
    sym (value-to_string a fits_a)
    ∙ ap (value 0) (append_cancel_left (as_bytes sender) (to_string a) (to_string b) same)
    ∙ value-to_string b fits_b

-- Where the address `long` is the address `short` followed by the digits of a number that is not zero
-- and is below 10 ^ 38, the text of `long` with a one-digit amount is that of `short` with a larger
-- amount.
pub user_input-shared :
    (short long : String) (n d : ℕ)
    → as_bytes long ≡ as_bytes short ++ to_string n
    → n ≢ 0
    → d < 10
    → n < 10 ^ 38
    → user_input long d ≡ user_input short (n * 10 + d)
unfolding user_input
user_input-shared short long n d longer pos small fits =
    let one : to_string d ≡ (48 + d) ∷ [] = to_string-digit d small in
    rw (longer, one, to_string-snoc n d pos small fits)
      (append_assoc (as_bytes short) (to_string n) ((48 + d) ∷ []))
