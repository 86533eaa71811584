-- ===== src/Airdrop/Merkle/Texts.antt =====
-- The texts of nodes as bytes: when two are the same, and their length.
use shard_token.Common.{
  ◌≡◌, ◌≢◌, refl, ap, sym, arith, [], ◌∷◌, ◌++◌, inl, inr, length, Bool-cases, ◌⊎◌, true, ◌+◌,
}
use shard_token.Common.Words.{Bytes}
use shard_token.Airdrop.Contract.{bytes_less, bytes_eq}
use shard_token.Airdrop.Claims.{bytes_eq→≡}
use shard_token.Airdrop.Merkle.{pair}

pub bytes_eq_refl : (a : Bytes) → bytes_eq a a ≡ true
unfolding bytes_eq
bytes_eq_refl [] = refl
bytes_eq_refl (x ∷ xs) = ground (arith, bytes_eq_refl xs)

-- texts are the same or not
pub bytes_cases : (a b : Bytes) → (a ≡ b) ⊎ (a ≢ b)
bytes_cases a b = elim (Bool-cases (bytes_eq a b)) [
  | inl same ↦ inl (bytes_eq→≡ a b same)
  | inr other ↦ inr (λ e. cc (other, bytes_eq_refl a, ap (λ c. bytes_eq a c) e))
]

append_parts : (a b c d : Bytes) → length a ≡ length c → a ++ b ≡ c ++ d → (a ≡ c) × (b ≡ d)
append_parts [] b [] d e h = (refl, h)
append_parts [] b (z ∷ c) d e h = absurd (omega arith)
append_parts (x ∷ a) b [] d e h = absurd (omega arith)
append_parts (x ∷ a) b (z ∷ c) d e h = ground (arith, append_parts a b c d)

-- Of two texts of nodes that are the same, each digest of one is a digest of the other.
pub pair_parts :
    (a b x y : Bytes)
    → length a ≡ 32
    → length b ≡ 32
    → length x ≡ 32
    → length y ≡ 32
    → pair a b ≡ pair x y
    → (x ≡ a) ⊎ (x ≡ b)
pair_parts a b x y la lb lx ly e = elim (Bool-cases (bytes_less a b)) [
  | inl ab ↦ elim (Bool-cases (bytes_less x y)) [
    | inl xy ↦ inl (sym (append_parts a b x y (omega arith) (rw (ab, xy) at e)).0)
    | inr yx ↦ inr (sym (append_parts a b y x (omega arith) (rw (ab, yx) at e)).1)
  ]
  | inr ba ↦ elim (Bool-cases (bytes_less x y)) [
    | inl xy ↦ inr (sym (append_parts b a x y (omega arith) (rw (ba, xy) at e)).0)
    | inr yx ↦ inl (sym (append_parts b a y x (omega arith) (rw (ba, yx) at e)).1)
  ]
]

length-append : (a b : Bytes) → length (a ++ b) ≡ length a + length b
length-append [] b = omega arith
length-append (x ∷ a) b = omega (arith, length-append a b)

pub length-pair : (a b : Bytes) → length a ≡ 32 → length b ≡ 32 → length (pair a b) ≡ 64
length-pair a b la lb = ground (arith, length-append a b, length-append b a)
