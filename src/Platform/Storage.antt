-- ===== src/Platform/Storage.antt =====
-- `cosmwasm_storage`: a `Singleton` is one cell, and a `Bucket` or a `PrefixedStorage` is a map
-- under a prefix of its own. Distinct prefixes never meet, so each is a part of the storage.
use shard_token.Common.{
  ◌≡◌, ◌↔◌, Bool, true, Option, some, none, if◌then◌else◌, ℕ, String, ◌==◌, eq_iff, nat_eq, arith,
  ◌&&◌,
}

-- A test of equality, for the keys.
pub record Eq (K : Type 0) : Type 0 where
  pub beq : K → K → Bool
  pub beq_iff : (a b : K) → (beq a b ≡ true) ↔ (a ≡ b)

instance abbrev pub string_eq : Eq String
string_eq = record { beq = ◌==◌; beq_iff = eq_iff }

pub nat_eq_iff : (a b : ℕ) → (nat_eq a b ≡ true) ↔ (a ≡ b)
nat_eq_iff a b = ground arith

instance abbrev pub number_eq : Eq ℕ
number_eq = record { beq = nat_eq; beq_iff = nat_eq_iff }

module _ {K J : Type 0} ⦃e : Eq K⦄ ⦃f : Eq J⦄ where
  abbrev pub pair_beq : K × J → K × J → Bool
  pair_beq (a, b) (c, d) = e.beq a c && f.beq b d

  pub pair_beq_iff : (p q : K × J) → (pair_beq p q ≡ true) ↔ (p ≡ q)
  pair_beq_iff (a, b) (c, d) = (
    λ h. ground (arith, e.beq_iff a c, f.beq_iff b d),
    λ h. ground (arith, e.beq_iff a c, f.beq_iff b d),
  )

  instance abbrev pub pair_eq : Eq (K × J)
  pair_eq = record { beq = pair_beq; beq_iff = pair_beq_iff }

-- `get`, `set` and `remove` of a `PrefixedStorage`; `may_load`, `save` and `remove` of a `Bucket`.
pub record Bucket (K V : Type 0) ⦃e : Eq K⦄ : Type 1 where
  pub Map : Type 0
  pub get : K → Map → Option V
  pub set : K → V → Map → Map
  pub remove : K → Map → Map
  pub get-set :
      (k j : K) (v : V) (m : Map) → get j (set k v m) ≡ (if e.beq k j then some v else get j m)
  pub get-remove : (k j : K) (m : Map) → get j (remove k m) ≡ (if e.beq k j then none else get j m)

-- `load` and `save` of a `Singleton`
pub record Singleton (V : Type 0) : Type 1 where
  pub Cell : Type 0
  pub load : Cell → Option V
  pub save : V → Cell → Cell
  pub load-save : (v : V) (c : Cell) → load (save v c) ≡ some v
