-- ===== src/Token/Represents.antt =====
-- When the bytes in the token's storage stand for a ledger, and how each write moves the ledger.
use shard_token.Common.{
  ℕ, zero, suc, ◌<◌, ◌≤◌, String, ◌≡◌, ◌≢◌, refl, eq_iff, take, length, arith, ltb, ltb→le,
  Bool-cases, inl, inr, if◌then◌else◌, [], ◌∷◌,
}
use shard_token.Common.Outcome.{ok, err, panic}
use shard_token.Common.Sums.{update}
use shard_token.Common.Words.{
  Bytes, u128_mod, to_be_bytes, from_be_bytes, from_be_bytes-to_be_bytes, length-to_be_bytes,
  take_all,
}
use shard_token.Token.Msg.{corrupted_data_found}
use shard_token.Platform.Storage.{string_eq, pair_eq}
use shard_token.Token.Store.{Host, Store, key_total_supply, bytes_to_u128, balance_at, allowance_at}
use shard_token.Token.Contract.{supply_at}
use shard_token.Token.Ledger.{Ledger, set_allowance}

take_16-to_be_bytes : (v : ℕ) → take 16 (to_be_bytes v) ≡ to_be_bytes v
take_16-to_be_bytes v = rw (length-to_be_bytes v) at (take_all (to_be_bytes v))

-- A number below 2 ^ 128 that was written as 16 bytes is read back.
pub bytes_to_u128-to_be_bytes : (v : ℕ) → v < u128_mod → bytes_to_u128 (to_be_bytes v) ≡ ok v
unfolding bytes_to_u128
bytes_to_u128-to_be_bytes v h =
    rw (take_16-to_be_bytes v, length-to_be_bytes v, from_be_bytes-to_be_bytes v h)

pub record Represents (h : Host) (s : Store h) (l : Ledger) : Type 0 where
  pub balances : (a : String) → balance_at h a s ≡ ok (l.balance a)
  pub balance_fits : (a : String) → l.balance a < u128_mod
  pub allowances : (o p : String) → allowance_at h o p s ≡ ok (l.allowance o p)
  pub allowance_fits : (o p : String) → l.allowance o p < u128_mod
  pub supply : supply_at h s ≡ ok l.supply
  pub supply_fits : l.supply < u128_mod

module _ (h : Host) {s : Store h} {l : Ledger} (r : Represents h s l) where
  pub write_balance-Represents :
      (k : String) (v : ℕ)
      → v < u128_mod
      → Represents h
          (record s { balances = h.balances_area.set k (to_be_bytes v) s.balances })
          (record l { balance = update k v l.balance })
  unfolding balance_at allowance_at supply_at
  write_balance-Represents k v fits = record {
    balances = λ a. ground (
      arith,
      h.balances_area.get-set k a (to_be_bytes v) s.balances,
      eq_iff k a,
      bytes_to_u128-to_be_bytes v fits,
      r.balances a,
    );
    balance_fits = λ a. ground (arith, r.balance_fits a);
    allowances = r.allowances;
    allowance_fits = r.allowance_fits;
    supply = r.supply;
    supply_fits = r.supply_fits;
  }

  pub write_allowance-Represents :
      (o p : String) (v : ℕ)
      → v < u128_mod
      → Represents h
          (record s { allowances = h.allowances_area.set (o, p) (to_be_bytes v) s.allowances })
          (record l { allowance = set_allowance o p v l.allowance })
  unfolding balance_at allowance_at supply_at
  write_allowance-Represents o p v fits = record {
    balances = r.balances;
    balance_fits = r.balance_fits;
    allowances = λ a b. ground (
      arith,
      h.allowances_area.get-set (o, p) (a, b) (to_be_bytes v) s.allowances,
      bytes_to_u128-to_be_bytes v fits,
      r.allowances a b,
    );
    allowance_fits = λ a b. ground (arith, r.allowance_fits a b);
    supply = r.supply;
    supply_fits = r.supply_fits;
  }

  pub write_supply-Represents :
      (v : ℕ)
      → v < u128_mod
      → Represents h
          (record s { config = h.config_area.set key_total_supply (to_be_bytes v) s.config })
          (record l { supply = v })
  unfolding balance_at allowance_at supply_at
  write_supply-Represents v fits = record {
    balances = r.balances;
    balance_fits = r.balance_fits;
    allowances = r.allowances;
    allowance_fits = r.allowance_fits;
    supply = ground (
      arith,
      h.config_area.get-set key_total_supply key_total_supply (to_be_bytes v) s.config,
      bytes_to_u128-to_be_bytes v fits,
    );
    supply_fits = fits;
  }

length-take : (n : ℕ) (bytes : Bytes) → n ≤ length bytes → length (take n bytes) ≡ n
length-take zero bytes h = refl
length-take (suc n) [] h = absurd (omega arith)
length-take (suc n) (b ∷ bytes) h = ground (arith, length-take n bytes)

-- `bytes_to_u128` aborts on fewer than 16 bytes, and reads the first 16 where there are more: it
-- never answers with the error for corrupted data.
pub bytes_to_u128_ends :
    (bytes : Bytes)
    → (bytes_to_u128 bytes
        ≡ (if ltb (length bytes) 16 then panic else ok (from_be_bytes (take 16 bytes))))
      × (bytes_to_u128 bytes ≢ err corrupted_data_found)
unfolding bytes_to_u128
bytes_to_u128_ends bytes = elim (Bool-cases (ltb (length bytes) 16)) [
  | inl short ↦ (ground arith, λ e. ground arith)
  | inr enough ↦
      let whole = length-take 16 bytes (ltb→le _ _ enough) in
      (ground (arith, whole), λ e. ground (arith, whole))
]
