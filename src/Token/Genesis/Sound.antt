-- ===== src/Token/Genesis/Sound.antt =====
-- When `instantiate` leaves a supply that is the sum of the balances.
use shard_token.Common.{
  ℕ, ◌+◌, ◌-◌, ◌<◌, String, ◌≡◌, refl, sym, ap, arith, eq_iff, eq_refl, List, [], ◌∷◌, true, none,
}
use shard_token.Common.Outcome.{ok}
use shard_token.Common.Sums.{
  update, contains, AllDistinct, sum_over, IsTotal, IsTotal-update, IsTotal-le,
}
use shard_token.Common.Words.{Bytes, u128_mod, to_be_bytes}
use shard_token.Platform.Storage.{string_eq, pair_eq}
use shard_token.Token.Msg.{InitialBalance, InstantiateMsg}
use shard_token.Token.Store.{Host, Store, balance_at, allowance_at, key_constants, key_total_supply}
use shard_token.Token.Contract.{supply_at, instantiate}
use shard_token.Token.Ledger.{Ledger}
use shard_token.Token.Represents.{Represents, bytes_to_u128-to_be_bytes}
use shard_token.Token.Supply.{IsSound}
use shard_token.Token.Genesis.{
  total_of, stored, le-total_of, written, IsAcceptable, constants_of, begun, instantiate_acceptable,
}

abbrev pub addresses : List InitialBalance → List String
addresses [] = []
addresses (row ∷ rows) = row.address ∷ addresses rows

-- Rows for distinct names without a balance add their amounts to the total.
stored-IsTotal :
    (rows : List InitialBalance) (f : String → ℕ) (t : ℕ)
    → AllDistinct (addresses rows)
    → ((a : String) → contains (addresses rows) a ≡ true → f a ≡ 0)
    → IsTotal f t
    → IsTotal (stored rows f) (total_of rows t)
stored-IsTotal [] f t d fresh h = h
stored-IsTotal (row ∷ rows) f t d fresh h =
    let k = row.address in
    let zero_at : f k ≡ 0 = fresh k (ground (arith, eq_refl k)) in
    stored-IsTotal rows (update k row.amount f) (t + row.amount) d.1
      (λ a later. ground (arith, eq_iff k a, fresh a))
      (IsTotal-update f k row.amount t (t + row.amount) (omega arith) h)

no_names : (t : ℕ) → t ≡ 0 → IsTotal (λ _. 0) t
no_names t e = record { names = []; distinct = tt; covered = λ a absent. refl; summed = sym e }

stored_fits :
    (rows : List InitialBalance) (f : String → ℕ) (t : ℕ) (a : String)
    → total_of rows t < u128_mod
    → f a < u128_mod
    → stored rows f a < u128_mod
stored_fits [] f t a fits h = h
stored_fits (row ∷ rows) f t a fits h =
    stored_fits rows (update row.address row.amount f) (t + row.amount) a fits
      (ground (arith, le-total_of rows (t + row.amount)))

module _ (h : Host) where
  abbrev pub IsFresh : Store h → Type 0
  IsFresh s =
      ((a : String) → h.balances_area.get a s.balances ≡ none)
      × ((o p : String) → h.allowances_area.get (o, p) s.allowances ≡ none)

  balance_at-written :
      (rows : List InitialBalance) (f : String → ℕ) (t : ℕ) (s : Store h)
      → total_of rows t < u128_mod
      → ((a : String) → balance_at h a s ≡ ok (f a))
      → (a : String) → balance_at h a (written h rows s) ≡ ok (stored rows f a)
  balance_at-written [] f t s fits h a = h a
  balance_at-written (row ∷ rows) f t s fits known a =
      let k = row.address in
      balance_at-written rows (update k row.amount f) (t + row.amount)
        (record s { balances = h.balances_area.set k (to_be_bytes row.amount) s.balances }) fits
        (λ b.
          unfold balance_at in
          ground (
            arith,
            h.balances_area.get-set k b (to_be_bytes row.amount) s.balances,
            le-total_of rows (t + row.amount),
            bytes_to_u128-to_be_bytes row.amount,
            known b,
          ))
        a

  allowances-written :
      (rows : List InitialBalance) (s : Store h) → (written h rows s).allowances ≡ s.allowances
  allowances-written [] s = refl
  allowances-written (row ∷ rows) s = allowances-written rows _

module _ (h : Host) (msg : InstantiateMsg) (s : Store h) (bytes : Bytes) where
  abbrev pub begun_ledger : Ledger
  begun_ledger = record {
    balance = stored msg.initial_balances (λ _. 0);
    allowance = λ _ _. 0;
    supply = total_of msg.initial_balances 0;
  }

  pub begun-Represents :
      total_of msg.initial_balances 0 < u128_mod
      → IsFresh h s
      → Represents h (begun h msg bytes s) begun_ledger
  begun-Represents fits fresh = record {
    balances =
        unfold balance_at in
        balance_at-written h msg.initial_balances (λ _. 0) 0 s fits
          (λ a. unfold balance_at in rw (fresh.0 a));
    balance_fits = λ a. stored_fits msg.initial_balances (λ _. 0) 0 a fits (omega arith);
    allowances =
        λ o p. unfold allowance_at in rw (allowances-written h msg.initial_balances s, fresh.1 o p);
    allowance_fits = λ o p. omega arith;
    supply =
        unfold supply_at in
        ground (
          arith,
          h.config_area.get-set key_total_supply key_total_supply
              (to_be_bytes (total_of msg.initial_balances 0))
              (h.config_area.set key_constants bytes (written h msg.initial_balances s).config),
          bytes_to_u128-to_be_bytes (total_of msg.initial_balances 0) fits,
        );
    supply_fits = fits;
  }

  -- From a fresh storage an acceptable message, whose constants can be encoded and whose addresses are
  -- distinct, leaves a sound state.
  pub instantiate-IsSound :
      h.to_vec (constants_of msg) ≡ ok bytes
      → IsAcceptable msg
      → AllDistinct (addresses msg.initial_balances)
      → IsFresh h s
      → IsSound h (instantiate h msg s).1
  instantiate-IsSound e a distinct fresh = rw (instantiate_acceptable h msg s bytes e a) (record {
    ledger = begun_ledger;
    represents = begun-Represents a.supply_fits fresh;
    backed =
        stored-IsTotal msg.initial_balances (λ _. 0) 0 distinct (λ b here. refl) (no_names 0 refl);
  })

sum_over-zero : (f : String → ℕ) (xs : List String) → ((b : String) → f b ≡ 0) → sum_over f xs ≡ 0
sum_over-zero f [] h = refl
sum_over-zero f (x ∷ xs) h = omega (arith, h x, sum_over-zero f xs h)

-- Where one name alone has a number, that number is the total.
total_of_single :
    (f : String → ℕ) (a : String) (t : ℕ)
    → ((b : String) → update a 0 f b ≡ 0)
    → IsTotal f t
    → t ≡ f a
total_of_single f a t alone h =
    let le = IsTotal-le f a t h in
    let rest = IsTotal-update f a 0 t (t - f a) (omega arith) h in
    omega (arith, rest.summed, sum_over-zero (update a 0 f) rest.names alone, le)

-- Where a message has two rows, both for one address and the first with an amount, the state that it
-- leaves when it is accepted on a fresh storage is not sound: the supply counts both rows, and the
-- balance is the second alone.
pub instantiate_duplicate :
    (h : Host) (msg : InstantiateMsg) (s : Store h) (bytes : Bytes) (a : String) (x y : ℕ)
    → msg.initial_balances
      ≡ record { address = a; amount = x } ∷ record { address = a; amount = y } ∷ []
    → 0 < x
    → h.to_vec (constants_of msg) ≡ ok bytes
    → IsAcceptable msg
    → IsFresh h s
    → ¬ IsSound h (instantiate h msg s).1
instantiate_duplicate h msg s bytes a x y rows pos e ok_msg fresh sound =
    let l = sound.ledger in
    let found = rw (instantiate_acceptable h msg s bytes e ok_msg) at sound.represents in
    let stored_ones = begun-Represents h msg s bytes ok_msg.supply_fits fresh in
    let same : (b : String) → l.balance b ≡ stored msg.initial_balances (λ _. 0) b =
      λ b. cc (found.balances b, stored_ones.balances b) in
    let supply : l.supply ≡ total_of msg.initial_balances 0 =
      cc (found.supply, stored_ones.supply) in
    let single : l.supply ≡ l.balance a =
      total_of_single l.balance a l.supply
        (λ b. ground (arith, same b, ap (λ rs. stored rs (λ _. 0) b) rows, eq_iff a b))
        sound.backed in
    let second : l.balance a ≡ y =
      ground (arith, same a, ap (λ rs. stored rs (λ _. 0) a) rows, eq_iff a a) in
    let both : total_of msg.initial_balances 0 ≡ 0 + x + y = ap (λ rs. total_of rs 0) rows in
    omega arith
