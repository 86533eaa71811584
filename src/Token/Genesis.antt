-- ===== src/Token/Genesis.antt =====
-- What `instantiate` accepts and what it stores, contracts/token(erc20)/src/contract.rs.
pub mod Sound
use shard_token.Common.{
  ℕ, ◌+◌, ◌<◌, ◌≤◌, String, ◌≡◌, ◌≢◌, ◌↔◌, refl, ltb, ltb→le, ltb→lt, lt→ltb, arith, Bool-cases,
  inl, inr, eq_iff, List, [], ◌∷◌, Bool, true, false, length, some, none, Option,
}
use shard_token.Common.Outcome.{
  Outcome, ok, err, panic, Outcome-cases, known, failed, aborted, map_err,
}
use shard_token.Common.Sums.{update, IsTotal, IsTotal-update, IsTotal-le, AllDistinct, contains}
use shard_token.Common.Words.{Bytes, u128_mod, to_be_bytes}
use shard_token.Platform.Errors.{StdError}
use shard_token.Platform.Storage.{string_eq, pair_eq}
use shard_token.Platform.Messages.{Response, empty_response}
use shard_token.Token.Msg.{
  InitialBalance, InstantiateMsg, Constants, ContractError, std, name_wrong_format,
  ticker_wrong_symbol_format, decimals_exceeded,
}
use shard_token.Token.Store.{Host, Store, balance_at, allowance_at, key_constants, key_total_supply}
use shard_token.Token.Contract.{
  is_valid_name, is_valid_symbol, all_upper, store_balances, instantiate,
}

-- The amounts of the rows, added to `total`.
abbrev pub total_of : List InitialBalance → ℕ → ℕ
total_of [] total = total
total_of (row ∷ rows) total = total_of rows (total + row.amount)

abbrev pub stored : List InitialBalance → (String → ℕ) → String → ℕ
stored [] f = f
stored (row ∷ rows) f = stored rows (update row.address row.amount f)

pub le-total_of : (rows : List InitialBalance) (total : ℕ) → total ≤ total_of rows total
le-total_of [] total = omega arith
le-total_of (row ∷ rows) total = omega (arith, le-total_of rows (total + row.amount))

module _ (h : Host) where
  abbrev pub written : List InitialBalance → Store h → Store h
  written [] s = s
  written (row ∷ rows) s =
      written rows (record s {
        balances = h.balances_area.set row.address (to_be_bytes row.amount) s.balances;
      })

  -- The loop stores each row, and aborts exactly where the amounts together do not fit.
  pub store_balances_fits :
      (rows : List InitialBalance) (total : ℕ) (s : Store h)
      → total_of rows total < u128_mod
      → store_balances h rows total s ≡ (ok (total_of rows total), written rows s)
  unfolding store_balances
  store_balances_fits [] total s fits = refl
  store_balances_fits (row ∷ rows) total s fits = ground (
    arith,
    le-total_of rows (total + row.amount),
    store_balances_fits rows (total + row.amount) (record s {
      balances = h.balances_area.set row.address (to_be_bytes row.amount) s.balances;
    }),
  )

  pub store_balances_overflow :
      (rows : List InitialBalance) (total : ℕ) (s : Store h)
      → total < u128_mod
      → u128_mod ≤ total_of rows total
      → (store_balances h rows total s).0 ≡ panic
  unfolding store_balances
  store_balances_overflow [] total s fits over = absurd (omega arith)
  store_balances_overflow (row ∷ rows) total s fits over = ground (
    arith,
    store_balances_overflow rows (total + row.amount) (record s {
      balances = h.balances_area.set row.address (to_be_bytes row.amount) s.balances;
    }),
  )

-- What the error messages ask of a name, a ticker symbol and the decimals.
abbrev pub IsUpper : Bytes → Type 0
IsUpper [] = Unit
IsUpper (byte ∷ rest) = (65 ≤ byte) × (byte ≤ 90) × IsUpper rest

pub all_upper_iff : (symbol : Bytes) → (all_upper symbol ≡ true) ↔ IsUpper symbol
all_upper_iff [] = (λ e. tt, λ u. refl)
all_upper_iff (byte ∷ rest) =
    let ih = all_upper_iff rest in (λ e. ground (arith, ih.0), λ u. ground (arith, ih.1 u.2))

pub record IsAcceptable (msg : InstantiateMsg) : Type 0 where
  pub name_from : 3 ≤ length msg.name
  pub name_to : length msg.name ≤ 30
  pub symbol_from : 3 ≤ length msg.symbol
  pub symbol_to : length msg.symbol ≤ 6
  pub symbol_upper : IsUpper msg.symbol
  pub decimals_to : msg.decimals ≤ 18
  pub supply_fits : total_of msg.initial_balances 0 < u128_mod

abbrev pub constants_of : InstantiateMsg → Constants
constants_of msg = record { name = msg.name; symbol = msg.symbol; decimals = msg.decimals }

-- the storage that a successful `instantiate` leaves
abbrev pub begun : (h : Host) → InstantiateMsg → Bytes → Store h → Store h
begun h msg bytes s =
    let s' = written h msg.initial_balances s in
    record s' {
      config =
          h.config_area.set key_total_supply (to_be_bytes (total_of msg.initial_balances 0))
            (h.config_area.set key_constants bytes s'.config);
    }

module _ (h : Host) (msg : InstantiateMsg) (s : Store h) where
  -- An acceptable message whose constants can be encoded is accepted, and leaves the rows, the
  -- constants and the total.
  pub instantiate_acceptable :
      (bytes : Bytes)
      → h.to_vec (constants_of msg) ≡ ok bytes
      → IsAcceptable msg
      → instantiate h msg s ≡ (ok empty_response, begun h msg bytes s)
  unfolding instantiate
  instantiate_acceptable bytes e a =
      let upper = (all_upper_iff msg.symbol).1 a.symbol_upper in
      ground (arith, store_balances_fits h msg.initial_balances 0 s a.supply_fits)

  -- A message that is accepted is acceptable: its name, symbol, decimals and total are in range.
  pub accepted-IsAcceptable :
      (answer : Response h.Binary) → (instantiate h msg s).0 ≡ ok answer → IsAcceptable msg
  unfolding instantiate
  accepted-IsAcceptable answer e =
      elim (Bool-cases (ltb (total_of msg.initial_balances 0) u128_mod)) [
        | inl fits ↦ ground (
          arith,
          store_balances_fits h msg.initial_balances 0 s (ltb→lt _ _ fits),
          (all_upper_iff msg.symbol).0,
        )
        | inr over ↦ ground (
          arith,
          store_balances_overflow h msg.initial_balances 0 s (omega arith) (ltb→le _ _ over),
        )
      ]
