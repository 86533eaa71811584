-- ===== src/Token/Ledger.antt =====
-- What the token contract promises, with no storage and no bytes: balances, allowances and the
-- total supply as numbers, and each message as a function on them.
use shard_token.Common.{ℕ, String, ◌&&◌, ◌==◌, ltb, if◌then◌else◌}
use shard_token.Common.Outcome.{Outcome, ok, err, map_err, and_then}
use shard_token.Common.Sums.{update}
use shard_token.Common.Words.{add_u128, sub_word}
use shard_token.Platform.Errors.{StdError}
use shard_token.Token.Msg.{
  ExecuteMsg, ContractError, std, insufficient_allowance, insufficient_funds,
}

pub record Ledger : Type 0 where
  pub balance : String → ℕ
  -- by owner and spender
  pub allowance : String → String → ℕ
  pub supply : ℕ

-- a balance or an allowance falls by the amount, or the error names both
abbrev pub taken : (ℕ → ℕ → ContractError) → ℕ → ℕ → Outcome ContractError ℕ
taken short available amount =
    if ltb available amount then err (short available amount) else sub_word available amount

abbrev pub set_allowance : String → String → ℕ → (String → String → ℕ) → String → String → ℕ
set_allowance owner spender amount f o p = if (owner == o) && (spender == p) then amount else f o p

-- `amount` leaves one account, and then reaches the other.
abbrev pub move : String → String → ℕ → Ledger → Outcome ContractError Ledger
move from to amount l = and_then (taken insufficient_funds (l.balance from) amount) λ left.
    let paid = update from left l.balance in
    and_then (add_u128 (paid to) amount) λ sum. ok (record l { balance = update to sum paid })

abbrev pub move_from : String → String → String → ℕ → Ledger → Outcome ContractError Ledger
move_from spender owner to amount l =
    and_then (taken insufficient_allowance (l.allowance owner spender) amount) λ left.
      move owner to amount (record l { allowance = set_allowance owner spender left l.allowance })

abbrev pub burn : String → ℕ → Ledger → Outcome ContractError Ledger
burn account amount l = and_then (taken insufficient_funds (l.balance account) amount) λ left.
    and_then (sub_word l.supply amount)
      λ rest. ok (record l { balance = update account left l.balance; supply = rest })

module _ (addr_validate : String → Outcome StdError String) where
  abbrev pub checked_address : String → Outcome ContractError String
  checked_address a = map_err std (addr_validate a)

  -- One message of `sender`.
  abbrev pub apply : String → ExecuteMsg → Ledger → Outcome ContractError Ledger
  apply sender (ExecuteMsg.approve spender amount) l =
      and_then (checked_address spender)
        λ to. ok (record l { allowance = set_allowance sender to amount l.allowance })
  apply sender (ExecuteMsg.transfer recipient amount) l =
      and_then (checked_address recipient) λ to. move sender to amount l
  apply sender (ExecuteMsg.transfer_from owner recipient amount) l =
      and_then (checked_address owner)
        λ from. and_then (checked_address recipient) λ to. move_from sender from to amount l
  apply sender (ExecuteMsg.burn amount) l = burn sender amount l
