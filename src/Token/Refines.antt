-- ===== src/Token/Refines.antt =====
-- The handlers of contracts/token(erc20)/src/contract.rs against the ledger.
use shard_token.Common.{
  [], ◌∷◌, ◌-◌, ◌+◌, ltb→lt, Bool-cases, inl, inr, ℕ, ◌<◌, String, ◌≡◌, ltb, arith,
}
use shard_token.Common.Outcome.{
  Outcome, ok, err, panic, lift, pure, ◌>>◌, known, failed, aborted, Outcome-cases,
}
use shard_token.Common.Sums.{update}
use shard_token.Common.Words.{u128_mod, to_be_bytes}
use shard_token.Platform.Messages.{MessageInfo, Response, attr, text}
use shard_token.Token.Msg.{ExecuteMsg, ContractError}
use shard_token.Token.Store.{Host, Store}
use shard_token.Token.Contract.{
  perform_transfer, try_transfer, try_transfer_from, try_approve, try_burn, execute,
}
use shard_token.Token.Ledger.{Ledger, move, move_from, apply, set_allowance}
use shard_token.Token.Represents.{
  Represents, write_balance-Represents, write_allowance-Represents, write_supply-Represents,
}

-- A call ends as the ledger's step does: with the new ledger in storage, with the same error, or
-- by an abort.
abbrev pub Implements :
    (h : Host) {A : Type 0}
    → Outcome ContractError Ledger
    → Outcome ContractError A × Store h
    → Type 0
Implements h (ok l) (ok _, s) = Represents h s l
Implements h (err e) (err e', _) = e ≡ e'
Implements h panic (panic, _) = Unit
Implements h _ _ = ⊥

-- What the handlers answer after the last write plays no part.
Implements-answer :
    (h : Host) {A B : Type 0} (o : Outcome ContractError Ledger) (q : Outcome ContractError A)
    (s : Store h) (b : B)
    → Implements h o (q, s)
    → Implements h o ((lift q >> pure b) s)
Implements-answer h (ok l) (ok a) s b i = i
Implements-answer h (ok l) (err e) s b i = i
Implements-answer h (ok l) panic s b i = i
Implements-answer h (err e) (ok a) s b i = i
Implements-answer h (err e) (err e') s b i = i
Implements-answer h (err e) panic s b i = i
Implements-answer h panic (ok a) s b i = i
Implements-answer h panic (err e) s b i = i
Implements-answer h panic panic s b i = i

-- the response of `try_transfer_from`
abbrev transferred : (h : Host) → MessageInfo → String → String → Response h.Binary
transferred h info owner recipient = record {
  messages = [];
  attributes =
      attr "action" (text "transfer_from")
      ∷ attr "spender" (text info.sender)
      ∷ attr "sender" (text owner)
      ∷ attr "recipient" (text recipient)
      ∷ [];
}

module _ (h : Host) {s : Store h} {l : Ledger} (r : Represents h s l) where
  perform_transfer-Implements :
      (from to : String) (amount : ℕ)
      → Implements h (move from to amount l) (perform_transfer h from to amount s)
  unfolding perform_transfer
  perform_transfer-Implements from to amount = elim (Bool-cases (ltb (l.balance from) amount)) [
    | inl short ↦ ground (arith, r.balances from)
    | inr enough ↦
        let left = l.balance from - amount in
        let paid = write_balance-Represents h r from left (omega (arith, r.balance_fits from)) in
        elim (Bool-cases (ltb (update from left l.balance to + amount) u128_mod)) [
          | inl room ↦
              let done =
                write_balance-Represents h paid to (update from left l.balance to + amount)
                  (ltb→lt _ _ room) in
              ground (arith, r.balances from, paid.balances to, done)
          | inr full ↦ ground (arith, r.balances from, paid.balances to)
        ]
  ]

module _ (h : Host) {s : Store h} {l : Ledger} (r : Represents h s l) where
  try_transfer-Implements :
      (info : MessageInfo) (recipient : String) (amount : ℕ)
      → Implements h
          (apply h.addr_validate info.sender (ExecuteMsg.transfer recipient amount) l)
          (try_transfer h info recipient amount s)
  unfolding try_transfer
  try_transfer-Implements info recipient amount = elim (Outcome-cases (h.addr_validate recipient)) [
    | known to e ↦
        let (q, s') = perform_transfer h info.sender to amount s in
        rw e (
          Implements-answer h (move info.sender to amount l) q s' _
            (perform_transfer-Implements h r info.sender to amount))
    | failed e' e ↦ ground arith
    | aborted e ↦ ground arith
  ]

  transfer_owned-Implements :
      (info : MessageInfo) (owner recipient from to : String) (amount : ℕ)
      → h.addr_validate owner ≡ ok from
      → h.addr_validate recipient ≡ ok to
      → Implements h
          (move_from info.sender from to amount l)
          (try_transfer_from h info owner recipient amount s)
  unfolding try_transfer_from
  transfer_owned-Implements info owner recipient from to amount known_from known_to =
      let allowed = l.allowance from info.sender in
      elim (Bool-cases (ltb allowed amount)) [
        | inl short ↦ ground (arith, r.allowances from info.sender)
        | inr enough ↦
            let left = allowed - amount in
            let fits : left < u128_mod = omega (arith, r.allowance_fits from info.sender) in
            let spent = write_allowance-Represents h r from info.sender left fits in
            let l' : Ledger = record l {
              allowance = set_allowance from info.sender left l.allowance;
            } in
            let (q, s') = perform_transfer h from to amount (record s {
              allowances =
                  h.allowances_area.set (from, info.sender) (to_be_bytes left) s.allowances;
            }) in
            let done =
              Implements-answer h (move from to amount l') q s' (transferred h info owner recipient)
                (perform_transfer-Implements h spent from to amount) in
            ground (arith, r.allowances from info.sender, done)
      ]

  try_approve-Implements :
      (info : MessageInfo) (spender : String) (amount : ℕ)
      → amount < u128_mod
      → Implements h
          (apply h.addr_validate info.sender (ExecuteMsg.approve spender amount) l)
          (try_approve h info spender amount s)
  unfolding try_approve
  try_approve-Implements info spender amount fits = elim (Outcome-cases (h.addr_validate spender)) [
    | known to e ↦
        let done = write_allowance-Represents h r info.sender to amount fits in ground (arith, done)
    | failed e' e ↦ ground arith
    | aborted e ↦ ground arith
  ]

  try_burn-Implements :
      (info : MessageInfo) (amount : ℕ)
      → Implements h
          (apply h.addr_validate info.sender (ExecuteMsg.burn amount) l)
          (try_burn h info amount s)
  unfolding try_burn
  try_burn-Implements info amount =
      let account = info.sender in
      elim (Bool-cases (ltb (l.balance account) amount)) [
        | inl short ↦ ground (arith, r.balances account)
        | inr enough ↦
            let left = l.balance account - amount in
            let paid =
              write_balance-Represents h r account left (omega (arith, r.balance_fits account)) in
            let done =
              write_supply-Represents h paid (l.supply - amount) (omega (arith, r.supply_fits)) in
            ground (arith, r.balances account, paid.supply, done)
      ]

  try_transfer_from-Implements :
      (info : MessageInfo) (owner recipient : String) (amount : ℕ)
      → Implements h
          (apply h.addr_validate info.sender (ExecuteMsg.transfer_from owner recipient amount) l)
          (try_transfer_from h info owner recipient amount s)
  try_transfer_from-Implements info owner recipient amount =
      elim (Outcome-cases (h.addr_validate owner)) [
        | known from e ↦ elim (Outcome-cases (h.addr_validate recipient)) [
          | known to e' ↦
              let done = transfer_owned-Implements info owner recipient from to amount e e' in
              rw (e, e') done
          | failed f e' ↦ unfold try_transfer_from in ground arith
          | aborted e' ↦ unfold try_transfer_from in ground arith
        ]
        | failed f e ↦ unfold try_transfer_from in ground arith
        | aborted e ↦ unfold try_transfer_from in ground arith
      ]

-- The amount of an approval is a `Uint128`.
abbrev pub AmountFits : ExecuteMsg → Type 0
AmountFits (ExecuteMsg.approve _ amount) = amount < u128_mod
AmountFits _ = Unit

-- Where the bytes in storage stand for a ledger and an approved amount fits a `u128`, every message ends as the step of the ledger
-- does: with success, and then the bytes stand for the new ledger, or with the same error, or by
-- an abort in both.
pub execute-Implements :
    (h : Host) (s : Store h) (l : Ledger) (info : MessageInfo) (msg : ExecuteMsg)
    → Represents h s l
    → AmountFits msg
    → Implements h (apply h.addr_validate info.sender msg l) (execute h info msg s)
unfolding execute
execute-Implements h s l info (ExecuteMsg.approve spender amount) r fits =
    try_approve-Implements h r info spender amount fits
execute-Implements h s l info (ExecuteMsg.transfer recipient amount) r fits =
    try_transfer-Implements h r info recipient amount
execute-Implements h s l info (ExecuteMsg.transfer_from owner recipient amount) r fits =
    try_transfer_from-Implements h r info owner recipient amount
execute-Implements h s l info (ExecuteMsg.burn amount) r fits = try_burn-Implements h r info amount
