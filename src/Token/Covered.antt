-- ===== src/Token/Covered.antt =====
-- When a transfer is made: `try_transfer` of
-- contracts/token(erc20)/src/contract.rs.
use shard_token.Common.{
  ℕ, ◌+◌, ◌-◌, ◌≤◌, ◌<◌, String, false, ◌≡◌, refl, ap, arith, ◌==◌, eq_iff, eq_refl,
}
use shard_token.Common.Outcome.{Outcome, ok, err, panic}
use shard_token.Common.Sums.{update, IsTotal-le}
use shard_token.Common.Words.{u128_mod}
use shard_token.Platform.Messages.{MessageInfo, Response}
use shard_token.Token.Msg.{ExecuteMsg, ContractError}
use shard_token.Token.Store.{Host, Store}
use shard_token.Token.Contract.{execute}
use shard_token.Token.Ledger.{Ledger, move}
use shard_token.Token.Represents.{Represents}
use shard_token.Token.Refines.{Implements, execute-Implements}
use shard_token.Token.Supply.{IsSound, moved-IsTotal}

-- A transfer that was made: the amount left one account and reached the other.
pub record Transferred (h : Host) (l : Ledger) (from to : String) (amount : ℕ) (msg : ExecuteMsg)
    (s : Store h) : Type 0 where
  pub answer : Response h.Binary
  pub after : Store h
  pub accepted : execute h (record { sender = from }) msg s ≡ (ok answer, after)
  pub ledger : Ledger
  pub represents : Represents h after ledger
  pub taken : ledger.balance from + amount ≡ l.balance from
  pub given : ledger.balance to ≡ l.balance to + amount
  pub others :
      (a : String) → (from == a) ≡ false → (to == a) ≡ false → ledger.balance a ≡ l.balance a
  pub same_supply : ledger.supply ≡ l.supply

-- the balances after a transfer
abbrev moved : Ledger → String → String → ℕ → Ledger
moved l from to amount =
    let paid = update from (l.balance from - amount) l.balance in
    record l { balance = update to (paid to + amount) paid }

move_ends :
    (from to : String) (amount : ℕ) (l : Ledger)
    → amount ≤ l.balance from
    → update from (l.balance from - amount) l.balance to + amount < u128_mod
    → move from to amount l ≡ ok (moved l from to amount)
move_ends from to amount l enough room = ground arith

made :
    (h : Host) {A : Type 0} (l : Ledger) (q : Outcome ContractError A) (s : Store h)
    → Implements h (ok l) (q, s)
    → (a : A) × (q ≡ ok a) × Represents h s l
made h l (ok a) s i = (a, refl, i)
made h l (err e) s i = absurd i
made h l panic s i = absurd i

-- In a sound state a transfer of an amount that the sender's balance covers, to another account, is
-- accepted: the amount reaches the recipient, and no other balance and not the supply changes.
pub transfer-Transferred :
    (h : Host) (s : Store h) (sound : IsSound h s) (from recipient to : String) (amount : ℕ)
    → h.addr_validate recipient ≡ ok to
    → (from == to) ≡ false
    → amount ≤ sound.ledger.balance from
    → Transferred h sound.ledger from to amount (ExecuteMsg.transfer recipient amount) s
transfer-Transferred h s sound from recipient to amount known apart enough =
    let l = sound.ledger in
    let msg = ExecuteMsg.transfer recipient amount in
    let info : MessageInfo = record { sender = from } in
    let whole =
      IsTotal-le _ to l.supply
        (moved-IsTotal l.balance from to amount l.supply enough sound.backed) in
    let room : update from (l.balance from - amount) l.balance to + amount < u128_mod =
      omega (arith, rw (eq_refl to) at whole, sound.represents.supply_fits) in
    let step = move_ends from to amount l enough room in
    let (answer, is_ok, after) =
      made h (moved l from to amount) (execute h info msg s).0 (execute h info msg s).1
        (rw (known, step) at (execute-Implements h s l info msg sound.represents tt)) in
    record {
      answer = answer;
      after = (execute h info msg s).1;
      accepted = ap (λ o. (o, (execute h info msg s).1)) is_ok;
      ledger = moved l from to amount;
      represents = after;
      taken = ground (arith, enough, apart, eq_refl from, eq_iff from to, eq_iff to from);
      given = ground (arith, apart, eq_refl to);
      others = λ a not_from not_to. ground (arith, not_from, not_to);
      same_supply = refl;
    }
