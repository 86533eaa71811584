-- ===== src/Token/Supply.antt =====
-- The total supply of the token against the sum of its balances, message after message:
-- contracts/token(erc20)/src/contract.rs.
use shard_token.Common.{
  ℕ, ◌+◌, ◌-◌, ◌<◌, ◌≤◌, String, ◌≡◌, ◌≢◌, ltb, ltb→le, arith, Bool-cases, inl, inr, eq_refl,
}
use shard_token.Common.Outcome.{Outcome, ok, err, panic, Outcome-cases, known, failed, aborted}
use shard_token.Common.Sums.{update, IsTotal, IsTotal-update, IsTotal-le}
use shard_token.Common.Words.{u128_mod}
use shard_token.Platform.Errors.{StdError}
use shard_token.Platform.Messages.{MessageInfo, Response}
use shard_token.Token.Msg.{ExecuteMsg, ContractError}
use shard_token.Token.Store.{Host, Store}
use shard_token.Token.Contract.{execute}
use shard_token.Token.Ledger.{Ledger, move, move_from, burn, apply, set_allowance}
use shard_token.Token.Represents.{Represents}
use shard_token.Token.Refines.{Implements, AmountFits, execute-Implements}

abbrev pub IsBacked : Ledger → Type 0
IsBacked l = IsTotal l.balance l.supply

-- What a step of the ledger may end in: never an abort, and if with a ledger, with a backed one.
abbrev pub Keeps : Outcome ContractError Ledger → Type 0
Keeps (ok l) = IsBacked l
Keeps (err _) = Unit
Keeps panic = ⊥

pub moved-IsTotal :
    (f : String → ℕ) (from to : String) (amount t : ℕ)
    → amount ≤ f from
    → IsTotal f t
    → IsTotal
        (update to (update from (f from - amount) f to + amount) (update from (f from - amount) f))
        t
moved-IsTotal f from to amount t enough h =
    let left = f from - amount in
    let paid = update from left f in
    let short : IsTotal paid (t - amount) =
      IsTotal-update f from left t (t - amount) (omega (arith, IsTotal-le f from t h)) h in
    IsTotal-update paid to (paid to + amount) (t - amount) t (omega (arith, IsTotal-le f from t h))
      short

move-Keeps :
    (from to : String) (amount : ℕ) (l : Ledger)
    → l.supply < u128_mod
    → IsBacked l
    → Keeps (move from to amount l)
move-Keeps from to amount l fits h = elim (Bool-cases (ltb (l.balance from) amount)) [
  | inl short ↦ ground arith
  | inr enough ↦
      let f = l.balance in
      let le : amount ≤ f from = ltb→le _ _ enough in
      let after = moved-IsTotal f from to amount l.supply le h in
      let room = IsTotal-le _ to l.supply after in ground (arith, after, room, eq_refl to)
]

burn-Keeps :
    (account : String) (amount : ℕ) (l : Ledger) → IsBacked l → Keeps (burn account amount l)
burn-Keeps account amount l h = elim (Bool-cases (ltb (l.balance account) amount)) [
  | inl short ↦ ground arith
  | inr enough ↦
      let le = IsTotal-le l.balance account l.supply h in
      let rest =
        IsTotal-update l.balance account (l.balance account - amount) l.supply (l.supply - amount)
          (omega (arith, ltb→le _ _ enough)) h in
      ground (arith, le, rest)
]

move_from-Keeps :
    (spender owner to : String) (amount : ℕ) (l : Ledger)
    → l.supply < u128_mod
    → IsBacked l
    → Keeps (move_from spender owner to amount l)
move_from-Keeps spender owner to amount l fits h =
    elim (Bool-cases (ltb (l.allowance owner spender) amount)) [
      | inl short ↦ ground arith
      | inr enough ↦ ground (
        arith,
        move-Keeps owner to amount
            (record l {
              allowance =
                  set_allowance owner spender (l.allowance owner spender - amount) l.allowance;
            })
            fits h,
      )
    ]

-- The check of addresses answers, and does not abort.
abbrev pub Answers : (String → Outcome StdError String) → Type 0
Answers check = (a : String) → check a ≢ panic

apply-Keeps :
    (check : String → Outcome StdError String) (sender : String) (msg : ExecuteMsg) (l : Ledger)
    → Answers check
    → l.supply < u128_mod
    → IsBacked l
    → Keeps (apply check sender msg l)
apply-Keeps check sender (ExecuteMsg.approve spender amount) l total fits h =
    ground (arith, total spender)
apply-Keeps check sender (ExecuteMsg.transfer recipient amount) l total fits h =
    elim (Outcome-cases (check recipient)) [
      | known to e ↦ rw e (move-Keeps sender to amount l fits h)
      | failed f e ↦ ground arith
      | aborted e ↦ absurd (total recipient e)
    ]
apply-Keeps check sender (ExecuteMsg.transfer_from owner recipient amount) l total fits h =
    elim (Outcome-cases (check owner)) [
      | known from e ↦ elim (Outcome-cases (check recipient)) [
        | known to e' ↦ rw (e, e') (move_from-Keeps sender from to amount l fits h)
        | failed f e' ↦ ground arith
        | aborted e' ↦ absurd (total recipient e')
      ]
      | failed f e ↦ ground arith
      | aborted e ↦ absurd (total owner e)
    ]
apply-Keeps check sender (ExecuteMsg.burn amount) l total fits h = burn-Keeps sender amount l h

-- The storage stands for a ledger whose supply is the sum of its balances.
pub record IsSound (h : Host) (s : Store h) : Type 0 where
  pub ledger : Ledger
  pub represents : Represents h s ledger
  pub backed : IsBacked ledger

-- How a call may end in a sound state: in a sound state or with an error, but not in an abort.
abbrev pub EndsSound : (h : Host) {A : Type 0} → Outcome ContractError A × Store h → Type 0
EndsSound h (ok _, s) = IsSound h s
EndsSound h (err _, _) = Unit
EndsSound h (panic, _) = ⊥

ends_sound :
    (h : Host) {A : Type 0} (o : Outcome ContractError Ledger) (q : Outcome ContractError A)
    (s : Store h)
    → Implements h o (q, s)
    → Keeps o
    → EndsSound h (q, s)
ends_sound h (ok l) (ok a) s i k = record { ledger = l; represents = i; backed = k }
ends_sound h (ok l) (err e) s i k = tt
ends_sound h (ok l) panic s i k = i
ends_sound h (err e) (ok a) s i k = absurd i
ends_sound h (err e) (err e') s i k = tt
ends_sound h (err e) panic s i k = i
ends_sound h panic q s i k = absurd k

-- In a sound state no message aborts, and a message that succeeds leaves a sound state, where the
-- check of addresses does not abort and an approved amount fits a `u128`.
pub execute-EndsSound :
    (h : Host) (s : Store h) (info : MessageInfo) (msg : ExecuteMsg)
    → Answers h.addr_validate
    → AmountFits msg
    → IsSound h s
    → EndsSound h (execute h info msg s)
execute-EndsSound h s info msg total fits sound =
    let (q, s') = execute h info msg s in
    ends_sound h (apply h.addr_validate info.sender msg sound.ledger) q s'
      (execute-Implements h s sound.ledger info msg sound.represents fits)
      (apply-Keeps h.addr_validate info.sender msg sound.ledger total sound.represents.supply_fits
        sound.backed)

-- One message that a block accepts, and a history of them.
pub data Step (h : Host) : Store h → Store h → Type 0 where
  accepted :
      {s : Store h} (s' : Store h) (info : MessageInfo) (msg : ExecuteMsg)
      (answer : Response h.Binary)
      → AmountFits msg
      → execute h info msg s ≡ (ok answer, s')
      → Step h s s'

pub data Reach (h : Host) (s : Store h) : Store h → Type 0 where
  here : Reach h s s
  next : {t u : Store h} → Reach h s t → Step h t u → Reach h s u

-- From a sound state every history of accepted messages leads to a sound state, where the check of
-- addresses does not abort.
pub Reach-IsSound :
    (h : Host) {s t : Store h} → Answers h.addr_validate → Reach h s t → IsSound h s → IsSound h t
Reach-IsSound h total here sound = sound
Reach-IsSound h total (next r (accepted {s} s' info msg answer fits e)) sound =
    rw e at (execute-EndsSound h s info msg total fits (Reach-IsSound h total r sound))
