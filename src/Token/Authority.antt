-- ===== src/Token/Authority.antt =====
-- Who may take from an account of the token, `execute` of contracts/token(erc20)/src/contract.rs.
use shard_token.Common.{
  ℕ, ◌+◌, ◌-◌, ◌≤◌, String, false, ◌≡◌, refl, arith, Bool-cases, inl, inr, ltb, ltb→le, ◌==◌,
  eq_iff, eq_refl, if◌then◌else◌,
}
use shard_token.Common.Outcome.{Outcome, ok, err, panic, Outcome-cases, known, failed, aborted}
use shard_token.Common.Sums.{update}
use shard_token.Common.Words.{u128_mod}
use shard_token.Platform.Errors.{StdError}
use shard_token.Platform.Messages.{MessageInfo, Response}
use shard_token.Token.Msg.{ExecuteMsg, ContractError}
use shard_token.Token.Store.{Host, Store}
use shard_token.Token.Contract.{execute}
use shard_token.Token.Ledger.{Ledger, move, move_from, burn, apply, set_allowance}
use shard_token.Token.Represents.{Represents}
use shard_token.Token.Refines.{Implements, AmountFits, execute-Implements}

-- What `sender` may have done to the accounts of others.
pub record Authorised (sender : String) (l l' : Ledger) : Type 0 where
  -- what left an account was taken off what its owner had allowed
  pub spent :
      (a : String)
      → (sender == a) ≡ false
      → l.balance a + l'.allowance a sender ≤ l'.balance a + l.allowance a sender
  -- no owner's allowance to anyone is raised by another
  pub granted : (a p : String) → (sender == a) ≡ false → l'.allowance a p ≤ l.allowance a p
  -- and that to a third is as it was
  pub apart :
      (a p : String)
      → (sender == a) ≡ false
      → (sender == p) ≡ false
      → l'.allowance a p ≡ l.allowance a p

-- `amount` may leave one account, nothing leaves the others, and the allowances stay.
record Leaves (from : String) (amount : ℕ) (l l' : Ledger) : Type 0 where
  left : (a : String) → l.balance a ≤ l'.balance a + (if from == a then amount else 0)
  kept : l'.allowance ≡ l.allowance

moved_le :
    (f : String → ℕ) (from to : String) (amount : ℕ) (a : String)
    → amount ≤ f from
    → f a
      ≤ update to (update from (f from - amount) f to + amount) (update from (f from - amount) f) a
        + (if from == a then amount else 0)
moved_le f from to amount a enough = ground (arith, eq_iff from a, eq_iff to a, eq_iff from to)

move-Leaves :
    (from to : String) (amount : ℕ) (l l' : Ledger)
    → move from to amount l ≡ ok l'
    → Leaves from amount l l'
move-Leaves from to amount l l' e = elim (Bool-cases (ltb (l.balance from) amount)) [
  | inl short ↦ absurd (ground arith)
  | inr enough ↦
      let left = l.balance from - amount in
      let paid = update from left l.balance in
      let le : amount ≤ l.balance from = ltb→le _ _ enough in
      elim (Bool-cases (ltb (paid to + amount) u128_mod)) [
        | inl room ↦
            let done : l' ≡ record l { balance = update to (paid to + amount) paid } =
              ground arith in
            rw done (record { left = λ a. moved_le l.balance from to amount a le; kept = refl })
        | inr full ↦ absurd (ground arith)
      ]
]

-- Moving one's own changes no other account.
Leaves-Authorised :
    (sender : String) (amount : ℕ) (l l' : Ledger)
    → Leaves sender amount l l'
    → Authorised sender l l'
Leaves-Authorised sender amount l l' k = record {
  spent = λ a other. rw (k.kept) (omega (arith, rw other at (k.left a)));
  granted = λ a p other. rw (k.kept) (omega arith);
  apart = λ a p other third. rw (k.kept);
}

move_from-Authorised :
    (sender from to : String) (amount : ℕ) (l l' : Ledger)
    → move_from sender from to amount l ≡ ok l'
    → Authorised sender l l'
move_from-Authorised sender from to amount l l' e =
    elim (Bool-cases (ltb (l.allowance from sender) amount)) [
      | inl short ↦ absurd (ground arith)
      | inr enough ↦
          let rest = l.allowance from sender - amount in
          let le : amount ≤ l.allowance from sender = ltb→le _ _ enough in
          let l₁ : Ledger = record l { allowance = set_allowance from sender rest l.allowance } in
          let k = move-Leaves from to amount l₁ l' (ground (arith, e)) in
          record {
            spent = λ a other.
                rw (k.kept) (ground (arith, le, k.left a, eq_iff from a, eq_refl sender));
            granted = λ a p other. rw (k.kept) (ground (arith, le, eq_iff from a, eq_iff sender p));
            apart = λ a p other third. rw (k.kept) (ground (arith, eq_iff from a, third));
          }
    ]

burn-Authorised :
    (sender : String) (amount : ℕ) (l l' : Ledger)
    → burn sender amount l ≡ ok l'
    → Authorised sender l l'
burn-Authorised sender amount l l' e = elim (Bool-cases (ltb (l.balance sender) amount)) [
  | inl short ↦ absurd (ground arith)
  | inr enough ↦ elim (Bool-cases (ltb l.supply amount)) [
    | inl short ↦ absurd (ground arith)
    | inr _ ↦
        let done : l' ≡ record l {
          balance = update sender (l.balance sender - amount) l.balance;
          supply = l.supply - amount;
        } =
          ground arith in
        rw done (record {
          spent = λ a other. ground arith;
          granted = λ a p other. omega arith;
          apart = λ a p other third. refl;
        })
  ]
]

apply-Authorised :
    (check : String → Outcome StdError String) (sender : String) (msg : ExecuteMsg) (l l' : Ledger)
    → apply check sender msg l ≡ ok l'
    → Authorised sender l l'
apply-Authorised check sender (ExecuteMsg.approve spender amount) l l' e =
    elim (Outcome-cases (check spender)) [
      | known to e' ↦
          let done : l' ≡ record l { allowance = set_allowance sender to amount l.allowance } =
            ground arith in
          rw done (record {
            spent = λ a other. ground arith;
            granted = λ a p other. ground arith;
            apart = λ a p other third. ground arith;
          })
      | failed f e' ↦ absurd (ground arith)
      | aborted e' ↦ absurd (ground arith)
    ]
apply-Authorised check sender (ExecuteMsg.transfer recipient amount) l l' e =
    elim (Outcome-cases (check recipient)) [
      | known to e' ↦
          Leaves-Authorised sender amount l l' (move-Leaves sender to amount l l' (rw e' at e))
      | failed f e' ↦ absurd (ground arith)
      | aborted e' ↦ absurd (ground arith)
    ]
apply-Authorised check sender (ExecuteMsg.transfer_from owner recipient amount) l l' e =
    elim (Outcome-cases (check owner)) [
      | known from e₁ ↦ elim (Outcome-cases (check recipient)) [
        | known to e₂ ↦ move_from-Authorised sender from to amount l l' (rw (e₁, e₂) at e)
        | failed f e₂ ↦ absurd (ground arith)
        | aborted e₂ ↦ absurd (ground arith)
      ]
      | failed f e₁ ↦ absurd (ground arith)
      | aborted e₁ ↦ absurd (ground arith)
    ]
apply-Authorised check sender (ExecuteMsg.burn amount) l l' e = burn-Authorised sender amount l l' e

-- a ledger that the storage stands for after a call that succeeded
represented :
    (h : Host) {A : Type 0} (o : Outcome ContractError Ledger) (a : A) (s : Store h)
    → Implements h o (ok a, s)
    → (l' : Ledger) × (o ≡ ok l') × Represents h s l'
represented h (ok l') a s i = (l', refl, i)
represented h (err e) a s i = absurd i
represented h panic a s i = absurd i

-- Where a message of `sender` succeeds on a storage that stands for a ledger, an approved amount
-- fitting a `u128`, the new storage stands for a ledger in which what left any other account was
-- taken off the allowance of `sender`, no other owner's allowance was raised, and those to third
-- parties are as they were.
pub execute-Authorised :
    (h : Host) (s s' : Store h) (l : Ledger) (info : MessageInfo) (msg : ExecuteMsg)
    (r : Response h.Binary)
    → Represents h s l
    → AmountFits msg
    → execute h info msg s ≡ (ok r, s')
    → (l' : Ledger) × Represents h s' l' × Authorised info.sender l l'
execute-Authorised h s s' l info msg r k fits e =
    let o = apply h.addr_validate info.sender msg l in
    let (l', step, after) =
      represented h o r s' (rw e at (execute-Implements h s l info msg k fits)) in
    (l', after, apply-Authorised h.addr_validate info.sender msg l l' step)
