-- ===== src/Token/Answers.antt =====
-- What `query` of contracts/token(erc20)/src/contract.rs answers, against the ledger.
use shard_token.Common.{◌≡◌, arith}
use shard_token.Common.Outcome.{Outcome, map_err, and_then, Outcome-cases, known, failed, aborted}
use shard_token.Token.Msg.{QueryMsg, ContractError, std, balance_response, allowance_response}
use shard_token.Token.Store.{Host, Store}
use shard_token.Token.Contract.{query}
use shard_token.Token.Ledger.{Ledger, checked_address}
use shard_token.Token.Represents.{Represents}

module _ (h : Host) where
  -- The answer that the ledger gives, encoded.
  abbrev pub answered : Ledger → QueryMsg → Outcome ContractError h.Binary
  answered l (QueryMsg.balance address) =
      and_then (checked_address h.addr_validate address)
        λ key. map_err std (h.to_binary (balance_response (l.balance key)))
  answered l (QueryMsg.allowance owner spender) =
      and_then (checked_address h.addr_validate owner) λ o.
        and_then (checked_address h.addr_validate spender)
          λ p. map_err std (h.to_binary (allowance_response (l.allowance o p)))

-- On a storage that stands for a ledger every query answers what the ledger says, or fails as the
-- checks of its addresses or the encoder do, and leaves the storage as it is.
pub query-answered :
    (h : Host) (s : Store h) (l : Ledger) (msg : QueryMsg)
    → Represents h s l
    → query h msg s ≡ (answered h l msg, s)
unfolding query
query-answered h s l (QueryMsg.balance address) r = elim (Outcome-cases (h.addr_validate address)) [
  | known key e ↦ ground (arith, r.balances key)
  | failed f e ↦ ground arith
  | aborted e ↦ ground arith
]
query-answered h s l (QueryMsg.allowance owner spender) r =
    elim (Outcome-cases (h.addr_validate owner)) [
      | known o e ↦ elim (Outcome-cases (h.addr_validate spender)) [
        | known p e' ↦ ground (arith, r.allowances o p)
        | failed f e' ↦ ground arith
        | aborted e' ↦ ground arith
      ]
      | failed f e ↦ ground arith
      | aborted e ↦ ground arith
    ]
