-- ===== src/Token/Tests/Spender.antt =====
-- A transfer by a spender, and a query, on a storage that stands for a ledger.
use shard_token.Common.{ℕ, ◌≡◌, refl, arith, ◌==◌, ◌&&◌, some, [], ◌∷◌, if◌then◌else◌}
use shard_token.Common.Outcome.{ok}
use shard_token.Common.Words.{be_bytes, be_value, from_be_bytes, to_be_bytes}
use shard_token.Platform.Messages.{Response, attr, text}
use shard_token.Platform.Storage.{string_eq, pair_eq}
use shard_token.Token.Msg.{ExecuteMsg, QueryMsg}
use shard_token.Token.Store.{Store, bytes_to_u128, balance_at, allowance_at}
use shard_token.Token.Contract.{execute, try_transfer_from, perform_transfer, query}
use shard_token.Token.Ledger.{Ledger, set_allowance}
use shard_token.Token.Genesis.Sound.{begun_ledger}
use shard_token.Token.Represents.{Represents, write_allowance-Represents}
use shard_token.Token.Authority.{Authorised, execute-Authorised}
use shard_token.Token.Answers.{answered, query-answered}
use shard_token.Token.Tests.{host, caller, empty, genesis, start, start-Represents}

-- alice allows bob 20
abbrev allowing : Store host
allowing = record start {
  allowances =
      λ k. if ("alice" == k.0) && ("bob" == k.1) then some (to_be_bytes 20) else start.allowances k;
}

abbrev ledger : Ledger
ledger =
    let l = begun_ledger host genesis empty (97 ∷ 98 ∷ 99 ∷ []) in
    record l { allowance = set_allowance "alice" "bob" 20 l.allowance }

allowing-Represents : Represents host allowing ledger
allowing-Represents =
    write_allowance-Represents host start-Represents "alice" "bob" 20 (omega arith)

-- bob sends 5 of them to carol
abbrev spent : Store host
spent = record allowing {
  allowances = λ k.
      if ("alice" == k.0) && ("bob" == k.1) then some (to_be_bytes 15) else allowing.allowances k;
  balances = λ k.
      if "carol" == k
      then some (to_be_bytes 5)
      else if "alice" == k
      then some (to_be_bytes 65)
      else allowing.balances k;
}

abbrev shown : Response ℕ
shown = record {
  messages = [];
  attributes =
      attr "action" (text "transfer_from")
      ∷ attr "spender" (text "bob")
      ∷ attr "sender" (text "alice")
      ∷ attr "recipient" (text "carol")
      ∷ [];
}

spends :
    execute host (caller "bob") (ExecuteMsg.transfer_from "alice" "carol" 5) allowing
    ≡ (ok shown, spent)
unfolding execute try_transfer_from perform_transfer balance_at allowance_at bytes_to_u128
    from_be_bytes to_be_bytes be_bytes be_value
spends = refl

execute-Authorised_example : (l' : Ledger) × Represents host spent l' × Authorised "bob" ledger l'
execute-Authorised_example =
    execute-Authorised host allowing spent ledger (caller "bob")
      (ExecuteMsg.transfer_from "alice" "carol" 5) shown allowing-Represents tt spends

query-answered_example :
    query host (QueryMsg.allowance "alice" "bob") allowing
    ≡ (answered host ledger (QueryMsg.allowance "alice" "bob"), allowing)
query-answered_example =
    query-answered host allowing ledger (QueryMsg.allowance "alice" "bob") allowing-Represents
