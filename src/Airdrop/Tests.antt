-- ===== src/Airdrop/Tests.antt =====
-- A claim against a root over two leaves, on a host whose digest is the low 32 bytes
-- of the number that a text is.
mod Stages
use shard_token.Common.{
  String, false, arith, length, ◌++◌, ◌≢◌, ◌⊎◌, Option, ◌+◌, ◌*◌, ℕ, ◌≡◌, refl, some, none, [], ◌∷◌,
  if◌then◌else◌, ◌==◌, ◌&&◌, nat_eq, true,
}
use shard_token.Common.Outcome.{ok, err}
use shard_token.Common.Words.{Bytes, be_bytes, be_value, length-be_bytes}
use shard_token.Platform.Messages.{MessageInfo, Response, wasm_execute, attr, text, number}
use shard_token.Platform.Samples.{function_bucket, option_cell}
use shard_token.Platform.Storage.{string_eq, number_eq, pair_eq}
use shard_token.Airdrop.Msg.{already_claimed}
use shard_token.Airdrop.Store.{Host, Store, config_of, root_of, has_claimed}
use shard_token.Airdrop.Contract.{bytes_less, bytes_eq, climb, claim}
use shard_token.Common.Texts.{digits, to_string, as_bytes}
use shard_token.Airdrop.Leaf.{
  user_input, value, value-to_string, user_input-amount, user_input-shared,
}
use shard_token.Airdrop.Merkle.{Tree, leaf, node, pair, hash_of, Proof, at_leaf, in_left}
use shard_token.Airdrop.Merkle.Sound.{HasText, Clash, Claimant}
use shard_token.Airdrop.Allocation.{claim-HasText, claim_succeeds}
use shard_token.Airdrop.Claims.{Claimed, claim-Claimed}

-- 32 bytes in place of a digest
unfoldable pub pad : Bytes → Bytes
pad bytes = be_bytes 32 (be_value 1 bytes)

pub length-pad : (bytes : Bytes) → length (pad bytes) ≡ 32
unfolding pad
length-pad bytes = length-be_bytes 32 (be_value 1 bytes)

abbrev pub allocation : Tree
allocation = node (leaf (user_input "alice" 7)) (leaf (user_input "bob" 9))

-- "root" stands for the root of the allocation, and "leaf" for the digest beside alice's.
unfoldable pub decode : String → Option Bytes
decode t =
    if t == "root"
    then some (pad (pair (pad (user_input "alice" 7)) (pad (user_input "bob" 9))))
    else if t == "leaf"
    then some (pad (user_input "bob" 9))
    else none

pub length-decode : (t : String) (bytes : Bytes) → decode t ≡ some bytes → length bytes ≡ 32
unfolding decode
length-decode t bytes e = ground (
  arith,
  length-pad (pair (pad (user_input "alice" 7)) (pad (user_input "bob" 9))),
  length-pad (user_input "bob" 9),
)

abbrev pub host : Host
host = record {
  Binary = ℕ;
  addr_canonicalize = λ a. ok a;
  addr_humanize = λ a. ok a;
  to_binary = λ m. ok 5;
  response_to_binary = λ r. ok 0;
  digest = pad;
  length-digest = length-pad;
  decode_to_slice = decode;
  length-decode_to_slice = length-decode;
  config_cell = option_cell;
  stage_cell = option_cell;
  root_bucket = function_bucket;
  claim_bucket = function_bucket;
}

abbrev pub alice : MessageInfo
alice = record { sender = "alice" }

abbrev pub open_stage : Store host
open_stage = record {
  config = some (record { owner = "owner"; shard_token = "shard" });
  stage = some 1;
  roots = λ n. if nat_eq 1 n then some "root" else none;
  claims = λ k. none;
}

abbrev pub after_claim : Store host
after_claim = record open_stage {
  claims = λ k. if ("alice" == k.0) && nat_eq 1 k.1 then some true else none;
}

abbrev pub response : Response ℕ
response = record {
  messages = wasm_execute "shard" 5 ∷ [];
  attributes =
      attr "action" (text "claim")
      ∷ attr "stage" (number 1)
      ∷ attr "address" (text "alice")
      ∷ attr "amount" (number 7)
      ∷ [];
}

pub claims : claim host alice 1 7 ("leaf" ∷ []) open_stage ≡ (ok response, after_claim)
unfolding claim climb bytes_less bytes_eq config_of root_of has_claimed decode pad be_bytes be_value
    user_input to_string digits
claims = refl

claim-Claimed_example : Claimed host "alice" 1 7 ("leaf" ∷ []) open_stage after_claim response
claim-Claimed_example =
    claim-Claimed host alice 1 7 ("leaf" ∷ []) open_stage after_claim response claims

root_found : root_of host 1 open_stage ≡ ok "root"
unfolding root_of
root_found = refl

root_decoded : host.decode_to_slice "root" ≡ some (hash_of host allocation)
unfolding decode hash_of
root_decoded = refl

leaf_decoded : host.decode_to_slice "leaf" ≡ some (hash_of host (leaf (user_input "bob" 9)))
unfolding decode hash_of
leaf_decoded = refl

short : (length (user_input "alice" 7) ≢ 64) × (length (user_input "bob" 9) ≢ 64)
unfolding user_input to_string digits
short = (λ e. omega arith, λ e. omega arith)

claim-HasText_example :
    HasText allocation (user_input "alice" 7)
    ⊎ Clash host allocation (Claimant host ("leaf" ∷ []) (user_input "alice" 7))
claim-HasText_example =
    claim-HasText host alice 1 7 ("leaf" ∷ []) open_stage after_claim response allocation "root"
      claims root_found root_decoded short short.0

proved : Proof host allocation (user_input "alice" 7) ("leaf" ∷ [])
proved = in_left "leaf" at_leaf leaf_decoded refl

pub configured : config_of host open_stage ≡ ok (record { owner = "owner"; shard_token = "shard" })
unfolding config_of
configured = refl

unclaimed : has_claimed host "alice" 1 open_stage ≡ false
unfolding has_claimed
unclaimed = refl

follows : as_bytes "terra1" ≡ as_bytes "terra" ++ to_string 1
unfolding to_string digits
follows = refl

user_input-shared_example : user_input "terra1" 2 ≡ user_input "terra" 12
user_input-shared_example =
    user_input-shared "terra" "terra1" 1 2 follows (λ e. omega arith) (omega arith) (omega arith)
