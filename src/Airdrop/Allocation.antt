-- ===== src/Airdrop/Allocation.antt =====
-- `claim` of contracts/airdrop/src/contract.rs against the tree whose root is registered for a stage.
use shard_token.Common.{
  ℕ, String, false, ◌≡◌, ◌≢◌, refl, ap, ◌∙◌, arith, some, List, [], ◌∷◌, ◌⊎◌, length,
}
use shard_token.Common.Outcome.{ok, same_value}
use shard_token.Platform.Messages.{
  MessageInfo, Response, attr, text, number, wasm_execute, transfer,
}
use shard_token.Airdrop.Msg.{Config}
use shard_token.Airdrop.Store.{Host, Store, config_of, root_of, has_claimed}
use shard_token.Airdrop.Leaf.{user_input}
use shard_token.Airdrop.Contract.{claim}
use shard_token.Airdrop.Claims.{claim-Claimed}
use shard_token.Airdrop.Merkle.{Tree, hash_of, Proof}
use shard_token.Airdrop.Merkle.Complete.{climb-Proof}
use shard_token.Airdrop.Merkle.Texts.{bytes_eq_refl}
use shard_token.Airdrop.Merkle.Sound.{HasText, LeavesDiffer, Clash, Claimant, climb-HasText}

same_some : {A : Type 0} {o : _} {a b : A} → o ≡ some a → o ≡ some b → a ≡ b
same_some e e' = cc (e, e')

-- A claim that succeeds, for a stage whose root is the digest of a tree, is for a sender and an amount
-- whose text is a leaf of the tree, unless a text that the claim takes the digest of and another one
-- of the tree have the same digest. The texts of leaves and of the claim are not 64 bytes long.
pub claim-HasText :
    (h : Host) (info : MessageInfo) (stage amount : ℕ) (proof : List String) (s s' : Store h)
    (r : Response h.Binary) (tree : Tree) (root : String)
    → claim h info stage amount proof s ≡ (ok r, s')
    → root_of h stage s ≡ ok root
    → h.decode_to_slice root ≡ some (hash_of h tree)
    → LeavesDiffer tree
    → length (user_input info.sender amount) ≢ 64
    → HasText tree (user_input info.sender amount)
      ⊎ Clash h tree (Claimant h proof (user_input info.sender amount))
claim-HasText h info stage amount proof s s' r tree root e is_root decoded differ short =
    let c = claim-Claimed h info stage amount proof s s' r e in
    let same : c.root ≡ root = same_value c.is_root is_root in
    let top : c.hash ≡ hash_of h tree =
      same_some c.root_decoded (ap h.decode_to_slice same ∙ decoded) in
    climb-HasText h tree proof (user_input info.sender amount) differ short
      (c.proved ∙ ap (λ b. ok b) top)

-- Where a stage's root is the digest of a tree and the tree has the text of a sender and an amount, a
-- sender who has not claimed the stage can claim the amount with the proof of the text, and is sent
-- it, where the transfer can be encoded.
pub claim_succeeds :
    (h : Host) (info : MessageInfo) (stage amount : ℕ) (proof : List String) (s : Store h)
    (c : Config) (tree : Tree) (root user token : String) (msg : h.Binary)
    → config_of h s ≡ ok c
    → root_of h stage s ≡ ok root
    → h.decode_to_slice root ≡ some (hash_of h tree)
    → Proof h tree (user_input info.sender amount) proof
    → h.addr_canonicalize info.sender ≡ ok user
    → has_claimed h user stage s ≡ false
    → h.addr_humanize c.shard_token ≡ ok token
    → h.to_binary (transfer info.sender amount) ≡ ok msg
    → (r : Response h.Binary) × ((claim h info stage amount proof s).0 ≡ ok r)
      × (r.messages ≡ wasm_execute token msg ∷ [])
unfolding claim
claim_succeeds h info stage amount proof s c tree root user token msg e₁ e₂ e₃ proved e₄ e₅ e₆ e₇ =
    let climbs = climb-Proof h tree (user_input info.sender amount) proof proved in
    let same = bytes_eq_refl (hash_of h tree) in
    (
      record {
        messages = wasm_execute token msg ∷ [];
        attributes =
            attr "action" (text "claim")
            ∷ attr "stage" (number stage)
            ∷ attr "address" (text info.sender)
            ∷ attr "amount" (number amount)
            ∷ [];
      },
      ground arith,
      refl,
    )
