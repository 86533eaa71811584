-- ===== src/Airdrop/Merkle.antt =====
-- Trees of digests, and what the loop over a proof in `claim` of contracts/airdrop/src/contract.rs has
-- to do with them. A tree is what was built when a root was made; the contract sees only its root.
pub mod Complete
pub mod Texts
pub mod Sound
use shard_token.Common.{
  ℕ, zero, suc, ◌+◌, ◌<◌, ◌≤◌, ◌≡◌, ◌≢◌, refl, ap, sym, arith, String, List, [], ◌∷◌, ◌++◌, length,
  true, false, Bool-cases, inl, inr, some, none, Option, if◌then◌else◌,
}
use shard_token.Common.Words.{Bytes}
use shard_token.Common.Outcome.{Outcome, ok, err}
use shard_token.Airdrop.Msg.{ContractError, invalid_hex_proof}
use shard_token.Airdrop.Store.{Host}
use shard_token.Airdrop.Contract.{bytes_less, combine, climb}

pub data Tree : Type 0 where
  -- the text of a leaf
  leaf : Bytes → Tree
  node : Tree → Tree → Tree

bytes_less_total :
    (a b : Bytes) → length a ≡ length b → bytes_less a b ≡ false → bytes_less b a ≡ false → a ≡ b
unfolding bytes_less
bytes_less_total [] [] e h k = refl
bytes_less_total [] (y ∷ ys) e h k = absurd (omega arith)
bytes_less_total (x ∷ xs) [] e h k = absurd (omega arith)
bytes_less_total (x ∷ xs) (y ∷ ys) e h k = ground (arith, bytes_less_total xs ys)

bytes_less_asym : (a b : Bytes) → bytes_less a b ≡ true → bytes_less b a ≡ false
unfolding bytes_less
bytes_less_asym [] [] h = refl
bytes_less_asym [] (y ∷ ys) h = ground arith
bytes_less_asym (x ∷ xs) [] h = ground arith
bytes_less_asym (x ∷ xs) (y ∷ ys) h = ground (arith, bytes_less_asym xs ys)

-- the text of a node: the smaller digest and then the other
abbrev pub pair : Bytes → Bytes → Bytes
pair a b = if bytes_less a b then a ++ b else b ++ a

pub pair_comm : (a b : Bytes) → length a ≡ length b → pair a b ≡ pair b a
pair_comm a b e = ground (arith, bytes_less_total a b, bytes_less_asym a b)

module _ (h : Host) where
  pub combine-pair : (a b : Bytes) → combine h a b ≡ h.digest (pair a b)
  combine-pair a b = ground arith

  abbrev turn : String → List String → Bytes → Option Bytes → Outcome ContractError Bytes
  turn q proof x o = elim o [
    | none ↦ err invalid_hex_proof
    | some proof_buf ↦ climb h proof (combine h x proof_buf)
  ]

  -- one turn of the loop
  pub climb_next :
      (q : String) (proof : List String) (x c : Bytes)
      → h.decode_to_slice q ≡ some c
      → climb h (q ∷ proof) x ≡ climb h proof (combine h x c)
  unfolding climb
  climb_next q proof x c d = ap (turn q proof x) d

  -- the digest at the top of a tree
  unfoldable pub hash_of : Tree → Bytes
  hash_of (leaf text) = h.digest text
  hash_of (node l r) = h.digest (pair (hash_of l) (hash_of r))

  pub length-hash_of : (t : Tree) → length (hash_of t) ≡ 32
  unfolding hash_of
  length-hash_of (leaf text) = h.length-digest text
  length-hash_of (node l r) = h.length-digest (pair (hash_of l) (hash_of r))

  -- A proof for a text: the digests of the trees beside the way up from the text's leaf.
  pub data Proof : Tree → Bytes → List String → Type 0 where
    at_leaf : {text : Bytes} → Proof (leaf text) text []
    in_left :
        {l r : Tree} {text : Bytes} {below proof : List String} (p : String)
        → Proof l text below
        → h.decode_to_slice p ≡ some (hash_of r)
        → proof ≡ below ++ p ∷ []
        → Proof (node l r) text proof
    in_right :
        {l r : Tree} {text : Bytes} {below proof : List String} (p : String)
        → Proof r text below
        → h.decode_to_slice p ≡ some (hash_of l)
        → proof ≡ below ++ p ∷ []
        → Proof (node l r) text proof
