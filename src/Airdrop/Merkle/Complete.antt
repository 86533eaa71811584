-- ===== src/Airdrop/Merkle/Complete.antt =====
-- The proof of a text of a tree, in the loop of `claim` of contracts/airdrop/src/contract.rs.
use shard_token.Common.{
  ◌≡◌, refl, ap, sym, ◌∙◌, arith, String, List, [], ◌∷◌, ◌++◌, some, Option-cases, inl, inr,
}
use shard_token.Common.Outcome.{ok}
use shard_token.Common.Words.{Bytes}
use shard_token.Airdrop.Store.{Host}
use shard_token.Airdrop.Contract.{combine, climb}
use shard_token.Airdrop.Merkle.{
  Tree, leaf, node, pair_comm, combine-pair, climb_next, hash_of, length-hash_of, Proof, at_leaf,
  in_left, in_right,
}

module _ (h : Host) where
  climb-snoc :
      (proof : List String) (p : String) (x y b : Bytes)
      → climb h proof x ≡ ok y
      → h.decode_to_slice p ≡ some b
      → climb h (proof ++ p ∷ []) x ≡ ok (combine h y b)
  unfolding climb
  climb-snoc [] p x y b e d = ground arith
  climb-snoc (q ∷ proof) p x y b e d = elim (Option-cases (h.decode_to_slice q)) [
    | inl bad ↦ ground arith
    | inr (c, good) ↦
        climb_next h q (proof ++ p ∷ []) x c good
        ∙ climb-snoc proof p (combine h x c) y b (sym (climb_next h q proof x c good) ∙ e) d
  ]

  -- From the digest of a text, the loop over a proof of the text in a tree ends at the digest at the
  -- top of the tree.
  pub climb-Proof :
      (tree : Tree) (text : Bytes) (proof : List String)
      → Proof h tree text proof
      → climb h proof (h.digest text) ≡ ok (hash_of h tree)
  unfolding hash_of
  climb-Proof (leaf text) text' proof at_leaf = unfold climb in refl
  climb-Proof (node l r) text proof (in_left {below} p below_ok d e) = rw e (
      climb-snoc below p (h.digest text) (hash_of h l) (hash_of h r)
        (climb-Proof l text below below_ok) d
      ∙ ap (λ b. ok b) (combine-pair h (hash_of h l) (hash_of h r)))
  climb-Proof (node l r) text proof (in_right {below} p below_ok d e) =
      let same = sym (length-hash_of h l) in
      rw e (
        climb-snoc below p (h.digest text) (hash_of h r) (hash_of h l)
          (climb-Proof r text below below_ok) d
        ∙ ap (λ b. ok b) (combine-pair h (hash_of h r) (hash_of h l))
        ∙ ap (λ t. ok (h.digest t))
            (pair_comm (hash_of h r) (hash_of h l) (length-hash_of h r ∙ sym (length-hash_of h l))))
