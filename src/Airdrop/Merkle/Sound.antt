-- ===== src/Airdrop/Merkle/Sound.antt =====
-- From which texts the loop of `claim` of contracts/airdrop/src/contract.rs reaches the digest at the
-- top of a tree.
use shard_token.Common.{
  ◌≡◌, ◌≢◌, refl, ap, sym, subst, ◌∙◌, arith, String, List, [], ◌∷◌, some, Option-cases, inl, inr,
  length, ◌⊎◌,
}
use shard_token.Common.Outcome.{ok}
use shard_token.Common.Words.{Bytes}
use shard_token.Airdrop.Store.{Host}
use shard_token.Airdrop.Contract.{climb}
use shard_token.Airdrop.Merkle.{
  Tree, leaf, node, pair, combine-pair, climb_next, hash_of, length-hash_of,
}
use shard_token.Airdrop.Merkle.Texts.{bytes_cases, pair_parts, length-pair}

-- `t` stands in the tree.
pub data Within (t : Tree) : Tree → Type 0 where
  self : Within t t
  left : {l r : Tree} → Within t l → Within t (node l r)
  right : {l r : Tree} → Within t r → Within t (node l r)

abbrev pub HasText : Tree → Bytes → Type 0
HasText tree text = Within (leaf text) tree

-- No text of a leaf has the 64 bytes of a node's text.
abbrev pub LeavesDiffer : Tree → Type 0
LeavesDiffer (leaf text) = length text ≢ 64
LeavesDiffer (node l r) = LeavesDiffer l × LeavesDiffer r

module _ (h : Host) where
  -- the texts whose digests the tree is made of
  pub data Built : Tree → Bytes → Type 0 where
    of_leaf : (text : Bytes) → Built (leaf text) text
    of_node :
        (l r : Tree) (text : Bytes)
        → text ≡ pair (hash_of h l) (hash_of h r)
        → Built (node l r) text
    in_left : {l r : Tree} {text : Bytes} → Built l text → Built (node l r) text
    in_right : {l r : Tree} {text : Bytes} → Built r text → Built (node l r) text

  -- the texts whose digests the loop over a proof takes, from a digest
  pub data Taken : List String → Bytes → Bytes → Type 0 where
    first :
        {p : String} {proof : List String} {x b : Bytes} (text : Bytes)
        → h.decode_to_slice p ≡ some b
        → text ≡ pair x b
        → Taken (p ∷ proof) x text
    later :
        {p : String} {proof : List String} {x b text : Bytes} (y : Bytes)
        → h.decode_to_slice p ≡ some b
        → y ≡ h.digest (pair x b)
        → Taken proof y text
        → Taken (p ∷ proof) x text

  -- Two different texts with one digest, one of the tree and one that `Here` tells.
  pub record Clash (tree : Tree) (Here : Bytes → Type 0) : Type 0 where
    pub one : Bytes
    pub other : Bytes
    pub in_tree : Built tree one
    pub here : Here other
    pub same_digest : h.digest one ≡ h.digest other
    pub different : one ≢ other

child_left : {l r tree : Tree} → Within (node l r) tree → Within l tree
child_left self = left self
child_left (left w) = left (child_left w)
child_left (right w) = right (child_left w)

child_right : {l r tree : Tree} → Within (node l r) tree → Within r tree
child_right self = right self
child_right (left w) = left (child_right w)
child_right (right w) = right (child_right w)

leaf-LeavesDiffer :
    {text : Bytes} {tree : Tree} → Within (leaf text) tree → LeavesDiffer tree → length text ≢ 64
leaf-LeavesDiffer self d = d
leaf-LeavesDiffer (left w) d = leaf-LeavesDiffer w d.0
leaf-LeavesDiffer (right w) d = leaf-LeavesDiffer w d.1

module _ (h : Host) where
  Built-Within : {t tree : Tree} {text : Bytes} → Within t tree → Built h t text → Built h tree text
  Built-Within self b = b
  Built-Within (left w) b = in_left (Built-Within w b)
  Built-Within (right w) b = in_right (Built-Within w b)

  -- a tree inside whose digest is the given one
  abbrev Found : Tree → Bytes → Type 0
  Found tree x = (t : Tree) × Within t tree × (x ≡ hash_of h t)

  later_clash :
      {tree : Tree} {p : String} {proof : List String} {x b : Bytes}
      → h.decode_to_slice p ≡ some b
      → Clash h tree (Taken h proof (h.digest (pair x b)))
      → Clash h tree (Taken h (p ∷ proof) x)
  later_clash d c = record {
    one = c.one;
    other = c.other;
    in_tree = c.in_tree;
    here = later _ d refl c.here;
    same_digest = c.same_digest;
    different = c.different;
  }

  -- Below a tree whose digest is that of a pair, one of the pair is the digest of a tree inside.
  below :
      (tree : Tree) (p : String) (proof : List String) (x b : Bytes)
      → LeavesDiffer tree
      → h.decode_to_slice p ≡ some b
      → length x ≡ 32
      → Found tree (h.digest (pair x b))
      → Found tree x ⊎ Clash h tree (Taken h (p ∷ proof) x)
  unfolding hash_of
  below tree p proof x b differ d lx (leaf text, w, e) = inr (record {
    one = text;
    other = pair x b;
    in_tree = Built-Within w (of_leaf text);
    here = first (pair x b) d refl;
    same_digest = sym e;
    different = λ same.
        leaf-LeavesDiffer w differ
          (ap (λ t. length t) same ∙ length-pair x b lx (h.length-decode_to_slice p b d));
  })
  below tree p proof x b differ d lx (node l r, w, e) =
      let lb = h.length-decode_to_slice p b d in
      elim (bytes_cases (pair (hash_of h l) (hash_of h r)) (pair x b)) [
        | inl same ↦
            elim (pair_parts (hash_of h l) (hash_of h r) x b (length-hash_of h l)
              (length-hash_of h r) lx lb same) [
                | inl at_l ↦ inl (l, child_left w, at_l)
                | inr at_r ↦ inl (r, child_right w, at_r)
              ]
        | inr other ↦ inr (record {
          one = pair (hash_of h l) (hash_of h r);
          other = pair x b;
          in_tree = Built-Within w (of_node l r _ refl);
          here = first (pair x b) d refl;
          same_digest = sym e;
          different = other;
        })
      ]

  -- the texts whose digests a claim takes: its leaf's, and those on the way up
  abbrev pub Claimant : List String → Bytes → Bytes → Type 0
  Claimant proof text t = (t ≡ text) ⊎ Taken h proof (h.digest text) t

  at_top :
      (tree : Tree) (proof : List String) (text : Bytes)
      → length text ≢ 64
      → Found tree (h.digest text)
      → HasText tree text ⊎ Clash h tree (Claimant proof text)
  unfolding hash_of
  at_top tree proof text short (leaf t, w, e) = elim (bytes_cases t text) [
    | inl same ↦ inl (subst (λ u. HasText tree u) same w)
    | inr other ↦ inr (record {
      one = t;
      other = text;
      in_tree = Built-Within w (of_leaf t);
      here = inl refl;
      same_digest = sym e;
      different = other;
    })
  ]
  at_top tree proof text short (node l r, w, e) = inr (record {
    one = pair (hash_of h l) (hash_of h r);
    other = text;
    in_tree = Built-Within w (of_node l r _ refl);
    here = inl refl;
    same_digest = sym e;
    different = λ same. short (
        sym (ap (λ t. length t) same)
        ∙ length-pair (hash_of h l) (hash_of h r) (length-hash_of h l) (length-hash_of h r));
  })

  climb-Found :
      (tree : Tree) (proof : List String) (x : Bytes)
      → LeavesDiffer tree
      → length x ≡ 32
      → climb h proof x ≡ ok (hash_of h tree)
      → Found tree x ⊎ Clash h tree (Taken h proof x)
  unfolding climb
  climb-Found tree [] x differ lx e = inl (tree, self, ground arith)
  climb-Found tree (p ∷ proof) x differ lx e = elim (Option-cases (h.decode_to_slice p)) [
    | inl bad ↦ absurd (ground arith)
    | inr (b, d) ↦
        elim (climb-Found tree proof (h.digest (pair x b)) differ (h.length-digest (pair x b)) (
          ap (λ y. climb h proof y) (sym (combine-pair h x b))
          ∙ sym (climb_next h p proof x b d)
          ∙ e)) [
            | inl found ↦ below tree p proof x b differ d lx found
            | inr clash ↦ inr (later_clash d clash)
          ]
  ]

  -- Where the loop leads from the digest of a text to the digest at the top of a tree, the text is a
  -- leaf of the tree, or a text that the loop took and another one of the tree have the same digest.
  -- The text and those of the leaves are not 64 bytes long, as those of nodes are.
  pub climb-HasText :
      (tree : Tree) (proof : List String) (text : Bytes)
      → LeavesDiffer tree
      → length text ≢ 64
      → climb h proof (h.digest text) ≡ ok (hash_of h tree)
      → HasText tree text ⊎ Clash h tree (Claimant proof text)
  unfolding hash_of
  climb-HasText tree proof text differ short e =
      elim (climb-Found tree proof (h.digest text) differ (h.length-digest text) e) [
        | inr c ↦ inr (record {
          one = c.one;
          other = c.other;
          in_tree = c.in_tree;
          here = inr c.here;
          same_digest = c.same_digest;
          different = c.different;
        })
        | inl found ↦ at_top tree proof text short found
      ]
