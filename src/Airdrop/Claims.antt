-- ===== src/Airdrop/Claims.antt =====
-- What `claim` of contracts/airdrop/src/contract.rs does.
use shard_token.Common.{
  ℕ, String, true, false, ◌≡◌, refl, ap, sym, subst, ◌∙◌, arith, Option, some, List, [], ◌∷◌, ◌==◌,
  ◌&&◌, nat_eq, eq_refl, if◌then◌else◌,
}
use shard_token.Common.Outcome.{Outcome, ok, err, panic, map_err, or_panic, with_ok, with_guard}
use shard_token.Common.Words.{Bytes}
use shard_token.Platform.Errors.{StdError}
use shard_token.Platform.Messages.{MessageInfo, Response, CosmosMsg, wasm_execute, transfer}
use shard_token.Platform.Storage.{string_eq, number_eq, pair_eq}
use shard_token.Airdrop.Msg.{Config, ContractError, std, already_claimed}
use shard_token.Airdrop.Leaf.{user_input}
use shard_token.Airdrop.Store.{Host, Store, config_of, stage_of, root_of, has_claimed}
use shard_token.Airdrop.Contract.{bytes_eq, climb, claim}

pub bytes_eq→≡ : (a b : Bytes) → bytes_eq a b ≡ true → a ≡ b
unfolding bytes_eq
bytes_eq→≡ [] [] h = refl
bytes_eq→≡ [] (b ∷ ys) h = ground arith
bytes_eq→≡ (a ∷ xs) [] h = ground arith
bytes_eq→≡ (a ∷ xs) (b ∷ ys) h = ground (arith, bytes_eq→≡ xs ys)

pub host_ok : {A : Type 0} (o : Outcome StdError A) (a : A) → map_err std o ≡ ok a → o ≡ ok a
host_ok (ok x) a h = ground arith
host_ok (err e) a h = ground arith
host_ok panic a h = ground arith

decoded_ok : (o : Option Bytes) (b : Bytes) → or_panic {E = ContractError} o ≡ ok b → o ≡ some b
decoded_ok o b h = ground arith

abbrev messages_of : {E B : Type 0} → Outcome E (Response B) → List (CosmosMsg B)
messages_of (ok r) = r.messages
messages_of _ = []

-- The user has not claimed before. The proof leads from the user's leaf to the stage's root, and the
-- amount of the leaf is sent. After that the user has claimed that stage, and nobody else's claims
-- and no other stage's have changed.
pub record Claimed (h : Host) (sender : String) (stage amount : ℕ) (proof : List String)
    (s s' : Store h) (r : Response h.Binary) : Type 0 where
  pub config : Config
  pub is_config : config_of h s ≡ ok config
  pub user : String
  pub is_user : h.addr_canonicalize sender ≡ ok user
  pub root : String
  pub is_root : root_of h stage s ≡ ok root
  pub hash : Bytes
  pub root_decoded : h.decode_to_slice root ≡ some hash
  pub proved : climb h proof (h.digest (user_input sender amount)) ≡ ok hash
  pub not_before : has_claimed h user stage s ≡ false
  pub after : has_claimed h user stage s' ≡ true
  pub others :
      (u : String) (n : ℕ)
      → ((user == u) && nat_eq stage n) ≡ false
      → has_claimed h u n s' ≡ has_claimed h u n s
  pub same_config : config_of h s' ≡ config_of h s
  pub same_stage : stage_of h s' ≡ stage_of h s
  pub same_roots : (n : ℕ) → root_of h n s' ≡ root_of h n s
  pub token : String
  pub is_token : h.addr_humanize config.shard_token ≡ ok token
  pub msg : h.Binary
  pub is_msg : h.to_binary (transfer sender amount) ≡ ok msg
  pub sent : r.messages ≡ wasm_execute token msg ∷ []

module _ (h : Host) (s : Store h) (user : String) (stage : ℕ) where
  abbrev marked : Store h
  marked = record s { claims = h.claim_bucket.set (user, stage) true s.claims }

  marked_after : has_claimed h user stage marked ≡ true
  unfolding has_claimed
  marked_after =
      ground (arith, h.claim_bucket.get-set (user, stage) (user, stage) true s.claims, eq_refl user)

  marked_others :
      (u : String) (n : ℕ)
      → ((user == u) && nat_eq stage n) ≡ false
      → has_claimed h u n marked ≡ has_claimed h u n s
  unfolding has_claimed
  marked_others u n other =
      ground (arith, h.claim_bucket.get-set (user, stage) (u, n) true s.claims)

-- A `claim` that succeeds was proved for the sender, the amount and the stage, is the sender's first
-- for the stage, marks it, touches no other claim, and sends the amount.
pub claim-Claimed :
    (h : Host) (info : MessageInfo) (stage amount : ℕ) (proof : List String) (s s' : Store h)
    (r : Response h.Binary)
    → claim h info stage amount proof s ≡ (ok r, s')
    → Claimed h info.sender stage amount proof s s' r
unfolding claim
claim-Claimed h info stage amount proof s s' r e = with_ok (config_of h s) _ s e λ c is_c e₁.
    with_ok (root_of h stage s) _ s e₁ λ root is_root e₂.
      with_ok (map_err std (h.addr_canonicalize info.sender)) _ s e₂ λ user is_user e₃.
        with_guard (has_claimed h user stage s) _ _ s e₃ λ before e₄.
          with_ok (climb h proof (h.digest (user_input info.sender amount))) _ s e₄
            λ hash is_hash e₅. with_ok (or_panic (h.decode_to_slice root)) _ s e₅ λ buf is_buf e₆.
              with_guard (if bytes_eq buf hash then false else true) _ _ s e₆ λ same e₇.
                with_ok (map_err std (h.addr_humanize c.shard_token)) _ _ e₇ λ token is_token e₈.
                  with_ok (map_err std (h.to_binary (transfer info.sender amount))) _ _ e₈
                    λ msg is_msg e₉.
                      let equal : buf ≡ hash = bytes_eq→≡ buf hash (ground arith) in
                      subst (λ t. Claimed h info.sender stage amount proof s t r) (ap (λ p. p.1) e₉)
                        (record {
                          config = c;
                          is_config = is_c;
                          user = user;
                          is_user = host_ok _ _ is_user;
                          root = root;
                          is_root = is_root;
                          hash = hash;
                          root_decoded = decoded_ok _ _ is_buf ∙ ap (λ b. some b) equal;
                          proved = is_hash;
                          not_before = before;
                          after = marked_after h s user stage;
                          others = marked_others h s user stage;
                          same_config = unfold config_of in refl;
                          same_stage = unfold stage_of in refl;
                          same_roots = λ n. unfold root_of in refl;
                          token = token;
                          is_token = host_ok _ _ is_token;
                          msg = msg;
                          is_msg = host_ok _ _ is_msg;
                          sent = sym (ap (λ p. messages_of p.0) e₉);
                        })

pub claim_refused :
    (h : Host) (info : MessageInfo) (stage amount : ℕ) (proof : List String) (s : Store h)
    (c : Config) (root user : String)
    → config_of h s ≡ ok c
    → root_of h stage s ≡ ok root
    → h.addr_canonicalize info.sender ≡ ok user
    → has_claimed h user stage s ≡ true
    → claim h info stage amount proof s ≡ (err already_claimed, s)
unfolding claim
claim_refused h info stage amount proof s c root user e₁ e₂ e₃ e₄ = ground arith

-- After a claim that succeeded, a claim of the same sender for the same stage is refused as already
-- made and changes nothing, whatever its amount and its proof.
claim_once :
    (h : Host) (info : MessageInfo) (stage amount again : ℕ) (proof other : List String)
    (s s' : Store h) (r : Response h.Binary)
    → claim h info stage amount proof s ≡ (ok r, s')
    → claim h info stage again other s' ≡ (err already_claimed, s')
claim_once h info stage amount again proof other s s' r e =
    let c = claim-Claimed h info stage amount proof s s' r e in
    claim_refused h info stage again other s' c.config c.root c.user (c.same_config ∙ c.is_config)
      (c.same_roots stage ∙ c.is_root) c.is_user c.after
