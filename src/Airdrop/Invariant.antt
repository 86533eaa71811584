-- ===== src/Airdrop/Invariant.antt =====
-- What holds of the storage of the airdrop contract between calls, and over histories of calls:
-- `instantiate` and `execute` of contracts/airdrop/src/contract.rs.
pub mod History
pub mod Calm
use shard_token.Common.{
  ℕ, ◌+◌, ◌≤◌, ◌<◌, String, true, false, ◌≡◌, ◌≢◌, refl, ap, sym, subst, ◌∙◌, arith, List, [], ◌∷◌,
  ◌⊎◌, inl, inr, Bool-cases, nat_eq, ◌==◌, eq_iff, ◌&&◌, some, none, if◌then◌else◌,
}
use shard_token.Common.Outcome.{Outcome, ok, err, panic, map_err, with_ok, same_value}
use shard_token.Common.Words.{Bytes}
use shard_token.Platform.Errors.{not_found}
use shard_token.Platform.Messages.{MessageInfo, Response}
use shard_token.Platform.Storage.{number_eq}
use shard_token.Airdrop.Msg.{
  Config, ExecuteMsg, InstantiateMsg, ContractError, std, already_claimed,
}
use shard_token.Airdrop.Store.{Host, Store, config_of, stage_of, root_of, has_claimed}
use shard_token.Airdrop.Contract.{instantiate, claim, execute}
use shard_token.Airdrop.Claims.{claim-Claimed, claim_refused}
use shard_token.Airdrop.Stages.{
  saved_config, register_merkle_root-Registered, update_config-Reowned,
}

abbrev pub Missing : (h : Host) → ℕ → Store h → Type 0
Missing h n s = root_of h n s ≡ err (std not_found)

-- a stage with a root of 32 bytes in hexadecimal
pub record Open (h : Host) (n : ℕ) (s : Store h) : Type 0 where
  pub root : String
  pub hash : Bytes
  pub is_root : root_of h n s ≡ ok root
  pub is_hash : h.decode_to_slice root ≡ some hash

-- The stages from 1 to the latest have roots that decode, and no other stage has a root.
pub record IsOrderly (h : Host) (s : Store h) : Type 0 where
  pub config : Config
  pub is_config : config_of h s ≡ ok config
  pub latest : ℕ
  pub is_latest : stage_of h s ≡ ok latest
  pub small : latest < 256
  pub none_at_zero : Missing h 0 s
  pub opened : (n : ℕ) → 1 ≤ n → n ≤ latest → Open h n s
  pub none_after : (n : ℕ) → latest < n → Missing h n s

-- the roots and the latest stage are as they were
pub record SameStages (h : Host) (s s' : Store h) : Type 0 where
  pub config : Config
  pub is_config : config_of h s' ≡ ok config
  pub stage : stage_of h s' ≡ stage_of h s
  pub roots : (n : ℕ) → root_of h n s' ≡ root_of h n s

module _ (h : Host) {s s' : Store h} where
  Open-same : (n : ℕ) → root_of h n s' ≡ root_of h n s → Open h n s → Open h n s'
  Open-same n e o = record {
    root = o.root;
    hash = o.hash;
    is_root = e ∙ o.is_root;
    is_hash = o.is_hash;
  }

  SameStages-IsOrderly : SameStages h s s' → IsOrderly h s → IsOrderly h s'
  SameStages-IsOrderly k o = record {
    config = k.config;
    is_config = k.is_config;
    latest = o.latest;
    is_latest = k.stage ∙ o.is_latest;
    small = o.small;
    none_at_zero = k.roots 0 ∙ o.none_at_zero;
    opened = λ n from to. Open-same n (k.roots n) (o.opened n from to);
    none_after = λ n after. k.roots n ∙ o.none_after n after;
  }

pub same_number : (a b : ℕ) → nat_eq a b ≡ true → a ≡ b
same_number a b e = ground arith

other_number : (a b : ℕ) → a ≢ b → nat_eq a b ≡ false
other_number a b e = ground arith

pub claim-IsOrderly :
    (h : Host) (info : MessageInfo) (stage amount : ℕ) (proof : List String) (s s' : Store h)
    (r : Response h.Binary)
    → claim h info stage amount proof s ≡ (ok r, s')
    → IsOrderly h s
    → IsOrderly h s'
claim-IsOrderly h info stage amount proof s s' r e o =
    let c = claim-Claimed h info stage amount proof s s' r e in
    SameStages-IsOrderly h
      (record {
        config = c.config;
        is_config = c.same_config ∙ c.is_config;
        stage = c.same_stage;
        roots = c.same_roots;
      })
      o

-- A call that succeeds in an orderly state leaves an orderly state: the stages from 1 to the latest,
-- which is below 256, have roots that decode to 32 bytes, and no other stage has a root.
pub execute-IsOrderly :
    (h : Host) (info : MessageInfo) (msg : ExecuteMsg) (s s' : Store h) (r : Response h.Binary)
    → execute h info msg s ≡ (ok r, s')
    → IsOrderly h s
    → IsOrderly h s'
unfolding execute
execute-IsOrderly h info (ExecuteMsg.update_config owner) s s' r e o =
    let u = update_config-Reowned h info owner s s' r e in
    SameStages-IsOrderly h
      (record {
        config = record u.config { owner = u.new_owner };
        is_config = u.new_config;
        stage = u.same_stage;
        roots = u.same_roots;
      })
      o
execute-IsOrderly h info (ExecuteMsg.claim stage amount proof) s s' r e o =
    claim-IsOrderly h info stage amount proof s s' r e o
execute-IsOrderly h info (ExecuteMsg.register_merkle_root root) s s' r e o =
    let g = register_merkle_root-Registered h info root s s' r e in
    let same : g.stage ≡ o.latest = same_value g.old_stage o.is_latest in
    record {
      config = g.config;
      is_config = g.same_config ∙ g.is_config;
      latest = g.stage + 1;
      is_latest = g.new_stage;
      small = g.room;
      none_at_zero = g.other_roots 0 (other_number _ _ (λ z. omega arith)) ∙ o.none_at_zero;
      opened = λ n from to. elim (Bool-cases (nat_eq (g.stage + 1) n)) [
        | inl new ↦
            let is_new : g.stage + 1 ≡ n = same_number _ _ new in
            record {
              root = root;
              hash = g.hash;
              is_root = rw (sym is_new) g.new_root;
              is_hash = g.is_hash;
            }
        | inr old ↦ Open-same h n (g.other_roots n old) (o.opened n from (ground arith))
      ];
      none_after = λ n after.
          g.other_roots n (other_number _ _ (λ z. omega arith)) ∙ o.none_after n (omega arith);
    }

-- An `instantiate` that succeeds on a storage with no roots leaves an orderly state.
pub instantiate-IsOrderly :
    (h : Host) (msg : InstantiateMsg) (s s' : Store h) (r : Response h.Binary)
    → ((n : ℕ) → Missing h n s)
    → instantiate h msg s ≡ (ok r, s')
    → IsOrderly h s'
unfolding instantiate
instantiate-IsOrderly h msg s s' r empty e =
    with_ok (map_err std (h.addr_canonicalize msg.owner)) _ s e λ owner is_owner e₁.
      with_ok (map_err std (h.addr_canonicalize msg.shard_token)) _ s e₁ λ token is_token e₂.
        let c : Config = record { owner = owner; shard_token = token } in
        let s₁ : Store h = record s { config = h.config_cell.save c s.config } in
        let s₂ : Store h = record s₁ { stage = h.stage_cell.save 0 s.stage } in
        let kept : (n : ℕ) → Missing h n s₂ = λ n.
          let same : root_of h n s₂ ≡ root_of h n s = unfold root_of in refl in same ∙ empty n in
        subst (λ t. IsOrderly h t) (ap (λ p. p.1) e₂)
          (record {
            config = c;
            is_config = unfold config_of in saved_config h s c;
            latest = 0;
            is_latest = unfold stage_of in rw (h.stage_cell.load-save 0 s.stage);
            small = omega arith;
            none_at_zero = kept 0;
            opened = λ n from to. absurd (omega arith);
            none_after = λ n after. kept n;
          })
