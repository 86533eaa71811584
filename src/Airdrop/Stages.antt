-- ===== src/Airdrop/Stages.antt =====
-- `register_merkle_root` and `update_config` of contracts/airdrop/src/contract.rs.
use shard_token.Common.{
  ℕ, ◌+◌, ◌<◌, String, true, false, ◌≡◌, refl, ap, sym, subst, ◌∙◌, arith, Option, some, none, ◌==◌,
  nat_eq, eq_iff, if◌then◌else◌,
}
use shard_token.Common.Outcome.{
  Outcome, ok, map_err, Outcome-cases, known, failed, aborted, with_ok, with_guard,
}
use shard_token.Common.Words.{Bytes}
use shard_token.Platform.Errors.{StdError}
use shard_token.Platform.Messages.{MessageInfo, Response}
use shard_token.Platform.Storage.{string_eq, number_eq, pair_eq}
use shard_token.Airdrop.Msg.{Config, ContractError, std, invalid_hex_merkle}
use shard_token.Airdrop.Store.{Host, Store, config_of, stage_of, root_of, has_claimed}
use shard_token.Airdrop.Contract.{
  add_u8, decoded, register_merkle_root, update_config, changed_owner,
}
use shard_token.Airdrop.Claims.{host_ok}

same_owner : (a b : String) → (if a == b then false else true) ≡ false → a ≡ b
same_owner a b h = ground (arith, eq_iff a b)

-- The owner has opened the next stage with a root of 32 bytes in hexadecimal; every other stage has
-- the root that it had, and the configuration and the claims are as they were.
pub record Registered (h : Host) (sender root : String) (s s' : Store h) : Type 0 where
  pub config : Config
  pub is_config : config_of h s ≡ ok config
  pub by_owner : h.addr_canonicalize sender ≡ ok config.owner
  pub hash : Bytes
  pub is_hash : h.decode_to_slice root ≡ some hash
  pub stage : ℕ
  pub old_stage : stage_of h s ≡ ok stage
  pub room : stage + 1 < 256
  pub new_stage : stage_of h s' ≡ ok (stage + 1)
  pub new_root : root_of h (stage + 1) s' ≡ ok root
  pub other_roots : (n : ℕ) → nat_eq (stage + 1) n ≡ false → root_of h n s' ≡ root_of h n s
  pub same_config : config_of h s' ≡ config_of h s
  pub same_claims : (u : String) (n : ℕ) → has_claimed h u n s' ≡ has_claimed h u n s

module _ (h : Host) (s : Store h) (n : ℕ) (root : String) where
  abbrev opened : Store h
  opened = record s {
    roots = h.root_bucket.set n root s.roots;
    stage = h.stage_cell.save n s.stage;
  }

  opened_root : root_of h n opened ≡ ok root
  unfolding root_of
  opened_root = ground (arith, h.root_bucket.get-set n n root s.roots)

  opened_others : (m : ℕ) → nat_eq n m ≡ false → root_of h m opened ≡ root_of h m s
  unfolding root_of
  opened_others m other = ground (arith, h.root_bucket.get-set n m root s.roots)

  opened_stage : stage_of h opened ≡ ok n
  unfolding stage_of
  opened_stage = rw (h.stage_cell.load-save n s.stage)

decoded_hash : (o : Option Bytes) (b : Bytes) (e : ContractError) → decoded e o ≡ ok b → o ≡ some b
decoded_hash o b e h = ground arith

next_stage : (a b : ℕ) → add_u8 a 1 ≡ ok b → (b ≡ a + 1) × (a + 1 < 256)
next_stage a b h = ground arith

-- A `register_merkle_root` that succeeds is by the owner, opens the stage after the latest with the
-- root, which decodes to 32 bytes, and changes no other root and no claim.
pub register_merkle_root-Registered :
    (h : Host) (info : MessageInfo) (root : String) (s s' : Store h) (r : Response h.Binary)
    → register_merkle_root h info root s ≡ (ok r, s')
    → Registered h info.sender root s s'
unfolding register_merkle_root
register_merkle_root-Registered h info root s s' r e = with_ok (config_of h s) _ s e λ c is_c e₁.
    with_ok (map_err std (h.addr_canonicalize info.sender)) _ s e₁ λ sender is_sender e₂.
      with_guard (if sender == c.owner then false else true) _ _ s e₂ λ same e₃.
        with_ok (decoded invalid_hex_merkle (h.decode_to_slice root)) _ s e₃ λ hash is_hash e₄.
          with_ok (stage_of h s) _ s e₄ λ stage is_stage e₅.
            with_ok (add_u8 stage 1) _ s e₅ λ next is_next e₆.
              let (is_suc, room) = next_stage stage next is_next in
              subst (λ t. Registered h info.sender root s t) (ap (λ p. p.1) e₆)
                (record {
                  config = c;
                  is_config = is_c;
                  by_owner =
                      host_ok _ _ is_sender ∙ ap (λ a. ok a) (same_owner sender c.owner same);
                  hash = hash;
                  is_hash = decoded_hash _ _ _ is_hash;
                  stage = stage;
                  old_stage = is_stage;
                  room = room;
                  new_stage = opened_stage h s next root ∙ ap (λ n. ok n) is_suc;
                  new_root = rw (sym is_suc) (opened_root h s next root);
                  other_roots = λ n other. opened_others h s next root n (rw is_suc other);
                  same_config = unfold config_of in refl;
                  same_claims = λ u n. unfold has_claimed in refl;
                })

-- The configuration after an update: the token stays, and the owner is the new one, if one is named.
pub record Reowned (h : Host) (sender : String) (owner : Option String) (s s' : Store h)
    : Type 0 where
  pub config : Config
  pub new_owner : String
  pub is_config : config_of h s ≡ ok config
  pub by_owner : h.addr_canonicalize sender ≡ ok config.owner
  pub named :
      changed_owner owner config h.addr_canonicalize ≡ ok (record config { owner = new_owner })
  pub new_config : config_of h s' ≡ ok (record config { owner = new_owner })
  pub same_stage : stage_of h s' ≡ stage_of h s
  pub same_roots : (n : ℕ) → root_of h n s' ≡ root_of h n s
  pub same_claims : (u : String) (n : ℕ) → has_claimed h u n s' ≡ has_claimed h u n s

changed_owner_lem :
    (o : Option String) (c c' : Config) (canonicalize : String → Outcome StdError String)
    → changed_owner o c canonicalize ≡ ok c'
    → c' ≡ record c { owner = c'.owner }
changed_owner_lem none c c' f h = ground arith
changed_owner_lem (some o) c c' f h = elim (Outcome-cases (f o)) [
  | known raw e ↦ ground arith
  | failed x e ↦ absurd (ground arith)
  | aborted e ↦ absurd (ground arith)
]

pub saved_config :
    (h : Host) (s : Store h) (c : Config)
    → config_of h (record s { config = h.config_cell.save c s.config }) ≡ ok c
unfolding config_of
saved_config h s c = rw (h.config_cell.load-save c s.config)

-- An `update_config` that succeeds is by the owner, and changes the owner alone.
pub update_config-Reowned :
    (h : Host) (info : MessageInfo) (owner : Option String) (s s' : Store h) (r : Response h.Binary)
    → update_config h info owner s ≡ (ok r, s')
    → Reowned h info.sender owner s s'
unfolding update_config
update_config-Reowned h info owner s s' r e = with_ok (config_of h s) _ s e λ c is_c e₁.
    with_ok (map_err std (h.addr_canonicalize info.sender)) _ s e₁ λ sender is_sender e₂.
      with_guard (if sender == c.owner then false else true) _ _ s e₂ λ same e₃.
        with_ok (map_err std (changed_owner owner c h.addr_canonicalize)) _ s e₃ λ new is_new e₄.
          let changed = host_ok _ _ is_new in
          let shape = changed_owner_lem owner c new h.addr_canonicalize changed in
          subst (λ t. Reowned h info.sender owner s t) (ap (λ p. p.1) e₄)
            (record {
              config = c;
              new_owner = new.owner;
              is_config = is_c;
              by_owner = host_ok _ _ is_sender ∙ ap (λ a. ok a) (same_owner sender c.owner same);
              named = changed ∙ ap (λ x. ok x) shape;
              new_config = saved_config h s new ∙ ap (λ x. ok x) shape;
              same_stage = unfold stage_of in refl;
              same_roots = λ n. unfold root_of in refl;
              same_claims = λ u n. unfold has_claimed in refl;
            })
