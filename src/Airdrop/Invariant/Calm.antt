-- ===== src/Airdrop/Invariant/Calm.antt =====
-- When the airdrop contract aborts: `execute` of contracts/airdrop/src/contract.rs in an orderly state.
use shard_token.Common.{
  ℕ, ◌<◌, String, ◌≡◌, ◌≢◌, refl, sym, ◌∙◌, arith, List, [], ◌∷◌, inl, inr, Bool-cases, ltb, Option,
  Option-cases, some, none,
}
use shard_token.Common.Outcome.{ok, panic}
use shard_token.Common.Words.{Bytes}
use shard_token.Platform.Messages.{MessageInfo, Cw20ExecuteMsg, transfer}
use shard_token.Airdrop.Msg.{Config, ExecuteMsg}
use shard_token.Airdrop.Store.{Host, Store, config_of, stage_of, root_of}
use shard_token.Airdrop.Leaf.{user_input}
use shard_token.Airdrop.Contract.{
  climb, combine, claim, register_merkle_root, update_config, execute,
}
use shard_token.Airdrop.Merkle.{climb_next}
use shard_token.Airdrop.Invariant.{IsOrderly, Missing}

-- The host answers, and does not abort.
pub record IsCalm (h : Host) : Type 0 where
  pub canonicalize : (a : String) → h.addr_canonicalize a ≢ panic
  pub humanize : (a : String) → h.addr_humanize a ≢ panic
  pub encode : (m : Cw20ExecuteMsg) → h.to_binary m ≢ panic

module _ (h : Host) where
  climb-ne-panic : (proof : List String) (x : Bytes) → climb h proof x ≢ panic
  unfolding climb
  climb-ne-panic [] x e = ground arith
  climb-ne-panic (p ∷ proof) x e = elim (Option-cases (h.decode_to_slice p)) [
    | inl bad ↦ ground arith
    | inr (b, good) ↦ climb-ne-panic proof (combine h x b) (sym (climb_next h p proof x b good) ∙ e)
  ]

  -- a claim with a root that decodes
  opened_claim-ne-panic :
      (info : MessageInfo) (stage amount : ℕ) (proof : List String) (s : Store h) (c : Config)
      (root : String) (hash : Bytes)
      → IsCalm h
      → config_of h s ≡ ok c
      → root_of h stage s ≡ ok root
      → h.decode_to_slice root ≡ some hash
      → (claim h info stage amount proof s).0 ≢ panic
  unfolding claim
  opened_claim-ne-panic info stage amount proof s c root hash calm e₁ e₂ e₃ e =
      let x = calm.canonicalize info.sender in
      let y = calm.humanize c.shard_token in
      let z = calm.encode (transfer info.sender amount) in
      ground (arith, climb-ne-panic proof (h.digest (user_input info.sender amount)))

  Missing-claim-ne-panic :
      (info : MessageInfo) (stage amount : ℕ) (proof : List String) (s : Store h) (c : Config)
      → config_of h s ≡ ok c
      → Missing h stage s
      → (claim h info stage amount proof s).0 ≢ panic
  unfolding claim
  Missing-claim-ne-panic info stage amount proof s c e₁ e₂ e = ground arith

  claim-ne-panic :
      (info : MessageInfo) (stage amount : ℕ) (proof : List String) (s : Store h)
      → IsCalm h
      → IsOrderly h s
      → (claim h info stage amount proof s).0 ≢ panic
  claim-ne-panic info stage amount proof s calm o = elim (Bool-cases (ltb o.latest stage)) [
    | inl after ↦
        Missing-claim-ne-panic info stage amount proof s o.config o.is_config
          (o.none_after stage (ground arith))
    | inr upto ↦ elim (Bool-cases (ltb 0 stage)) [
      | inl from ↦
          let open_stage = o.opened stage (ground arith) (ground arith) in
          opened_claim-ne-panic info stage amount proof s o.config open_stage.root open_stage.hash
            calm o.is_config open_stage.is_root open_stage.is_hash
      | inr zeroth ↦
          let is_zero : stage ≡ 0 = ground arith in
          Missing-claim-ne-panic info stage amount proof s o.config o.is_config
            (rw is_zero o.none_at_zero)
    ]
  ]

  update_config-ne-panic :
      (info : MessageInfo) (owner : Option String) (s : Store h) (c : Config)
      → IsCalm h
      → config_of h s ≡ ok c
      → (update_config h info owner s).0 ≢ panic
  unfolding update_config
  update_config-ne-panic info none s c calm e₁ e =
      let x = calm.canonicalize info.sender in ground arith
  update_config-ne-panic info (some owner) s c calm e₁ e =
      let x = calm.canonicalize info.sender in let y = calm.canonicalize owner in ground arith

  register_aborts :
      (info : MessageInfo) (root : String) (s : Store h) (c : Config) (latest : ℕ)
      → IsCalm h
      → config_of h s ≡ ok c
      → stage_of h s ≡ ok latest
      → latest < 256
      → (register_merkle_root h info root s).0 ≡ panic
      → latest ≡ 255
  unfolding register_merkle_root
  register_aborts info root s c latest calm e₁ e₂ small e =
      let x = calm.canonicalize info.sender in ground arith

-- In an orderly state, where the host does not abort, a call aborts only where it registers a root
-- after stage 255, the last that a `u8` counts.
pub execute_aborts :
    (h : Host) (info : MessageInfo) (msg : ExecuteMsg) (s : Store h) (o : IsOrderly h s)
    → IsCalm h
    → (execute h info msg s).0 ≡ panic
    → (root : String) × (msg ≡ ExecuteMsg.register_merkle_root root) × (o.latest ≡ 255)
unfolding execute
execute_aborts h info (ExecuteMsg.update_config owner) s o calm e =
    absurd (update_config-ne-panic h info owner s o.config calm o.is_config e)
execute_aborts h info (ExecuteMsg.claim stage amount proof) s o calm e =
    absurd (claim-ne-panic h info stage amount proof s calm o e)
execute_aborts h info (ExecuteMsg.register_merkle_root root) s o calm e = (
  root,
  refl,
  register_aborts h info root s o.config o.latest calm o.is_config o.is_latest o.small e,
)
