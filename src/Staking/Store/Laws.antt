-- ===== src/Staking/Store/Laws.antt =====
-- What a read finds after each write of contracts/staking/src/state.rs.
use shard_token.Common.{String, ◌≡◌, ◌==◌, if◌then◌else◌, Bool-cases, inl, inr}
use shard_token.Common.Outcome.{ok}
use shard_token.Platform.Storage.{string_eq}
use shard_token.Staking.Msg.{Config, State}
use shard_token.Staking.Store.{Host, Store, Info, no_stake, config_of, state_of, info_of}

module _ (h : Host) (s : Store h) where
  pub config_of-save :
      (c : Config) → config_of h (record s { config = h.config_cell.save c s.config }) ≡ ok c
  unfolding config_of
  config_of-save c = rw (h.config_cell.load-save c s.config)

  pub state_of-save :
      (c : State h.decimals.Decimal)
      → state_of h (record s { state = h.state_cell.save c s.state }) ≡ ok c
  unfolding state_of
  state_of-save c = rw (h.state_cell.load-save c s.state)

  pub info_of-set :
      (owner a : String) (info : Info h)
      → info_of h a (record s { rewards = h.reward_bucket.set owner info s.rewards })
        ≡ (if owner == a then info else info_of h a s)
  unfolding info_of
  info_of-set owner a info =
      rw (h.reward_bucket.get-set owner a info s.rewards)
        (elim (Bool-cases (owner == a)) [ inl same ↦ rw same | inr other ↦ rw other ])

  pub info_of-remove :
      (owner a : String)
      → info_of h a (record s { rewards = h.reward_bucket.remove owner s.rewards })
        ≡ (if owner == a then no_stake h else info_of h a s)
  unfolding info_of
  info_of-remove owner a =
      rw (h.reward_bucket.get-remove owner a s.rewards)
        (elim (Bool-cases (owner == a)) [ inl same ↦ rw same | inr other ↦ rw other ])
