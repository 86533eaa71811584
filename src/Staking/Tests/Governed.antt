-- ===== src/Staking/Tests/Governed.antt =====
-- An update and a migration of the schedule by the governor.
use shard_token.Common.{ℕ, ◌*◌, ◌^◌, ◌≡◌, ◌↔◌, refl, List, [], ◌∷◌, some, none, if◌then◌else◌, ◌==◌}
use shard_token.Common.Outcome.{ok}
use shard_token.Platform.Messages.{Response, wasm_execute, attr, text, number}
use shard_token.Staking.Msg.{Slot}
use shard_token.Staking.Store.{Store, config_of, state_of}
use shard_token.Staking.Rewards.{prorated, slot_amount, distributed, compute_reward}
use shard_token.Staking.Schedules.{
  count_one, count_slots, get_count, set_count, take_count, check_existing, check_new,
  assert_new_schedules, sum_amounts, retain_started, close_slot, close_slots,
}
use shard_token.Staking.Schedules.Update.{Extends, assert_new_schedules_iff}
use shard_token.Staking.Contract.{update_config, migrate_staking}
use shard_token.Staking.Governance.{
  Updated, Migrated, update_config-Updated, migrate_staking-Migrated,
}
use shard_token.Staking.Tests.{host, caller, at, config_with, slots, state_with, info_with, bonded}

-- the slot that has begun, and two that begin later
abbrev longer : List Slot
longer = (300, 400, 5) ∷ (100, 200, 1000000) ∷ (500, 600, 5) ∷ []

abbrev updated : Store host
updated = record bonded { config = some (config_with longer) }

abbrev update_response : Response ℕ
update_response = record { messages = []; attributes = attr "action" (text "update_config") ∷ [] }

updates : update_config host (caller "governor") longer bonded ≡ (ok update_response, updated)
unfolding update_config config_of state_of assert_new_schedules count_slots count_one check_existing
    check_new take_count get_count set_count
updates = refl

update_config-Updated_example : Updated host "governor" longer bonded updated
update_config-Updated_example =
    update_config-Updated host (caller "governor") longer bonded updated update_response updates

assert_new_schedules_iff_example :
    (assert_new_schedules (config_with slots) (state_with 100 100 0) longer ≡ ok tt)
    ↔ Extends 100 slots longer
assert_new_schedules_iff_example =
    assert_new_schedules_iff (config_with slots) (state_with 100 100 0) longer

-- a slot that is over, one that runs, and one that begins later
abbrev three_slots : Store host
three_slots = record bonded {
  config = some (config_with ((20, 60, 40) ∷ (100, 200, 1000000) ∷ (300, 400, 5) ∷ []));
}

abbrev migrated : Store host
migrated = record {
  config = some (config_with ((20, 60, 40) ∷ (100, 150, 500000) ∷ []));
  state = some (state_with 150 100 (5 * 10 ^ 21));
  rewards = λ k. if "alice" == k then some (info_with 0 100 0) else none;
}

abbrev migrate_response : Response ℕ
migrate_response = record {
  messages = wasm_execute "shard" 7 ∷ [];
  attributes =
      attr "action" (text "migrate_staking")
      ∷ attr "distributed_amount" (number 500040)
      ∷ attr "remaining_amount" (number 500005)
      ∷ [];
}

migrates :
    migrate_staking host (at 150) (caller "governor") "next" three_slots
    ≡ (ok migrate_response, migrated)
unfolding migrate_staking config_of state_of compute_reward distributed slot_amount prorated
    sum_amounts retain_started close_slot close_slots
migrates = refl

migrate_staking-Migrated_example :
    Migrated host 150 "governor" "next" three_slots migrated migrate_response
migrate_staking-Migrated_example =
    migrate_staking-Migrated host (at 150) (caller "governor") "next" three_slots migrated
      migrate_response migrates
