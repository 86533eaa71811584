-- ===== src/Staking/Governance.antt =====
-- What the governor alone may do, contracts/staking/src/contract.rs: `update_config` and
-- `migrate_staking`.
use shard_token.Common.{
  ℕ, ◌+◌, String, ◌≡◌, refl, ap, sym, subst, ◌∙◌, arith, ◌==◌, eq_iff, true, false, List, [], ◌∷◌,
  if◌then◌else◌,
}
use shard_token.Common.Outcome.{ok, with_ok, with_guard}
use shard_token.Platform.Messages.{
  MessageInfo, Env, Response, Attribute, attr, text, number, wasm_execute, transfer,
}
use shard_token.Staking.Msg.{Slot, Config, State}
use shard_token.Staking.Store.{Host, Store, config_of, state_of, info_of}
use shard_token.Staking.Store.Laws.{config_of-save, state_of-save}
use shard_token.Staking.Rewards.{compute_reward, checked_sub}
use shard_token.Staking.Rewards.Slots.{amounts}
use shard_token.Staking.Schedules.{assert_new_schedules, sum_amounts, close_slots, retain_started}
use shard_token.Staking.Schedules.Update.{Extends, assert_new_schedules_iff}
use shard_token.Staking.Schedules.Migration.{AllClosed, Closes, migration_splits}
use shard_token.Staking.Moves.Payment.{messages_of, attributes_of}
use shard_token.Staking.Contract.{query_anc_minter, update_config, migrate_staking}

-- The caller is the minter that the token contract names, as canonical addresses compare.
pub record Governs (h : Host) (c : Config) (sender : String) : Type 0 where
  pub token : String
  pub minter : String
  pub address : String
  pub known_token : h.addr_humanize c.shard_token ≡ ok token
  pub known_minter : query_anc_minter h token ≡ ok minter
  pub minter_address : h.addr_canonicalize minter ≡ ok address
  pub sender_address : h.addr_canonicalize sender ≡ ok address

pub record Updated (h : Host) (sender : String) (slots : List Slot) (s s' : Store h) : Type 0 where
  pub config : Config
  pub state : State h.decimals.Decimal
  pub old_config : config_of h s ≡ ok config
  pub old_state : state_of h s ≡ ok state
  pub governs : Governs h config sender
  pub extends : Extends state.last_distributed config.distribution_schedule slots
  pub new_config : config_of h s' ≡ ok (record config { distribution_schedule = slots })
  pub same_state : state_of h s' ≡ ok state
  pub same_infos : (a : String) → info_of h a s' ≡ info_of h a s

same_address : (a b : String) → (if a == b then false else true) ≡ false → a ≡ b
same_address a b h = ground (arith, eq_iff a b)

-- `update_config` succeeds only for the governor and a schedule that extends the old one, and then
-- replaces the schedule and nothing else.
pub update_config-Updated :
    (h : Host) (info : MessageInfo) (slots : List Slot) (s s' : Store h) (r : Response h.Binary)
    → update_config h info slots s ≡ (ok r, s')
    → Updated h info.sender slots s s'
unfolding update_config
update_config-Updated h info slots s s' r e = with_ok (config_of h s) _ s e λ c is_c e₁.
    with_ok (state_of h s) _ s e₁ λ st is_st e₂.
      with_ok (h.addr_canonicalize info.sender) _ s e₂ λ sender is_sender e₃.
        with_ok (h.addr_humanize c.shard_token) _ s e₃ λ token is_token e₄.
          with_ok (query_anc_minter h token) _ s e₄ λ minter is_minter e₅.
            with_ok (h.addr_canonicalize minter) _ s e₅ λ gov is_gov e₆.
              with_guard (if sender == gov then false else true) _ _ s e₆ λ same e₇.
                with_ok (assert_new_schedules c st slots) _ s e₇ λ done is_done e₈.
                  subst (λ t. Updated h info.sender slots s t) (ap (λ p. p.1) e₈)
                    (record {
                      config = c;
                      state = st;
                      old_config = is_c;
                      old_state = is_st;
                      governs = record {
                        token = token;
                        minter = minter;
                        address = sender;
                        known_token = is_token;
                        known_minter = is_minter;
                        minter_address =
                            is_gov ∙ ap (λ a. ok a) (sym (same_address sender gov same));
                        sender_address = is_sender;
                      };
                      extends = (assert_new_schedules_iff c st slots).0 is_done;
                      new_config = config_of-save h s (record c { distribution_schedule = slots });
                      same_state = unfold state_of in is_st;
                      same_infos = λ a. unfold info_of in refl;
                    })

-- what the answer to a migration shows
abbrev pub migrate_attributes : ℕ → ℕ → List Attribute
migrate_attributes distributed remaining =
    attr "action" (text "migrate_staking")
    ∷ attr "distributed_amount" (number distributed)
    ∷ attr "remaining_amount" (number remaining)
    ∷ []

-- What a migration has done. The rewards are brought up to date by the old schedule, the slots of the
-- new schedule are those that have begun, closed, and the new contract is sent what they do not keep
-- of the old schedule's amounts.
pub record Migrated (h : Host) (now : ℕ) (sender new_contract : String) (s s' : Store h)
    (r : Response h.Binary) : Type 0 where
  pub config : Config
  pub governs : Governs h config sender
  pub old_config : config_of h s ≡ ok config
  pub state : State h.decimals.Decimal
  pub old_state : state_of h s ≡ ok state
  pub rewarded : State h.decimals.Decimal
  pub is_rewarded : compute_reward h.decimals config state now ≡ ok rewarded
  pub new_state : state_of h s' ≡ ok rewarded
  pub kept : List Slot
  pub new_config : config_of h s' ≡ ok (record config { distribution_schedule = kept })
  pub closes : Closes now config.distribution_schedule kept
  pub closed : AllClosed now kept
  pub remaining : ℕ
  pub split : amounts config.distribution_schedule ≡ amounts kept + remaining
  pub msg : h.Binary
  pub is_msg : h.to_binary (transfer new_contract remaining) ≡ ok msg
  pub sent : r.messages ≡ wasm_execute governs.token msg ∷ []
  pub shown : r.attributes ≡ migrate_attributes (amounts kept) remaining
  pub same_infos : (a : String) → info_of h a s' ≡ info_of h a s

-- `migrate_staking` succeeds only for the governor. The rewards are then brought up to date by the old
-- schedule. Of its slots those that have not begun are dropped, those that are over stay as they are,
-- and those that are running end now with what their rates gave out since they began. What these keep
-- and what is sent to the new contract are together the amounts of the old schedule, and are shown. No
-- account changes.
pub migrate_staking-Migrated :
    (h : Host) (env : Env) (info : MessageInfo) (new_contract : String) (s s' : Store h)
    (r : Response h.Binary)
    → migrate_staking h env info new_contract s ≡ (ok r, s')
    → Migrated h env.seconds info.sender new_contract s s' r
unfolding migrate_staking
migrate_staking-Migrated h env info new_contract s s' r e =
    with_ok (h.addr_canonicalize info.sender) _ s e λ sender is_sender e₁.
      with_ok (config_of h s) _ s e₁ λ c is_c e₂. with_ok (state_of h s) _ s e₂ λ st is_st e₃.
        with_ok (h.addr_humanize c.shard_token) _ s e₃ λ token is_token e₄.
          with_ok (query_anc_minter h token) _ s e₄ λ minter is_minter e₅.
            with_ok (h.addr_canonicalize minter) _ s e₅ λ gov is_gov e₆.
              with_guard (if sender == gov then false else true) _ _ s e₆ λ same e₇.
                with_ok (compute_reward h.decimals c st env.seconds) _ s e₇
                  λ rewarded is_rewarded e₈.
                    with_ok (sum_amounts c.distribution_schedule 0) _ s e₈ λ total is_total e₉.
                      with_ok
                        (close_slots h.decimals env.seconds
                          (retain_started env.seconds c.distribution_schedule) 0)
                        _ s e₉
                        λ closed is_closed e₁₀.
                          let (kept, is_less, all, over, closes) =
                            migration_splits h.decimals env.seconds c.distribution_schedule total
                              closed is_total is_closed in
                          with_ok (checked_sub total closed.1) _ _ e₁₀ λ remaining is_remaining e₁₁.
                            with_ok (h.to_binary (transfer new_contract remaining)) _ _ e₁₁
                              λ msg is_msg e₁₂.
                                subst (λ t. Migrated h env.seconds info.sender new_contract s t r)
                                  (ap (λ p. p.1) e₁₂)
                                  (record {
                                    config = c;
                                    governs = record {
                                      token = token;
                                      minter = minter;
                                      address = sender;
                                      known_token = is_token;
                                      known_minter = is_minter;
                                      minter_address =
                                          is_gov
                                          ∙ ap (λ a. ok a) (sym (same_address sender gov same));
                                      sender_address = is_sender;
                                    };
                                    old_config = is_c;
                                    state = st;
                                    old_state = is_st;
                                    rewarded = rewarded;
                                    is_rewarded = is_rewarded;
                                    new_state =
                                        state_of-save h
                                          (record s {
                                            config =
                                                h.config_cell.save
                                                  (record c { distribution_schedule = closed.0 })
                                                  s.config;
                                          })
                                          rewarded;
                                    kept = closed.0;
                                    new_config =
                                        config_of-save h
                                          (record s { state = h.state_cell.save rewarded s.state })
                                          (record c { distribution_schedule = closed.0 });
                                    closes = closes;
                                    closed = over;
                                    remaining = remaining;
                                    split = ground arith;
                                    msg = msg;
                                    is_msg = is_msg;
                                    sent = sym (ap (λ p. messages_of p.0) e₁₂);
                                    shown =
                                        sym (ap (λ p. attributes_of p.0) e₁₂)
                                        ∙ ap (λ n. migrate_attributes n remaining) kept;
                                    same_infos = λ a. unfold info_of in refl;
                                  })
