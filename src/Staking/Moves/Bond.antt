-- ===== src/Staking/Moves/Bond.antt =====
-- `bond` and `receive_cw20` of contracts/staking/src/contract.rs.
use shard_token.Common.{
  ℕ, ◌+◌, String, ◌≡◌, ap, sym, subst, ◌∙◌, arith, ◌==◌, eq_iff, true, false, [], if◌then◌else◌,
  some, none, Option,
}
use shard_token.Common.Outcome.{ok, with_ok, with_guard}
use shard_token.Platform.Messages.{MessageInfo, Env, Response}
use shard_token.Platform.Decimals.{Decimals}
use shard_token.Staking.Msg.{Config, State, StakerInfo, Cw20ReceiveMsg, Cw20HookMsg}
use shard_token.Staking.Store.{Host, Store, config_of, state_of, info_of}
use shard_token.Staking.Rewards.{compute_reward, compute_staker_reward, increase_bond_amount}
use shard_token.Staking.Contract.{Run, hook, bond, receive_cw20}
use shard_token.Staking.Moves.{Accrued, Moved, stored-Moved, settled_bond}
use shard_token.Staking.Moves.Payment.{messages_of}

increased :
    (d : Decimals) (st : State d.Decimal) (i : StakerInfo d.Decimal) (amount : ℕ)
    (r : State d.Decimal × StakerInfo d.Decimal)
    → increase_bond_amount d st i amount ≡ ok r
    → (r.0 ≡ record st { total_bond_amount = st.total_bond_amount + amount })
      × (r.1 ≡ record i { bond_amount = i.bond_amount + amount })
increased d st i amount r h = ground arith

pub record Bonded (h : Host) (now : ℕ) (sender : String) (amount : ℕ) (s s' : Store h)
    (r : Response h.Binary) : Type 0 where
  pub owner : String
  pub is_owner : h.addr_canonicalize sender ≡ ok owner
  pub acc : Accrued h now owner s
  pub moved :
      Moved h now owner s s' acc
        ((info_of h owner s).bond_amount + amount)
        acc.settled.pending_reward
  pub silent : r.messages ≡ []

-- A successful `bond` settles the sender's reward, adds the amount to the sender's bond and to the
-- total, touches no other account and sends nothing.
pub bond-Bonded :
    (h : Host) (env : Env) (sender : String) (amount : ℕ) (s s' : Store h) (r : Response h.Binary)
    → bond h env sender amount s ≡ (ok r, s')
    → Bonded h env.seconds sender amount s s' r
unfolding bond
bond-Bonded h env sender amount s s' r e =
    with_ok (h.addr_canonicalize sender) _ s e λ owner is_owner e₁.
      with_ok (config_of h s) _ s e₁ λ c is_c e₂. with_ok (state_of h s) _ s e₂ λ st is_st e₃.
        with_ok (compute_reward h.decimals c st env.seconds) _ s e₃ λ rewarded is_rewarded e₄.
          with_ok (compute_staker_reward h.decimals rewarded (info_of h owner s)) _ s e₄
            λ settled is_settled e₅.
              with_ok (increase_bond_amount h.decimals rewarded settled amount) _ s e₅
                λ new is_new e₆.
                  let acc : Accrued h env.seconds owner s = record {
                    config = c;
                    state = st;
                    rewarded = rewarded;
                    settled = settled;
                    is_config = is_c;
                    is_state = is_st;
                    is_rewarded = is_rewarded;
                    is_settled = is_settled;
                  } in
                  let (new_state, new_info) =
                    increased h.decimals rewarded settled amount new is_new in
                  let held = (info_of h owner s).bond_amount in
                  let same : settled.bond_amount ≡ held = settled_bond h acc in
                  record {
                    owner = owner;
                    is_owner = is_owner;
                    acc = acc;
                    moved =
                        subst
                          (λ t.
                            Moved h env.seconds owner s t acc (held + amount)
                              settled.pending_reward)
                          (ap (λ p. p.1) e₆)
                          (stored-Moved h acc new.0 new.1 (rewarded.total_bond_amount + amount)
                            (held + amount) settled.pending_reward new_state
                            (new_info ∙ ap (λ n. record settled { bond_amount = n + amount }) same)
                            (omega arith));
                    silent = sym (ap (λ p. messages_of p.0) e₆);
                  }

-- Tokens are bonded only where the staking token itself calls, and then for the sender that it
-- names and with the amount that it names.
pub record Received (h : Host) (now : ℕ) (caller : String) (msg : Cw20ReceiveMsg h.Binary)
    (s s' : Store h) (r : Response h.Binary) : Type 0 where
  pub config : Config
  pub is_config : config_of h s ≡ ok config
  pub called_by_token : h.addr_canonicalize caller ≡ ok config.staking_token
  pub sender : String
  pub is_sender : h.addr_validate msg.sender ≡ ok sender
  pub bonded : Bonded h now sender msg.amount s s' r

same_token : (a b : String) → (if a == b then false else true) ≡ false → b ≡ a
same_token a b h = ground (arith, eq_iff a b)

with_hook :
    (h : Host) {P : Type 0} (o : Option Cw20HookMsg) (run : Run h (Response h.Binary)) (s : Store h)
    {r : Response h.Binary} {s' : Store h}
    → hook h o run s ≡ (ok r, s')
    → (run s ≡ (ok r, s') → P)
    → P
with_hook h none run s e go = cc (ap (λ p. p.0) e)
with_hook h (some Cw20HookMsg.bond) run s e go = go e

-- A `receive` succeeds only from the staking token, and then bonds what it names.
pub receive_cw20-Received :
    (h : Host) (env : Env) (info : MessageInfo) (msg : Cw20ReceiveMsg h.Binary) (s s' : Store h)
    (r : Response h.Binary)
    → receive_cw20 h env info msg s ≡ (ok r, s')
    → Received h env.seconds info.sender msg s s' r
unfolding receive_cw20
receive_cw20-Received h env info msg s s' r e = with_ok (config_of h s) _ s e λ c is_c e₁.
    with_hook h (h.hook_from_binary msg.msg) _ s e₁ λ e₂.
      with_ok (h.addr_canonicalize info.sender) _ s e₂ λ caller is_caller e₃.
        with_guard (if c.staking_token == caller then false else true) _ _ s e₃ λ same e₄.
          with_ok (h.addr_validate msg.sender) _ s e₄ λ sender is_sender e₅. record {
            config = c;
            is_config = is_c;
            called_by_token = is_caller ∙ ap ok (same_token c.staking_token caller same);
            sender = sender;
            is_sender = is_sender;
            bonded = bond-Bonded h env sender msg.amount s s' r e₅;
          }
