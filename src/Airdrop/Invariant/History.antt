-- ===== src/Airdrop/Invariant/History.antt =====
-- What histories of calls of the airdrop contract keep: `execute` of
-- contracts/airdrop/src/contract.rs, call after call.
use shard_token.Common.{
  ℕ, ◌+◌, String, true, ◌≡◌, sym, ◌∙◌, arith, List, inl, inr, Bool-cases, nat_eq, ◌==◌, eq_iff,
  ◌&&◌,
}
use shard_token.Common.Outcome.{ok, err, same_value}
use shard_token.Platform.Messages.{MessageInfo, Response}
use shard_token.Platform.Storage.{number_eq}
use shard_token.Airdrop.Msg.{ExecuteMsg, already_claimed}
use shard_token.Airdrop.Store.{Host, Store, root_of, has_claimed}
use shard_token.Airdrop.Contract.{claim, execute}
use shard_token.Airdrop.Claims.{claim-Claimed, claim_refused}
use shard_token.Airdrop.Stages.{register_merkle_root-Registered, update_config-Reowned}
use shard_token.Airdrop.Invariant.{IsOrderly, same_number, execute-IsOrderly, claim-IsOrderly}

-- What no later call takes back: the root of a stage, and the mark of a claim.
pub record Keeps (h : Host) (s s' : Store h) : Type 0 where
  pub roots : (n : ℕ) (root : String) → root_of h n s ≡ ok root → root_of h n s' ≡ ok root
  pub claims : (u : String) (n : ℕ) → has_claimed h u n s ≡ true → has_claimed h u n s' ≡ true

claims_kept :
    (h : Host) (s s' : Store h) (info : MessageInfo) (stage amount : ℕ) (proof : List String)
    (r : Response h.Binary)
    → claim h info stage amount proof s ≡ (ok r, s')
    → (u : String) (n : ℕ) → has_claimed h u n s ≡ true
    → has_claimed h u n s' ≡ true
claims_kept h s s' info stage amount proof r e u n before =
    let c = claim-Claimed h info stage amount proof s s' r e in
    elim (Bool-cases ((c.user == u) && nat_eq stage n)) [
      | inl own ↦
          let same_user : c.user ≡ u = ground (arith, eq_iff c.user u) in
          let same_stage : stage ≡ n = ground arith in rw (sym same_user, sym same_stage) c.after
      | inr other ↦ c.others u n other ∙ before
    ]

-- A call that succeeds in an orderly state keeps every root and every claim.
execute-Keeps :
    (h : Host) (info : MessageInfo) (msg : ExecuteMsg) (s s' : Store h) (r : Response h.Binary)
    → execute h info msg s ≡ (ok r, s')
    → IsOrderly h s
    → Keeps h s s'
unfolding execute
execute-Keeps h info (ExecuteMsg.update_config owner) s s' r e o =
    let u = update_config-Reowned h info owner s s' r e in
    record { roots = λ n root is. u.same_roots n ∙ is; claims = λ v n is. u.same_claims v n ∙ is }
execute-Keeps h info (ExecuteMsg.claim stage amount proof) s s' r e o =
    let c = claim-Claimed h info stage amount proof s s' r e in
    record {
      roots = λ n root is. c.same_roots n ∙ is;
      claims = claims_kept h s s' info stage amount proof r e;
    }
execute-Keeps h info (ExecuteMsg.register_merkle_root root) s s' r e o =
    let g = register_merkle_root-Registered h info root s s' r e in
    let same : g.stage ≡ o.latest = same_value g.old_stage o.is_latest in
    record {
      roots = λ n old is. elim (Bool-cases (nat_eq (g.stage + 1) n)) [
        | inl new ↦
            let is_new : g.stage + 1 ≡ n = same_number _ _ new in
            let missing = o.none_after n (omega arith) in cc (missing, is)
        | inr other ↦ g.other_roots n other ∙ is
      ];
      claims = λ v n is. g.same_claims v n ∙ is;
    }

-- A call that succeeded, by any sender, and a history of them.
pub data Step (h : Host) : Store h → Store h → Type 0 where
  called :
      {s : Store h} (s' : Store h) (info : MessageInfo) (msg : ExecuteMsg)
      (answer : Response h.Binary)
      → execute h info msg s ≡ (ok answer, s')
      → Step h s s'

pub data Reach (h : Host) (s : Store h) : Store h → Type 0 where
  here : Reach h s s
  next : {t u : Store h} → Reach h s t → Step h t u → Reach h s u

-- Over every history from an orderly state, the state stays orderly, and every root and every claim is
-- kept.
pub Reach-Keeps :
    (h : Host) {s t : Store h} → Reach h s t → IsOrderly h s → IsOrderly h t × Keeps h s t
Reach-Keeps h here o = (o, record { roots = λ n root e. e; claims = λ u n e. e })
Reach-Keeps h (next r (called {s} s' info msg answer e)) o =
    let (before, kept) = Reach-Keeps h r o in
    let k = execute-Keeps h info msg s s' answer e before in
    (
      execute-IsOrderly h info msg s s' answer e before,
      record {
        roots = λ n root is. k.roots n root (kept.roots n root is);
        claims = λ u n is. k.claims u n (kept.claims u n is);
      },
    )

-- After a claim that succeeded in an orderly state, whatever calls succeed in between, a claim of the
-- same sender for the same stage is refused as already made, whatever its amount and its proof.
pub claimed_for_good :
    (h : Host) (info : MessageInfo) (stage amount again : ℕ) (proof other : List String)
    (s s' t : Store h) (r : Response h.Binary)
    → IsOrderly h s
    → claim h info stage amount proof s ≡ (ok r, s')
    → Reach h s' t
    → claim h info stage again other t ≡ (err already_claimed, t)
claimed_for_good h info stage amount again proof other s s' t r o e history =
    let c = claim-Claimed h info stage amount proof s s' r e in
    let now = claim-IsOrderly h info stage amount proof s s' r e o in
    let (later, kept) = Reach-Keeps h history now in
    claim_refused h info stage again other t later.config c.root c.user later.is_config
      (kept.roots stage c.root (c.same_roots stage ∙ c.is_root)) c.is_user
      (kept.claims c.user stage c.after)
