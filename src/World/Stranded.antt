-- ===== src/World/Stranded.antt =====
-- CoSign of internal/wallet/service.go when its request is cancelled before the event of an approval is
-- stored: AddApproval has stored the approval by then.
use mpc_custody.Prelude.{
  ◌+◌, ◌≡◌, ◌≢◌, refl, true, false, none, some, [], inl, inr, Option-cases, arith,
}
use mpc_custody.Errors.{Error, duplicate_approval}
use mpc_custody.Go.Str.{Str, str_eq, str_eq_iff}
use mpc_custody.Go.Dict.{lookup, insert, lookup-insert_self, length-insert}
use mpc_custody.Go.Exec.{ok, err, ◌>>=◌}
use mpc_custody.Ids.{new_id}
use mpc_custody.Wallet.Types.{Approval, TransactionProposal, proposed, approvals_count}
use mpc_custody.Wallet.Interfaces.{Context}
use mpc_custody.Wallet.Policy.{signer_allowed}
use mpc_custody.Wallet.Service.{cosign, append_audit}
use mpc_custody.Store.Memory.{MemoryStore, approve}
use mpc_custody.Store.Memory
use mpc_custody.World.{World, Setup, service, on_store, ask, count_metric}
use mpc_custody.World.Once.{IsRefused}

named_test : (signer : Str) → signer ≢ [] → str_eq signer [] ≡ false
named_test signer named = ground (arith, str_eq_iff signer [])

-- AddApproval over an open proposal, where the context is alive.
module _ (id : Str) (a : Approval) (p : TransactionProposal) (s : MemoryStore)
    (found : lookup id s.transactions ≡ some p) (open_status : p.status ≡ proposed) where
  add_fresh :
      lookup a.signer_id p.approvals ≡ none
      → Memory.add_approval none id a s
        ≡ (ok (approve a p), record s { transactions = insert id (approve a p) s.transactions })
  unfolding Memory.add_approval ◌>>=◌
  add_fresh fresh = ground (arith)

  add_duplicate :
      (b : Approval)
      → lookup a.signer_id p.approvals ≡ some b
      → Memory.add_approval none id a s ≡ (err duplicate_approval, s)
  unfolding Memory.add_approval ◌>>=◌
  add_duplicate b there = ground (arith)

add_ended :
    (e : Error) (id : Str) (a : Approval) (s : MemoryStore)
    → Memory.add_approval (some e) id a s ≡ (err e, s)
unfolding Memory.add_approval ◌>>=◌
add_ended e id a s = refl

abbrev approval_at : {X : Type 0} → Setup X → World X → Str → Approval
approval_at d w signer = record { signer_id = signer; created_at = d.outside.now_at w.tick }

-- An approval by a signer who approved an open proposal already is refused, and nothing is written.
cosign_again :
    {X : Type 0} (d : Setup X) (ctx : Context) (id signer : Str) (q : TransactionProposal)
    (a : Approval) (v : World X)
    → signer ≢ []
    → signer_allowed d.policy signer ≡ true
    → lookup id v.store.transactions ≡ some q
    → q.status ≡ proposed
    → lookup signer q.approvals ≡ some a
    → IsRefused (cosign (service d) ctx id signer) v
unfolding cosign on_store ask ◌>>=◌
cosign_again d ctx id signer q a v named allowed found open_status there =
    let has_name = named_test signer named in
    let twice = add_duplicate id (approval_at d v signer) q v.store found open_status a there in
    elim (Option-cases (ctx.err_at (v.tick + 1))) [
      | inl alive ↦ rw (has_name, allowed, alive, twice) (duplicate_approval, refl, refl, refl)
      | inr (e, ended) ↦
          let stopped = add_ended e id (approval_at d v signer) v.store in
          rw (has_name, allowed, ended, stopped) (e, refl, refl, refl)
    ]

-- An open proposal with one approval more, by `signer`, and no event of it.
pub record IsStranded (id signer : Str) (p : TransactionProposal) (s t : MemoryStore) : Type 0 where
  pub left : TransactionProposal
  pub is_stored : lookup id t.transactions ≡ some left
  pub still_open : left.status ≡ proposed
  pub approval : Approval
  pub recorded : lookup signer left.approvals ≡ some approval
  pub counted : approvals_count left ≡ approvals_count p + 1
  pub unaudited : t.audit_events ≡ s.audit_events

-- What such a run computes to.
cosign_stops :
    {X : Type 0} (d : Setup X) (ctx : Context) (id signer : Str) (p : TransactionProposal)
    (w : World X) (raw : Str) (e : Error)
    → signer ≢ []
    → signer_allowed d.policy signer ≡ true
    → lookup id w.store.transactions ≡ some p
    → p.status ≡ proposed
    → lookup signer p.approvals ≡ none
    → ctx.err_at (w.tick + 1) ≡ none
    → d.outside.random_at (w.tick + 1 + 1) 16 ≡ ok raw
    → ctx.err_at (w.tick + 1 + 1 + 1 + 1) ≡ some e
    → ((cosign (service d) ctx id signer w).0 ≡ err e)
      × ((cosign (service d) ctx id signer w).1.store ≡ record w.store {
        transactions = insert id (approve (approval_at d w signer) p) w.store.transactions;
      })
unfolding cosign append_audit on_store ask count_metric new_id Memory.append_audit_event ◌>>=◌
cosign_stops d ctx id signer p w raw e named allowed found open_status fresh alive random ended =
    let has_name = named_test signer named in
    let added = add_fresh id (approval_at d w signer) p w.store found open_status fresh in
    rw (has_name, allowed, alive, added, random, ended) (refl, refl)

-- Where the context of a request ends after the approval is stored and before its event is, CoSign
-- fails, but the open proposal is stored with one approval more, whatever its quorum, the audit trail
-- has no event of it, and the signer cannot approve again: such a request is refused, and nothing is
-- written. The signer has a name, is allowed and has not approved, and the random source answers.
pub cosign_strands :
    {X : Type 0} (d : Setup X) (ctx : Context) (id signer : Str) (p : TransactionProposal)
    (w : World X) (raw : Str) (e : Error)
    → signer ≢ []
    → signer_allowed d.policy signer ≡ true
    → lookup id w.store.transactions ≡ some p
    → p.status ≡ proposed
    → lookup signer p.approvals ≡ none
    → ctx.err_at (w.tick + 1) ≡ none
    → d.outside.random_at (w.tick + 1 + 1) 16 ≡ ok raw
    → ctx.err_at (w.tick + 1 + 1 + 1 + 1) ≡ some e
    → ((cosign (service d) ctx id signer w).0 ≡ err e)
      × IsStranded id signer p w.store (cosign (service d) ctx id signer w).1.store
      × ((later : Context)
          → IsRefused (cosign (service d) later id signer) (cosign (service d) ctx id signer w).1)
cosign_strands d ctx id signer p w raw e named allowed found open_status fresh alive random ended =
    let a = approval_at d w signer in
    let (answered, written) =
      cosign_stops d ctx id signer p w raw e named allowed found open_status fresh alive random
        ended in
    let there : lookup id (cosign (service d) ctx id signer w).1.store.transactions
        ≡ some (approve a p) =
      rw (written) (lookup-insert_self id (approve a p) w.store.transactions) in
    let recorded = lookup-insert_self signer a p.approvals in
    (
      answered,
      record {
        left = approve a p;
        is_stored = there;
        still_open = open_status;
        approval = a;
        recorded = recorded;
        counted = ground (arith, length-insert signer a p.approvals);
        unaudited = rw (written) refl;
      },
      λ later.
          cosign_again d later id signer (approve a p) a _ named allowed there open_status recorded,
    )
