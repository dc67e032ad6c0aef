-- ===== src/World/Liveness.antt =====
-- CoSign of internal/wallet/service.go where no outside call fails.
use mpc_custody.Prelude.{
  ◌≤◌, ◌≡◌, ◌≢◌, refl, sym, subst, not, ◌&&◌, leb, ap, ◌∙◌, subst₂, Bool, true, false,
  if◌then◌else◌, none, some, [], arith,
}
use mpc_custody.Go.Str.{Str, bytes, str_eq, str_eq_iff}
use mpc_custody.Go.Dict.{lookup, length-insert, lookup-insert_self}
use mpc_custody.Go.Exec.{Result, ok, err, ◌>>◌, pure}
use mpc_custody.Go.Exec.Triple.{
  Post, Triple, Triple-bind, Triple-given, Triple-pass, Triple-then, Triple-strengthen,
  Triple-weaken,
}
use mpc_custody.Wallet.Types.{
  Approval, Time, TransactionProposal, proposed, is_proposed, approvals_count, transaction_approved,
}
use mpc_custody.Wallet.Interfaces.{Context}
use mpc_custody.Wallet.Policy.{signer_allowed}
use mpc_custody.Wallet.Service.{
  chain_label, append_audit, transaction_event, sign_at_quorum, cosign,
}
use mpc_custody.Store.Memory.{add_approval, approve}
use mpc_custody.Store.Memory.Approvals.{add_approval-ok}
use mpc_custody.World.{World, Setup, service, count_metric}
use mpc_custody.World.Order.{HasOwnState}
use mpc_custody.World.Signed.{IsSigned, Signs, sign_at_quorum-total}
use mpc_custody.World.Still.{
  Still, Triple-Still, ask-Still, on_store-Still, count_metric-Still, append_audit-Still,
}
use mpc_custody.World.Hoare.{Proposals, At, In}
use mpc_custody.World.Calm.{
  Calm, Never, ask-total, count_metric-total, on_store-total, append_audit-total,
}

not_empty : (signer : Str) → signer ≢ [] → str_eq signer [] ≡ false
not_empty signer h = ground (arith, str_eq_iff signer [])

admitted : (b : Bool) → b ≡ true → not b ≡ false
admitted b h = ground arith

quorum_reached :
    (a : Approval) (p q : TransactionProposal)
    → q ≡ approve a p
    → p.status ≡ proposed
    → lookup a.signer_id p.approvals ≡ none
    → 1 ≤ approvals_count p
    → (is_proposed q.status && leb 2 (approvals_count q)) ≡ true
quorum_reached a p q e open_status fresh one =
    ground (arith, length-insert a.signer_id a p.approvals)

-- The approval of `p` by `signer` at an instant completes the quorum and is signed.
pub record Completed {X : Type 0} (d : Setup X) (ctx : Context) (x : X) (id signer : Str)
    (p q : TransactionProposal) (t : Proposals) : Type 0 where
  pub at_time : Time
  pub as_signed :
      IsSigned d ctx x id (approve (record { signer_id = signer; created_at = at_time }) p) q t

module _ {X : Type 0} (d : Setup X) (ctx : Context) (calm : Calm d ctx) (own : HasOwnState d)
    (x : X) where
  approve-total :
      (id : Str) (a : Approval) (p : TransactionProposal)
      → p.status ≡ proposed
      → lookup a.signer_id p.approvals ≡ none
      → Triple
          (In Never)
          (In (λ t. lookup id t ≡ some p))
          (add_approval none id a)
          (λ q s. (lookup id s.transactions ≡ some q) × (q ≡ approve a p))
  approve-total id a p open_status fresh = record {
    at = λ s found.
        rw (add_approval-ok id a p s found open_status fresh)
          (lookup-insert_self id (approve a p) s.transactions, refl);
  }

  recorded-total :
      (id signer : Str) (now : Time) (p q : TransactionProposal)
      → q ≡ approve (record { signer_id = signer; created_at = now }) p
      → p.id ≡ id
      → p.status ≡ proposed
      → lookup signer p.approvals ≡ none
      → 1 ≤ approvals_count p
      → Signs d ctx x (approve (record { signer_id = signer; created_at = now }) p)
      → Triple
          (At Never)
          (Still x (λ t. lookup id t ≡ some q))
          (count_metric (bytes "custody_transaction_approvals_total") (chain_label q.chain)
            >> (append_audit (service d) ctx (transaction_event transaction_approved signer q none)
                >> (if is_proposed q.status && leb 2 (approvals_count q)
                    then sign_at_quorum (service d) ctx q
                    else pure q)))
          (λ r. At (Completed d ctx x id signer p r))
  recorded-total id signer now p q e keyed open_status fresh one signs =
      let a : Approval = record { signer_id = signer; created_at = now } in
      Triple-bind
        (Triple-Still x (λ t. lookup id t ≡ some q) (λ _ t. lookup id t ≡ some q)
          (count_metric-Still _ _) (count_metric-total (λ t. lookup id t ≡ some q) _ _))
        λ _.
          Triple-bind
            (Triple-Still x (λ t. lookup id t ≡ some q) (λ _ t. lookup id t ≡ some q)
              (append_audit-Still d ctx _)
              (append_audit-total d ctx calm (λ t. lookup id t ≡ some q)
                (transaction_event transaction_approved signer q none)))
            λ _. Triple-then _ _ (quorum_reached a p q e open_status fresh one) (
              Triple-strengthen
                (λ w (h, still). (
                  subst (λ k. lookup k w.store.transactions ≡ some q)
                      (sym (ap (λ r. r.id) e ∙ keyed)) h,
                  still,
                ))
                (Triple-weaken
                  (λ r w h. record {
                    at_time = now;
                    as_signed =
                        subst₂ (λ k v. IsSigned d ctx x k v r w.store.transactions)
                          (ap (λ v. v.id) e ∙ keyed) e h;
                  })
                  (sign_at_quorum-total d ctx calm own x q (ap (λ r. r.status) e ∙ open_status)
                    (subst (Signs d ctx x) (sym e) signs))))

  cosign-total :
      (id signer : Str) (p : TransactionProposal)
      → signer ≢ []
      → signer_allowed d.policy signer ≡ true
      → p.id ≡ id
      → p.status ≡ proposed
      → lookup signer p.approvals ≡ none
      → 1 ≤ approvals_count p
      → ((at_time : Time)
          → Signs d ctx x (approve (record { signer_id = signer; created_at = at_time }) p))
      → Triple
          (At Never)
          (Still x (λ t. lookup id t ≡ some p))
          (cosign (service d) ctx id signer)
          (λ q. At (Completed d ctx x id signer p q))
  unfolding cosign
  cosign-total id signer p named allowed keyed open_status fresh one signs =
      Triple-pass _ _ _ (not_empty signer named) (
        Triple-pass _ _ _ (admitted _ allowed) (
          Triple-bind
            (Triple-Still x (λ t. lookup id t ≡ some p) (λ _ t. lookup id t ≡ some p) (ask-Still _)
              (ask-total (λ t. lookup id t ≡ some p) _ d.outside.now_at (λ n. refl)))
            λ now.
              Triple-bind
                (Triple-Still x (λ t. lookup id t ≡ some p)
                  (λ q t.
                    (lookup id t ≡ some q)
                    × (q ≡ approve (record { signer_id = signer; created_at = now }) p))
                  (on_store-Still ctx _)
                  (on_store-total (λ t. lookup id t ≡ some p) _ ctx _ calm.alive
                    (approve-total id (record { signer_id = signer; created_at = now }) p
                      open_status fresh)))
                λ q.
                  Triple-strengthen (λ w ((h, same), e). ((h, e), same))
                    (Triple-given λ same.
                      recorded-total id signer now p q same keyed open_status fresh one
                        (signs now))))

-- Where the context stays alive and the random source answers, and the backend keeps its own state and
-- signs the proposal with this approval, whenever it is made, as long as what is outside of the service
-- is as it was: the approval of an allowed signer with a name, who has not approved a stored and
-- proposed transaction that has an approval, is answered by the transaction as signed. It carries the
-- payload of a signature that the backend gives for the approved proposal, keeps its approvals, and is
-- stored.
pub cosign_completes :
    {X : Type 0} (d : Setup X) (ctx : Context) (id signer : Str) (p : TransactionProposal)
    (w : World X)
    → Calm d ctx
    → HasOwnState d
    → signer ≢ []
    → signer_allowed d.policy signer ≡ true
    → lookup id w.store.transactions ≡ some p
    → p.id ≡ id
    → p.status ≡ proposed
    → lookup signer p.approvals ≡ none
    → 1 ≤ approvals_count p
    → ((at_time : Time)
        → Signs d ctx w.external (approve (record { signer_id = signer; created_at = at_time }) p))
    → (q : TransactionProposal) × ((cosign (service d) ctx id signer w).0 ≡ ok q)
      × Completed d ctx w.external id signer p q
          (cosign (service d) ctx id signer w).1.store.transactions
cosign_completes {X} d ctx id signer p w calm own named allowed found keyed open_status fresh one
      signs =
    returned (cosign (service d) ctx id signer w) (
      (cosign-total d ctx calm own w.external id signer p named allowed keyed open_status fresh one
          signs).at
        w (found, refl))
  where
    returned :
        (r : Result TransactionProposal × World X)
        → Post {W = World X} (At Never) (λ q. At (Completed d ctx w.external id signer p q)) r
        → (q : TransactionProposal) × (r.0 ≡ ok q)
          × Completed d ctx w.external id signer p q r.1.store.transactions
    returned (ok q, v) h = (q, refl, h)
    returned (err e, v) h = absurd h
