-- ===== src/World/Safety.antt =====
-- A property of the stored proposals under CoSign and Broadcast of internal/wallet/service.go, over the in-memory store.
use mpc_custody.Prelude.{
  ℕ, ◌≤◌, ◌≡◌, Bool, true, false, not, ◌&&◌, ◌||◌, Option, none, some, [], leb, arith,
}
use mpc_custody.Errors.{Error, error_text, unsupported_chain}
use mpc_custody.Go.Str.{Str, str_eq}
use mpc_custody.Go.Dict.{lookup}
use mpc_custody.Go.Exec.{ok, err, Exec}
use mpc_custody.Go.Exec.Triple.{
  Triple, Triple-after, Triple-pure, Triple-if, Triple-bind, Triple-ignore, Triple-on_error,
  Triple-guard, Triple-lift_bind, Triple-given, Triple-map_error, Triple-strengthen,
}
use mpc_custody.Wallet.Types.{
  Chain, Signature, TransactionProposal, transaction_failed, transaction_approved, approvals_count,
  is_proposed, is_signed, AuditEvent,
}
use mpc_custody.Wallet.Interfaces.{Context, ChainAdapter}
use mpc_custody.Wallet.Effects.{IsQuiet, new_id-Within}
use mpc_custody.Wallet.Service.{
  transaction_event, failure_metadata, append_audit, fail_transaction, record_failure, adapter_for,
  finish_signing, sign_at_quorum, cosign, broadcast,
}
use mpc_custody.Store.Memory.{MemoryStore, append_audit_event}
use mpc_custody.World.{World, Setup, service, on_store}
use mpc_custody.World.Among.{service_among}
use mpc_custody.World.Grows.{Grown-trans, Steady}
use mpc_custody.World.Order.{HasOwnState, store_order, service-IsQuiet}
use mpc_custody.World.Invariant.{Invariant}
use mpc_custody.World.Hoare.{Proposals, In, At, same_proposals, Triple-on_store, Triple-Within}
use mpc_custody.World.Steps.{
  IsStored, add_approval-Triple, mark_transaction_signed-Triple, update_transaction-Triple,
  get_transaction-Triple,
}

append_audit_event-same :
    (c : Option Error) (e : AuditEvent) (s : MemoryStore)
    → (append_audit_event c e s).1.transactions ≡ s.transactions
unfolding append_audit_event
append_audit_event-same c e s = ground arith

not-false : (b : Bool) → not b ≡ false → b ≡ true
not-false b h = ground arith

at_quorum : (b : Bool) (n : ℕ) → (b && leb 2 n) ≡ true → 2 ≤ n
at_quorum b n h = ground arith

was_signed :
    (p : TransactionProposal)
    → (not (is_signed p.status) || str_eq p.signed_transaction []) ≡ false
    → is_signed p.status ≡ true
was_signed p h = ground arith

was_proposed : (b c : Bool) → (b && c) ≡ true → b ≡ true
was_proposed b c h = ground arith

-- The statuses that a failure follows.
in_progress : (b c : Bool) → b ≡ true → (b || c) ≡ true
in_progress b c h = ground arith

in_progress_too : (b c : Bool) → c ≡ true → (b || c) ≡ true
in_progress_too b c h = ground arith

module _ {X : Type 0} (d : Setup X) (own : HasOwnState d) (inv : Invariant d.policy)
    (others : World X → World X) (steady : Steady inv.All others) where
  pub quiet : IsQuiet (store_order same_proposals) (service d)
  quiet = service-IsQuiet same_proposals append_audit_event-same d own

  abbrev pub Valid : Proposals → Type 0
  Valid = inv.All

  -- The proposal has the property, in a store that has it.
  abbrev pub With : TransactionProposal → Proposals → Type 0
  With p t = Valid t × inv.One p.id p

  -- What others leave true.
  abbrev pub IsStable : (Proposals → Type 0) → Type 0
  IsStable P = (w : World X) → At P w → At P (others w)

  With-Stable : (p : TransactionProposal) → IsStable (With p)
  With-Stable p w h = (steady.keeps w h.0, h.1)

  IsStored-Stable : (p : TransactionProposal) → IsStable (IsStored d.policy inv p)
  IsStored-Stable p w (h, sound, (q, there, grown)) =
      let (r, later, more) = (steady.grows w h).later p.id q there in
      (steady.keeps w h, sound, (r, later, Grown-trans p q r grown more))

  -- A method of the store, called after others.
  pub Triple-among :
      {A : Type 0} (P : Proposals → Type 0) (Q : A → Proposals → Type 0) (ctx : Context)
      (f : Option Error → Exec MemoryStore A)
      → IsStable P
      → ((c : Option Error) → Triple (In Valid) (In P) (f c) (λ a. In (Q a)))
      → Triple (At Valid) (At P) (λ w. on_store ctx f (others w)) (λ a. At (Q a))
  Triple-among P Q ctx f stable h = Triple-after others stable (Triple-on_store Valid P Q ctx f h)

  -- Appending to the audit trail keeps what is known of the proposals.
  pub append_audit-Triple :
      (P : Proposals → Type 0) (ctx : Context) (e : AuditEvent)
      → IsStable P
      → ((t : Proposals) → P t → Valid t)
      → Triple (At Valid) (At P) (append_audit (service_among others d) ctx e) (λ _. At P)
  unfolding append_audit
  append_audit-Triple P ctx e stable weaker =
      Triple-bind (Triple-Within Valid P _ weaker (new_id-Within quiet _)) λ id.
        Triple-bind (Triple-Within Valid P _ weaker quiet.now_within) λ now.
          Triple-bind
            (Triple-after others stable (Triple-Within Valid P _ weaker (quiet.audit_within ctx _)))
            λ _. Triple-Within Valid P _ weaker (quiet.inc_within _ _)

  pub audited :
      (ctx : Context) (e : AuditEvent)
      → Triple (At Valid) (At Valid) (append_audit (service_among others d) ctx e) (λ _. At Valid)
  audited ctx e = append_audit-Triple Valid ctx e steady.keeps (λ t s. s)

  fail_transaction-Triple :
      (ctx : Context) (p : TransactionProposal) (e : Error) (phase : Str)
      → (is_proposed p.status || is_signed p.status) ≡ true
      → inv.One p.id p
      → Triple
          (At Valid)
          (At Valid)
          (fail_transaction (service_among others d) ctx p e phase)
          (λ _. At Valid)
  unfolding fail_transaction
  fail_transaction-Triple ctx p e phase open_status h =
      Triple-bind (Triple-Within Valid Valid _ (λ t s. s) quiet.now_within) λ now.
        Triple-map_error _ (
          Triple-among Valid (λ _. Valid) ctx _ steady.keeps
            λ c.
              update_transaction-Triple d.policy inv c _
                (inv.fail_law p.id (error_text e) now p open_status h))

  pub record_failure-Triple :
      (ctx : Context) (p : TransactionProposal) (phase : Str) (e : Error)
      → (is_proposed p.status || is_signed p.status) ≡ true
      → Triple
          (At Valid)
          (At (With p))
          (record_failure (service_among others d) ctx p phase e)
          (λ _. At Valid)
  unfolding record_failure
  record_failure-Triple ctx p phase e open_status = Triple-given λ h.
      Triple-bind (Triple-ignore (fail_transaction-Triple ctx p e phase open_status h)) λ _.
        Triple-ignore
          (audited ctx (transaction_event transaction_failed [] p (failure_metadata e phase)))

  finish_signing-Triple :
      (ctx : Context) (g : Signature) (r : TransactionProposal × Bool)
      → Triple
          (At Valid)
          (At Valid)
          (finish_signing (service_among others d) ctx g r)
          (λ _. At Valid)
  unfolding finish_signing
  finish_signing-Triple ctx g (p, false) = Triple-pure p _ (λ w s. s)
  finish_signing-Triple ctx g (p, true) =
      Triple-bind (Triple-Within Valid Valid _ (λ t s. s) (quiet.inc_within _ _))
        λ _. Triple-bind (audited ctx _) λ _. Triple-pure p _ (λ w s. s)

  sign_at_quorum-Triple :
      (ctx : Context) (p : TransactionProposal)
      → is_proposed p.status ≡ true
      → 2 ≤ approvals_count p
      → Triple
          (At Valid)
          (At (IsStored d.policy inv p))
          (sign_at_quorum (service_among others d) ctx p)
          (λ _. At Valid)
  unfolding sign_at_quorum
  sign_at_quorum-Triple ctx p open_status enough =
      Triple-bind
        (Triple-on_error {R = At (IsStored d.policy inv p)}
          (Triple-Within (IsStored d.policy inv p) (IsStored d.policy inv p) _ (λ t h. h)
            (quiet.sign_within ctx p))
          λ e.
            Triple-strengthen (λ w (s, sound, later). (s, sound))
              (record_failure-Triple ctx p _ e (in_progress _ _ open_status)))
        λ g.
          Triple-bind
            (Triple-among (IsStored d.policy inv p) (λ _. Valid) ctx _ (IsStored-Stable p)
              λ c. mark_transaction_signed-Triple d.policy inv c g.signed_transaction p enough)
            (finish_signing-Triple ctx g)

  pub cosign-Triple :
      (ctx : Context) (id signer : Str)
      → Triple (At Valid) (At Valid) (cosign (service_among others d) ctx id signer) (λ _. At Valid)
  unfolding cosign
  cosign-Triple ctx id signer =
      Triple-guard _ _ _ (λ w s. s)
        λ _.
          Triple-guard _ _ _ (λ w s. s)
            λ allowed. Triple-bind (Triple-Within Valid Valid _ (λ t s. s) quiet.now_within) λ now.
              Triple-bind
                (Triple-among Valid (IsStored d.policy inv) ctx _ steady.keeps
                  λ c. add_approval-Triple d.policy inv c id _ (not-false _ allowed))
                λ p.
                  Triple-bind
                    (Triple-Within Valid (IsStored d.policy inv p) _ (λ t s. s.0)
                      (quiet.inc_within _ _))
                    λ _.
                      Triple-bind
                        (append_audit-Triple (IsStored d.policy inv p) ctx
                          (transaction_event transaction_approved signer p none) (IsStored-Stable p)
                          (λ t s. s.0))
                        λ _.
                          Triple-if _
                            (λ q.
                              sign_at_quorum-Triple ctx p (was_proposed _ _ q) (at_quorum _ _ q))
                            (λ _. Triple-pure p _ (λ w s. s.0))

  pub adapter_found :
      (chain : Chain) {a : ChainAdapter (World X)}
      → elim (lookup chain (service d).chains) [
        | none ↦ err (unsupported_chain chain)
        | some adapter ↦ ok adapter
      ]
        ≡ ok a
      → lookup chain (service d).chains ≡ some a
  adapter_found chain h = ground arith

  pub broadcast-Triple :
      (ctx : Context) (id : Str)
      → Triple (At Valid) (At Valid) (broadcast (service_among others d) ctx id) (λ _. At Valid)
  unfolding broadcast adapter_for
  broadcast-Triple ctx id =
      Triple-bind
        (Triple-among Valid With ctx _ steady.keeps λ c. get_transaction-Triple d.policy inv c id)
        λ p.
          Triple-guard _ _ _ (λ w s. s.0)
            λ signed_now.
              Triple-lift_bind _ _ (λ w s. s.0)
                λ a found.
                  Triple-bind
                    (Triple-on_error {R = At (With p)}
                      (Triple-Within (With p) (With p) _ (λ t s. s)
                        (quiet.send_within ctx p.chain a _ (adapter_found p.chain found)))
                      (λ e.
                        record_failure-Triple ctx p _ e
                          (in_progress_too _ _ (was_signed p signed_now))))
                    λ hash. Triple-given λ h.
                      Triple-bind (Triple-Within Valid Valid _ (λ t s. s) quiet.now_within) λ now.
                        Triple-bind
                          (Triple-among Valid (λ _. Valid) ctx _ steady.keeps
                            λ c.
                              update_transaction-Triple d.policy inv c _
                                (inv.broadcast_law p.id hash now p (was_signed p signed_now) h))
                          λ _. Triple-bind (search (audited ctx)) λ _.
                            Triple-bind
                              (Triple-Within Valid Valid _ (λ t s. s) (quiet.inc_within _ _))
                              λ _. Triple-pure _ _ (λ w s. s)
