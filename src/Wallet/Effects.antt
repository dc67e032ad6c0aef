-- ===== src/Wallet/Effects.antt =====
-- What the service's methods do to the shared state is what the calls behind its interfaces do: if
-- each of these moves it along a preorder only, so does every method.
use mpc_custody.Prelude.{ℕ, ◌≡◌, Bool, true, false, some, [], Option-cases, inl, inr}
use mpc_custody.Errors.{Error, unsupported_chain}
use mpc_custody.Go.Str.{Str, str_eq}
use mpc_custody.Go.Dict.{Dict, lookup}
use mpc_custody.Go.Exec.{Exec, err, ◌>>=◌}
use mpc_custody.Go.Exec.Within.{
  Preorder, Within, within_rules, Within-pure, Within-lift, Within-if, Within-ignore,
  Within-map_error, Within-on_error, Within-raise_if, Within-bind,
}
use mpc_custody.Ids.{new_id}
use mpc_custody.Wallet.Types.{
  Time, Chain, Wallet, Signature, TransactionRequest, TransactionProposal, Approval, AuditEvent,
  transaction_failed, AuditFilter, IdempotencyRecord,
}
use mpc_custody.Wallet.Interfaces.{Context, ChainAdapter}
use mpc_custody.Wallet.Service.{
  Service, transaction_event, failure_metadata, append_audit, fail_transaction, record_failure,
  store_wallet, finish_wallet, create_wallet, adapter_for, store_proposal, finish_proposal,
  propose_transaction, finish_signing, sign_at_quorum, cosign, broadcast,
}

-- The calls that write neither wallets nor proposals to the store.
pub record IsQuiet {W : Type 0} (o : Preorder W) (s : Service W) : Type 0 where
  pub inc_within : (name : Str) (labels : Dict Str) → Within o (s.inc name labels)
  pub now_within : Within o s.now
  pub rand_within : (size : ℕ) → Within o (s.rand_read size)
  pub audit_within : (ctx : Context) (e : AuditEvent) → Within o (s.store.append_audit_event ctx e)
  pub key_within :
      (ctx : Context) (id : Str) (chain : Chain) → Within o (s.signer.create_wallet ctx id chain)
  pub sign_within :
      (ctx : Context) (p : TransactionProposal) → Within o (s.signer.sign_transaction ctx p)
  pub build_within :
      (ctx : Context) (chain : Chain) (a : ChainAdapter W) (w : Wallet) (r : TransactionRequest)
      → lookup chain s.chains ≡ some a
      → Within o (a.build_transaction ctx w r)
  pub send_within :
      (ctx : Context) (chain : Chain) (a : ChainAdapter W) (payload : Str)
      → lookup chain s.chains ≡ some a
      → Within o (a.broadcast ctx payload)

-- And those that write proposals and wallets.
pub record IsConfined {W : Type 0} (o : Preorder W) (s : Service W) : Type 0 where
  pub quiet : IsQuiet o s
  pub create_wallet_within : (ctx : Context) (w : Wallet) → Within o (s.store.create_wallet ctx w)
  pub create_wallet_idempotently_within :
      (ctx : Context) (w : Wallet) (r : IdempotencyRecord)
      → Within o (s.store.create_wallet_idempotently ctx w r)
  pub get_wallet_within : (ctx : Context) (id : Str) → Within o (s.store.get_wallet ctx id)
  pub create_transaction_within :
      (ctx : Context) (p : TransactionProposal) → Within o (s.store.create_transaction ctx p)
  pub create_transaction_idempotently_within :
      (ctx : Context) (p : TransactionProposal) (r : IdempotencyRecord)
      → Within o (s.store.create_transaction_idempotently ctx p r)
  pub get_transaction_within :
      (ctx : Context) (id : Str) → Within o (s.store.get_transaction ctx id)
  pub add_approval_within :
      (ctx : Context) (id : Str) (a : Approval) → Within o (s.store.add_approval ctx id a)
  pub mark_transaction_signed_within :
      (ctx : Context) (id payload : Str) → Within o (s.store.mark_transaction_signed ctx id payload)
  pub update_transaction_within :
      (ctx : Context) (p : TransactionProposal) → Within o (s.store.update_transaction ctx p)
  pub list_audit_events_within :
      (ctx : Context) (f : AuditFilter) → Within o (s.store.list_audit_events ctx f)

module _ {W : Type 0} {o : Preorder W} {s : Service W} (q : IsQuiet o s) where
  inc-Within : (name : Str) (labels : Dict Str) → Within o (s.inc name labels)
  inc-Within = q.inc_within

  now-Within : Within o s.now
  now-Within = q.now_within

  rand_read-Within : (size : ℕ) → Within o (s.rand_read size)
  rand_read-Within = q.rand_within

  append_audit_event-Within :
      (ctx : Context) (e : AuditEvent) → Within o (s.store.append_audit_event ctx e)
  append_audit_event-Within = q.audit_within

  pub new_id-Within : (prefix : Str) → Within o (new_id s.rand_read prefix)
  unfolding new_id
  new_id-Within prefix = search (within_rules, rand_read-Within)

  pub append_audit-Within : (ctx : Context) (e : AuditEvent) → Within o (append_audit s ctx e)
  unfolding append_audit
  append_audit-Within ctx e =
      search (within_rules, new_id-Within, now-Within, append_audit_event-Within, inc-Within)

  sign_transaction-Within :
      (ctx : Context) (p : TransactionProposal) → Within o (s.signer.sign_transaction ctx p)
  sign_transaction-Within = q.sign_within

  signer-create_wallet-Within :
      (ctx : Context) (id : Str) (chain : Chain) → Within o (s.signer.create_wallet ctx id chain)
  signer-create_wallet-Within = q.key_within

  -- An adapter that the registry returned.
  Within-adapter_for :
      {A : Type 0} (chain : Chain) (f : ChainAdapter W → Exec W A)
      → ((a : ChainAdapter W) → lookup chain s.chains ≡ some a → Within o (f a))
      → Within o (adapter_for s chain >>= f)
  unfolding adapter_for ◌>>=◌
  Within-adapter_for chain f h = elim (Option-cases (lookup chain s.chains)) [
    | inl missing ↦ rw missing (Within-lift (err (unsupported_chain chain)))
    | inr (a, found) ↦ rw found (h a found)
  ]

module _ {W : Type 0} {o : Preorder W} {s : Service W} (c : IsConfined o s) where
  fail_transaction-Within :
      (ctx : Context) (p : TransactionProposal) (e : Error) (phase : Str)
      → Within o (fail_transaction s ctx p e phase)
  unfolding fail_transaction
  fail_transaction-Within ctx p e phase =
      Within-bind _ _ (now-Within c.quiet)
        λ now. Within-map_error _ (c.update_transaction_within ctx _)

  record_failure-Within :
      (ctx : Context) (p : TransactionProposal) (phase : Str) (e : Error)
      → Within o (record_failure s ctx p phase e)
  unfolding record_failure
  record_failure-Within ctx p phase e =
      Within-bind _ _ (Within-ignore (fail_transaction-Within ctx p e phase)) λ _. Within-ignore (
        append_audit-Within c.quiet ctx
          (transaction_event transaction_failed [] p (failure_metadata e phase)))

  store_wallet-Within :
      (ctx : Context) (chain key : Str) (w : Wallet) → Within o (store_wallet s ctx chain key w)
  unfolding store_wallet
  store_wallet-Within ctx chain key w =
      Within-if (str_eq key []) (Within-bind _ _ (c.create_wallet_within ctx w) λ _. Within-pure _)
        (Within-bind _ _ (now-Within c.quiet) λ now. c.create_wallet_idempotently_within ctx w _)

  finish_wallet-Within :
      (ctx : Context) (chain : Chain) (r : Wallet × Bool) → Within o (finish_wallet s ctx chain r)
  unfolding finish_wallet
  finish_wallet-Within ctx chain (w, false) = Within-pure w
  finish_wallet-Within ctx chain (w, true) =
      Within-bind _ _ (append_audit-Within c.quiet ctx _)
        λ _. Within-bind _ _ (inc-Within c.quiet _ _) λ _. Within-pure w

  pub create_wallet-Within :
      (ctx : Context) (chain : Chain) (key : Str) → Within o (create_wallet s ctx chain key)
  unfolding create_wallet
  create_wallet-Within ctx chain key = Within-bind _ _ (Within-raise_if _ _) λ _.
      Within-bind _ _ (new_id-Within c.quiet _) λ id.
        Within-bind _ _ (signer-create_wallet-Within c.quiet ctx id chain) λ m.
          Within-bind _ _ (now-Within c.quiet) λ now.
            Within-bind _ _ (store_wallet-Within ctx chain key _) (finish_wallet-Within ctx chain)

  store_proposal-Within :
      (ctx : Context) (r : TransactionRequest) (key : Str) (now : Time) (p : TransactionProposal)
      → Within o (store_proposal s ctx r key now p)
  unfolding store_proposal
  store_proposal-Within ctx r key now p =
      Within-if (str_eq key [])
        (Within-bind _ _ (c.create_transaction_within ctx p) λ _. Within-pure _)
        (c.create_transaction_idempotently_within ctx p _)

  finish_proposal-Within :
      (ctx : Context) (chain : Chain) (r : TransactionProposal × Bool)
      → Within o (finish_proposal s ctx chain r)
  unfolding finish_proposal
  finish_proposal-Within ctx chain (p, false) = Within-pure p
  finish_proposal-Within ctx chain (p, true) =
      Within-bind _ _ (append_audit-Within c.quiet ctx _)
        λ _. Within-bind _ _ (inc-Within c.quiet _ _) λ _. Within-pure p

  pub propose_transaction-Within :
      (ctx : Context) (r : TransactionRequest) (key : Str)
      → Within o (propose_transaction s ctx r key)
  unfolding propose_transaction
  propose_transaction-Within ctx r key = Within-bind _ _ (c.get_wallet_within ctx _) λ w.
      Within-bind _ _ (Within-lift _) λ _. Within-adapter_for c.quiet w.chain _ λ a found.
        Within-bind _ _ (c.quiet.build_within ctx w.chain a w r found) λ raw.
          Within-bind _ _ (new_id-Within c.quiet _) λ id.
            Within-bind _ _ (now-Within c.quiet) λ now.
              Within-bind _ _ (store_proposal-Within ctx r key now _)
                (finish_proposal-Within ctx w.chain)

  finish_signing-Within :
      (ctx : Context) (g : Signature) (r : TransactionProposal × Bool)
      → Within o (finish_signing s ctx g r)
  unfolding finish_signing
  finish_signing-Within ctx g (p, false) = Within-pure p
  finish_signing-Within ctx g (p, true) =
      Within-bind _ _ (inc-Within c.quiet _ _)
        λ _. Within-bind _ _ (append_audit-Within c.quiet ctx _) λ _. Within-pure p

  sign_at_quorum-Within :
      (ctx : Context) (p : TransactionProposal) → Within o (sign_at_quorum s ctx p)
  unfolding sign_at_quorum
  sign_at_quorum-Within ctx p =
      Within-bind _ _
        (Within-on_error (sign_transaction-Within c.quiet ctx p) (record_failure-Within ctx p _))
        λ g.
          Within-bind _ _ (c.mark_transaction_signed_within ctx p.id _)
            (finish_signing-Within ctx g)

  pub cosign-Within : (ctx : Context) (id signer : Str) → Within o (cosign s ctx id signer)
  unfolding cosign
  cosign-Within ctx id signer = Within-bind _ _ (Within-raise_if _ _) λ _.
      Within-bind _ _ (Within-raise_if _ _) λ _. Within-bind _ _ (now-Within c.quiet) λ now.
        Within-bind _ _ (c.add_approval_within ctx id _) λ p.
          Within-bind _ _ (inc-Within c.quiet _ _) λ _.
            Within-bind _ _ (search (append_audit-Within c.quiet))
              λ _. Within-if _ (sign_at_quorum-Within ctx p) (Within-pure p)

  pub broadcast-Within : (ctx : Context) (id : Str) → Within o (broadcast s ctx id)
  unfolding broadcast
  broadcast-Within ctx id = Within-bind _ _ (c.get_transaction_within ctx id) λ p.
      Within-bind _ _ (Within-raise_if _ _) λ _. Within-adapter_for c.quiet p.chain _ λ a found.
        Within-bind _ _
          (Within-on_error (c.quiet.send_within ctx p.chain a _ found)
            (record_failure-Within ctx p _))
          λ hash. Within-bind _ _ (now-Within c.quiet) λ now.
            Within-bind _ _ (c.update_transaction_within ctx _) λ _.
              Within-bind _ _ (search (append_audit-Within c.quiet))
                λ _. Within-bind _ _ (inc-Within c.quiet _ _) λ _. Within-pure _
