-- ===== src/World/Steps.antt =====
-- A property of the stored proposals under the methods of internal/store/memory.go that write proposals.
use mpc_custody.Prelude.{
  ◌∙◌, ◌≤◌, ◌≡◌, sym, ap, Bool-cases, Option-cases, ◌⊎◌, inl, inr, subst, true, false, Option, none,
  some, arith,
}
use mathlib.Core.Option.{some-injective}
use mpc_custody.Errors.{Error}
use mpc_custody.Go.Str.{Str}
use mpc_custody.Go.Dict.{lookup, insert, contains}
use mpc_custody.Go.Exec.Triple.{Triple, Post-intro}
use mpc_custody.Wallet.Types.{
  Approval, TransactionProposal, TransactionStatus, proposed, is_proposed, approvals_count,
  IdempotencyRecord,
}
use mpc_custody.Wallet.Policy.{Policy, signer_allowed}
use mpc_custody.Store.Memory.{
  MemoryStore, add_approval, approve, mark_transaction_signed, sign, create_transaction,
  create_transaction_idempotently, update_transaction, get_transaction,
}
use mpc_custody.Store.Memory.Approvals.{
  add_approval-Recorded, add_approval-err, mark_transaction_signed-Marked,
  mark_transaction_signed-err,
}
use mpc_custody.World.Invariant.{Invariant, IsNew}
use mpc_custody.World.Hoare.{Proposals, In}
use mpc_custody.World.Grows.{Grown, Grown-refl}

is_proposed-eq : (s : TransactionStatus) → is_proposed s ≡ true → s ≡ proposed
is_proposed-eq s h = ground arith

still_enough :
    (p q old : TransactionProposal)
    → 2 ≤ approvals_count p
    → Grown p q
    → old ≡ q
    → old.status ≡ proposed
    → 2 ≤ approvals_count old
still_enough p q old enough grown same open_status =
    let no_fewer = grown.no_fewer (subst (λ r. r.status ≡ proposed) same open_status) in
    subst (λ r. 2 ≤ approvals_count r) (sym same) (omega arith)

module _ (policy : Policy) (inv : Invariant policy) where
  -- The proposal has the property, and so does the store, in which a later state of it is.
  abbrev pub IsStored : TransactionProposal → Proposals → Type 0
  IsStored p t =
      inv.All t
      × inv.One p.id p
      × ((q : TransactionProposal) × (lookup p.id t ≡ some q) × Grown p q)

  -- What is said of a proposal under an id is said under its own id.
  pub rekey : (id : Str) (p : TransactionProposal) → inv.One id p → inv.One p.id p
  rekey id p h = subst (λ k. inv.One k p) (sym (inv.keyed id p h)) h

  -- An idempotent creation changes nothing or writes the proposal.
  create_transaction_idempotently-effect :
      (c : Option Error) (p : TransactionProposal) (r : IdempotencyRecord) (s : MemoryStore)
      → ((create_transaction_idempotently c p r s).1 ≡ s)
        ⊎ (((create_transaction_idempotently c p r s).1.transactions ≡ insert p.id p s.transactions)
            × (lookup p.id s.transactions ≡ none))
  unfolding create_transaction_idempotently
  create_transaction_idempotently-effect c p r s = ground arith

  stored_under :
      (id : Str) (p : TransactionProposal) (t : Proposals)
      → p.id ≡ id
      → lookup id t ≡ some p
      → lookup p.id t ≡ some p
  stored_under id p t e found = subst (λ k. lookup k t ≡ some p) (sym e) found

  pub add_approval-Triple :
      (c : Option Error) (id : Str) (a : Approval)
      → signer_allowed policy a.signer_id ≡ true
      → Triple (In inv.All) (In inv.All) (add_approval c id a) (λ p. In (IsStored p))
  add_approval-Triple c id a allowed = record {
    at = λ s h.
        Post-intro (λ p. In (IsStored p)) (add_approval c id a s)
          (λ p s' e.
            let (old, r) = add_approval-Recorded c id a p s s' e in
            let was_sound = inv.at_id s.transactions id old h r.was_stored in
            let is_sound = inv.approve_law id a old allowed r.was_proposed r.was_absent was_sound in
            (
              subst inv.All (sym r.written)
                  (inv.write_law s.transactions id (approve a old) h is_sound),
              rekey id p (subst (inv.One id) (sym r.approved) is_sound),
              (
                p,
                stored_under id p s'.transactions
                    (ap (λ q. q.id) r.approved ∙ inv.keyed id old was_sound) r.is_stored,
                Grown-refl p,
              ),
            ))
          (λ e s' failed. subst (In inv.All) (sym (add_approval-err c id a s e s' failed)) h);
  }

  -- Signing wants the quorum on the stored proposal.
  pub mark_transaction_signed-Triple :
      (c : Option Error) (payload : Str) (p : TransactionProposal)
      → 2 ≤ approvals_count p
      → Triple
          (In inv.All)
          (In (IsStored p))
          (mark_transaction_signed c p.id payload)
          (λ _. In inv.All)
  mark_transaction_signed-Triple c payload p enough = record {
    at = λ s (h, sound, (later, stored, grown)).
        Post-intro (λ _. In inv.All) (mark_transaction_signed c p.id payload s)
          (λ (q, fresh) s' e.
            let (old, m) = mark_transaction_signed-Marked c p.id payload q fresh s s' e in
            let same : old ≡ later = some-injective old later (sym m.was_stored ∙ stored) in
            elim (Bool-cases fresh) [
              | inl was_fresh ↦ subst inv.All (sym (m.written was_fresh)) (
                  inv.write_law s.transactions p.id (sign payload old) h (
                    inv.sign_law p.id payload old
                      (is_proposed-eq old.status (sym m.fresh_iff ∙ was_fresh))
                      (still_enough p later old enough grown same
                        (is_proposed-eq old.status (sym m.fresh_iff ∙ was_fresh)))
                      (inv.at_id s.transactions p.id old h m.was_stored)))
              | inr stale ↦ subst (In inv.All) (sym (m.untouched stale)) h
            ])
          (λ e s' failed.
            subst (In inv.All) (sym (mark_transaction_signed-err c p.id payload s e s' failed)) h);
  }

  -- Writing a proposal wants that it is sound.
  pub update_transaction-Triple :
      (c : Option Error) (p : TransactionProposal)
      → inv.One p.id p
      → Triple (In inv.All) (In inv.All) (update_transaction c p) (λ _. In inv.All)
  unfolding update_transaction
  update_transaction-Triple none p sound = record {
    at = λ s h. elim (Bool-cases (contains p.id s.transactions)) [
      | inl there ↦ rw there (inv.write_law s.transactions p.id p h sound)
      | inr missing ↦ rw missing h
    ];
  }
  update_transaction-Triple (some e) p sound = record { at = λ s h. h }

  not_there : (id : Str) (t : Proposals) → contains id t ≡ false → lookup id t ≡ none
  not_there id t h = ground arith

  pub create_transaction-Triple :
      (c : Option Error) (p : TransactionProposal)
      → IsNew policy p
      → Triple (In inv.All) (In inv.All) (create_transaction c p) (λ _. In inv.All)
  unfolding create_transaction
  create_transaction-Triple none p sound = record {
    at = λ s h. elim (Bool-cases (contains p.id s.transactions)) [
      | inl there ↦ rw there h
      | inr missing ↦
          rw missing (inv.add_law s.transactions p h (not_there p.id s.transactions missing) sound)
    ];
  }
  create_transaction-Triple (some e) p sound = record { at = λ s h. h }

  pub create_transaction_idempotently-Triple :
      (c : Option Error) (p : TransactionProposal) (r : IdempotencyRecord)
      → IsNew policy p
      → Triple (In inv.All) (In inv.All) (create_transaction_idempotently c p r) (λ _. In inv.All)
  create_transaction_idempotently-Triple c p r sound = record {
    at = λ s h.
        Post-intro (λ _. In inv.All) (create_transaction_idempotently c p r s)
          (λ (q, fresh) s' e. elim (create_transaction_idempotently-effect c p r s) [
            | inl same ↦ subst (In inv.All) (sym same ∙ ap (λ x. x.1) e) h
            | inr new ↦
                subst inv.All (sym new.0 ∙ ap (λ x. x.1.transactions) e)
                  (inv.add_law s.transactions p h new.1 sound)
          ])
          (λ x s' e. elim (create_transaction_idempotently-effect c p r s) [
            | inl same ↦ subst (In inv.All) (sym same ∙ ap (λ x. x.1) e) h
            | inr new ↦
                subst inv.All (sym new.0 ∙ ap (λ x. x.1.transactions) e)
                  (inv.add_law s.transactions p h new.1 sound)
          ]);
  }

  pub get_transaction-Triple :
      (c : Option Error) (id : Str)
      → Triple
          (In inv.All)
          (In inv.All)
          (get_transaction c id)
          (λ p t. inv.All t.transactions × inv.One p.id p)
  unfolding get_transaction
  get_transaction-Triple none id = record {
    at = λ s h. elim (Option-cases (lookup id s.transactions)) [
      | inl missing ↦ rw missing h
      | inr (p, found) ↦ rw found (h, rekey id p (inv.at_id s.transactions id p h found))
    ];
  }
  get_transaction-Triple (some e) id = record { at = λ s h. h }
