-- ===== src/Store/Memory/Approvals.antt =====
-- AddApproval and MarkTransactionSigned of internal/store/memory.go.
use mpc_custody.Prelude.{
  ◌+◌, ◌≡◌, ◌≢◌, Bool, true, false, Option, none, some, arith, Option-cases, inl, inr,
  if◌then◌else◌,
}
use mpc_custody.Errors.{Error, duplicate_approval, transaction_not_proposed}
use mpc_custody.Go.Str.{Str}
use mpc_custody.Go.Dict.{lookup, insert, lookup-insert_self, lookup-insert_ne, length-insert}
use mpc_custody.Go.Exec.{ok, err}
use mpc_custody.Wallet.Types.{Approval, TransactionProposal, proposed, is_proposed, approvals_count}
use mpc_custody.Store.Memory.{MemoryStore, add_approval, mark_transaction_signed, sign, approve}

-- What AddApproval did when it returned `p`, with `old` the proposal that was stored before.
pub record Recorded (id : Str) (a : Approval) (old p : TransactionProposal) (s s' : MemoryStore)
    : Type 0 where
  pub was_stored : lookup id s.transactions ≡ some old
  pub is_stored : lookup id s'.transactions ≡ some p
  pub was_proposed : old.status ≡ proposed
  pub was_absent : lookup a.signer_id old.approvals ≡ none
  pub approved : p ≡ approve a old
  pub written : s'.transactions ≡ insert id (approve a old) s.transactions
  pub counted : approvals_count p ≡ approvals_count old + 1
  pub others :
      (other : Str) → id ≢ other → lookup other s'.transactions ≡ lookup other s.transactions

-- A proposal that AddApproval returns is now stored: it is the proposed one that was stored under the
-- id, with the approval of a signer who had none there, counted once. No other proposal changes.
pub add_approval-Recorded :
    (ctx_err : Option Error) (id : Str) (a : Approval) (p : TransactionProposal)
    (s s' : MemoryStore)
    → add_approval ctx_err id a s ≡ (ok p, s')
    → (old : TransactionProposal) × Recorded id a old p s s'
unfolding add_approval
add_approval-Recorded ctx_err id a p s s' h = elim (Option-cases (lookup id s.transactions)) [
  | inl missing ↦ absurd (ground arith)
  | inr (old, found) ↦ (
    old,
    record {
      was_stored = found;
      is_stored = ground (arith, lookup-insert_self id (approve a old) s.transactions);
      was_proposed = ground arith;
      was_absent = ground arith;
      approved = ground arith;
      written = ground arith;
      counted = ground (arith, length-insert a.signer_id a old.approvals);
      others =
          λ other ne. ground (arith, lookup-insert_ne id other (approve a old) s.transactions ne);
    },
  )
]

-- A signer whose approval was recorded is refused as a duplicate in the store that this leaves,
-- which does not change.
pub add_approval_twice :
    (ctx_err : Option Error) (id : Str) (a b : Approval) (p : TransactionProposal)
    (s s' : MemoryStore)
    → a.signer_id ≡ b.signer_id
    → add_approval ctx_err id a s ≡ (ok p, s')
    → add_approval none id b s' ≡ (err duplicate_approval, s')
unfolding add_approval
add_approval_twice ctx_err id a b p s s' same h =
    let (old, r) = add_approval-Recorded ctx_err id a p s s' h in
    ground (
      arith,
      r.is_stored,
      r.was_proposed,
      r.approved,
      lookup-insert_self a.signer_id a old.approvals,
    )

-- What MarkTransactionSigned did when it returned `(p, fresh)`, with `old` the proposal that was
-- stored before.
pub record Marked (id payload : Str) (old p : TransactionProposal) (fresh : Bool)
    (s s' : MemoryStore) : Type 0 where
  pub was_stored : lookup id s.transactions ≡ some old
  pub is_stored : lookup id s'.transactions ≡ some p
  pub fresh_iff : fresh ≡ is_proposed old.status
  pub result : p ≡ (if fresh then sign payload old else old)
  pub approvals_kept : p.approvals ≡ old.approvals
  pub closed : p.status ≢ proposed
  pub written : fresh ≡ true → s'.transactions ≡ insert id (sign payload old) s.transactions
  pub untouched : fresh ≡ false → s' ≡ s
  pub others :
      (other : Str) → id ≢ other → lookup other s'.transactions ≡ lookup other s.transactions

-- A returned proposal is the stored one under the id: it was proposed, and is now signed with the
-- payload and its approvals as they were (`fresh`), or it was closed already and nothing changed. No
-- other proposal changes.
pub mark_transaction_signed-Marked :
    (ctx_err : Option Error) (id payload : Str) (p : TransactionProposal) (fresh : Bool)
    (s s' : MemoryStore)
    → mark_transaction_signed ctx_err id payload s ≡ (ok (p, fresh), s')
    → (old : TransactionProposal) × Marked id payload old p fresh s s'
unfolding mark_transaction_signed
mark_transaction_signed-Marked ctx_err id payload p fresh s s' h =
    elim (Option-cases (lookup id s.transactions)) [
      | inl missing ↦ absurd (ground arith)
      | inr (old, found) ↦ (
        old,
        record {
          was_stored = found;
          is_stored = ground (arith, lookup-insert_self id (sign payload old) s.transactions);
          fresh_iff = ground arith;
          result = ground arith;
          approvals_kept = ground arith;
          closed = ground arith;
          written = ground arith;
          untouched = ground arith;
          others = λ other ne.
              ground (arith, lookup-insert_ne id other (sign payload old) s.transactions ne);
        },
      )
    ]

-- Signing happens once: after any answer, another call returns the same proposal, not fresh, and
-- changes nothing, whatever payload it brings.
pub mark_transaction_signed_once :
    (ctx_err : Option Error) (id payload payload' : Str) (p : TransactionProposal) (fresh : Bool)
    (s s' : MemoryStore)
    → mark_transaction_signed ctx_err id payload s ≡ (ok (p, fresh), s')
    → mark_transaction_signed none id payload' s' ≡ (ok (p, false), s')
unfolding mark_transaction_signed
mark_transaction_signed_once ctx_err id payload payload' p fresh s s' h =
    let (old, m) = mark_transaction_signed-Marked ctx_err id payload p fresh s s' h in
    ground (arith, m.is_stored, m.closed)

-- A closed proposal takes no approval.
pub add_approval_closed :
    (id : Str) (a : Approval) (p : TransactionProposal) (s : MemoryStore)
    → lookup id s.transactions ≡ some p
    → p.status ≢ proposed
    → add_approval none id a s ≡ (err transaction_not_proposed, s)
unfolding add_approval
add_approval_closed id a p s found closed = ground arith

-- A call that fails leaves the store as it was.
pub add_approval-err :
    (ctx_err : Option Error) (id : Str) (a : Approval) (s : MemoryStore) (e : Error)
    (s' : MemoryStore)
    → add_approval ctx_err id a s ≡ (err e, s')
    → s' ≡ s
unfolding add_approval
add_approval-err ctx_err id a s e s' h = ground arith

pub mark_transaction_signed-err :
    (ctx_err : Option Error) (id payload : Str) (s : MemoryStore) (e : Error) (s' : MemoryStore)
    → mark_transaction_signed ctx_err id payload s ≡ (err e, s')
    → s' ≡ s
unfolding mark_transaction_signed
mark_transaction_signed-err ctx_err id payload s e s' h = ground arith

-- What the two methods do where nothing refuses them.
pub add_approval-ok :
    (id : Str) (a : Approval) (p : TransactionProposal) (s : MemoryStore)
    → lookup id s.transactions ≡ some p
    → p.status ≡ proposed
    → lookup a.signer_id p.approvals ≡ none
    → add_approval none id a s
      ≡ (ok (approve a p), record s { transactions = insert id (approve a p) s.transactions })
unfolding add_approval
add_approval-ok id a p s found open_status fresh = ground arith

pub mark_transaction_signed-ok :
    (id payload : Str) (p : TransactionProposal) (s : MemoryStore)
    → lookup id s.transactions ≡ some p
    → p.status ≡ proposed
    → mark_transaction_signed none id payload s ≡ (
      ok (sign payload p, true),
      record s { transactions = insert id (sign payload p) s.transactions },
    )
unfolding mark_transaction_signed
mark_transaction_signed-ok id payload p s found open_status = ground arith
