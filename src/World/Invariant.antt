-- ===== src/World/Invariant.antt =====
-- What a property of the stored proposals must be kept by, so that internal/wallet/service.go keeps it
-- over internal/store/memory.go: one proposal at a time, as the methods of the store change it.
use mpc_custody.Prelude.{◌≤◌, ◌≡◌, true, none, some, [], ◌||◌}
use mpc_custody.Go.Str.{Str}
use mpc_custody.Go.Dict.{Dict, lookup, insert}
use mpc_custody.Go.Exec.{ok}
use mpc_custody.Wallet.Types.{
  Time, Approval, TransactionProposal, proposed, failed, is_proposed, is_signed, approvals_count,
}
use mpc_custody.Wallet.Policy.{Policy, signer_allowed, validate_amount_policy}
use mpc_custody.Wallet.Service.{broadcasted_proposal}
use mpc_custody.Store.Memory.{approve, sign}

-- A proposal as ProposeTransaction makes it.
pub record IsNew (policy : Policy) (p : TransactionProposal) : Type 0 where
  pub is_open : p.status ≡ proposed
  pub no_approvals : p.approvals ≡ []
  pub admitted : validate_amount_policy policy p.chain p.request.amount ≡ ok tt

-- What failTransaction writes.
abbrev pub failed_of : Str → Time → TransactionProposal → TransactionProposal
failed_of message now p = record p { status = failed; error = message; updated_at = now }

-- `All` is the property, and `One` what it says of the proposal under an id.
pub record Invariant (policy : Policy) : Type 1 where
  pub All : Dict TransactionProposal → Type 0
  pub One : Str → TransactionProposal → Type 0
  pub keyed : (id : Str) (p : TransactionProposal) → One id p → p.id ≡ id
  pub at_id :
      (m : Dict TransactionProposal) (id : Str) (p : TransactionProposal)
      → All m
      → lookup id m ≡ some p
      → One id p
  pub write_law :
      (m : Dict TransactionProposal) (id : Str) (p : TransactionProposal)
      → All m
      → One id p
      → All (insert id p m)
  pub add_law :
      (m : Dict TransactionProposal) (p : TransactionProposal)
      → All m
      → lookup p.id m ≡ none
      → IsNew policy p
      → All (insert p.id p m)
  pub approve_law :
      (id : Str) (a : Approval) (p : TransactionProposal)
      → signer_allowed policy a.signer_id ≡ true
      → p.status ≡ proposed
      → lookup a.signer_id p.approvals ≡ none
      → One id p
      → One id (approve a p)
  pub sign_law :
      (id payload : Str) (p : TransactionProposal)
      → p.status ≡ proposed
      → 2 ≤ approvals_count p
      → One id p
      → One id (sign payload p)
  pub fail_law :
      (id message : Str) (now : Time) (p : TransactionProposal)
      → (is_proposed p.status || is_signed p.status) ≡ true
      → One id p
      → One id (failed_of message now p)
  pub broadcast_law :
      (id hash : Str) (now : Time) (p : TransactionProposal)
      → is_signed p.status ≡ true
      → One id p
      → One id (broadcasted_proposal hash now p)
