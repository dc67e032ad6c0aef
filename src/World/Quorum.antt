-- ===== src/World/Quorum.antt =====
-- When a stored proposal is sound: what custody promises of it under a policy.
use mpc_custody.Prelude.{ℕ, ◌≤◌, ◌≡◌, refl, true, none, some, [], ◌∷◌, arith, inl, inr, subst₂}
use mpc_custody.Go.Str.{Str, str_eq_iff}
use mpc_custody.Go.Dict.{Dict, lookup, insert, lookup-insert, lookup-insert_cases}
use mpc_custody.Go.Exec.{ok}
use mpc_custody.Wallet.Types.{
  Approval, TransactionProposal, TransactionStatus, proposed, signed, broadcasted, failed, unset,
  approvals_count,
}
use mpc_custody.Wallet.Policy.{Policy, signer_allowed, validate_amount_policy}

-- Each approval is by an allowed signer, under the signer's id, and no signer counts twice.
abbrev pub ApprovalsSound : Policy → Dict Approval → Type 0
ApprovalsSound policy [] = Unit
ApprovalsSound policy ((k, a) ∷ m) =
    (signer_allowed policy k ≡ true)
    × (a.signer_id ≡ k)
    × (lookup k m ≡ none)
    × ApprovalsSound policy m

-- A transaction leaves the proposed state for a signature with two approvals at least.
abbrev pub HasQuorum : TransactionStatus → ℕ → Type 0
HasQuorum signed n = 2 ≤ n
HasQuorum broadcasted n = 2 ≤ n
HasQuorum proposed n = Unit
HasQuorum failed n = Unit
HasQuorum unset n = Unit

pub record IsSound (policy : Policy) (id : Str) (p : TransactionProposal) : Type 0 where
  pub keyed : p.id ≡ id
  pub approvals_sound : ApprovalsSound policy p.approvals
  pub quorum : HasQuorum p.status (approvals_count p)
  pub amount : validate_amount_policy policy p.chain p.request.amount ≡ ok tt

-- Every stored proposal is sound.
pub record AllSound (policy : Policy) (m : Dict TransactionProposal) : Type 0 where
  pub at_id : (id : Str) (p : TransactionProposal) → lookup id m ≡ some p → IsSound policy id p

pub insert-ApprovalsSound :
    (policy : Policy) (a : Approval) (m : Dict Approval)
    → signer_allowed policy a.signer_id ≡ true
    → ApprovalsSound policy m
    → ApprovalsSound policy (insert a.signer_id a m)
unfolding insert lookup
insert-ApprovalsSound policy a [] allowed h = (allowed, refl, refl, tt)
insert-ApprovalsSound policy a ((k, b) ∷ m) allowed h = ground (
  arith,
  insert-ApprovalsSound policy a m allowed h.3,
  lookup-insert a.signer_id k a m,
  str_eq_iff k a.signer_id,
  str_eq_iff a.signer_id k,
)

pub insert-AllSound :
    (policy : Policy) (id : Str) (p : TransactionProposal) (m : Dict TransactionProposal)
    → AllSound policy m
    → IsSound policy id p
    → AllSound policy (insert id p m)
insert-AllSound policy id p m h new = record {
  at_id = λ j q found. elim (lookup-insert_cases id j p m found) [
    | inl (same, written) ↦ subst₂ (IsSound policy) same written new
    | inr kept ↦ h.at_id j q kept
  ];
}
