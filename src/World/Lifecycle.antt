-- ===== src/World/Lifecycle.antt =====
-- How a stored proposal moves under internal/wallet/service.go: the statuses of
-- internal/wallet/types.go as a step relation, and what a move keeps.
use mpc_custody.Prelude.{
  ◌≡◌, ◌≢◌, refl, sym, ◌∙◌, subst, ◌⊎◌, inl, inr, true, ◌||◌, none, some, arith,
}
use mpc_custody.Go.Str.{Str, str_eq_iff}
use mpc_custody.Go.Dict.{lookup, lookup-insert}
use mpc_custody.Wallet.Types.{
  Time, Approval, TransactionProposal, TransactionStatus, proposed, signed, broadcasted, failed,
  unset, is_proposed, is_signed,
}
use mpc_custody.Wallet.Service.{broadcasted_proposal}
use mpc_custody.Store.Memory.{approve, sign}
use mpc_custody.World.Invariant.{failed_of}

-- One change of a status.
pub data Step : TransactionStatus → TransactionStatus → Type 0 where
  signs : Step proposed signed
  fails_signing : Step proposed failed
  broadcasts : Step signed broadcasted
  fails_broadcast : Step signed failed

pub data Reaches (a : TransactionStatus) : TransactionStatus → Type 0 where
  stays : Reaches a a
  steps : {b c : TransactionStatus} → Reaches a b → Step b c → Reaches a c

-- What becomes of `p`: its status moves by steps only, what was requested and built stays, as do the
-- approvals, nothing is signed anew once the proposal is no longer proposed, and a broadcast or
-- failed proposal stays as it is.
pub record Advanced (p q : TransactionProposal) : Type 0 where
  pub status_reached : Reaches p.status q.status
  pub same_request : q.request ≡ p.request
  pub same_wallet : q.wallet_id ≡ p.wallet_id
  pub same_transaction : q.raw_transaction ≡ p.raw_transaction
  pub approvals_kept :
      (k : Str) (a : Approval) → lookup k p.approvals ≡ some a → lookup k q.approvals ≡ some a
  pub sealed :
      p.status ≢ proposed
      → (q.approvals ≡ p.approvals) × (q.signed_transaction ≡ p.signed_transaction)
  pub final : (p.status ≡ broadcasted) ⊎ (p.status ≡ failed) → q ≡ p

pub Advanced-refl : (p : TransactionProposal) → Advanced p p
Advanced-refl p = record {
  status_reached = stays;
  same_request = refl;
  same_wallet = refl;
  same_transaction = refl;
  approvals_kept = λ k a e. e;
  sealed = λ _. (refl, refl);
  final = λ _. refl;
}

never_reopens : (b c : TransactionStatus) → Step b c → c ≢ proposed
never_reopens b c signs e = cc
never_reopens b c fails_signing e = cc
never_reopens b c broadcasts e = cc
never_reopens b c fails_broadcast e = cc

-- Nothing comes back to the proposed status.
Reaches-proposed : (a b : TransactionStatus) → Reaches a b → b ≡ proposed → a ≡ proposed
Reaches-proposed a b stays e = e
Reaches-proposed a c (steps {b} r s) e = absurd (never_reopens b c s e)

-- A proposal in progress is not the last one.
not_final :
    (p q : TransactionProposal)
    → Advanced p q
    → (is_proposed q.status || is_signed q.status) ≡ true
    → (p.status ≡ broadcasted) ⊎ (p.status ≡ failed)
    → ⊥
not_final p q h moving (inl sent) = let same = h.final (inl sent) in ground (arith, same)
not_final p q h moving (inr lost) = let same = h.final (inr lost) in ground (arith, same)

-- A proposal in progress, and a change of it.
pub record Moved (p q : TransactionProposal) : Type 0 where
  pub moving : (is_proposed p.status || is_signed p.status) ≡ true
  pub reached : Reaches p.status q.status
  pub request_kept : q.request ≡ p.request
  pub wallet_kept : q.wallet_id ≡ p.wallet_id
  pub transaction_kept : q.raw_transaction ≡ p.raw_transaction
  pub no_approval_lost :
      (k : Str) (a : Approval) → lookup k p.approvals ≡ some a → lookup k q.approvals ≡ some a
  pub seal_kept :
      p.status ≢ proposed
      → (q.approvals ≡ p.approvals) × (q.signed_transaction ≡ p.signed_transaction)

Reaches-trans : {a b c : TransactionStatus} → Reaches a b → Reaches b c → Reaches a c
Reaches-trans r stays = r
Reaches-trans r (steps s t) = steps (Reaches-trans r s) t

pub Advanced-Moved : (o p q : TransactionProposal) → Advanced o p → Moved p q → Advanced o q
Advanced-Moved o p q h m = record {
  status_reached = Reaches-trans h.status_reached m.reached;
  same_request = m.request_kept ∙ h.same_request;
  same_wallet = m.wallet_kept ∙ h.same_wallet;
  same_transaction = m.transaction_kept ∙ h.same_transaction;
  approvals_kept = λ k a e. m.no_approval_lost k a (h.approvals_kept k a e);
  sealed = λ closed.
      let still =
        m.seal_kept (λ e. closed (Reaches-proposed o.status p.status h.status_reached e)) in
      let before = h.sealed closed in (still.0 ∙ before.0, still.1 ∙ before.1);
  final = λ ended. absurd (not_final o p h m.moving ended);
}

is_signed-eq : (s : TransactionStatus) → is_signed s ≡ true → s ≡ signed
is_signed-eq s h = ground arith

pub approve-Moved :
    (a : Approval) (p : TransactionProposal)
    → p.status ≡ proposed
    → lookup a.signer_id p.approvals ≡ none
    → Moved p (approve a p)
approve-Moved a p open_status fresh = record {
  moving = ground arith;
  reached = stays;
  request_kept = refl;
  wallet_kept = refl;
  transaction_kept = refl;
  no_approval_lost =
      λ k b e. ground (arith, lookup-insert a.signer_id k a p.approvals, str_eq_iff a.signer_id k);
  seal_kept = λ closed. absurd (closed open_status);
}

pub sign-Moved :
    (payload : Str) (p : TransactionProposal) → p.status ≡ proposed → Moved p (sign payload p)
sign-Moved payload p open_status = record {
  moving = ground arith;
  reached = subst (λ s. Reaches s signed) (sym open_status) (steps stays signs);
  request_kept = refl;
  wallet_kept = refl;
  transaction_kept = refl;
  no_approval_lost = λ k b e. e;
  seal_kept = λ closed. absurd (closed open_status);
}

failed_from : (s : TransactionStatus) → (is_proposed s || is_signed s) ≡ true → Reaches s failed
failed_from proposed h = steps stays fails_signing
failed_from signed h = steps stays fails_broadcast
failed_from broadcasted h = absurd (cc)
failed_from failed h = absurd (cc)
failed_from unset h = absurd (cc)

pub failed_of-Moved :
    (message : Str) (now : Time) (p : TransactionProposal)
    → (is_proposed p.status || is_signed p.status) ≡ true
    → Moved p (failed_of message now p)
failed_of-Moved message now p moving = record {
  moving = moving;
  reached = failed_from p.status moving;
  request_kept = refl;
  wallet_kept = refl;
  transaction_kept = refl;
  no_approval_lost = λ k b e. e;
  seal_kept = λ closed. (refl, refl);
}

pub broadcasted_proposal-Moved :
    (hash : Str) (now : Time) (p : TransactionProposal)
    → is_signed p.status ≡ true
    → Moved p (broadcasted_proposal hash now p)
broadcasted_proposal-Moved hash now p signed_now = record {
  moving = ground arith;
  reached =
      subst (λ s. Reaches s broadcasted) (sym (is_signed-eq p.status signed_now))
        (steps stays broadcasts);
  request_kept = refl;
  wallet_kept = refl;
  transaction_kept = refl;
  no_approval_lost = λ k b e. e;
  seal_kept = λ closed. (refl, refl);
}
