-- ===== src/World/Signed.antt =====
-- What CoSign of internal/wallet/service.go does at the quorum, where no outside call fails.
use mpc_custody.Prelude.{◌≡◌, refl, sym, subst, ap, ◌∙◌, Bool, true, false, none, some}
use mpc_custody.Go.Str.{Str}
use mpc_custody.Go.Dict.{lookup, lookup-insert_self}
use mpc_custody.Go.Exec.{ok}
use mpc_custody.Go.Exec.Triple.{
  Post-intro, Triple, Triple-pure, Triple-bind, Triple-on_error, Triple-given,
}
use mpc_custody.Wallet.Types.{Signature, TransactionProposal, proposed, signed}
use mpc_custody.Wallet.Interfaces.{Context}
use mpc_custody.Wallet.Service.{finish_signing, sign_at_quorum}
use mpc_custody.Store.Memory.{mark_transaction_signed, sign}
use mpc_custody.Store.Memory.Approvals.{mark_transaction_signed-ok}
use mpc_custody.World.{World, Setup, service}
use mpc_custody.World.Order.{HasOwnState}
use mpc_custody.World.Still.{Still}
use mpc_custody.World.Hoare.{Proposals, At, In}
use mpc_custody.World.Calm.{Calm, Never, count_metric-total, on_store-total, append_audit-total}

-- A signature that the backend gives for a proposal, where what is outside is `x`.
pub record IsSignatureOf {X : Type 0} (d : Setup X) (ctx : Context) (x : X)
    (p : TransactionProposal) (g : Signature) : Type 0 where
  pub at_world : World X
  pub same_outside : at_world.external ≡ x
  pub answered : (d.signer.sign_transaction ctx p at_world).0 ≡ ok g

-- What an approval of `p` that completes the quorum ends in.
pub record IsSigned {X : Type 0} (d : Setup X) (ctx : Context) (x : X) (id : Str)
    (p q : TransactionProposal) (t : Proposals) : Type 0 where
  pub is_stored : lookup id t ≡ some q
  pub status_signed : q.status ≡ signed
  pub signature : Signature
  pub by_backend : IsSignatureOf d ctx x p signature
  pub payload : q.signed_transaction ≡ signature.signed_transaction
  pub approvals_kept : q.approvals ≡ p.approvals

-- The backend signs `p` where what is outside is `x`.
abbrev pub Signs : {X : Type 0} → Setup X → Context → X → TransactionProposal → Type 0
Signs {X} d ctx x p =
    (v : World X)
    → v.external ≡ x
    → (g : Signature) × ((d.signer.sign_transaction ctx p v).0 ≡ ok g)

module _ {X : Type 0} (d : Setup X) (ctx : Context) (calm : Calm d ctx) (own : HasOwnState d)
    (x : X) where
  backend-total :
      (P : Proposals → Type 0) (p : TransactionProposal)
      → Signs d ctx x p
      → Triple
          (At Never)
          (Still x P)
          (d.signer.sign_transaction ctx p)
          (λ g w. At P w × IsSignatureOf d ctx x p g)
  backend-total P p signs = record {
    at = λ w (h, e).
        Post-intro (λ g w. At P w × IsSignatureOf d ctx x p g) (d.signer.sign_transaction ctx p w)
          (λ g v answer. (
            subst (λ s. P s.transactions)
                (sym ((own.sign_keeps ctx p).at w) ∙ ap (λ r. r.1.store) answer) h,
            record { at_world = w; same_outside = e; answered = ap (λ r. r.0) answer },
          ))
          (λ problem v answer.
            absurd (let (g, good) = signs w e in let bad = ap (λ r. r.0) answer in cc));
  }

  finish_signing-total :
      (id : Str) (p : TransactionProposal) (g : Signature) (q : TransactionProposal) (fresh : Bool)
      → Triple
          (At Never)
          (At (IsSigned d ctx x id p q))
          (finish_signing (service d) ctx g (q, fresh))
          (λ r. At (IsSigned d ctx x id p r))
  unfolding finish_signing
  finish_signing-total id p g q false = Triple-pure q _ (λ w h. h)
  finish_signing-total id p g q true =
      Triple-bind (count_metric-total (IsSigned d ctx x id p q) _ _) λ _.
        Triple-bind (append_audit-total d ctx calm (IsSigned d ctx x id p q) _)
          λ _. Triple-pure q _ (λ w h. h)

  mark-total :
      (p : TransactionProposal) (g : Signature)
      → p.status ≡ proposed
      → IsSignatureOf d ctx x p g
      → Triple
          (In Never)
          (In (λ t. lookup p.id t ≡ some p))
          (mark_transaction_signed none p.id g.signed_transaction)
          (λ r. In (IsSigned d ctx x p.id p r.0))
  mark-total p g open_status given = record {
    at = λ s found.
        rw (mark_transaction_signed-ok p.id g.signed_transaction p s found open_status) (record {
          is_stored = lookup-insert_self p.id (sign g.signed_transaction p) s.transactions;
          status_signed = refl;
          signature = g;
          by_backend = given;
          payload = refl;
          approvals_kept = refl;
        });
  }

  pub sign_at_quorum-total :
      (p : TransactionProposal)
      → p.status ≡ proposed
      → Signs d ctx x p
      → Triple
          (At Never)
          (Still x (λ t. lookup p.id t ≡ some p))
          (sign_at_quorum (service d) ctx p)
          (λ q. At (IsSigned d ctx x p.id p q))
  unfolding sign_at_quorum
  sign_at_quorum-total p open_status signs =
      Triple-bind
        (Triple-on_error {R = At Never} (backend-total (λ t. lookup p.id t ≡ some p) p signs)
          (λ e. record { at = λ w h. absurd h }))
        λ g. Triple-given λ given.
          Triple-bind
            (on_store-total (λ t. lookup p.id t ≡ some p) (λ r. IsSigned d ctx x p.id p r.0) ctx _
              calm.alive (mark-total p g open_status given))
            λ (q, fresh). finish_signing-total p.id p g q fresh
