-- ===== src/World/Still.antt =====
-- Steps of internal/wallet/service.go that leave the state of the adapters and of the backend as it is.
use mpc_custody.Prelude.{ℕ, ◌≡◌, refl, ◌∙◌, Option}
use mpc_custody.Errors.{Error}
use mpc_custody.Go.Str.{Str}
use mpc_custody.Go.Dict.{Dict}
use mpc_custody.Go.Exec.{Result, ok, err, Exec}
use mpc_custody.Go.Exec.Triple.{Post, Triple}
use mpc_custody.Go.Exec.Within.{Preorder, Within, within_rules}
use mpc_custody.Ids.{new_id}
use mpc_custody.Wallet.Types.{AuditEvent}
use mpc_custody.Wallet.Interfaces.{Context}
use mpc_custody.Wallet.Service.{append_audit}
use mpc_custody.Store.Memory.{MemoryStore}
use mpc_custody.World.{World, Setup, service, on_store, ask, count_metric}
use mpc_custody.World.Hoare.{Proposals, At}
use mpc_custody.World.Calm.{Never}

-- Nothing outside changes.
abbrev pub same_outside : (X : Type 0) → Preorder (World X)
same_outside X = record {
  rel = λ v w. w.external ≡ v.external;
  rel_refl = λ w. refl;
  rel_trans = λ u v w e f. f ∙ e;
}

-- What is true of the proposals, where what is outside is `x`.
abbrev pub Still : {X : Type 0} → X → (Proposals → Type 0) → World X → Type 0
Still x P w = At P w × (w.external ≡ x)

module _ {X : Type 0} where
  Post-Still :
      {A : Type 0} (x : X) (Q : A → Proposals → Type 0) (r : Result A × World X)
      → Post {W = World X} (At Never) (λ a. At (Q a)) r
      → r.1.external ≡ x
      → Post {W = World X} (At Never) (λ a. Still x (Q a)) r
  Post-Still x Q (ok a, w) h e = (h, e)
  Post-Still x Q (err p, w) h e = h

  pub Triple-Still :
      {A : Type 0} (x : X) (P : Proposals → Type 0) (Q : A → Proposals → Type 0)
      {m : Exec (World X) A}
      → Within (same_outside X) m
      → Triple {W = World X} (At Never) (At P) m (λ a. At (Q a))
      → Triple {W = World X} (At Never) (Still x P) m (λ a. Still x (Q a))
  Triple-Still x P Q {m} k t = record {
    at = λ w (h, e). Post-Still x Q (m w) (t.at w h) (k.at w ∙ e);
  }

  pub ask-Still : {A : Type 0} (f : ℕ → Result A) → Within (same_outside X) (ask f)
  unfolding ask
  ask-Still f = record { at = λ w. refl }

  pub count_metric-Still :
      (name : Str) (labels : Dict Str) → Within (same_outside X) (count_metric name labels)
  unfolding count_metric
  count_metric-Still name labels = record { at = λ w. refl }

  pub on_store-Still :
      {A : Type 0} (ctx : Context) (f : Option Error → Exec MemoryStore A)
      → Within (same_outside X) (on_store ctx f)
  unfolding on_store
  on_store-Still ctx f = record { at = λ w. refl }

pub append_audit-Still :
    {X : Type 0} (d : Setup X) (ctx : Context) (e : AuditEvent)
    → Within (same_outside X) (append_audit (service d) ctx e)
unfolding append_audit new_id
append_audit-Still d ctx e = search (within_rules, ask-Still, on_store-Still, count_metric-Still)
