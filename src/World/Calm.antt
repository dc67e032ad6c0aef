-- ===== src/World/Calm.antt =====
-- What internal/wallet/service.go asks of the world where no outside call fails. A triple whose error
-- case is `⊥` says that no error is returned.
use mpc_custody.Prelude.{ℕ, ◌+◌, ◌≡◌, refl, Option, none}
use mpc_custody.Go.Str.{Str}
use mpc_custody.Go.Dict.{Dict}
use mpc_custody.Go.Exec.{Result, Exec, ok}
use mpc_custody.Go.Exec.Triple.{Triple, Triple-pure, Triple-bind}
use mpc_custody.Ids.{new_id}
use mpc_custody.Wallet.Types.{AuditEvent}
use mpc_custody.Wallet.Interfaces.{Context}
use mpc_custody.Wallet.Service.{append_audit}
use mpc_custody.Store.Memory.{MemoryStore, append_audit_event}
use mpc_custody.World.{World, Setup, service, on_store, ask, count_metric}
use mpc_custody.World.Hoare.{Proposals, At, In, on_store-Post}

-- The context stays alive, and the random source answers.
pub record Calm {X : Type 0} (d : Setup X) (ctx : Context) : Type 0 where
  pub alive : (n : ℕ) → ctx.err_at n ≡ none
  pub bytes_at : ℕ → ℕ → Str
  pub random_ok : (n size : ℕ) → d.outside.random_at n size ≡ ok (bytes_at n size)

abbrev pub Never : Proposals → Type 0
Never _ = ⊥

module _ {X : Type 0} where
  pub ask-total :
      {A : Type 0} (P : Proposals → Type 0) (f : ℕ → Result A) (g : ℕ → A)
      → ((n : ℕ) → f n ≡ ok (g n))
      → Triple {W = World X} (At Never) (At P) (ask f) (λ _. At P)
  unfolding ask
  ask-total P f g h = record { at = λ w p. rw (h w.tick) p }

  pub count_metric-total :
      (P : Proposals → Type 0) (name : Str) (labels : Dict Str)
      → Triple {W = World X} (At Never) (At P) (count_metric name labels) (λ _. At P)
  unfolding count_metric
  count_metric-total P name labels = record { at = λ w p. p }

  pub on_store-total :
      {A : Type 0} (P : Proposals → Type 0) (Q : A → Proposals → Type 0) (ctx : Context)
      (f : Option _ → Exec MemoryStore A)
      → ((n : ℕ) → ctx.err_at n ≡ none)
      → Triple (In Never) (In P) (f none) (λ a. In (Q a))
      → Triple {W = World X} (At Never) (At P) (on_store ctx f) (λ a. At (Q a))
  unfolding on_store
  on_store-total P Q ctx f alive h = record {
    at = λ w p.
        rw (alive w.tick) (on_store-Post Never Q w (w.tick + 1) (f none w.store) (h.at w.store p));
  }

module _ {X : Type 0} (d : Setup X) (ctx : Context) (calm : Calm d ctx) where
  pub append_audit-total :
      (P : Proposals → Type 0) (e : AuditEvent)
      → Triple (At Never) (At P) (append_audit (service d) ctx e) (λ _. At P)
  unfolding append_audit new_id append_audit_event
  append_audit-total P e =
      Triple-bind
        (Triple-bind (ask-total P _ (λ n. calm.bytes_at n 16) (λ n. calm.random_ok n 16))
          λ raw. Triple-pure _ _ (λ w p. p))
        λ id. Triple-bind (ask-total P _ d.outside.now_at (λ n. refl)) λ now.
          Triple-bind (on_store-total P (λ _. P) ctx _ calm.alive (record { at = λ s p. p }))
            λ _. count_metric-total P _ _
