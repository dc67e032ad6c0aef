-- ===== src/World/Once.antt =====
-- A transaction is broadcast once by internal/wallet/service.go, over the in-memory store.
use mpc_custody.Prelude.{◌≡◌, refl, ap, ◌∙◌, some, List, inl, inr, Option-cases}
use mpc_custody.Errors.{Error, transaction_not_signed}
use mpc_custody.Go.Str.{Str}
use mpc_custody.Go.Dict.{lookup}
use mpc_custody.Go.Exec.{Result, err, ◌>>=◌}
use mpc_custody.Wallet.Types.{TransactionProposal, broadcasted}
use mpc_custody.Wallet.Interfaces.{Context}
use mpc_custody.Wallet.Service.{broadcast}
use mpc_custody.Store.Memory
use mpc_custody.World.{World, Setup, service, on_store}
use mpc_custody.World.Requests.{Request, serve}
use mpc_custody.World.Order.{HasOwnState}
use mpc_custody.World.Progress.{serve-Advanced}

-- A refused request that asked nothing of an adapter and wrote nothing.
abbrev pub IsRefused : {X A : Type 0} → (World X → Result A × World X) → World X → Type 0
IsRefused m w =
    (e : Error) × ((m w).0 ≡ err e) × ((m w).1.store ≡ w.store) × ((m w).1.external ≡ w.external)

broadcast_closed :
    {X : Type 0} (d : Setup X) (ctx : Context) (id : Str) (p : TransactionProposal) (w : World X)
    → lookup id w.store.transactions ≡ some p
    → p.status ≡ broadcasted
    → IsRefused (broadcast (service d) ctx id) w
unfolding broadcast on_store Memory.get_transaction ◌>>=◌
broadcast_closed d ctx id p w found sent = elim (Option-cases (ctx.err_at w.tick)) [
  | inl alive ↦ rw (alive, found, sent) (transaction_not_signed, refl, refl, refl)
  | inr (e, ended) ↦ rw (ended) (e, refl, refl, refl)
]

-- A transaction that was broadcast is not broadcast again, whatever requests were served since: the
-- request is refused, and neither an adapter is asked nor the store changed, where every proposal is
-- stored under its own id, and adapters and backend do not reach into the store.
pub broadcast_once :
    {X : Type 0} (d : Setup X) (rs : List (Context × Request)) (w : World X) (ctx : Context)
    (id : Str) (p : TransactionProposal)
    → HasOwnState d
    → ((j : Str) (q : TransactionProposal) → lookup j w.store.transactions ≡ some q → q.id ≡ j)
    → lookup id w.store.transactions ≡ some p
    → p.status ≡ broadcasted
    → IsRefused (broadcast (service d) ctx id) (serve d rs w)
broadcast_once d rs w ctx id p own keyed found sent =
    let (q, there, h) = serve-Advanced d rs w id p own keyed found in
    broadcast_closed d ctx id q (serve d rs w) there
      (ap (λ r. r.status) (h.final (inl sent)) ∙ sent)
