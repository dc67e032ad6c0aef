-- ===== src/World/Hoare.antt =====
-- Triples about the calls behind the service, in terms of the stored proposals.
use mpc_custody.Prelude.{ℕ, ◌+◌, ◌∙◌, ◌≡◌, refl, sym, subst, Option}
use mpc_custody.Errors.{Error}
use mpc_custody.Go.Dict.{Dict}
use mpc_custody.Go.Exec.{Result, ok, err, Exec}
use mpc_custody.Go.Exec.Within.{Preorder, Within}
use mpc_custody.Go.Exec.Triple.{Post, Triple}
use mpc_custody.Wallet.Types.{TransactionProposal}
use mpc_custody.Wallet.Interfaces.{Context}
use mpc_custody.Store.Memory.{MemoryStore}
use mpc_custody.World.{World, on_store}
use mpc_custody.World.Order.{store_order}

abbrev pub Proposals : Type 0
Proposals = Dict TransactionProposal

-- A predicate of the stored proposals, of a store and of a world.
abbrev pub In : (Proposals → Type 0) → MemoryStore → Type 0
In P s = P s.transactions

abbrev pub At : {X : Type 0} → (Proposals → Type 0) → World X → Type 0
At P w = P w.store.transactions

pub on_store-Post :
    {X A : Type 0} (I : Proposals → Type 0) (Q : A → Proposals → Type 0) (w : World X) (t : ℕ)
    (r : Result A × MemoryStore)
    → Post (In I) (λ a. In (Q a)) r
    → Post {W = World X} (At I) (λ a. At (Q a)) (r.0, record w { store = r.1; tick = t })
on_store-Post I Q w t (ok a, s) p = p
on_store-Post I Q w t (err e, s) p = p

pub Triple-on_store :
    {X A : Type 0} (I P : Proposals → Type 0) (Q : A → Proposals → Type 0) (ctx : Context)
    (f : Option Error → Exec MemoryStore A)
    → ((c : Option Error) → Triple (In I) (In P) (f c) (λ a. In (Q a)))
    → Triple {W = World X} (At I) (At P) (on_store ctx f) (λ a. At (Q a))
unfolding on_store
Triple-on_store I P Q ctx f h = record {
  at = λ w p.
      on_store-Post I Q w (w.tick + 1) (f (ctx.err_at w.tick) w.store)
        ((h (ctx.err_at w.tick)).at w.store p);
}

-- What leaves the proposals alone.
abbrev pub same_proposals : Preorder MemoryStore
same_proposals = record {
  rel = λ s t. t.transactions ≡ s.transactions;
  rel_refl = λ s. refl;
  rel_trans = λ s t u p q. q ∙ p;
}

Post-kept :
    {X A : Type 0} (I P : Proposals → Type 0)
    → ((t : Proposals) → P t → I t)
    → (r : Result A) (w : World X) → At P w
    → Post {W = World X} {A = A} (At I) (λ _. At P) (r, w)
Post-kept I P weaker (ok a) w p = p
Post-kept I P weaker (err e) w p = weaker w.store.transactions p

pub Triple-Within :
    {X A : Type 0} (I P : Proposals → Type 0) (m : Exec (World X) A)
    → ((t : Proposals) → P t → I t)
    → Within (store_order same_proposals) m
    → Triple (At I) (At P) m (λ _. At P)
Triple-Within I P m weaker h = record {
  at = λ w p. Post-kept I P weaker (m w).0 (m w).1 (subst P (sym (h.at w)) p);
}
