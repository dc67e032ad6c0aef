-- ===== src/World/Grows.antt =====
-- What may become of stored proposals while a request to internal/wallet/service.go is served among
-- others: none goes, and one that is proposed was so before, and has every approval that it had.
use mpc_custody.Prelude.{◌≤◌, ◌≡◌, some, arith}
use mpc_custody.Go.Str.{Str}
use mpc_custody.Go.Dict.{lookup}
use mpc_custody.Wallet.Types.{Approval, TransactionProposal, proposed, approvals_count}
use mpc_custody.World.{World}
use mpc_custody.World.Hoare.{Proposals, At}

-- A later state `q` of the proposal `p`.
pub record Grown (p q : TransactionProposal) : Type 0 where
  pub was_open : q.status ≡ proposed → p.status ≡ proposed
  pub no_fewer : q.status ≡ proposed → approvals_count p ≤ approvals_count q
  pub none_lost :
      q.status ≡ proposed
      → (signer : Str) (a : Approval) → lookup signer p.approvals ≡ some a
      → lookup signer q.approvals ≡ some a

pub record Grows (s t : Proposals) : Type 0 where
  pub later :
      (id : Str) (p : TransactionProposal)
      → lookup id s ≡ some p
      → (q : TransactionProposal) × (lookup id t ≡ some q) × Grown p q

pub Grown-refl : (p : TransactionProposal) → Grown p p
Grown-refl p = record {
  was_open = λ e. e;
  no_fewer = λ e. ground arith;
  none_lost = λ e signer a there. there;
}

pub Grown-trans : (p q r : TransactionProposal) → Grown p q → Grown q r → Grown p r
Grown-trans p q r g h = record {
  was_open = λ e. g.was_open (h.was_open e);
  no_fewer = λ e. let before = g.no_fewer (h.was_open e) in let after = h.no_fewer e in omega arith;
  none_lost =
      λ e signer a there. h.none_lost e signer a (g.none_lost (h.was_open e) signer a there);
}

pub Grows-refl : (s : Proposals) → Grows s s
Grows-refl s = record { later = λ id p found. (p, found, Grown-refl p) }

pub Grows-trans : (s t u : Proposals) → Grows s t → Grows t u → Grows s u
Grows-trans s t u g h = record {
  later = λ id p found.
      let (q, there, m) = g.later id p found in
      let (r, then_there, n) = h.later id q there in (r, then_there, Grown-trans p q r m n);
}

-- Others keep a property of the stored proposals, and what they leave of these has grown.
pub record Steady {X : Type 0} (All : Proposals → Type 0) (others : World X → World X)
    : Type 0 where
  pub keeps : (w : World X) → At All w → At All (others w)
  pub grows : (w : World X) → At All w → Grows w.store.transactions (others w).store.transactions

pub undisturbed : {X : Type 0} (All : Proposals → Type 0) → Steady {X = X} All (λ w. w)
undisturbed All = record { keeps = λ w h. h; grows = λ w h. Grows-refl w.store.transactions }
