-- ===== src/Store/Postgres/Session.antt =====
-- A transaction of internal/store/postgres.go from its Begin to its deferred Rollback.
use mpc_custody.Prelude.{inl, inr}
use mpc_custody.Go.Exec.{Result, ok, err, Exec}
use mpc_custody.Go.Exec.Triple.{Post, Triple, Triple-bind, Triple-error_weaken}
use mpc_custody.Wallet.Interfaces.{Context}
use mpc_custody.Store.Postgres.Sql.{Database}
use mpc_custody.Store.Postgres.Tables.{Tables}
use mpc_custody.Store.Postgres.Laws.{View, Failing, Kept, Closed, Opened, Doubted, IsPostgres}
use mpc_custody.Store.Postgres.Core.{with_tx}

module _ {D Doc : Type 0} (v : View D Doc) where
  -- No transaction is open, or one may be; the committed tables are as `L` says.
  abbrev pub Ends : (Tables Doc → Type 0) → D → Type 0
  Ends L d = (t : Tables Doc) × Closed v t d × L t

  abbrev pub Stays : (Tables Doc → Type 0) → D → Type 0
  Stays L d = (t : Tables Doc) × Kept v t d × L t

  pub Doubted-Stays :
      (L : Tables Doc → Type 0) (t u : Tables Doc) (d : D) → L t → L u → Doubted v t u d → Stays L d
  Doubted-Stays L t u d l m (inl c) = (t, c.0, l)
  Doubted-Stays L t u d l m (inr c) = (u, c.0, m)

  pub Doubted-Ends :
      (L : Tables Doc → Type 0) (t u : Tables Doc) (d : D) → L t → L u → Doubted v t u d → Ends L d
  Doubted-Ends L t u d l m (inl c) = (t, c, l)
  Doubted-Ends L t u d l m (inr c) = (u, c, m)

  module _ (db : Database D Doc) (h : IsPostgres v db) (ctx : Context) where
    rolled_back : (L : Tables Doc → Type 0) (d : D) → Stays L d → Ends L (db.rollback ctx d).1
    rolled_back L d (t, kept, l) = (t, h.rollback_law ctx t d kept, l)

    Post-deferred :
        {A : Type 0} (L : Tables Doc → Type 0) (R : A → Tables Doc → Type 0) (r : Result A × D)
        → Post (Stays L) (λ a. Stays (R a)) r
        → Post (Ends L) (λ a. Ends (R a)) (r.0, (db.rollback ctx r.1).1)
    Post-deferred L R (ok a, d) p = rolled_back (R a) d p
    Post-deferred L R (err e, d) p = rolled_back L d p

    -- What the body commits is what the transaction leaves.
    pub Triple-with_tx :
        {A : Type 0} (L : Tables Doc → Type 0) (R : A → Tables Doc → Type 0) (t : Tables Doc)
        {body : Exec D A}
        → (Failing v → L t)
        → Triple (Stays L) (Opened v t t) body (λ a. Stays (R a))
        → Triple (Ends L) (Closed v t) (with_tx db ctx body) (λ a. Ends (R a))
    unfolding with_tx
    Triple-with_tx L R t {body} l b =
        Triple-bind (Triple-error_weaken (λ d (c, f). (t, c, l f)) (h.begin_law ctx t))
          λ _. record { at = λ d p. Post-deferred L R (body d) (b.at d p) }
