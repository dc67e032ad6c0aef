-- ===== src/Store/Postgres/Sample.antt =====
-- A database of which internal/store/postgres.go can be run: tables in memory, whose documents are the
-- proposals themselves.
use mpc_custody.Prelude.{
  ℕ, ◌≡◌, refl, ◌⊎◌, Bool-cases, true, false, inl, inr, Option, none, some, [], if◌then◌else◌,
}
use mpc_custody.Errors.{Error, pg_error}
use mpc_custody.Go.Str.{Str, bytes}
use mpc_custody.Go.Dict.{lookup}
use mpc_custody.Go.Exec.{Result, ok, err, Exec, pure}
use mpc_custody.Go.Exec.Triple.{Post}
use mpc_custody.Wallet.Types.{TransactionProposal}
use mpc_custody.Store.Postgres.Sql.{Columns, Statement, Scope, pool, tx, Database}
use mpc_custody.Store.Postgres.Tables.{
  Tables, lookup_key, accepts, perform, rows_changed, proposal_of,
}
use mpc_custody.Store.Postgres.Laws.{View, Failing, Kept, Closed, Opened, Doubted, IsPostgres}

abbrev pub Session : Type 0
Session = Tables TransactionProposal × Option (Tables TransactionProposal)

abbrev no_transaction : Error
no_transaction = pg_error (bytes "25P01") []

abbrev key_taken : Error
key_taken = pg_error (bytes "23505") []

-- The tables that a query sees.
abbrev seen : Scope → Session → Tables TransactionProposal
seen pool d = d.0
seen tx (t, none) = t
seen tx (t, some u) = u

-- Columns that keep what is written.
abbrev same_columns : Columns TransactionProposal
same_columns = record { kept_time = λ n. n; kept_doc = λ p. p; kept_metadata = λ m. m }

abbrev exec_here :
    Statement TransactionProposal
    → Tables TransactionProposal
    → (Tables TransactionProposal → Session)
    → Session
    → Result ℕ × Session
exec_here s u next d =
    if accepts s u
    then (ok (rows_changed s u), next (perform same_columns s u))
    else (err key_taken, d)

abbrev exec_sample : Scope → Statement TransactionProposal → Exec Session ℕ
exec_sample pool s (t, w) = exec_here s t (λ u. (u, w)) (t, w)
exec_sample tx s (t, none) = (err no_transaction, (t, none))
exec_sample tx s (t, some u) = exec_here s u (λ u'. (t, some u')) (t, some u)

abbrev commit_sample : Exec Session (Unit {0})
commit_sample (t, none) = (err no_transaction, (t, none))
commit_sample (t, some u) = (ok tt, (u, none))

abbrev pub sample : Database Session TransactionProposal
sample = record {
  columns = same_columns;
  connect = λ url. pure tt;
  close = pure tt;
  begin = λ ctx d. (ok tt, (d.0, some d.0));
  commit = λ ctx. commit_sample;
  rollback = λ ctx d. (ok tt, (d.0, none));
  exec = λ scope ctx s. exec_sample scope s;
  select_wallet = λ scope ctx id d. (ok (lookup id (seen scope d).wallets), d);
  select_proposal =
      λ scope ctx lock id d. (ok (proposal_of (lookup id (seen scope d).proposals)), d);
  select_idempotency = λ scope ctx name key d. (ok (lookup_key name key (seen scope d).keys), d);
  select_audit_events = λ ctx id limit d. (ok d.0.events, d);
  now = pure 9;
  marshal = λ p. ok p;
  unmarshal = λ p. ok p;
}

abbrev pub sample_view : View Session TransactionProposal
sample_view = record { committed = λ d. d.0; working = λ d. d.1; may_fail = false }

sample-exec_tx :
    (s : Statement TransactionProposal) (t u : Tables TransactionProposal) (d : Session)
    → Opened sample_view t u d
    → Post
        (λ e. Kept sample_view t e × (Failing sample_view ⊎ (accepts s u ≡ false)))
        (λ n e.
          Opened sample_view t (perform same_columns s u) e
          × ((accepts s u ≡ true) × (n ≡ rows_changed s u)))
        (exec_sample tx s d)
sample-exec_tx s t u (c, w) (p, q) = rw (q) (elim (Bool-cases (accepts s u)) [
  | inl fits ↦ rw (fits) ((p, refl), (refl, refl))
  | inr other ↦ rw (other) (p, inr refl)
])

sample-exec_pool :
    (s : Statement TransactionProposal) (t : Tables TransactionProposal) (d : Session)
    → Closed sample_view t d
    → Post
        (λ e.
          ((Doubted sample_view t (perform same_columns s t) e × (accepts s t ≡ true))
            × Failing sample_view)
          ⊎ (Closed sample_view t e × (Failing sample_view ⊎ (accepts s t ≡ false))))
        (λ n e.
          Closed sample_view (perform same_columns s t) e
          × ((accepts s t ≡ true) × (n ≡ rows_changed s t)))
        (exec_sample pool s d)
sample-exec_pool s t (c, w) (p, q) =
    rw (p, q)
      (elim (Bool-cases (accepts s t)) [
        | inl fits ↦ rw (fits) ((refl, refl), (refl, refl))
        | inr other ↦ rw (other) (inr ((refl, refl), inr refl))
      ])

sample-commit :
    (t u : Tables TransactionProposal) (d : Session)
    → Opened sample_view t u d
    → Post
        (λ e. Doubted sample_view t u e × Failing sample_view)
        (λ _. Closed sample_view u)
        (commit_sample d)
sample-commit t u (c, w) (p, q) = rw (q) (refl, refl)

sample-proposal :
    (id : Str) (t u : Tables TransactionProposal) (d : Session)
    → Opened sample_view t u d
    → proposal_of (lookup id (seen tx d).proposals) ≡ proposal_of (lookup id u.proposals)
sample-proposal id t u (c, w) (p, q) = rw (q) refl

pub sample-IsPostgres : IsPostgres sample_view sample
sample-IsPostgres = record {
  begin_law = λ ctx t. record { at = λ d (p, q). (p, rw (p) refl) };
  commit_law = λ ctx t u. record { at = sample-commit t u };
  rollback_law = λ ctx t d p. (p, refl);
  exec_tx_law = λ ctx s t u. record { at = sample-exec_tx s t u };
  exec_pool_law = λ ctx s t. record { at = sample-exec_pool s t };
  proposal_tx_law = λ ctx lock id t u. record { at = λ d p. (p, sample-proposal id t u d p) };
  wallet_pool_law = λ ctx id t. record { at = λ d (p, q). ((p, q), rw (p) refl) };
  proposal_pool_law = λ ctx lock id t. record { at = λ d (p, q). ((p, q), rw (p) refl) };
  now_law = λ t u. record { at = λ d p. p };
  marshal_law = λ p e bad. absurd (cc);
}
