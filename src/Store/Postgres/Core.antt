-- ===== src/Store/Postgres/Core.antt =====
-- Migrations, transactions and unique keys of internal/store/postgres.go.
use mpc_custody.Prelude.{ℕ, Bool, false, [], ◌∷◌, if◌then◌else◌}
use mpc_custody.Errors.{Error, pg_error, migration_failed}
use mpc_custody.Go.Str.{Str, str_eq, bytes}
use mpc_custody.Go.Dict.{Dict}
use mpc_custody.Go.Sort.{sort_by_key}
use mpc_custody.Go.Exec.{Result, ok, err, Exec, pure, on_error, map_error, ◌>>◌}
use mpc_custody.Wallet.Interfaces.{Context}
use mpc_custody.Store.Postgres.Sql.{migrate, pool, Database}

unfoldable pub is_unique_violation : Error → Bool
is_unique_violation (pg_error code _) = str_eq code (bytes "23505")
is_unique_violation _ = false

-- `if isUniqueViolation(err) { return … }`
unfoldable pub unique_as : Error → Error → Error
unfolding is_unique_violation
unique_as duplicate e = if is_unique_violation e then duplicate else e

module _ {D A : Type 0} where
  -- `defer cleanup()`, whose error is dropped
  unfoldable pub deferred : Exec D (Unit {0}) → Exec D A → Exec D A
  deferred cleanup m w = let (r, w') = m w in (r, (cleanup w').1)

  -- What is done after a statement, by whether it violates a unique key.
  abbrev pub by_unique : Exec D A → Exec D A → Result ℕ → Exec D A
  by_unique violated done (ok _) w = done w
  by_unique violated done (err e) w = if is_unique_violation e then violated w else (err e, w)

  unfoldable pub unless_unique : Exec D ℕ → Exec D A → Exec D A → Exec D A
  unless_unique m violated done w = let (r, w') = m w in by_unique violated done r w'

module _ {D Doc : Type 0} (db : Database D Doc) where
  -- The embedded files of the folder migrations, by name.
  unfoldable pub run_migrations : Context → Dict Str → Exec D (Unit {0})
  run_migrations ctx [] = pure tt
  run_migrations ctx ((name, sql) ∷ files) = do
    map_error (migration_failed name) (db.exec pool ctx (migrate sql))
    run_migrations ctx files

  unfoldable pub open_postgres : Context → Dict Str → Str → Exec D (Unit {0})
  unfolding run_migrations
  open_postgres ctx files database_url = do
    db.connect database_url
    on_error (run_migrations ctx (sort_by_key files)) (λ _. db.close)

  -- `tx, err := s.pool.Begin(ctx)`, with a deferred Rollback
  unfoldable pub with_tx : {A : Type 0} → Context → Exec D A → Exec D A
  unfolding deferred
  with_tx ctx body = do db.begin ctx; deferred (db.rollback ctx) body
