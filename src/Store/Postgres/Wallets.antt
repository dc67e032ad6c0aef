-- ===== src/Store/Postgres/Wallets.antt =====
-- Wallets of internal/store/postgres.go.
use mpc_custody.Prelude.{Bool, true, false, none, some, []}
use mpc_custody.Errors.{wallet_not_found, duplicate_wallet}
use mpc_custody.Go.Str.{Str}
use mpc_custody.Go.Exec.{ok, err, Exec, pure, lift, map_error, ◌>>=◌, ◌>>◌}
use mpc_custody.Wallet.Types.{Wallet, IdempotencyRecord}
use mpc_custody.Wallet.Interfaces.{Context}
use mpc_custody.Store.Postgres.Sql.{insert_wallet, insert_idempotency, Scope, pool, tx, Database}
use mpc_custody.Store.Postgres.Core.{unique_as, unless_unique, with_tx}

abbrev pub zero_wallet : Wallet
zero_wallet = record { id = []; chain = []; address = []; public_key = []; created_at = 0 }

module _ {D Doc : Type 0} (db : Database D Doc) where
  unfoldable pub create_wallet : Context → Wallet → Exec D (Unit {0})
  unfolding unique_as
  create_wallet ctx w = do
    map_error (unique_as duplicate_wallet) (db.exec pool ctx (insert_wallet w))
    pure tt

  -- GetWallet and getWalletTx
  unfoldable pub get_wallet_in : Scope → Context → Str → Exec D Wallet
  get_wallet_in scope ctx id = do
    row ← db.select_wallet scope ctx id
    lift (elim row [ none ↦ err wallet_not_found | some w ↦ ok w ])

  unfoldable pub get_wallet : Context → Str → Exec D Wallet
  unfolding get_wallet_in
  get_wallet ctx id = get_wallet_in pool ctx id

  -- walletForIdempotency: a key that is not there gives the zero wallet, and no error.
  unfoldable pub wallet_for_idempotency : Context → Str → Str → Exec D (Wallet × Bool)
  unfolding get_wallet
  wallet_for_idempotency ctx scope key = do
    found ← db.select_idempotency pool ctx scope key
    elim found [
      | none ↦ pure (zero_wallet, false)
      | some r ↦ (do w ← get_wallet ctx r.resource_id; pure (w, false))
    ]

  unfoldable pub create_wallet_idempotently :
      Context → Wallet → IdempotencyRecord → Exec D (Wallet × Bool)
  unfolding with_tx get_wallet_in unique_as unless_unique wallet_for_idempotency
  create_wallet_idempotently ctx w r = with_tx db ctx (do
    found ← db.select_idempotency tx ctx r.scope r.key
    elim found [
      | some existing ↦ (do
        stored ← get_wallet_in tx ctx existing.resource_id
        pure (stored, false))
      | none ↦ (do
        map_error (unique_as duplicate_wallet) (db.exec tx ctx (insert_wallet w))
        unless_unique (db.exec tx ctx (insert_idempotency r))
            (do db.rollback ctx; wallet_for_idempotency ctx r.scope r.key)
            (do db.commit ctx; pure (w, true)))
    ])
