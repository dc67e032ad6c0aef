-- ===== src/Store/Postgres/Creations.antt =====
-- CreateWallet of internal/store/postgres.go against that of internal/store/memory.go.
use mpc_custody.Prelude.{◌≡◌, sym, ap, subst, inl, inr, not, true, false, none, arith}
use mpc_custody.Errors.{duplicate_wallet}
use mpc_custody.Go.Dict.{insert, contains}
use mpc_custody.Go.Exec.{ok, err, ◌>>=◌}
use mpc_custody.Go.Exec.Triple.{
  Triple, Triple-bind, Triple-pure, Triple-map_error, Triple-error_weaken, Triple-given,
}
use mpc_custody.Wallet.Types.{Wallet}
use mpc_custody.Wallet.Interfaces.{Context}
use mpc_custody.Store.Memory
use mpc_custody.Store.Memory.{MemoryStore}
use mpc_custody.Store.Postgres.Sql.{Database, insert_wallet}
use mpc_custody.Store.Postgres.Tables.{Tables, perform}
use mpc_custody.Store.Postgres.Laws.{View, Closed, IsPostgres}
use mpc_custody.Store.Postgres.Abstract.{Represents, Represents-wallet}
use mpc_custody.Store.Postgres.Session.{Ends, Doubted-Ends}
use mpc_custody.Store.Postgres.Locked.{Failed, Answered}
use mpc_custody.Store.Postgres.Wallets.{create_wallet}

module _ {D Doc : Type 0} (v : View D Doc) (db : Database D Doc) (h : IsPostgres v db)
    (ctx : Context) (w : Wallet) (t : Tables Doc) (s : MemoryStore) (rep : Represents db t s)
    (on_time : db.columns.kept_time w.created_at ≡ w.created_at) where
  taken :
      not (contains w.id t.wallets) ≡ false
      → Memory.create_wallet none w s ≡ (err duplicate_wallet, s)
  unfolding Memory.create_wallet ◌>>=◌
  taken no_fit = ground (arith, rep.wallets_same)

  created :
      not (contains w.id t.wallets) ≡ true
      → Memory.create_wallet none w s ≡ (ok tt, record s { wallets = insert w.id w s.wallets })
  unfolding Memory.create_wallet ◌>>=◌
  created fits = ground (arith, rep.wallets_same)

  abbrev Before : Tables Doc → Type 0
  Before = Failed v db (Memory.create_wallet none w) s

  abbrev After : Unit {0} → Tables Doc → Type 0
  After = Answered v db (Memory.create_wallet none w) s

  added :
      not (contains w.id t.wallets) ≡ true
      → Represents db (perform db.columns (insert_wallet w) t) (Memory.create_wallet none w s).1
  added fits =
      subst (λ r. Represents db (perform db.columns (insert_wallet w) t) r.1) (sym (created fits))
        (subst
          (λ n.
            Represents db
              (record t { wallets = insert w.id (record w { created_at = n }) t.wallets })
              (record s { wallets = insert w.id w s.wallets }))
          (sym on_time) (Represents-wallet db t s w rep))

  -- From tables that stand for a store, and for a wallet whose time the column keeps as it is,
  -- CreateWallet over PostgreSQL adds the wallet as it does in memory, and refuses where this refuses. It fails otherwise only where the database may fail, and
  -- the tables then stand for the store before or after.
  pub create_wallet-Refined :
      Triple (Ends v Before) (Closed v t) (create_wallet db ctx w) (λ a. Ends v (After a))
  unfolding create_wallet
  create_wallet-Refined =
      Triple-bind
        (Triple-map_error _ (
          Triple-error_weaken
            (λ d f. elim f [
              | inl ((c, fits), down) ↦
                  Doubted-Ends v Before t (perform db.columns (insert_wallet w) t) d
                    (inr (down, inl rep)) (inr (down, inr (added fits))) c
              | inr (c, inl down) ↦ (t, c, inr (down, inl rep))
              | inr (c, inr no_fit) ↦ (t, c, inl (rep, (duplicate_wallet, taken no_fit)))
            ])
            (h.exec_pool_law ctx (insert_wallet w) t)))
        λ n. Triple-given λ (fits, same). Triple-pure tt _ (λ d c.
          (perform db.columns (insert_wallet w) t, c, (added fits, ap (λ r. r.0) (created fits))))
