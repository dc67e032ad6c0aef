-- ===== src/Store/Postgres/Laws.antt =====
-- What internal/store/postgres.go relies on in PostgreSQL and encoding/json, as triples: from tables
-- that no other session writes to, a statement that is answered has its effect, one that fails in a
-- transaction leaves the committed tables, and a failure on the pool or of a commit may or may not
-- have had its effect. A rollback leaves the committed tables, however it is answered. A call fails
-- only where the database or the context may fail it, and a statement also on a key of its table.
use mpc_custody.Prelude.{◌≡◌, ◌⊎◌, Bool, true, false, Option, none, some}
use mpc_custody.Go.Str.{Str}
use mpc_custody.Go.Dict.{lookup}
use mpc_custody.Errors.{Error}
use mpc_custody.Go.Exec.{ok, err}
use mpc_custody.Go.Exec.Triple.{Triple}
use mpc_custody.Wallet.Types.{TransactionProposal}
use mpc_custody.Wallet.Interfaces.{Context}
use mpc_custody.Store.Postgres.Sql.{Statement, pool, tx, Database}
use mpc_custody.Store.Postgres.Tables.{Tables, accepts, perform, rows_changed, proposal_of}

-- The committed tables, and those that the open transaction sees; whether calls may fail.
pub record View (D Doc : Type 0) : Type 0 where
  pub committed : D → Tables Doc
  pub working : D → Option (Tables Doc)
  pub may_fail : Bool

abbrev pub Failing : {D Doc : Type 0} → View D Doc → Type 0
Failing v = v.may_fail ≡ true

module _ {D Doc : Type 0} (v : View D Doc) where
  abbrev pub Kept : Tables Doc → D → Type 0
  Kept t d = v.committed d ≡ t

  abbrev pub Closed : Tables Doc → D → Type 0
  Closed t d = (v.committed d ≡ t) × (v.working d ≡ none)

  abbrev pub Opened : Tables Doc → Tables Doc → D → Type 0
  Opened t u d = (v.committed d ≡ t) × (v.working d ≡ some u)

  abbrev pub Doubted : Tables Doc → Tables Doc → D → Type 0
  Doubted t u d = Closed t d ⊎ Closed u d

  pub record IsPostgres (db : Database D Doc) : Type 0 where
    pub begin_law :
        (ctx : Context) (t : Tables Doc)
        → Triple (λ d. Closed t d × Failing v) (Closed t) (db.begin ctx) (λ _. Opened t t)
    pub commit_law :
        (ctx : Context) (t u : Tables Doc)
        → Triple (λ d. Doubted t u d × Failing v) (Opened t u) (db.commit ctx) (λ _. Closed u)
    pub rollback_law :
        (ctx : Context) (t : Tables Doc) (d : D) → Kept t d → Closed t (db.rollback ctx d).1
    pub exec_tx_law :
        (ctx : Context) (s : Statement Doc) (t u : Tables Doc)
        → Triple
            (λ d. Kept t d × (Failing v ⊎ (accepts s u ≡ false)))
            (Opened t u)
            (db.exec tx ctx s)
            (λ n d.
              Opened t (perform db.columns s u) d × ((accepts s u ≡ true) × (n ≡ rows_changed s u)))
    pub exec_pool_law :
        (ctx : Context) (s : Statement Doc) (t : Tables Doc)
        → Triple
            (λ d.
              ((Doubted t (perform db.columns s t) d × (accepts s t ≡ true)) × Failing v)
              ⊎ (Closed t d × (Failing v ⊎ (accepts s t ≡ false))))
            (Closed t)
            (db.exec pool ctx s)
            (λ n d.
              Closed (perform db.columns s t) d × ((accepts s t ≡ true) × (n ≡ rows_changed s t)))
    pub proposal_tx_law :
        (ctx : Context) (lock : Bool) (id : Str) (t u : Tables Doc)
        → Triple
            (λ d. Kept t d × Failing v)
            (Opened t u)
            (db.select_proposal tx ctx lock id)
            (λ o d. Opened t u d × (o ≡ proposal_of (lookup id u.proposals)))
    pub wallet_pool_law :
        (ctx : Context) (id : Str) (t : Tables Doc)
        → Triple
            (λ d. Closed t d × Failing v)
            (Closed t)
            (db.select_wallet pool ctx id)
            (λ o d. Closed t d × (o ≡ lookup id t.wallets))
    pub proposal_pool_law :
        (ctx : Context) (lock : Bool) (id : Str) (t : Tables Doc)
        → Triple
            (λ d. Closed t d × Failing v)
            (Closed t)
            (db.select_proposal pool ctx lock id)
            (λ o d. Closed t d × (o ≡ proposal_of (lookup id t.proposals)))
    pub now_law :
        (t u : Tables Doc)
        → Triple (λ d. Kept t d × Failing v) (Opened t u) db.now (λ _. Opened t u)
    pub marshal_law : (p : TransactionProposal) (e : Error) → db.marshal p ≡ err e → Failing v

-- A proposal that is read back from its column, through encoding/json and JSONB, as it was written.
abbrev pub ReadsBack : {D Doc : Type 0} → Database D Doc → TransactionProposal → Type 0
ReadsBack db p = (doc : _) → db.marshal p ≡ ok doc → db.unmarshal (db.columns.kept_doc doc) ≡ ok p
