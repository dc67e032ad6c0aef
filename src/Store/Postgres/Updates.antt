-- ===== src/Store/Postgres/Updates.antt =====
-- UpdateTransaction of internal/store/postgres.go against that of internal/store/memory.go.
use mpc_custody.Prelude.{
  ◌≡◌, refl, ap, subst, inl, inr, true, Option, Option-cases, none, some, arith, ◌==◌,
}
use mpc_custody.Errors.{transaction_not_found}
use mpc_custody.Go.Dict.{lookup, insert, contains}
use mpc_custody.Go.Exec.{ok, err, raise_if, ◌>>=◌}
use mpc_custody.Go.Exec.Triple.{
  Post, Triple, Triple-bind, Triple-result, Triple-error_weaken, Triple-given,
}
use mpc_custody.Wallet.Types.{TransactionProposal}
use mpc_custody.Wallet.Interfaces.{Context}
use mpc_custody.Store.Memory
use mpc_custody.Store.Memory.{MemoryStore}
use mpc_custody.Store.Postgres.Sql.{Statement, Database, update_transaction_row}
use mpc_custody.Store.Postgres.Tables.{Tables, Row, perform, rows_changed}
use mpc_custody.Store.Postgres.Laws.{View, Closed, ReadsBack, IsPostgres}
use mpc_custody.Store.Postgres.Abstract.{Holds, Represents, Represents-update, row_of}
use mpc_custody.Store.Postgres.Session.{Ends, Doubted-Ends}
use mpc_custody.Store.Postgres.Locked.{Failed, Answered}
use mpc_custody.Store.Postgres.Proposals.{update_transaction}

module _ {D Doc : Type 0} (v : View D Doc) (db : Database D Doc) (h : IsPostgres v db)
    (ctx : Context) (p : TransactionProposal) (t : Tables Doc) (s : MemoryStore)
    (rep : Represents db t s) where
  abbrev written : Doc → Statement Doc
  written doc = update_transaction_row p.id p.status doc p.updated_at

  there_or_not :
      (o : Option (Row Doc)) (q : Option TransactionProposal) → Holds db o q → q ≡ none → o ≡ none
  there_or_not none none holds gone = refl
  there_or_not (some row) none holds gone = absurd holds
  there_or_not o (some q) holds gone = absurd (cc)

  no_row : lookup p.id s.transactions ≡ none → lookup p.id t.proposals ≡ none
  no_row gone = there_or_not _ _ (rep.proposals_same p.id) gone

  one_row :
      (q : TransactionProposal)
      → lookup p.id s.transactions ≡ some q
      → contains p.id t.proposals ≡ true
  one_row q found =
      let (row, there, read) =
        row_of db (lookup p.id t.proposals) q
          (subst (Holds db (lookup p.id t.proposals)) found (rep.proposals_same p.id)) in
      ground (arith, there)

  none_changed : (doc : Doc) → lookup p.id s.transactions ≡ none → rows_changed (written doc) t ≡ 0
  none_changed doc gone = ground (arith, no_row gone)

  one_changed :
      (doc : Doc) (q : TransactionProposal)
      → lookup p.id s.transactions ≡ some q
      → rows_changed (written doc) t ≡ 1
  one_changed doc q found = ground (arith, one_row q found)

  untouched :
      (doc : Doc) → lookup p.id s.transactions ≡ none → perform db.columns (written doc) t ≡ t
  untouched doc gone = ground (arith, no_row gone)

  update_missing :
      lookup p.id s.transactions ≡ none
      → Memory.update_transaction none p s ≡ (err transaction_not_found, s)
  unfolding Memory.update_transaction ◌>>=◌
  update_missing gone = ground arith

  update_stored :
      (q : TransactionProposal)
      → lookup p.id s.transactions ≡ some q
      → Memory.update_transaction none p s
        ≡ (ok tt, record s { transactions = insert p.id p s.transactions })
  unfolding Memory.update_transaction ◌>>=◌
  update_stored q found = ground arith

  -- The tables after the statement stand for the store after the update.
  after_update :
      (doc : Doc)
      → db.unmarshal (db.columns.kept_doc doc) ≡ ok p
      → Represents db (perform db.columns (written doc) t) (Memory.update_transaction none p s).1
  after_update doc read = elim (Option-cases (lookup p.id s.transactions)) [
    | inl gone ↦ rw (update_missing gone, untouched doc gone) rep
    | inr (q, found) ↦
        rw (update_stored q found)
          (Represents-update db t s p.id _ q p rep found (λ row. read) refl)
  ]

  abbrev Before : Tables Doc → Type 0
  Before = Failed v db (Memory.update_transaction none p) s

  abbrev After : Unit {0} → Tables Doc → Type 0
  After = Answered v db (Memory.update_transaction none p) s

  counted :
      (doc : Doc)
      → db.unmarshal (db.columns.kept_doc doc) ≡ ok p
      → (d : D) → Closed v (perform db.columns (written doc) t) d
      → Post
          (Ends v Before)
          (λ a. Ends v (After a))
          (raise_if (rows_changed (written doc) t == 0) transaction_not_found d)
  counted doc read d c = elim (Option-cases (lookup p.id s.transactions)) [
    | inl gone ↦
        let left : Ends v Before d = (
          perform db.columns (written doc) t,
          c,
          inl (
            subst (Represents db (perform db.columns (written doc) t))
                (ap (λ r. r.1) (update_missing gone)) (after_update doc read),
            (transaction_not_found, update_missing gone),
          ),
        ) in
        rw (none_changed doc gone) left
    | inr (q, found) ↦
        let left : Ends v (After tt) d = (
          perform db.columns (written doc) t,
          c,
          (after_update doc read, ap (λ r. r.0) (update_stored q found)),
        ) in
        rw (one_changed doc q found) left
  ]

  -- From tables that stand for a store, UpdateTransaction over PostgreSQL replaces the proposal as it
  -- does in memory, and refuses where this refuses. It fails otherwise only where the database may
  -- fail, and the tables then stand for the store before or after. The proposal is one that is read
  -- back as it was written.
  pub update_transaction-Refined :
      ReadsBack db p
      → Triple (Ends v Before) (Closed v t) (update_transaction db ctx p) (λ a. Ends v (After a))
  unfolding update_transaction
  update_transaction-Refined reads =
      Triple-result _ _ (λ e bad d c. (t, c, inr (h.marshal_law p e bad, inl rep)))
        λ doc written_out.
          Triple-bind
            (Triple-error_weaken
              (λ d f. elim f [
                | inl ((c, fits), down) ↦
                    Doubted-Ends v Before t (perform db.columns (written doc) t) d
                      (inr (down, inl rep))
                      (inr (down, inr (after_update doc (reads doc written_out)))) c
                | inr (c, inl down) ↦ (t, c, inr (down, inl rep))
                | inr (c, inr no_fit) ↦ absurd (cc)
              ])
              (h.exec_pool_law ctx (written doc) t))
            λ n.
              Triple-given
                λ (fits, same). rw same (record { at = counted doc (reads doc written_out) })
