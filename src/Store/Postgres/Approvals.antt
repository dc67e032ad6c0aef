-- ===== src/Store/Postgres/Approvals.antt =====
-- AddApproval of internal/store/postgres.go against that of internal/store/memory.go.
use mpc_custody.Prelude.{◌≡◌, refl, sym, ap, subst, inl, inr, true, false, not, none, some, arith}
use mpc_custody.Errors.{transaction_not_found, transaction_not_proposed, duplicate_approval}
use mpc_custody.Go.Str.{Str}
use mpc_custody.Go.Dict.{lookup, insert, contains}
use mpc_custody.Go.Exec.{ok, err, ◌>>=◌}
use mpc_custody.Go.Exec.Triple.{Triple, Triple-bind, Triple-check, Triple-result, Triple-given}
use mpc_custody.Wallet.Types.{Approval, TransactionProposal, is_proposed}
use mpc_custody.Wallet.Interfaces.{Context}
use mpc_custody.Store.Memory
use mpc_custody.Store.Memory.{MemoryStore, approve}
use mpc_custody.Store.Postgres.Sql.{Database, update_approvals}
use mpc_custody.Store.Postgres.Tables.{Tables, perform}
use mpc_custody.Store.Postgres.Laws.{View, Closed, Opened, ReadsBack, IsPostgres}
use mpc_custody.Store.Postgres.Abstract.{Represents, Represents-update}
use mpc_custody.Store.Postgres.Session.{Ends, Stays, Triple-with_tx}
use mpc_custody.Store.Postgres.Quorum.{approve_locked, add_approval}
use mpc_custody.Store.Postgres.Locked.{Failed, Answered, get_transaction_in-locked, Triple-write}

module _ {D Doc : Type 0} (v : View D Doc) (db : Database D Doc) (h : IsPostgres v db)
    (ctx : Context) where
  missing_refused :
      (id : Str) (a : Approval) (s : MemoryStore)
      → lookup id s.transactions ≡ none
      → Memory.add_approval none id a s ≡ (err transaction_not_found, s)
  unfolding Memory.add_approval ◌>>=◌
  missing_refused id a s gone = ground arith

  closed_refused :
      (id : Str) (a : Approval) (p : TransactionProposal) (s : MemoryStore)
      → lookup id s.transactions ≡ some p
      → not (is_proposed p.status) ≡ true
      → Memory.add_approval none id a s ≡ (err transaction_not_proposed, s)
  unfolding Memory.add_approval ◌>>=◌
  closed_refused id a p s found closed = ground arith

  duplicate_refused :
      (id : Str) (a : Approval) (p : TransactionProposal) (s : MemoryStore)
      → lookup id s.transactions ≡ some p
      → not (is_proposed p.status) ≡ false
      → contains a.signer_id p.approvals ≡ true
      → Memory.add_approval none id a s ≡ (err duplicate_approval, s)
  unfolding Memory.add_approval ◌>>=◌
  duplicate_refused id a p s found open_status twice = ground arith

  approved :
      (id : Str) (a : Approval) (p : TransactionProposal) (s : MemoryStore)
      → lookup id s.transactions ≡ some p
      → not (is_proposed p.status) ≡ false
      → contains a.signer_id p.approvals ≡ false
      → Memory.add_approval none id a s
        ≡ (ok (approve a p), record s { transactions = insert id (approve a p) s.transactions })
  unfolding Memory.add_approval ◌>>=◌
  approved id a p s found open_status once = ground arith

  -- The update of the row and that of the store.
  Represents-approve :
      (id : Str) (a : Approval) (p : TransactionProposal) (doc : Doc) (t : Tables Doc)
      (s : MemoryStore)
      → Represents db t s
      → lookup id s.transactions ≡ some p
      → db.unmarshal (db.columns.kept_doc doc) ≡ ok (approve a p)
      → Represents db
          (perform db.columns (update_approvals p.id doc a.created_at) t)
          (record s { transactions = insert id (approve a p) s.transactions })
  Represents-approve id a p doc t s rep found read =
      subst
        (λ i.
          Represents db (perform db.columns (update_approvals i doc a.created_at) t)
            (record s { transactions = insert id (approve a p) s.transactions }))
        (sym (rep.keyed id p found))
        (Represents-update db t s id _ p (approve a p) rep found (λ row. read)
          (rep.keyed id p found))

  module _ (id : Str) (a : Approval) (t : Tables Doc) (s : MemoryStore)
      (rep : Represents db t s) where
    abbrev Before : Tables Doc → Type 0
    Before = Failed v db (Memory.add_approval none id a) s

    abbrev After : TransactionProposal → Tables Doc → Type 0
    After = Answered v db (Memory.add_approval none id a) s

    after :
        (p : TransactionProposal) (doc : Doc)
        → lookup id s.transactions ≡ some p
        → Memory.add_approval none id a s
          ≡ (ok (approve a p), record s { transactions = insert id (approve a p) s.transactions })
        → db.unmarshal (db.columns.kept_doc doc) ≡ ok (approve a p)
        → After (approve a p) (perform db.columns (update_approvals p.id doc a.created_at) t)
    after p doc found now read = (
      subst (λ r. Represents db (perform db.columns (update_approvals p.id doc a.created_at) t) r.1)
          (sym now) (Represents-approve id a p doc t s rep found read),
      ap (λ r. r.0) now,
    )

    approve_locked-Answered :
        (p : TransactionProposal)
        → ReadsBack db (approve a p)
        → lookup id s.transactions ≡ some p
        → Triple
            (Stays v Before)
            (Opened v t t)
            (approve_locked db ctx a p)
            (λ q. Stays v (After q))
    unfolding approve_locked
    approve_locked-Answered p reads found =
        Triple-check _ _ _
          (λ shut d c. (t, c.0, inl (rep, (_, closed_refused id a p s found shut))))
          λ open_status.
            Triple-check _ _ _
              (λ twice d c.
                (t, c.0, inl (rep, (_, duplicate_refused id a p s found open_status twice))))
              λ once.
                Triple-result _ _
                  (λ e bad d c. (t, c.0, inr (h.marshal_law (approve a p) e bad, inl rep)))
                  λ doc written.
                    let next =
                      after p doc found (approved id a p s found open_status once)
                        (reads doc written) in
                    Triple-write v db h ctx Before After t (update_approvals p.id doc a.created_at)
                      (approve a p) refl (λ f. inr (f, inl rep)) (λ f. inr (f, inr next.0)) next

    -- From tables that stand for a store, and where the proposal with the approval is read back from
    -- its column as it was written, AddApproval over PostgreSQL answers what AddApproval in memory
    -- answers, and commits tables that stand for what this leaves. It fails only where that refuses,
    -- and the tables then stand for the same store, or where the database may fail, and they then
    -- stand for the store before or after.
    pub add_approval-Refined :
        ((p : TransactionProposal) → lookup id s.transactions ≡ some p → ReadsBack db (approve a p))
        → Triple (Ends v Before) (Closed v t) (add_approval db ctx id a) (λ q. Ends v (After q))
    unfolding add_approval
    add_approval-Refined reads =
        Triple-with_tx v db h ctx Before After t (λ f. inr (f, inl rep))
          (Triple-bind
            (get_transaction_in-locked v db h ctx Before t s id rep (λ f. inr (f, inl rep))
              (λ gone. inl (rep, (_, missing_refused id a s gone))))
            λ p. Triple-given λ found. approve_locked-Answered p (reads p found) found)
