-- ===== src/Store/Postgres/Marking.antt =====
-- MarkTransactionSigned of internal/store/postgres.go against that of internal/store/memory.go, which
-- takes the time of the latest approval where this reads the clock.
use mpc_custody.Prelude.{
  ◌≡◌, refl, sym, subst, ◌⊎◌, inl, inr, Bool, true, false, not, none, some, arith,
}
use mpc_custody.Errors.{transaction_not_found}
use mpc_custody.Go.Str.{Str}
use mpc_custody.Go.Dict.{lookup, insert}
use mpc_custody.Go.Exec.{ok, err, ◌>>=◌}
use mpc_custody.Go.Exec.Triple.{
  Triple, Triple-bind, Triple-if, Triple-result, Triple-pure, Triple-error_weaken, Triple-given,
}
use mpc_custody.Wallet.Types.{Time, TransactionProposal, signed, is_proposed}
use mpc_custody.Wallet.Interfaces.{Context}
use mpc_custody.Store.Memory
use mpc_custody.Store.Memory.{MemoryStore, sign}
use mpc_custody.Store.Postgres.Sql.{Database, update_transaction_row}
use mpc_custody.Store.Postgres.Tables.{Tables, perform}
use mpc_custody.Store.Postgres.Laws.{View, Failing, Closed, Opened, ReadsBack, IsPostgres}
use mpc_custody.Store.Postgres.Abstract.{Represents, Represents-update}
use mpc_custody.Store.Postgres.Session.{Ends, Stays, Doubted-Stays, Triple-with_tx}
use mpc_custody.Store.Postgres.Locked.{Refused, get_transaction_in-locked, Triple-write}
use mpc_custody.Store.Postgres.Quorum.{sign_at, sign_locked, mark_transaction_signed}

abbrev pub stored : Str → TransactionProposal → MemoryStore → MemoryStore
stored id p s = record s { transactions = insert id p s.transactions }

-- What MarkTransactionSigned may leave and answer, with `f` that of the store in memory: the answer
-- of `f`, and where that is freshly signed, of another time.
module _ {D Doc : Type 0} (v : View D Doc) (db : Database D Doc) (id payload : Str)
    (s : MemoryStore) where
  abbrev pub Signs : Time → TransactionProposal → TransactionProposal → Type 0
  Signs now m q =
      ((Memory.mark_transaction_signed none id payload s).0 ≡ ok (m, true))
      × (q ≡ record m { updated_at = now })

  abbrev pub Unmarked : Tables Doc → Type 0
  Unmarked t =
      (Represents db t s × Refused v db (Memory.mark_transaction_signed none id payload) s)
      ⊎ (Failing v
          × (Represents db t s
              ⊎ ((now : Time) × (m : TransactionProposal) × (q : TransactionProposal) × Signs now m
                    q
                  × Represents db t (stored id q s))))

  abbrev pub IsMarked : TransactionProposal × Bool → Tables Doc → Type 0
  IsMarked (q, false) t =
      ((Memory.mark_transaction_signed none id payload s).0 ≡ ok (q, false)) × Represents db t s
  IsMarked (q, true) t =
      (now : Time) × (m : TransactionProposal) × Signs now m q × Represents db t (stored id q s)

module _ {D Doc : Type 0} (v : View D Doc) (db : Database D Doc) (h : IsPostgres v db)
    (ctx : Context) where
  missing_refused :
      (id payload : Str) (s : MemoryStore)
      → lookup id s.transactions ≡ none
      → Memory.mark_transaction_signed none id payload s ≡ (err transaction_not_found, s)
  unfolding Memory.mark_transaction_signed ◌>>=◌
  missing_refused id payload s gone = ground arith

  kept_closed :
      (id payload : Str) (p : TransactionProposal) (s : MemoryStore)
      → lookup id s.transactions ≡ some p
      → not (is_proposed p.status) ≡ true
      → (Memory.mark_transaction_signed none id payload s).0 ≡ ok (p, false)
  unfolding Memory.mark_transaction_signed ◌>>=◌
  kept_closed id payload p s found shut = ground arith

  now_signed :
      (id payload : Str) (p : TransactionProposal) (s : MemoryStore)
      → lookup id s.transactions ≡ some p
      → not (is_proposed p.status) ≡ false
      → (Memory.mark_transaction_signed none id payload s).0 ≡ ok (sign payload p, true)
  unfolding Memory.mark_transaction_signed ◌>>=◌
  now_signed id payload p s found open_status = ground arith

  Represents-sign_at :
      (id payload : Str) (now : Time) (p : TransactionProposal) (doc : Doc) (t : Tables Doc)
      (s : MemoryStore)
      → Represents db t s
      → lookup id s.transactions ≡ some p
      → db.unmarshal (db.columns.kept_doc doc) ≡ ok (sign_at payload now p)
      → Represents db
          (perform db.columns (update_transaction_row p.id signed doc now) t)
          (stored id (sign_at payload now p) s)
  Represents-sign_at id payload now p doc t s rep found read =
      subst
        (λ i.
          Represents db (perform db.columns (update_transaction_row i signed doc now) t)
            (stored id (sign_at payload now p) s))
        (sym (rep.keyed id p found))
        (Represents-update db t s id _ p (sign_at payload now p) rep found (λ row. read)
          (rep.keyed id p found))

  module _ (id payload : Str) (t : Tables Doc) (s : MemoryStore) (rep : Represents db t s) where
    abbrev Before : Tables Doc → Type 0
    Before = Unmarked v db id payload s

    abbrev After : TransactionProposal × Bool → Tables Doc → Type 0
    After = IsMarked v db id payload s

    sign_locked-IsMarked :
        (p : TransactionProposal)
        → ((now : Time) → ReadsBack db (sign_at payload now p))
        → lookup id s.transactions ≡ some p
        → not (is_proposed p.status) ≡ false
        → Triple
            (Stays v Before)
            (Opened v t t)
            (sign_locked db ctx payload p)
            (λ r. Stays v (After r))
    unfolding sign_locked
    sign_locked-IsMarked p reads found open_status =
        Triple-bind (Triple-error_weaken (λ d (k, f). (t, k, inr (f, inl rep))) (h.now_law t t))
          λ now.
            Triple-result _ _
              (λ e bad d c. (t, c.0, inr (h.marshal_law (sign_at payload now p) e bad, inl rep)))
              λ doc written.
                let next =
                  Represents-sign_at id payload now p doc t s rep found (reads now doc written) in
                let signs : Signs v db id payload s now (sign payload p) (sign_at payload now p) =
                  (now_signed id payload p s found open_status, refl) in
                Triple-write v db h ctx Before After t (update_transaction_row p.id signed doc now)
                  (sign_at payload now p, true) refl (λ f. inr (f, inl rep))
                  (λ f. inr (f, inr (now, sign payload p, sign_at payload now p, signs, next)))
                  (now, sign payload p, signs, next)

    -- From tables that stand for a store, and where the signed proposal is read back from its column as
    -- it was written, whatever the time of its update, MarkTransactionSigned over PostgreSQL answers
    -- what it answers in memory and commits tables that stand for what this leaves, where the proposal
    -- is freshly signed with another time of its update. It fails only where that refuses, and the
    -- tables then stand for the same store, or where the database may fail, and they then stand for
    -- the store before or after.
    pub mark_transaction_signed-Refined :
        ((p : TransactionProposal) (now : Time)
          → lookup id s.transactions ≡ some p
          → ReadsBack db (sign_at payload now p))
        → Triple
            (Ends v Before)
            (Closed v t)
            (mark_transaction_signed db ctx id payload)
            (λ r. Ends v (After r))
    unfolding mark_transaction_signed
    mark_transaction_signed-Refined reads =
        Triple-with_tx v db h ctx Before After t (λ f. inr (f, inl rep))
          (Triple-bind
            (get_transaction_in-locked v db h ctx Before t s id rep (λ f. inr (f, inl rep))
              (λ gone. inl (rep, (_, missing_refused id payload s gone))))
            λ p. Triple-given λ found.
              Triple-if (not (is_proposed p.status))
                (λ shut.
                  Triple-bind
                    (Triple-error_weaken
                      (λ d (c, f).
                        Doubted-Stays v Before t t d (inr (f, inl rep)) (inr (f, inl rep)) c)
                      (h.commit_law ctx t t))
                    λ _.
                      Triple-pure (p, false) _
                        (λ d c. (t, c.0, (kept_closed id payload p s found shut, rep))))
                (λ open_status.
                  sign_locked-IsMarked p (λ now. reads p now found) found open_status))
