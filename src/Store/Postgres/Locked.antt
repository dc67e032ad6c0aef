-- ===== src/Store/Postgres/Locked.antt =====
-- What the methods of internal/store/postgres.go that lock a row may leave, and their two parts: the read
-- of the row, and the write of it.
use mpc_custody.Prelude.{◌≡◌, refl, ◌⊎◌, inl, inr, true, Option, none, some}
use mpc_custody.Errors.{Error, transaction_not_found}
use mpc_custody.Go.Str.{Str}
use mpc_custody.Go.Dict.{lookup}
use mpc_custody.Go.Exec.{ok, err, Exec, pure, lift, ◌>>◌}
use mpc_custody.Go.Exec.Triple.{
  Triple, Triple-raise, Triple-bind, Triple-pure, Triple-error_weaken, Triple-given,
}
use mpc_custody.Wallet.Types.{TransactionProposal}
use mpc_custody.Wallet.Interfaces.{Context}
use mpc_custody.Store.Memory.{MemoryStore}
use mpc_custody.Store.Postgres.Sql.{Statement, tx, Database}
use mpc_custody.Store.Postgres.Tables.{Tables, Row, accepts, perform, proposal_of}
use mpc_custody.Store.Postgres.Laws.{View, Failing, Opened, IsPostgres}
use mpc_custody.Store.Postgres.Abstract.{Holds, Represents}
use mpc_custody.Store.Postgres.Session.{Stays, Doubted-Stays}
use mpc_custody.Store.Postgres.Proposals.{get_transaction_in}

-- What a method on the tables may leave, by the method `f` on the store that they stand for. Where it
-- fails: the store as it was, if `f` refuses, or if calls may fail, then or after `f`. Where it
-- answers: the answer of `f`, and what `f` leaves.
module _ {D Doc A : Type 0} (v : View D Doc) (db : Database D Doc) (f : Exec MemoryStore A)
    (s : MemoryStore) where
  abbrev pub Refused : Type 0
  Refused = (e : Error) × (f s ≡ (err e, s))

  abbrev pub Failed : Tables Doc → Type 0
  Failed t =
      (Represents db t s × Refused) ⊎ (Failing v × (Represents db t s ⊎ Represents db t (f s).1))

  abbrev pub Answered : A → Tables Doc → Type 0
  Answered a t = Represents db t (f s).1 × ((f s).0 ≡ ok a)

module _ {D Doc : Type 0} (v : View D Doc) (db : Database D Doc) (h : IsPostgres v db)
    (ctx : Context) where
  read_row :
      (L : Tables Doc → Type 0) (t : Tables Doc) (o : Option (Row Doc))
      (q : Option TransactionProposal)
      → Holds db o q
      → (q ≡ none → L t)
      → Triple
          (Stays v L)
          (Opened v t t)
          (lift (elim (proposal_of o) [
            | none ↦ err transaction_not_found
            | some doc ↦ db.unmarshal doc
          ]))
          (λ p d. Opened v t t d × (q ≡ some p))
  read_row L t none none holds l = Triple-raise _ _ (λ d c. (t, c.0, l refl))
  read_row L t none (some p) holds l = absurd holds
  read_row L t (some row) none holds l = absurd holds
  read_row L t (some row) (some p) holds l = rw (holds) (Triple-pure p _ (λ d c. (c, refl)))

  -- The locked read of a row finds the proposal of the store.
  pub get_transaction_in-locked :
      (L : Tables Doc → Type 0) (t : Tables Doc) (s : MemoryStore) (id : Str)
      → Represents db t s
      → (Failing v → L t)
      → (lookup id s.transactions ≡ none → L t)
      → Triple
          (Stays v L)
          (Opened v t t)
          (get_transaction_in db tx ctx true id)
          (λ p d. Opened v t t d × (lookup id s.transactions ≡ some p))
  unfolding get_transaction_in
  get_transaction_in-locked L t s id rep down missing =
      Triple-bind
        (Triple-error_weaken (λ d (k, f). (t, k, down f)) (h.proposal_tx_law ctx true id t t))
        λ o. Triple-given λ e. rw (e) (
          read_row L t (lookup id t.proposals) (lookup id s.transactions) (rep.proposals_same id)
            missing)

  -- A change of one row, and its commit.
  pub Triple-write :
      {A : Type 0} (L : Tables Doc → Type 0) (R : A → Tables Doc → Type 0) (t : Tables Doc)
      (st : Statement Doc) (a : A)
      → accepts st t ≡ true
      → (Failing v → L t)
      → (Failing v → L (perform db.columns st t))
      → R a (perform db.columns st t)
      → Triple
          (Stays v L)
          (Opened v t t)
          (do db.exec tx ctx st; db.commit ctx; pure a)
          (λ b. Stays v (R b))
  Triple-write L R t st a accepted before after r =
      Triple-bind
        (Triple-error_weaken
          (λ d (k, f). (t, k, elim f [ inl down ↦ before down | inr refused ↦ absurd (cc) ]))
          (h.exec_tx_law ctx st t t))
        λ n. Triple-given λ _.
          Triple-bind
            (Triple-error_weaken
              (λ d (c, f). Doubted-Stays v L t (perform db.columns st t) d (before f) (after f) c)
              (h.commit_law ctx t (perform db.columns st t)))
            λ _. Triple-pure a _ (λ d c. (perform db.columns st t, c.0, r))
