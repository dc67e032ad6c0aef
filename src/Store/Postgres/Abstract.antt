-- ===== src/Store/Postgres/Abstract.antt =====
-- Tables that stand for a store of internal/store/memory.go, and how writes keep this.
use mpc_custody.Prelude.{
  ◌≡◌, refl, sym, ap, ◌∙◌, subst, inl, inr, Bool-cases, Option, none, some, List, ◌++◌, [], ◌∷◌,
  arith, if◌then◌else◌, ◌&&◌,
}
use mpc_custody.Go.Str.{Str, str_eq, str_eq_iff}
use mpc_custody.Go.Dict.{Dict, lookup, insert, lookup-insert, lookup-insert_cases}
use mpc_custody.Go.Exec.{ok}
use mpc_custody.Wallet.Types.{Wallet, TransactionProposal, IdempotencyRecord}
use mpc_custody.Store.Memory.{MemoryStore, idempotency_key}
use mpc_custody.Store.Memory.Keys.{NoNul, idempotency_key_injective}
use mpc_custody.Store.Postgres.Sql.{Database}
use mpc_custody.Store.Postgres.Tables.{Row, Tables, lookup_key, update_row}

lookup_key-append :
    (scope key : Str) (r : IdempotencyRecord) (rs : List IdempotencyRecord)
    → lookup_key r.scope r.key rs ≡ none
    → lookup_key scope key (rs ++ r ∷ [])
      ≡ (if str_eq r.scope scope && str_eq r.key key then some r else lookup_key scope key rs)
unfolding lookup_key
lookup_key-append scope key r [] fresh = refl
lookup_key-append scope key r (x ∷ rs) fresh = ground (
  arith,
  str_eq_iff x.scope scope,
  str_eq_iff x.key key,
  str_eq_iff x.scope r.scope,
  str_eq_iff x.key r.key,
  str_eq_iff r.scope scope,
  str_eq_iff r.key key,
  lookup_key-append scope key r rs,
)

joined_eq :
    (scope key scope' key' : Str)
    → NoNul scope
    → NoNul scope'
    → str_eq (idempotency_key scope key) (idempotency_key scope' key')
      ≡ (str_eq scope scope' && str_eq key key')
joined_eq scope key scope' key' n n' = ground (
  arith,
  str_eq_iff (idempotency_key scope key) (idempotency_key scope' key'),
  str_eq_iff scope scope',
  str_eq_iff key key',
  idempotency_key_injective scope scope' key key' n n',
)

module _ {D Doc : Type 0} (db : Database D Doc) where
  -- The document of a row is that of the proposal.
  abbrev pub Holds : Option (Row Doc) → Option TransactionProposal → Type 0
  Holds none none = Unit
  Holds none (some p) = ⊥
  Holds (some row) none = ⊥
  Holds (some row) (some p) = db.unmarshal row.proposal ≡ ok p

  pub record Represents (t : Tables Doc) (s : MemoryStore) : Type 0 where
    pub wallets_same : t.wallets ≡ s.wallets
    pub proposals_same : (id : Str) → Holds (lookup id t.proposals) (lookup id s.transactions)
    pub keyed : (id : Str) (p : TransactionProposal) → lookup id s.transactions ≡ some p → p.id ≡ id
    pub keys_same :
        (scope key : Str)
        → NoNul scope
        → lookup_key scope key t.keys ≡ lookup (idempotency_key scope key) s.idempotency

  pub row_of :
      (o : Option (Row Doc)) (p : TransactionProposal)
      → Holds o (some p)
      → (row : Row Doc) × (o ≡ some row) × (db.unmarshal row.proposal ≡ ok p)
  row_of none p h = absurd h
  row_of (some row) p h = (row, refl, h)

  -- A write of one row and one proposal.
  Holds-insert :
      (id j : Str) (row : Row Doc) (p : TransactionProposal) (m : Dict (Row Doc))
      (n : Dict TransactionProposal)
      → db.unmarshal row.proposal ≡ ok p
      → Holds (lookup j m) (lookup j n)
      → Holds (lookup j (insert id row m)) (lookup j (insert id p n))
  Holds-insert id j row p m n read h = elim (Bool-cases (str_eq id j)) [
    | inl same ↦ rw (lookup-insert id j row m, lookup-insert id j p n, same) read
    | inr other ↦ rw (lookup-insert id j row m, lookup-insert id j p n, other) h
  ]

  keyed-insert :
      (id : Str) (p : TransactionProposal) (n : Dict TransactionProposal)
      → p.id ≡ id
      → ((j : Str) (q : TransactionProposal) → lookup j n ≡ some q → q.id ≡ j)
      → (j : Str) (q : TransactionProposal) → lookup j (insert id p n) ≡ some q
      → q.id ≡ j
  keyed-insert id p n own h j q found = elim (lookup-insert_cases id j p n found) [
    | inl (same, written) ↦ sym (ap (λ r. r.id) written) ∙ own ∙ same
    | inr kept ↦ h j q kept
  ]

  pub Represents-write :
      (t : Tables Doc) (s : MemoryStore) (id : Str) (row : Row Doc) (p : TransactionProposal)
      → Represents t s
      → db.unmarshal row.proposal ≡ ok p
      → p.id ≡ id
      → Represents
          (record t { proposals = insert id row t.proposals })
          (record s { transactions = insert id p s.transactions })
  Represents-write t s id row p h read own = record {
    wallets_same = h.wallets_same;
    proposals_same =
        λ j. Holds-insert id j row p t.proposals s.transactions read (h.proposals_same j);
    keyed = keyed-insert id p s.transactions own h.keyed;
    keys_same = h.keys_same;
  }

  pub Represents-update :
      (t : Tables Doc) (s : MemoryStore) (id : Str) (f : Row Doc → Row Doc)
      (old p : TransactionProposal)
      → Represents t s
      → lookup id s.transactions ≡ some old
      → ((row : Row Doc) → db.unmarshal (f row).proposal ≡ ok p)
      → p.id ≡ id
      → Represents (update_row id f t) (record s { transactions = insert id p s.transactions })
  Represents-update t s id f old p h found read own =
      let (row, there, was) =
        row_of (lookup id t.proposals) old
          (subst (Holds (lookup id t.proposals)) found (h.proposals_same id)) in
      rw (there, update_row) (Represents-write t s id (f row) p h (read row) own)

  pub Represents-wallet :
      (t : Tables Doc) (s : MemoryStore) (w : Wallet)
      → Represents t s
      → Represents
          (record t { wallets = insert w.id w t.wallets })
          (record s { wallets = insert w.id w s.wallets })
  Represents-wallet t s w h = record {
    wallets_same = ap (insert w.id w) h.wallets_same;
    proposals_same = h.proposals_same;
    keyed = h.keyed;
    keys_same = h.keys_same;
  }

  pub Represents-key :
      (t : Tables Doc) (s : MemoryStore) (r : IdempotencyRecord)
      → NoNul r.scope
      → Represents t s
      → lookup_key r.scope r.key t.keys ≡ none
      → Represents
          (record t { keys = t.keys ++ r ∷ [] })
          (record s { idempotency = insert (idempotency_key r.scope r.key) r s.idempotency })
  Represents-key t s r n h fresh = record {
    wallets_same = h.wallets_same;
    proposals_same = h.proposals_same;
    keyed = h.keyed;
    keys_same = λ scope key m.
        rw
          (
            lookup_key-append scope key r t.keys fresh,
            lookup-insert (idempotency_key r.scope r.key) (idempotency_key scope key) r
                s.idempotency,
            joined_eq r.scope r.key scope key n m,
            h.keys_same scope key m,
          )
          refl;
  }
