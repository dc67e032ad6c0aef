-- ===== src/Store/Memory.antt =====
-- internal/store/memory.go: the in-memory store. A method holds the store's lock for all of its
-- body, so it is one action. `ctx_err` is what `ctx.Done()` finds at its start: the error `ctx.Err()`,
-- or `none`. A Go map is a `Dict`, and `cloneProposal` and `cloneAuditEvent` keep callers from
-- sharing a map with the store, which values of the model never do.
mod Audit
pub mod Keys
pub mod Calls
mod Replay
mod Examples
pub mod Approvals
use mpc_custody.Prelude.{
  ℕ, Bool, true, false, not, ◌&&◌, ◌||◌, Option, none, some, List, [], ◌∷◌, ◌++◌, reverse, length,
  ltb, if◌then◌else◌,
}
use mpc_custody.Errors.{
  Error, wallet_not_found, transaction_not_found, duplicate_wallet, duplicate_transaction,
  duplicate_idempotency, duplicate_approval, transaction_not_proposed,
}
use mpc_custody.Go.Str.{Str, str_eq}
use mpc_custody.Go.Int.{ℤ, pos, pos_part, leb_ℤ, ltb_ℤ}
use mpc_custody.Go.Dict.{Dict, lookup, insert, contains}
use mpc_custody.Go.Exec.{Result, ok, err, Exec, ◌>>=◌, ◌>>◌}
use mpc_custody.Wallet.Types.{
  Time, Wallet, Approval, TransactionProposal, signed, is_proposed, AuditEvent, AuditFilter,
  IdempotencyRecord,
}

pub record MemoryStore : Type 0 where
  pub wallets : Dict Wallet
  pub transactions : Dict TransactionProposal
  pub audit_events : List AuditEvent
  pub idempotency : Dict IdempotencyRecord

unfoldable pub new_memory_store : MemoryStore
new_memory_store = record { wallets = []; transactions = []; audit_events = []; idempotency = [] }

-- `select { case <-ctx.Done(): return ctx.Err() … }`
abbrev pub check : Option Error → Exec MemoryStore Unit
check none s = (ok tt, s)
check (some e) s = (err e, s)

abbrev pub or_raise {ℓ} : {A : Type ℓ} → Option A → Error → Result A
or_raise none e = err e
or_raise (some a) e = ok a

abbrev put_wallet : Wallet → MemoryStore → MemoryStore
put_wallet w s = record s { wallets = insert w.id w s.wallets }

abbrev put_transaction : Str → TransactionProposal → MemoryStore → MemoryStore
put_transaction id p s = record s { transactions = insert id p s.transactions }

abbrev put_idempotency : Str → IdempotencyRecord → MemoryStore → MemoryStore
put_idempotency key r s = record s { idempotency = insert key r s.idempotency }

unfoldable pub idempotency_key : Str → Str → Str
idempotency_key scope key = scope ++ 0 ∷ key

unfoldable pub create_wallet : Option Error → Wallet → Exec MemoryStore Unit
unfolding ◌>>=◌
create_wallet ctx_err w = do
  check ctx_err
  λ s. if contains w.id s.wallets then (err duplicate_wallet, s) else (ok tt, put_wallet w s)

unfoldable pub create_wallet_idempotently :
    Option Error → Wallet → IdempotencyRecord → Exec MemoryStore (Wallet × Bool)
unfolding ◌>>=◌ idempotency_key
create_wallet_idempotently ctx_err w r = do
  check ctx_err
  λ s.
      let key = idempotency_key r.scope r.key in
      elim (lookup key s.idempotency) [
        | some existing ↦ elim (lookup existing.resource_id s.wallets) [
          | none ↦ (err wallet_not_found, s)
          | some stored ↦ (ok (stored, false), s)
        ]
        | none ↦
            if contains w.id s.wallets
            then (err duplicate_wallet, s)
            else (ok (w, true), put_idempotency key r (put_wallet w s))
      ]

unfoldable pub get_wallet : Option Error → Str → Exec MemoryStore Wallet
unfolding ◌>>=◌
get_wallet ctx_err id = do check ctx_err; λ s. (or_raise (lookup id s.wallets) wallet_not_found, s)

unfoldable pub create_transaction : Option Error → TransactionProposal → Exec MemoryStore Unit
unfolding ◌>>=◌
create_transaction ctx_err p = do
  check ctx_err
  λ s.
      if contains p.id s.transactions
      then (err duplicate_transaction, s)
      else (ok tt, put_transaction p.id p s)

unfoldable pub create_transaction_idempotently :
    Option Error
    → TransactionProposal
    → IdempotencyRecord
    → Exec MemoryStore (TransactionProposal × Bool)
unfolding ◌>>=◌ idempotency_key
create_transaction_idempotently ctx_err p r = do
  check ctx_err
  λ s.
      let key = idempotency_key r.scope r.key in
      elim (lookup key s.idempotency) [
        | some existing ↦ elim (lookup existing.resource_id s.transactions) [
          | none ↦ (err transaction_not_found, s)
          | some stored ↦ (ok (stored, false), s)
        ]
        | none ↦
            if contains p.id s.transactions
            then (err duplicate_transaction, s)
            else (ok (p, true), put_idempotency key r (put_transaction p.id p s))
      ]

unfoldable pub get_transaction : Option Error → Str → Exec MemoryStore TransactionProposal
unfolding ◌>>=◌
get_transaction ctx_err id = do
  check ctx_err
  λ s. (or_raise (lookup id s.transactions) transaction_not_found, s)

unfoldable pub update_transaction : Option Error → TransactionProposal → Exec MemoryStore Unit
unfolding ◌>>=◌
update_transaction ctx_err p = do
  check ctx_err
  λ s.
      if contains p.id s.transactions
      then (ok tt, put_transaction p.id p s)
      else (err transaction_not_found, s)

-- The proposal with the approval written to its map.
abbrev pub approve : Approval → TransactionProposal → TransactionProposal
approve a p = record p { approvals = insert a.signer_id a p.approvals; updated_at = a.created_at }

unfoldable pub add_approval : Option Error → Str → Approval → Exec MemoryStore TransactionProposal
unfolding ◌>>=◌
add_approval ctx_err id a = do
  check ctx_err
  λ s. elim (lookup id s.transactions) [
    | none ↦ (err transaction_not_found, s)
    | some p ↦
        if not (is_proposed p.status)
        then (err transaction_not_proposed, s)
        else if contains a.signer_id p.approvals
        then (err duplicate_approval, s)
        else (ok (approve a p), put_transaction id (approve a p) s)
  ]

-- `for _, approval := range approvals { if approval.CreatedAt.After(latest) … }`
unfoldable pub latest_approval : Time → Dict Approval → Time
latest_approval t [] = t
latest_approval t ((_, a) ∷ m) = latest_approval (if ltb t a.created_at then a.created_at else t) m

abbrev pub sign : Str → TransactionProposal → TransactionProposal
sign payload p = record p {
  status = signed;
  signed_transaction = payload;
  updated_at = latest_approval p.updated_at p.approvals;
}

unfoldable pub mark_transaction_signed :
    Option Error → Str → Str → Exec MemoryStore (TransactionProposal × Bool)
unfolding ◌>>=◌
mark_transaction_signed ctx_err id payload = do
  check ctx_err
  λ s. elim (lookup id s.transactions) [
    | none ↦ (err transaction_not_found, s)
    | some p ↦
        if not (is_proposed p.status)
        then (ok (p, false), s)
        else (ok (sign payload p, true), put_transaction id (sign payload p) s)
  ]

unfoldable pub append_audit_event : Option Error → AuditEvent → Exec MemoryStore Unit
unfolding ◌>>=◌
append_audit_event ctx_err event = do
  check ctx_err
  λ s. (ok tt, record s { audit_events = s.audit_events ++ event ∷ [] })

-- `if limit <= 0 || limit > 200 { limit = 100 }`
unfoldable pub effective_limit : ℤ → ℕ
effective_limit limit = if leb_ℤ limit (pos 0) || ltb_ℤ (pos 200) limit then 100 else pos_part limit

-- `filter.ResourceID != "" && event.ResourceID != filter.ResourceID`
abbrev pub skips : Str → AuditEvent → Bool
skips id event = not (str_eq id []) && not (str_eq event.resource_id id)

-- The loop from the newest event to the oldest; `out` is the slice so far.
collect_events : Str → ℕ → List AuditEvent → List AuditEvent → List AuditEvent
collect_events id limit [] out = out
collect_events id limit (e ∷ older) out =
    if ltb (length out) limit
    then collect_events id limit older (if skips id e then out else out ++ e ∷ [])
    else out

unfoldable pub list_audit_events : Option Error → AuditFilter → Exec MemoryStore (List AuditEvent)
unfolding ◌>>=◌ collect_events effective_limit
list_audit_events ctx_err filter = do
  check ctx_err
  λ s.
      let limit = effective_limit filter.limit in
      (ok (collect_events filter.resource_id limit (reverse s.audit_events) []), s)

unfoldable pub save_idempotency : Option Error → IdempotencyRecord → Exec MemoryStore Unit
unfolding ◌>>=◌ idempotency_key
save_idempotency ctx_err r = do
  check ctx_err
  λ s.
      let key = idempotency_key r.scope r.key in
      if contains key s.idempotency
      then (err duplicate_idempotency, s)
      else (ok tt, put_idempotency key r s)

-- A key that is not there gives the zero record.
abbrev pub zero_idempotency : IdempotencyRecord
zero_idempotency = record {
  scope = [];
  key = [];
  resource_type = [];
  resource_id = [];
  created_at = 0;
}

unfoldable pub get_idempotency : Option Error → Str → Str → Exec MemoryStore IdempotencyRecord
unfolding ◌>>=◌ idempotency_key
get_idempotency ctx_err scope key = do
  check ctx_err
  λ s. (
    elim (lookup (idempotency_key scope key) s.idempotency) [
      | none ↦ ok zero_idempotency
      | some r ↦ ok r
    ],
    s,
  )
