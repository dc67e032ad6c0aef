-- ===== src/Store/Memory/Audit.antt =====
-- ListAuditEvents of internal/store/memory.go: its loop against a filter and a cut.
use mpc_custody.Prelude.{
  ℕ, zero, suc, ◌+◌, ◌-◌, ◌≤◌, ◌≡◌, ◌≢◌, ◌⊎◌, inl, inr, refl, true, false, none, List, [], ◌∷◌,
  ◌++◌, reverse, take, length, length-append, arith, if◌then◌else◌, ltb,
}
use mathlib.Core.List.{append-nil, append_assoc}
use mpc_custody.Go.Str.{Str, str_eq_iff}
use mpc_custody.Go.Int.{ℤ, pos, negsuc}
use mpc_custody.Go.Exec.{ok}
use mpc_custody.Wallet.Types.{AuditEvent, AuditFilter}
use mpc_custody.Store.Memory.{
  MemoryStore, list_audit_events, collect_events, effective_limit, skips,
}

sub-zero : (m : ℕ) → m - 0 ≡ m
sub-zero m = omega arith

zero_left : (m n : ℕ) → ltb n m ≡ false → m - n ≡ 0
zero_left m n h = ground arith

one_left : (m n : ℕ) → ltb n m ≡ true → m - n ≡ suc (m - (n + 1))
one_left m n h = ground arith

-- The events of a resource, or all if the id is empty.
events_of : Str → List AuditEvent → List AuditEvent
events_of id [] = []
events_of id (e ∷ es) = let rest = events_of id es in if skips id e then rest else e ∷ rest

take-nil : (n : ℕ) → take {A = AuditEvent} n [] ≡ []
take-nil zero = refl
take-nil (suc n) = refl

-- No room is left.
take_full :
    (es : List AuditEvent) (limit : ℕ) (out : List AuditEvent)
    → ltb (length out) limit ≡ false
    → out ++ take (limit - length out) es ≡ out
take_full es limit out h = rw (zero_left limit (length out) h) (append-nil out)

-- One event goes from what is to be read to what has been read.
take_last :
    (e : AuditEvent) (es : List AuditEvent) (limit : ℕ) (out : List AuditEvent)
    → ltb (length out) limit ≡ true
    → (out ++ e ∷ []) ++ take (limit - length (out ++ e ∷ [])) es
      ≡ out ++ take (limit - length out) (e ∷ es)
take_last e es limit out h =
    rw (append_assoc, length-append out (e ∷ []), one_left limit (length out) h)

collect_events_lem :
    (id : Str) (limit : ℕ) (es out : List AuditEvent)
    → collect_events id limit es out ≡ out ++ take (limit - length out) (events_of id es)
unfolding collect_events events_of
collect_events_lem id limit [] out = simp (take-nil, append-nil)
collect_events_lem id limit (e ∷ es) out = ground (
  arith,
  collect_events_lem id limit es out,
  collect_events_lem id limit es (out ++ e ∷ []),
  take_last e (events_of id es) limit out,
  append-nil out,
  take_full (e ∷ events_of id es) limit out,
  take_full (events_of id es) limit out,
)

-- Of the events, those of a resource, or all where no resource is asked for.
pub data Selects (id : Str) : List AuditEvent → List AuditEvent → Type 0 where
  at_end : Selects id [] []
  picks :
      {e : AuditEvent} {es out : List AuditEvent}
      → (id ≡ []) ⊎ (e.resource_id ≡ id)
      → Selects id es out
      → Selects id (e ∷ es) (e ∷ out)
  leaves_out :
      {e : AuditEvent} {es out : List AuditEvent}
      → id ≢ []
      → e.resource_id ≢ id
      → Selects id es out
      → Selects id (e ∷ es) out

-- A limit from 1 to 200 is taken, and 100 in place of any other.
pub data IsInForce : ℤ → ℕ → Type 0 where
  as_asked : {n : ℕ} → 1 ≤ n → n ≤ 200 → IsInForce (pos n) n
  none_asked : IsInForce (pos 0) 100
  negative : {n : ℕ} → IsInForce (negsuc n) 100
  too_many : {n : ℕ} → 201 ≤ n → IsInForce (pos n) 100

Selects-events_of :
    (id : Str) (es out : List AuditEvent) → Selects id es out → out ≡ events_of id es
unfolding events_of
Selects-events_of id [] out at_end = refl
Selects-events_of id (e ∷ es) out (picks {out = later} (inl all) h) =
    let rest = Selects-events_of id es later h in ground (arith, str_eq_iff id [])
Selects-events_of id (e ∷ es) out (picks {out = later} (inr same) h) =
    let rest = Selects-events_of id es later h in
    ground (arith, str_eq_iff id [], str_eq_iff e.resource_id id)
Selects-events_of id (e ∷ es) out (leaves_out some_id other h) =
    let rest = Selects-events_of id es out h in
    ground (arith, str_eq_iff id [], str_eq_iff e.resource_id id)

IsInForce-effective_limit : (limit : ℤ) (n : ℕ) → IsInForce limit n → effective_limit limit ≡ n
unfolding effective_limit
IsInForce-effective_limit limit n (as_asked low high) = ground arith
IsInForce-effective_limit limit n none_asked = refl
IsInForce-effective_limit limit n negative = ground arith
IsInForce-effective_limit limit n (too_many high) = ground arith

listed :
    (filter : AuditFilter) (s : MemoryStore)
    → list_audit_events none filter s ≡ (
      ok (
          take
            (effective_limit filter.limit)
            (events_of filter.resource_id (reverse s.audit_events))),
      s,
    )
unfolding list_audit_events
listed filter s = ground (
  arith,
  collect_events_lem filter.resource_id (effective_limit filter.limit) (reverse s.audit_events) [],
  sub-zero (effective_limit filter.limit),
)

-- Where the context is alive, the listing is made of the events of the resource that the filter asks
-- for (of all events, where it asks for none), newest first, of which the first `n` are given: this is
-- the limit of the filter if it is from 1 to 200, and 100 if not. The store stays as it is.
pub list_audit_events_lem :
    (filter : AuditFilter) (n : ℕ) (wanted : List AuditEvent) (s : MemoryStore)
    → IsInForce filter.limit n
    → Selects filter.resource_id (reverse s.audit_events) wanted
    → list_audit_events none filter s ≡ (ok (take n wanted), s)
list_audit_events_lem filter n wanted s in_force selected =
    rw
      (
        listed filter s,
        IsInForce-effective_limit filter.limit n in_force,
        Selects-events_of filter.resource_id (reverse s.audit_events) wanted selected,
      )
      refl

pub effective_limit-le : (limit : ℤ) → effective_limit limit ≤ 200
unfolding effective_limit
effective_limit-le limit = ground arith
