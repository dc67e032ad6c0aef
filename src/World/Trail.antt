-- ===== src/World/Trail.antt =====
-- The audit trail and the wallets of internal/store/memory.go over runs of requests.
use mpc_custody.Prelude.{◌≡◌, refl, sym, ap, ◌∙◌, Option, none, some, List, [], ◌∷◌, ◌++◌, arith}
use mathlib.Core.List.{append-nil, append_assoc}
use mpc_custody.Errors.{Error}
use mpc_custody.Go.Str.{Str}
use mpc_custody.Go.Dict.{lookup}
use mpc_custody.Go.Exec.Within.{Preorder}
use mpc_custody.Wallet.Types.{Wallet, AuditEvent}
use mpc_custody.Wallet.Interfaces.{Context}
use mpc_custody.Store.Memory.{MemoryStore}
use mpc_custody.Store.Memory.Calls.{Call, apply, apply-keeps_wallet}
use mpc_custody.World.{World, Setup}
use mpc_custody.World.Requests.{Request, serve}
use mpc_custody.World.Order.{HasOwnState, serve-rel}

abbrev pub Extends : MemoryStore → MemoryStore → Type 0
Extends s t = (new : List AuditEvent) × (t.audit_events ≡ s.audit_events ++ new)

pub Extends-trans : (s t u : MemoryStore) → Extends s t → Extends t u → Extends s u
Extends-trans s t u (a, p) (b, q) =
    (a ++ b, q ∙ ap (λ es. es ++ b) p ∙ append_assoc s.audit_events a b)

pub Extends-refl : (s : MemoryStore) → Extends s s
Extends-refl s = ([], sym (append-nil s.audit_events))

abbrev pub audit_order : Preorder MemoryStore
audit_order = record { rel = Extends; rel_refl = Extends-refl; rel_trans = Extends-trans }

same_events : (s t : MemoryStore) → t.audit_events ≡ s.audit_events → Extends s t
same_events s t e = ([], e ∙ sym (append-nil s.audit_events))

pub apply-Extends :
    (c : Option Error) (call : Call) (s : MemoryStore) → Extends s (apply c call s).1
unfolding apply
apply-Extends none (Call.appends_audit_event e) s = (e ∷ [], refl)
apply-Extends (some x) (Call.appends_audit_event e) s = Extends-refl s
apply-Extends c call s = same_events s (apply c call s).1 (ground arith)

-- The audit trail only grows: whatever requests are served, and however they end, the events that
-- were recorded stay where they are, where adapters and backend do not reach into the store.
serve_audit_append_only :
    {X : Type 0} (d : Setup X) (rs : List (Context × Request)) (w : World X)
    → HasOwnState d
    → (new : List AuditEvent) × ((serve d rs w).store.audit_events ≡ w.store.audit_events ++ new)
serve_audit_append_only d rs w own = serve-rel audit_order apply-Extends d own rs w

abbrev pub wallet_order : Preorder MemoryStore
wallet_order = record {
  rel =
      λ s t. (id : Str) (v : Wallet) → lookup id s.wallets ≡ some v → lookup id t.wallets ≡ some v;
  rel_refl = λ s id v e. e;
  rel_trans = λ s t u f g id v e. g id v (f id v e);
}

-- A stored wallet is neither changed nor removed by any run of requests, where adapters and backend
-- do not reach into the store.
serve_keeps_wallets :
    {X : Type 0} (d : Setup X) (rs : List (Context × Request)) (w : World X) (id : Str) (v : Wallet)
    → HasOwnState d
    → lookup id w.store.wallets ≡ some v
    → lookup id (serve d rs w).store.wallets ≡ some v
serve_keeps_wallets d rs w id v own = serve-rel wallet_order apply-keeps_wallet d own rs w id v
