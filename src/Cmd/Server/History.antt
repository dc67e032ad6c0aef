-- ===== src/Cmd/Server/History.antt =====
-- What the whole program of cmd/custody-api/main.go never takes back, over the in-memory store.
use mpc_custody.Prelude.{◌≡◌, Option, some, List, [], ◌∷◌, ◌++◌}
use mpc_custody.Go.Str.{Str}
use mpc_custody.Go.Dict.{lookup}
use mpc_custody.Go.Exec.Within.{Preorder}
use mpc_custody.Wallet.Types.{Wallet, TransactionProposal, AuditEvent}
use mpc_custody.Wallet.Interfaces.{Context}
use mpc_custody.Store.Memory.{MemoryStore}
use mpc_custody.Store.Memory.Calls.{apply, apply-keeps_wallet}
use mpc_custody.World.{World}
use mpc_custody.World.Requests.{serve}
use mpc_custody.World.Order.{serve-rel}
use mpc_custody.World.Trail.{audit_order, apply-Extends, wallet_order}
use mpc_custody.World.Lifecycle.{Advanced}
use mpc_custody.World.Progress.{Progress, Progress-refl, serve-Progress}
use mpc_custody.Api.Auth.{HttpRequest}
use mpc_custody.Config.{Config}
use mpc_custody.Cmd.{policy_of}
use mpc_custody.Cmd.Assembly.{Parts, Libraries, assembly, fresh}
use mpc_custody.Cmd.Assembly.Own.{assembly-HasOwnState}
use mpc_custody.Cmd.Server.{Web, serve_http}
use mpc_custody.Cmd.Server.Keeping.{serve_http-keeps}
use mpc_custody.Cmd.Server.Custody.{served, stored_after-AllSound}
use mpc_custody.World.Activity.{Activity}

-- What a store `t` has kept of an earlier store `s`.
pub record Continues (s t : MemoryStore) : Type 0 where
  pub events : (new : List AuditEvent) × (t.audit_events ≡ s.audit_events ++ new)
  pub wallets :
      (id : Str) (v : Wallet) → lookup id s.wallets ≡ some v → lookup id t.wallets ≡ some v
  pub proposals :
      (id : Str) (p : TransactionProposal)
      → lookup id s.transactions ≡ some p
      → (q : TransactionProposal) × (lookup id t.transactions ≡ some q) × Advanced p q

module _ {X K : Type 0} (l : Libraries X K) (cfg : Config) (key : Option K)
    (web : Web (World (Parts X K))) where
  -- Requests to the HTTP server of the program, one after the other.
  abbrev pub run_in_turn : List (Context × HttpRequest) → World (Parts X K) → World (Parts X K)
  run_in_turn = serve_http (assembly l cfg key) web cfg.api_keys

  run_in_turn-rel :
      (o : Preorder MemoryStore)
      → ((c : _) (call : _) (s : MemoryStore) → o.rel s (apply c call s).1)
      → (rs : List (Context × HttpRequest)) (w : World (Parts X K))
      → o.rel w.store (run_in_turn rs w).store
  unfolding serve
  run_in_turn-rel o moves rs w =
      serve_http-keeps (assembly l cfg key) web cfg.api_keys (λ s. o.rel w.store s)
        (λ ctx q v h. o.rel_trans w.store v.store _ h (
          serve-rel o moves (assembly l cfg key) (assembly-HasOwnState l cfg key) ((ctx, q) ∷ [])
            v))
        rs w (o.rel_refl w.store)

  run_in_turn-Progress :
      (rs : List (Context × HttpRequest)) (w : World (Parts X K))
      → ((id : Str) (p : TransactionProposal) → lookup id w.store.transactions ≡ some p → p.id ≡ id)
      → Progress (policy_of cfg) w.store.transactions (run_in_turn rs w).store.transactions
  unfolding serve
  run_in_turn-Progress rs w keyed =
      serve_http-keeps (assembly l cfg key) web cfg.api_keys
        (λ s. Progress (policy_of cfg) w.store.transactions s.transactions)
        (λ ctx q v.
          serve-Progress (assembly l cfg key) w.store.transactions ((ctx, q) ∷ []) v
            (assembly-HasOwnState l cfg key))
        rs w (Progress-refl (policy_of cfg) w.store.transactions keyed)

  -- Whatever HTTP requests reach a fresh process, overlapping or not, and whatever reach it after these,
  -- one after the other: the audit events stay where they are and new ones come after them, no wallet
  -- changes or goes, and every stored proposal stays stored and only advances in its lifecycle.
  pub run_in_turn-Continues :
      (a : Activity HttpRequest) (x : X) (rs : List (Context × HttpRequest))
      → Continues
          (served l cfg key web a (fresh l x)).store
          (run_in_turn rs (served l cfg key web a (fresh l x))).store
  run_in_turn-Continues a x rs =
      let w = served l cfg key web a (fresh l x) in
      let sound = stored_after-AllSound l cfg key web a x in
      let progress = run_in_turn-Progress rs w (λ id p found. (sound.at_id id p found).keyed) in
      record {
        events = run_in_turn-rel audit_order apply-Extends rs w;
        wallets = run_in_turn-rel wallet_order apply-keeps_wallet rs w;
        proposals = λ id p found.
            let (q, there) = progress.present id p found in
            (q, there, (progress.each id q there).advanced p found);
      }
