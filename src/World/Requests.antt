-- ===== src/World/Requests.antt =====
-- The service's methods as one type of requests, and what a run of them leaves.
use mpc_custody.Prelude.{List, [], ◌∷◌}
use mpc_custody.Go.Str.{Str}
use mpc_custody.Wallet.Types.{Chain, TransactionRequest, AuditFilter}
use mpc_custody.Wallet.Interfaces.{Context}
use mpc_custody.Wallet.Service
use mpc_custody.Wallet.Service.{Service}
use mpc_custody.World.{World, Setup, service}

pub data Request : Type 0 where
  creates_wallet : Chain → Str → Request
  proposes_transaction : TransactionRequest → Str → Request
  cosigns : Str → Str → Request
  broadcasts : Str → Request
  gets_transaction : Str → Request
  lists_audit_events : AuditFilter → Request

module _ {W : Type 0} (s : Service W) where
  -- The state that a request leaves, whatever it answers.
  unfoldable pub handle_by : Context → Request → W → W
  handle_by ctx (creates_wallet chain key) w = (Service.create_wallet s ctx chain key w).1
  handle_by ctx (proposes_transaction r key) w = (Service.propose_transaction s ctx r key w).1
  handle_by ctx (cosigns id signer) w = (Service.cosign s ctx id signer w).1
  handle_by ctx (broadcasts id) w = (Service.broadcast s ctx id w).1
  handle_by ctx (gets_transaction id) w = (Service.get_transaction s ctx id w).1
  handle_by ctx (lists_audit_events f) w = (Service.list_audit_events s ctx f w).1

module _ {X : Type 0} (d : Setup X) where
  abbrev pub handle : Context → Request → World X → World X
  handle = handle_by (service d)

  -- Requests one after the other, each with its context.
  unfoldable pub serve : List (Context × Request) → World X → World X
  serve [] w = w
  serve ((ctx, r) ∷ rest) w = serve rest (handle ctx r w)
