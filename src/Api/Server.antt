-- ===== src/Api/Server.antt =====
-- The answers of internal/api/server.go, and its handlers for one transaction, over any service.
use mpc_custody.Prelude.{ℕ, ◌&&◌, none, some, [], if◌then◌else◌, List}
use mpc_custody.Errors.{Error, message, error_text}
use mpc_custody.Go.Str.{Str, str_eq, bytes}
use mpc_custody.Go.Exec.{Result, ok, err}
use mpc_custody.Wallet.Types.{TransactionProposal, Wallet, AuditEvent}
use mpc_custody.Wallet.Interfaces.{Context}
use mpc_custody.Wallet.Service
use mpc_custody.Wallet.Service.{Service}
use mpc_custody.Api.Auth.{HttpRequest, is_authorized}
use mpc_custody.Api.Path.{parse_transaction_path}
use mpc_custody.Api.Status.{status_for}

-- What is written: a status with a proposal, a wallet or events as JSON, the state of the server, the
-- text of the metrics, the text of an error, or what the mux itself answers with.
pub data Response : Type 0 where
  answers : ℕ → TransactionProposal → Response
  answers_wallet : ℕ → Wallet → Response
  answers_events : ℕ → List AuditEvent → Response
  reports : Str → Response
  exposes : Str → Response
  redirects : Str → Response
  method_not_allowed page_not_found : Response
  fails : ℕ → Str → Response

-- writeError
abbrev pub write_error : ℕ → Error → Response
write_error status e = fails status (error_text e)

-- `if err != nil { writeError(w, statusFor(err), err); return }; writeJSON(w, …)`
abbrev pub respond_with : {A : Type 0} → (A → Response) → Result A → Response
respond_with answer (ok a) = answer a
respond_with answer (err e) = write_error (status_for e) e

abbrev respond : Result TransactionProposal → Response
respond = respond_with (answers 200)

abbrev pub Handler : Type 0 → Type 0
Handler W = HttpRequest → W → Response × W

unfoldable pub require_api_key : {W : Type 0} → List Str → Handler W → Handler W
require_api_key keys next r w =
    if is_authorized keys r
    then next r w
    else (write_error 401 (message (bytes "missing or invalid api key")), w)

abbrev not_found : Response
not_found = write_error 404 (message (bytes "transaction route not found"))

-- `decode` is decodeJSON of a cosignRequest: the signer id, or the error that is written.
module _ {W : Type 0} (s : Service W) (decode : Str → Result Str) (ctx : Context) where
  unfoldable pub get_transaction : Str → Handler W
  get_transaction id r w = let (p, w') = Service.get_transaction s ctx id w in (respond p, w')

  unfoldable pub cosign : Str → Handler W
  cosign id r w = elim (decode r.body) [
    | err e ↦ (write_error 400 e, w)
    | ok signer ↦ let (p, w') = Service.cosign s ctx id signer w in (respond p, w')
  ]

  unfoldable pub broadcast : Str → Handler W
  broadcast id r w = let (p, w') = Service.broadcast s ctx id w in (respond p, w')

  unfoldable pub transaction_action : Handler W
  transaction_action r w = elim (parse_transaction_path r.path) [
    | none ↦ (not_found, w)
    | some (id, action) ↦
        if str_eq r.method (bytes "GET") && str_eq action []
        then get_transaction id r w
        else if str_eq r.method (bytes "POST") && str_eq action (bytes "cosign")
        then cosign id r w
        else if str_eq r.method (bytes "POST") && str_eq action (bytes "broadcast")
        then broadcast id r w
        else (not_found, w)
  ]
