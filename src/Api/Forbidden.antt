-- ===== src/Api/Forbidden.antt =====
-- A cosign request to internal/api/server.go by a signer who is not allowed.
use mpc_custody.Prelude.{◌≡◌, ◌≢◌, refl, false, List, [], ◌∷◌, ◌++◌, arith, if◌then◌else◌}
use mpc_custody.Errors.{unauthorized_signer, message}
use mpc_custody.Go.Str.{Str, str_eq, str_eq_iff, str_eq_refl, bytes}
use mpc_custody.Go.Exec.{Result, ok, err, ◌>>=◌}
use mpc_custody.Go.Split.{NoByte}
use mpc_custody.Wallet.Interfaces.{Context}
use mpc_custody.Wallet.Policy.{signer_allowed}
use mpc_custody.Wallet.Service
use mpc_custody.Wallet.Service.{Service}
use mpc_custody.Api.Auth.{HttpRequest, is_authorized}
use mpc_custody.Api.Path.{route, parse_transaction_path-action}
use mpc_custody.Api.Status.{status_for}
use mpc_custody.Api.Server.{write_error, require_api_key, transaction_action, cosign}

module _ {W : Type 0} (s : Service W) (ctx : Context) where
  refused :
      (id signer : Str) (w : W)
      → signer ≢ []
      → signer_allowed s.policy signer ≡ false
      → Service.cosign s ctx id signer w ≡ (err (unauthorized_signer signer), w)
  unfolding Service.cosign ◌>>=◌
  refused id signer w named other = rw (named_no, other) refl
    where
      named_no : str_eq signer [] ≡ false
      named_no = ground (arith, str_eq_iff signer [])

post_not_get : str_eq (bytes "POST") (bytes "GET") ≡ false
unfolding str_eq bytes
post_not_get = refl

cosign_named : bytes "cosign" ≢ []
unfolding bytes
cosign_named h = absurd (cc)

cosign-NoByte : NoByte b'/' (bytes "cosign")
unfolding bytes
cosign-NoByte = ground arith

-- A cosign request by a named signer who is not allowed changes nothing: with a valid API key it is
-- answered 403, and without one 401.
pub cosign_forbidden :
    {W : Type 0} (s : Service W) (decode : Str → Result Str) (ctx : Context) (keys : List Str)
    (id signer : Str) (r : HttpRequest) (w : W)
    → id ≢ []
    → NoByte b'/' id
    → r.method ≡ bytes "POST"
    → r.path ≡ route ++ (id ++ b'/' ∷ bytes "cosign")
    → decode r.body ≡ ok signer
    → signer ≢ []
    → signer_allowed s.policy signer ≡ false
    → require_api_key keys (transaction_action s decode ctx) r w ≡ (
      if is_authorized keys r
          then write_error 403 (unauthorized_signer signer)
          else write_error 401 (message (bytes "missing or invalid api key")),
      w,
    )
unfolding require_api_key transaction_action cosign status_for
cosign_forbidden s decode ctx keys id signer r w present whole post path decoded named other =
    ground (
      arith,
      parse_transaction_path-action id (bytes "cosign") present cosign_named whole cosign-NoByte,
      post_not_get,
      str_eq_refl (bytes "POST"),
      str_eq_refl (bytes "cosign"),
      refused s ctx id signer w named other,
    )
