-- ===== src/Api/Examples.antt =====
-- A request of a signer who is not allowed, to a server with an API key.
use mathlib.Core.List.{Memᴰ}
use mpc_custody.Prelude.{
  ◌≡◌, ◌↔◌, ◌⊎◌, refl, true, none, some, [], ◌∷◌, ◌++◌, arith, if◌then◌else◌, List,
}
use mpc_custody.Errors.{unauthorized_signer, message}
use mpc_custody.Go.Str.{Str, bytes}
use mpc_custody.Go.Int.{pos}
use mpc_custody.Go.Exec.{Result, ok, err}
use mpc_custody.Wallet.Interfaces.{Context}
use mpc_custody.Store.Memory.{new_memory_store}
use mpc_custody.World.{World, Setup, service}
use mpc_custody.Api.Auth.{HttpRequest, provided_key, is_authorized, is_authorized_iff}
use mpc_custody.Api.Path.{route, parse_transaction_path, parse_transaction_path-action}
use mpc_custody.Api.Server.{write_error, require_api_key, transaction_action}
use mpc_custody.Api.Forbidden.{cosign_forbidden}

abbrev keys : List Str
keys = bytes "k1" ∷ bytes "k2" ∷ []

abbrev attempt : HttpRequest
attempt = record {
  method = bytes "POST";
  path = route ++ (bytes "txn_1" ++ b'/' ∷ bytes "cosign");
  api_key = [];
  authorization = bytes "Bearer k2";
  idempotency_key = [];
  traceparent = [];
  query = λ name. [];
  body = bytes "eve";
}

abbrev decode : Str → Result Str
decode s = ok s

abbrev setup : Setup Unit
setup = record {
  adapters = [];
  signer = record {
    create_wallet = λ ctx id chain w. (err (message []), w);
    sign_transaction = λ ctx p w. (err (message []), w);
  };
  policy = record {
    allowed_signers = (bytes "ann", tt) ∷ [];
    max_bitcoin_amount_sats = pos 0;
    max_evm_amount_wei = none;
  };
  outside = record { now_at = λ n. n; random_at = λ n size. ok [] };
}

abbrev live : Context
live = record { err_at = λ n. none; trace = none }

abbrev world : World Unit
world = record {
  store = new_memory_store;
  metrics = record { counters = []; latencies = [] };
  external = tt;
  tick = 0;
}

bearer_passes : is_authorized keys attempt ≡ true
unfolding is_authorized provided_key mpc_custody.Api.Auth.matches_key
    mpc_custody.Go.Split.after_prefix mpc_custody.Go.Str.str_eq bytes
bearer_passes = refl

is_authorized_iff_example :
    (is_authorized keys attempt ≡ true) ↔ ((keys ≡ []) ⊎ Memᴰ (provided_key attempt) keys)
is_authorized_iff_example = is_authorized_iff keys attempt

parse_transaction_path-action_example :
    parse_transaction_path (route ++ (bytes "txn_1" ++ b'/' ∷ bytes "cosign"))
    ≡ some (bytes "txn_1", bytes "cosign")
unfolding bytes
parse_transaction_path-action_example =
    parse_transaction_path-action (bytes "txn_1") (bytes "cosign") (cc) (cc) (ground arith)
      (ground arith)

cosign_forbidden_example :
    require_api_key keys (transaction_action (service setup) decode live) attempt world ≡ (
      if is_authorized keys attempt
          then write_error 403 (unauthorized_signer (bytes "eve"))
          else write_error 401 (message (bytes "missing or invalid api key")),
      world,
    )
unfolding bytes mpc_custody.Wallet.Policy.signer_allowed mpc_custody.Go.Dict.lookup
    mpc_custody.Go.Str.str_eq
cosign_forbidden_example =
    cosign_forbidden (service setup) decode live keys (bytes "txn_1") (bytes "eve") attempt world
      (cc) (ground arith) refl refl refl (cc) refl
