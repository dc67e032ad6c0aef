-- ===== src/Cmd/Keys.antt =====
-- The API keys of a configuration (internal/config/config.go) at the server (internal/api/server.go).
use mathlib.Core.List.{Memᴰ}
use mpc_custody.Prelude.{◌≡◌, ◌≢◌, ◌⊎◌, inl, inr, false, Bool-cases, []}
use mpc_custody.Go.Str.{Str, bytes}
use mpc_custody.Config.{load}
use mpc_custody.Config.Lists.{env_list-FromPart}
use mpc_custody.Api.Auth.{HttpRequest, provided_key, is_authorized, is_authorized_iff}

-- A request that brings no key is refused by a server that has keys from its configuration.
pub keyless_refused :
    (getenv : Str → Str) (r : HttpRequest)
    → (load getenv).api_keys ≢ []
    → provided_key r ≡ []
    → is_authorized (load getenv).api_keys r ≡ false
unfolding load
keyless_refused getenv r some_keys keyless =
    elim (Bool-cases (is_authorized (load getenv).api_keys r)) [
      | inr refused ↦ refused
      | inl passed ↦ absurd (no_way ((is_authorized_iff (load getenv).api_keys r).0 passed))
    ]
  where
    no_way : ((load getenv).api_keys ≡ []) ⊎ Memᴰ (provided_key r) (load getenv).api_keys → ⊥
    no_way (inl e) = some_keys e
    no_way (inr m) = (env_list-FromPart getenv (bytes "API_KEYS") (provided_key r) m).0 keyless
