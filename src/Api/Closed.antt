-- ===== src/Api/Closed.antt =====
-- Requests to internal/api/server.go without a valid API key.
use mpc_custody.Prelude.{◌≡◌, refl, false, List, arith}
use mpc_custody.Go.Str.{Str}
use mpc_custody.Wallet.Interfaces.{Context}
use mpc_custody.Wallet.Service.{Service}
use mpc_custody.Api.Auth.{HttpRequest, is_authorized}
use mpc_custody.Api.Server.{Handler, require_api_key}
use mpc_custody.Api.Mux.{Codec, mux}

module _ {W : Type 0} where
  shut :
      (keys : List Str) (next : Handler W) (r : HttpRequest) (w : W)
      → is_authorized keys r ≡ false
      → (require_api_key keys next r w).1 ≡ w
  unfolding require_api_key
  shut keys next r w refused = rw refused refl

-- A request without a valid API key changes nothing, whatever its path, its method and its body.
pub mux_closed :
    {W : Type 0} (s : Service W) (c : Codec W) (keys : List Str) (ctx : Context) (r : HttpRequest)
    (w : W)
    → is_authorized keys r ≡ false
    → (mux s c keys ctx r w).1 ≡ w
unfolding mux
mux_closed s c keys ctx r w refused = ground arith
