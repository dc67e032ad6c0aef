-- ===== src/Cmd/Examples.antt =====
-- A configuration with two API keys and two signers, and a limit that is no number.
use mpc_custody.Prelude.{◌≡◌, refl, ◌↔◌, some, [], if◌then◌else◌}
use mpc_custody.Go.Str.{Str, str_eq, bytes}
use mpc_custody.Go.Int.{ℤ, pos, ◌<ℤ◌}
use mpc_custody.Go.Strconv.{parse_big}
use mpc_custody.Go.Exec.{ok}
use mpc_custody.Wallet.Types.{chain_evm}
use mpc_custody.Wallet.Policy.{validate_amount_policy}
use mpc_custody.Config.{load}
use mpc_custody.Cmd.{policy_of}
use mpc_custody.Cmd.Limits.{evm_limit_dropped}

abbrev getenv : Str → Str
getenv key =
    if str_eq key (bytes "API_KEYS")
    then bytes "k1, k2"
    else if str_eq key (bytes "SIGNER_IDS")
    then bytes "ann,bob"
    else if str_eq key (bytes "MAX_EVM_AMOUNT_WEI")
    then bytes "1e18"
    else []

evm_limit_dropped_example :
    (validate_amount_policy (policy_of (load getenv)) chain_evm (bytes "77") ≡ ok tt)
    ↔ ((v : ℤ) × (parse_big (bytes "77") ≡ some v) × (pos 0 <ℤ v))
unfolding str_eq bytes parse_big
evm_limit_dropped_example = evm_limit_dropped getenv (bytes "77") refl
