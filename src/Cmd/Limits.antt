-- ===== src/Cmd/Limits.antt =====
-- The amount limits of a configuration (cmd/custody-api/main.go, internal/config/config.go).
use mpc_custody.Prelude.{◌≡◌, ◌↔◌, none, some, arith}
use mpc_custody.Go.Str.{Str, bytes}
use mpc_custody.Go.Int.{ℤ, pos, ◌<ℤ◌}
use mpc_custody.Go.Strconv.{parse_big}
use mpc_custody.Go.Exec.{ok}
use mpc_custody.Wallet.Types.{chain_evm}
use mpc_custody.Wallet.Policy.{validate_amount_policy}
use mpc_custody.Wallet.Policy.Limits.{evm_amount_iff}
use mpc_custody.Config.{load, env_big_int}
use mpc_custody.Cmd.{policy_of}

no_limit :
    (getenv : Str → Str) (key : Str) → parse_big (getenv key) ≡ none → env_big_int getenv key ≡ none
unfolding env_big_int
no_limit getenv key bad = ground arith

-- A limit for EVM amounts that is no number is no limit: every positive amount is admitted.
pub evm_limit_dropped :
    (getenv : Str → Str) (amount : Str)
    → parse_big (getenv (bytes "MAX_EVM_AMOUNT_WEI")) ≡ none
    → (validate_amount_policy (policy_of (load getenv)) chain_evm amount ≡ ok tt)
      ↔ ((v : ℤ) × (parse_big amount ≡ some v) × (pos 0 <ℤ v))
unfolding policy_of load
evm_limit_dropped getenv amount bad =
    let both = evm_amount_iff (policy_of (load getenv)) amount in
    let e = no_limit getenv (bytes "MAX_EVM_AMOUNT_WEI") bad in
    (
      λ h. let (v, parsed, positive, _) = both.0 h in (v, parsed, positive),
      λ (v, parsed, positive). both.1 (v, parsed, positive, rw e tt),
    )
