-- ===== src/Wallet/Policy/Examples.antt =====
-- Amounts at a limit.
use mpc_custody.Prelude.{◌≡◌, ◌↔◌, some, []}
use mpc_custody.Go.Str.{bytes}
use mpc_custody.Go.Int.{ℤ, pos, ◌<ℤ◌}
use mpc_custody.Go.Strconv.{parse_int, parse_big}
use mpc_custody.Go.Exec.{ok}
use mpc_custody.Wallet.Types.{chain_bitcoin, chain_evm}
use mpc_custody.Wallet.Policy.{Policy, validate_amount_policy}
use mpc_custody.Wallet.Policy.Limits.{
  WithinBitcoinLimit, WithinEvmLimit, bitcoin_amount_iff, evm_amount_iff,
}

abbrev limited : Policy
limited = record {
  allowed_signers = [];
  max_bitcoin_amount_sats = pos 1000;
  max_evm_amount_wei = some (pos 20000000000000000000);
}

bitcoin_amount_iff_example :
    (validate_amount_policy limited chain_bitcoin (bytes "1000") ≡ ok tt)
    ↔ ((v : ℤ) × (parse_int (bytes "1000") ≡ some v) × (pos 0 <ℤ v) × WithinBitcoinLimit limited v)
bitcoin_amount_iff_example = bitcoin_amount_iff limited (bytes "1000")

evm_amount_iff_example :
    (validate_amount_policy limited chain_evm (bytes "20000000000000000001") ≡ ok tt) ↔ (
      (v : ℤ) × (parse_big (bytes "20000000000000000001") ≡ some v)
      × (pos 0 <ℤ v)
      × WithinEvmLimit limited.max_evm_amount_wei v)
evm_amount_iff_example = evm_amount_iff limited (bytes "20000000000000000001")
