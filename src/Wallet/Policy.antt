-- ===== src/Wallet/Policy.antt =====
-- The custody policy of internal/wallet/service.go: who may sign, and how much may be sent.
pub mod Limits
mod Examples
use mpc_custody.Prelude.{Bool, true, ◌&&◌, Option, none, some, [], if◌then◌else◌}
use mpc_custody.Errors.{policy_violation}
use mpc_custody.Go.Str.{Str, str_eq, bytes}
use mpc_custody.Go.Int.{ℤ, pos, leb_ℤ, ltb_ℤ}
use mpc_custody.Go.Dict.{Dict, contains}
use mpc_custody.Go.Strconv.{parse_int, parse_big}
use mpc_custody.Go.Exec.{Result, ok, err}
use mpc_custody.Wallet.Types.{Chain, chain_bitcoin, chain_evm}

pub record Policy : Type 0 where
  pub allowed_signers : Dict (Unit {0})
  pub max_bitcoin_amount_sats : ℤ
  pub max_evm_amount_wei : Option ℤ

unfoldable pub signer_allowed : Policy → Str → Bool
signer_allowed policy signer = elim policy.allowed_signers [
  | [] ↦ true
  | _ ↦ contains signer policy.allowed_signers
]

abbrev pub bitcoin_amount_policy : Policy → Str → Result (Unit {0})
bitcoin_amount_policy policy amount = elim (parse_int amount) [
  | none ↦ err (policy_violation (bytes "bitcoin amount must be positive base-10 sats"))
  | some value ↦
      if leb_ℤ value (pos 0)
      then err (policy_violation (bytes "bitcoin amount must be positive base-10 sats"))
      else if ltb_ℤ (pos 0) policy.max_bitcoin_amount_sats
          && ltb_ℤ policy.max_bitcoin_amount_sats value
      then err (policy_violation (bytes "bitcoin amount exceeds limit"))
      else ok tt
]

abbrev exceeds : Option ℤ → ℤ → Bool
exceeds none value = Bool.false
exceeds (some limit) value = ltb_ℤ limit value

abbrev pub evm_amount_policy : Policy → Str → Result (Unit {0})
evm_amount_policy policy amount = elim (parse_big amount) [
  | none ↦ err (policy_violation (bytes "evm amount must be positive base-10 wei"))
  | some value ↦
      if leb_ℤ value (pos 0)
      then err (policy_violation (bytes "evm amount must be positive base-10 wei"))
      else if exceeds policy.max_evm_amount_wei value
      then err (policy_violation (bytes "evm amount exceeds limit"))
      else ok tt
]

-- A chain that is neither has no limit.
unfoldable pub validate_amount_policy : Policy → Chain → Str → Result (Unit {0})
validate_amount_policy policy chain amount =
    if str_eq chain chain_bitcoin
    then bitcoin_amount_policy policy amount
    else if str_eq chain chain_evm
    then evm_amount_policy policy amount
    else ok tt
