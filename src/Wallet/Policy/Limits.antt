-- ===== src/Wallet/Policy/Limits.antt =====
-- What `validateAmountPolicy` and `signerAllowed` of internal/wallet/service.go admit.
use mpc_custody.Prelude.{
  ◌≡◌, refl, ◌↔◌, ◌⊎◌, inl, inr, true, false, Option, none, some, [], arith, Option-cases,
}
use mpc_custody.Go.Str.{Str, str_eq, str_eq_refl}
use mpc_custody.Go.Int.{ℤ, pos, ◌≤ℤ◌, ◌<ℤ◌}
use mpc_custody.Go.Dict.{contains}
use mpc_custody.Go.Strconv.{parse_int, parse_big}
use mpc_custody.Go.Exec.{ok}
use mpc_custody.Wallet.Types.{chain_bitcoin, chain_evm}
use mpc_custody.Wallet.Policy.{
  Policy, validate_amount_policy, bitcoin_amount_policy, evm_amount_policy, signer_allowed,
}

-- A limit that is set; the zero value and nil set none.
abbrev pub WithinBitcoinLimit : Policy → ℤ → Type 0
WithinBitcoinLimit policy v =
    (policy.max_bitcoin_amount_sats ≤ℤ pos 0) ⊎ (v ≤ℤ policy.max_bitcoin_amount_sats)

abbrev pub WithinEvmLimit : Option ℤ → ℤ → Type 0
WithinEvmLimit none v = Unit
WithinEvmLimit (some limit) v = v ≤ℤ limit

bitcoin_amount_sound :
    (policy : Policy) (amount : Str)
    → bitcoin_amount_policy policy amount ≡ ok tt
    → (v : ℤ) × (parse_int amount ≡ some v) × (pos 0 <ℤ v) × WithinBitcoinLimit policy v
bitcoin_amount_sound policy amount h = elim (Option-cases (parse_int amount)) [
  | inl bad ↦ absurd (ground arith)
  | inr (v, good) ↦ (v, good, ground arith, ground arith)
]

bitcoin_amount_complete :
    (policy : Policy) (amount : Str) (v : ℤ)
    → parse_int amount ≡ some v
    → pos 0 <ℤ v
    → WithinBitcoinLimit policy v
    → bitcoin_amount_policy policy amount ≡ ok tt
bitcoin_amount_complete policy amount v good positive within = ground arith

-- A bitcoin amount is admitted exactly when it is a positive int64 in base 10 within the limit.
pub bitcoin_amount_iff :
    (policy : Policy) (amount : Str)
    → (validate_amount_policy policy chain_bitcoin amount ≡ ok tt)
      ↔ ((v : ℤ) × (parse_int amount ≡ some v) × (pos 0 <ℤ v) × WithinBitcoinLimit policy v)
unfolding validate_amount_policy
bitcoin_amount_iff policy amount = rw (str_eq_refl chain_bitcoin) (
  bitcoin_amount_sound policy amount,
  λ (v, good, positive, within). bitcoin_amount_complete policy amount v good positive within,
)

evm_amount_sound :
    (policy : Policy) (amount : Str)
    → evm_amount_policy policy amount ≡ ok tt
    → (v : ℤ) × (parse_big amount ≡ some v)
      × (pos 0 <ℤ v)
      × WithinEvmLimit policy.max_evm_amount_wei v
evm_amount_sound policy amount h = elim (Option-cases (parse_big amount)) [
  | inl bad ↦ absurd (ground arith)
  | inr (v, good) ↦ (v, good, ground arith, ground arith)
]

evm_amount_complete :
    (policy : Policy) (amount : Str) (v : ℤ)
    → parse_big amount ≡ some v
    → pos 0 <ℤ v
    → WithinEvmLimit policy.max_evm_amount_wei v
    → evm_amount_policy policy amount ≡ ok tt
evm_amount_complete policy amount v good positive within = ground arith

chain_evm-ne-bitcoin : str_eq chain_evm chain_bitcoin ≡ false
unfolding chain_evm chain_bitcoin str_eq
chain_evm-ne-bitcoin = refl

-- An EVM amount is admitted exactly when it is a positive base-10 number of any size within the
-- limit, if one is set.
pub evm_amount_iff :
    (policy : Policy) (amount : Str)
    → (validate_amount_policy policy chain_evm amount ≡ ok tt) ↔ (
        (v : ℤ) × (parse_big amount ≡ some v)
        × (pos 0 <ℤ v)
        × WithinEvmLimit policy.max_evm_amount_wei v)
unfolding validate_amount_policy
evm_amount_iff policy amount =
    rw (chain_evm-ne-bitcoin, str_eq_refl chain_evm)
      (
        evm_amount_sound policy amount,
        λ (v, good, positive, within). evm_amount_complete policy amount v good positive within,
      )

-- With an allowlist, exactly its members may sign; without one, everybody.
pub signer_allowed_iff :
    (policy : Policy) (signer : Str)
    → (signer_allowed policy signer ≡ true)
      ↔ ((policy.allowed_signers ≡ []) ⊎ (contains signer policy.allowed_signers ≡ true))
unfolding signer_allowed
signer_allowed_iff policy signer = (ground arith, ground arith)
