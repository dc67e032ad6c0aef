-- ===== src/Signing.antt =====
-- internal/signing/demo.go: the demo backend, which signs for two approvals at least. Keys and what is
-- done with them (crypto/ecdsa, go-ethereum) are a parameter.
mod Gate
mod Built
mod Fees
pub mod Examples
use mpc_custody.Prelude.{ℕ, Bool, Option, none, some, [], ◌∷◌, ◌++◌, take, ltb, if◌then◌else◌}
use mpc_custody.Errors.{message}
use mpc_custody.Go.Str.{Str, str_eq, bytes}
use mpc_custody.Go.Int.{ℤ}
use mpc_custody.Go.Dict.{Dict, lookup, insert}
use mpc_custody.Go.Strconv.{parse_big}
use mpc_custody.Go.Split.{trim_prefix}
use mpc_custody.Go.Hex.{hex_encode}
use mpc_custody.Go.Json.{Json, str, obj, end, field}
use mpc_custody.Go.Exec.{Result, ok, err, Exec, ◌>>=◌, ◌>>◌, pure, lift, raise_if}
use mpc_custody.Wallet.Types.{
  Chain, Time, WalletMaterial, Signature, TransactionProposal, approvals_count, chain_bitcoin,
  chain_evm,
}
use mpc_custody.Wallet.Interfaces.{Context, SigningBackend}
use mpc_custody.Chains.Evm.{EvmTransactionPayload}

-- types.DynamicFeeTx; an address is the text of what common.HexToAddress gives.
pub record DynamicFeeTx : Type 0 where
  pub chain_id : ℕ
  pub nonce : ℕ
  pub gas_tip_cap : ℤ
  pub gas_fee_cap : ℤ
  pub gas : ℕ
  pub to : Str
  pub value : ℤ
  pub input : Str

-- A signed transaction: what MarshalBinary and Hash().Hex() give.
pub record SignedTx : Type 0 where
  pub binary : Str
  pub hash : Str

-- What is asked of the libraries, over a state `X` of randomness and time: `public_bytes` is
-- FromECDSAPub or elliptic.Marshal of the public key, `eth_address` is PubkeyToAddress().Hex(),
-- `hex_to_address` is common.HexToAddress, and `sign_digest` is ecdsa.Sign with asn1.Marshal of what
-- it gives. `done` is the `select` on ctx.Done().
pub record Library (X K : Type 0) : Type 0 where
  pub done : Context → Exec X Unit
  pub now : Exec X Time
  pub format_time : Time → Str
  pub sha256 : Str → Str
  pub hex_decode : Str → Result Str
  pub marshal : Json → Result Str
  pub unmarshal_payload : Json → Result EvmTransactionPayload
  pub hex_to_address : Str → Str
  pub hex_to_ecdsa : Str → Result K
  pub generate_secp256k1 : Exec X K
  pub generate_p256 : Exec X K
  pub secp256k1_public_bytes : K → Str
  pub p256_public_bytes : K → Str
  pub eth_address : K → Str
  pub sign_digest : K → Str → Exec X Str
  pub sign_tx : DynamicFeeTx → K → Result SignedTx

pub record WalletRecord (K : Type 0) : Type 0 where
  pub chain : Chain
  pub private : K
  pub public_key : Str
  pub address : Str

-- The records of the backend beside what is outside.
pub record State (X K : Type 0) : Type 0 where
  pub records : Dict (WalletRecord K)
  pub external : X

-- An action on what is outside.
abbrev pub outside : {X K A : Type 0} → Exec X A → Exec (State X K) A
outside m w = let (r, x) = m w.external in (r, record w { external = x })

abbrev pub quorum_threshold : ℕ
quorum_threshold = 2

-- WithEVMPrivateKey: the key of `evmPrivateKey`, if it is set.
unfoldable pub with_evm_private_key : {X K : Type 0} → Library X K → Str → Result (Option K)
with_evm_private_key l private_key =
    if str_eq private_key []
    then ok none
    else elim (l.hex_to_ecdsa (trim_prefix (bytes "0x") private_key)) [
      | err e ↦ err e
      | ok key ↦ ok (some key)
    ]

unfoldable pub new_state : {X K : Type 0} → X → State X K
new_state x = record { records = []; external = x }

-- `big.Int.SetString(text, 10)`
abbrev pub number : Str → Str → Result ℤ
number text problem = elim (parse_big text) [ none ↦ err (message problem) | some n ↦ ok n ]

abbrev pub known : {K : Type 0} → Option (WalletRecord K) → Result (WalletRecord K)
known none = err (message (bytes "signing wallet material not found"))
known (some r) = ok r

-- `record, ok := b.records[walletID]`
abbrev pub record_of : {X K : Type 0} → Str → Exec (State X K) (WalletRecord K)
record_of wallet_id w = (known (lookup wallet_id w.records), w)

module _ {X K : Type 0} (l : Library X K) where
  unfoldable pub encode_public_key : Chain → K → Str
  encode_public_key chain key =
      if str_eq chain chain_evm
      then hex_encode (l.secp256k1_public_bytes key)
      else hex_encode (l.p256_public_bytes key)

  unfoldable pub address_for : Chain → K → Str → Str
  address_for chain key public_key =
      let digest = l.sha256 public_key in
      if str_eq chain chain_bitcoin
      then bytes "tb1q" ++ hex_encode (take 20 digest)
      else if str_eq chain chain_evm
      then l.eth_address key
      else hex_encode (take 20 digest)

  unfoldable pub create_private_key : Option K → Chain → Exec X K
  create_private_key fixed chain =
      if str_eq chain chain_evm
      then elim fixed [ some key ↦ pure key | none ↦ l.generate_secp256k1 ]
      else l.generate_p256

  unfoldable pub put_record : Str → WalletRecord K → Exec (State X K) (Unit {0})
  put_record wallet_id r w = (ok tt, record w { records = insert wallet_id r w.records })

  unfoldable pub create_wallet : Option K → Context → Str → Chain → Exec (State X K) WalletMaterial
  create_wallet fixed ctx wallet_id chain = do
    outside (l.done ctx)
    key ← outside (create_private_key fixed chain)
    let public_key : Str = encode_public_key chain key
    let address : Str = address_for chain key public_key
    put_record wallet_id
        (record { chain = chain; private = key; public_key = public_key; address = address })
    pure (record { address = address; public_key = public_key })

  unfoldable pub sign_evm_transaction : TransactionProposal → K → Exec (State X K) Signature
  sign_evm_transaction p key = do
    payload ← lift (l.unmarshal_payload p.raw_transaction.payload)
    value ← lift (number payload.value_wei (bytes "evm value_wei must be a base-10 integer"))
    fee ←
        lift
          (number payload.max_fee_per_gas (bytes "evm max_fee_per_gas must be a base-10 integer"))
    tip ← lift (
        number payload.max_priority_fee_per_gas
          (bytes "evm max_priority_fee_per_gas must be a base-10 integer"))
    input ← lift (l.hex_decode (trim_prefix (bytes "0x") payload.call_data))
    signed ← lift (
        l.sign_tx
          (record {
            chain_id = payload.chain_id;
            nonce = payload.nonce;
            gas_tip_cap = tip;
            gas_fee_cap = fee;
            gas = payload.gas_limit;
            to = l.hex_to_address payload.to;
            value = value;
            input = input;
          })
          key)
    pure (record {
      signed_transaction = bytes "0x" ++ hex_encode signed.binary;
      signature_id = signed.hash;
    })

  -- The envelope around a signature of the digest of the payload.
  unfoldable pub sign_envelope : TransactionProposal → K → Exec (State X K) Signature
  sign_envelope p key = do
    raw ← lift (l.marshal p.raw_transaction.payload)
    let digest : Str = l.sha256 raw
    signature ← outside (l.sign_digest key digest)
    signed_at ← outside l.now
    payload ← lift (
        l.marshal (
          obj (
            field (bytes "chain") (str p.chain) (
              field (bytes "raw_transaction") p.raw_transaction.payload (
                field (bytes "signature") (str (hex_encode signature)) (
                  field (bytes "signature_hash") (str (hex_encode digest)) (
                    field (bytes "signed_at") (str (l.format_time signed_at)) (
                      field (bytes "signer_model")
                        (str (bytes "demo-local-key-with-2-of-3-approval-gate"))
                        (field (bytes "wallet_id") (str p.wallet_id) end)))))))))
    pure (record {
      signed_transaction = hex_encode payload;
      signature_id = hex_encode (l.sha256 payload);
    })

  unfoldable pub sign_transaction : Context → TransactionProposal → Exec (State X K) Signature
  sign_transaction ctx p = do
    outside (l.done ctx)
    raise_if (ltb (approvals_count p) quorum_threshold)
        (message (bytes "2-of-3 quorum has not been reached"))
    r ← record_of p.wallet_id
    if str_eq p.chain chain_evm then sign_evm_transaction p r.private else sign_envelope p r.private

  abbrev pub demo_backend : Option K → SigningBackend (State X K)
  demo_backend fixed = record {
    create_wallet = create_wallet fixed;
    sign_transaction = sign_transaction;
  }
