-- ===== src/Signing/Built.antt =====
-- A transaction of the EVM adapter (internal/chains/evm/evm.go) at the backend
-- (internal/signing/demo.go).
use mpc_custody.Prelude.{ℕ, ◌≤◌, ◌≡◌, refl, sym, [], ap, ◌∙◌, false, some, ◌++◌, arith, ltb}
use mpc_custody.Go.Str.{Str, eq→str_eq, bytes}
use mpc_custody.Go.Int.{ℤ}
use mpc_custody.Go.Dict.{lookup}
use mpc_custody.Go.Hex.{hex_encode}
use mpc_custody.Go.Split.{trim_prefix}
use mpc_custody.Go.Strconv.{parse_big}
use mpc_custody.Go.Exec.{Result, ok, Exec, lift, ◌>>=◌}
use mpc_custody.Wallet.Types.{
  Wallet, TransactionRequest, TransactionProposal, approvals_count, chain_evm,
}
use mpc_custody.Wallet.Interfaces.{Context}
use mpc_custody.Chains.Evm
use mpc_custody.Chains.Evm.{EvmTransactionPayload, payload_json}
use mpc_custody.Chains.Evm.Local.{
  BuiltLocally, local_payload, payload_json-requested, build_transaction-BuiltLocally,
}
use mpc_custody.Signing.{
  DynamicFeeTx, SignedTx, Library, WalletRecord, State, sign_evm_transaction, sign_transaction,
  number,
}

-- What the backend is asked: a proposal of an EVM transaction, with two approvals, for a wallet that
-- it knows. The payload of the proposal is read back as it was written.
pub record IsAsked {X K : Type 0} (l : Library X K) (p : TransactionProposal) (key : K)
    (w : State X K) : Type 0 where
  pub on_evm : p.chain ≡ chain_evm
  pub quorum : 2 ≤ approvals_count p
  pub wallet : WalletRecord K
  pub is_known : lookup p.wallet_id w.records ≡ some wallet
  pub with_key : wallet.private ≡ key
  pub reads_back :
      (q : EvmTransactionPayload)
      → p.raw_transaction.payload ≡ payload_json q
      → l.unmarshal_payload p.raw_transaction.payload ≡ ok q

-- The transaction that is signed for a request.
abbrev pub requested_tx :
    {X K : Type 0} → Library X K → Evm.Adapter → TransactionRequest → ℕ → ℤ → ℤ → Str → DynamicFeeTx
requested_tx l a request nonce value fee input = record {
  chain_id = a.chain_id;
  nonce = nonce;
  gas_tip_cap = fee;
  gas_fee_cap = fee;
  gas = request.gas_limit;
  to = l.hex_to_address request.to;
  value = value;
  input = input;
}

pub bind_lift :
    {W A B : Type 0} (r : Result A) (f : A → Exec W B) (w : W) {a : A}
    → r ≡ ok a
    → (lift r >>= f) w ≡ f a w
unfolding ◌>>=◌
bind_lift r f w e = rw e refl

pub number_ok : (text problem : Str) {n : ℤ} → parse_big text ≡ some n → number text problem ≡ ok n
number_ok text problem e = rw (e, number) refl

module _ {X K : Type 0} (l : Library X K) (p : TransactionProposal) (key : K) (w : State X K)
    (asked : IsAsked l p key w) where
  not_short : ltb (approvals_count p) 2 ≡ false
  not_short = let enough = asked.quorum in ground arith

  pub at_gate :
      (ctx : Context) (x : X)
      → l.done ctx w.external ≡ (ok tt, x)
      → sign_transaction l ctx p w ≡ sign_evm_transaction l p key (record w { external = x })
  unfolding sign_transaction ◌>>=◌
  at_gate ctx x alive =
      rw
        (alive, not_short, asked.is_known, eq→str_eq p.chain chain_evm asked.on_evm, asked.with_key)
        refl

module _ {X K : Type 0} (l : Library X K) (a : Evm.Adapter) (source : Wallet)
    (request : TransactionRequest) (nonce : ℕ) (p : TransactionProposal) (key : K) (w : State X K)
    (asked : IsAsked l p key w)
    (built : BuiltLocally a source request nonce p.raw_transaction) where
  payload : EvmTransactionPayload
  payload = local_payload a source request nonce built.created_at

  read_payload : l.unmarshal_payload p.raw_transaction.payload ≡ ok payload
  unfolding payload
  read_payload = asked.reads_back payload (
      ap (λ r. r.payload) built.raw_lem
      ∙ sym (payload_json-requested a source request nonce built.created_at))

  signed :
      (value fee : ℤ) (input : Str) (tx : SignedTx) (v : State X K)
      → parse_big request.amount ≡ some value
      → parse_big request.max_fee_per_gas ≡ some fee
      → l.hex_decode (trim_prefix (bytes "0x") request.call_data) ≡ ok input
      → l.sign_tx (requested_tx l a request nonce value fee input) key ≡ ok tx
      → (sign_evm_transaction l p key v).0
        ≡ ok (record {
          signed_transaction = bytes "0x" ++ hex_encode tx.binary;
          signature_id = tx.hash;
        })
  unfolding sign_evm_transaction payload mpc_custody.Chains.Evm.new_payload
  signed value fee input tx v value_read fee_read decoded done =
      ap (λ z. z.0)
        (bind_lift _ _ v read_payload
          ∙ bind_lift _ _ v (number_ok request.amount _ value_read)
          ∙ bind_lift _ _ v (number_ok request.max_fee_per_gas _ fee_read)
          ∙ bind_lift _ _ v (number_ok request.max_fee_per_gas _ fee_read)
          ∙ bind_lift _ _ v decoded
          ∙ bind_lift _ _ v done)

-- A proposal that carries what the EVM adapter built for a request, without a node, is signed as it
-- was requested: the backend signs the transaction of the amount, gas, fee and data that the request
-- has, of the address that the library reads in its receiver, and of the adapter's chain and the next
-- nonce of the source's address at the adapter. The proposal has two approvals and a wallet that the
-- backend knows, its payload is read back as it was written, the fee is a number, the data is
-- hexadecimal and the library signs.
pub sign_transaction-built :
    {X K Y : Type 0} (l : Library X K) (p : TransactionProposal) (key : K) (w : State X K)
    (o : Evm.Outside Y) (a : Evm.Adapter) (ctx later : Context) (source : Wallet)
    (request : TransactionRequest) (u u' : Evm.State Y) (x : X) (value fee : ℤ) (input : Str)
    (tx : SignedTx)
    → a.rpc_url ≡ []
    → Evm.build_transaction o a ctx source request u ≡ (ok p.raw_transaction, u')
    → IsAsked l p key w
    → l.done later w.external ≡ (ok tt, x)
    → parse_big request.amount ≡ some value
    → parse_big request.max_fee_per_gas ≡ some fee
    → l.hex_decode (trim_prefix (bytes "0x") request.call_data) ≡ ok input
    → l.sign_tx
        (requested_tx l a request (Evm.nonce_of source.address u.nonces) value fee input)
        key
      ≡ ok tx
    → (sign_transaction l later p w).0
      ≡ ok (record {
        signed_transaction = bytes "0x" ++ hex_encode tx.binary;
        signature_id = tx.hash;
      })
sign_transaction-built l p key w o a ctx later source request u u' x value fee input tx local built
      asked alive value_read fee_read decoded done =
    ap (λ z. z.0) (at_gate l p key w asked later x alive)
    ∙ signed l a source request (Evm.nonce_of source.address u.nonces) p key w asked
        (build_transaction-BuiltLocally o a ctx source request local u u' p.raw_transaction built)
        value fee input tx (record w { external = x }) value_read fee_read decoded done
