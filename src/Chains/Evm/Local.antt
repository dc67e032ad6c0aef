-- ===== src/Chains/Evm/Local.antt =====
-- What internal/chains/evm/evm.go builds where no node is configured.
use mpc_custody.Prelude.{ℕ, ◌≡◌, refl, some, Option-cases, inl, inr, [], ◌∷◌, ◌∙◌, arith, subst, ap}
use mpc_custody.Go.Str.{Str, eq→str_eq, bytes}
use mpc_custody.Go.Json.{Json, str, num, object, fields_of}
use mpc_custody.Go.Int.{ℤ, pos, ◌<ℤ◌}
use mpc_custody.Go.Dict.{Dict}
use mpc_custody.Go.Strconv.{parse_big}
use mpc_custody.Go.Exec.{Result, ok, err, Exec}
use mpc_custody.Go.Exec.Triple.{
  Post, Triple, Triple-bind, Triple-lift_bind, Triple-guard, Triple-pure, Triple-then,
}
use mpc_custody.Wallet.Types.{Wallet, TransactionRequest, RawTransaction, chain_evm}
use mpc_custody.Wallet.Interfaces.{Context}
use mpc_custody.Chains.Evm.{
  Outside, Adapter, State, EvmTransactionPayload, payload_json, check_request, nonce_of,
  new_payload, next_nonce, outside, fill_locally, build_transaction,
}

-- The payload of a request, filled in with a nonce and the fees of the request.
abbrev pub local_payload : Adapter → Wallet → TransactionRequest → ℕ → Str → EvmTransactionPayload
local_payload a source request nonce created_at = record (new_payload a source request created_at) {
  nonce = nonce;
  gas_limit = request.gas_limit;
  max_fee_per_gas = request.max_fee_per_gas;
  max_priority_fee_per_gas = request.max_fee_per_gas;
}

-- The JSON object that is to be written for a request, a nonce and a time.
abbrev pub requested_json : Adapter → Wallet → TransactionRequest → ℕ → Str → Json
requested_json a source request nonce created_at = object (
    (bytes "chain", str (bytes "evm"))
    ∷ (bytes "chain_id", num (pos a.chain_id))
    ∷ (bytes "from", str source.address)
    ∷ (bytes "to", str request.to)
    ∷ (bytes "value_wei", str request.amount)
    ∷ (bytes "nonce", num (pos nonce))
    ∷ (bytes "gas_limit", num (pos request.gas_limit))
    ∷ (bytes "max_fee_per_gas", str request.max_fee_per_gas)
    ∷ (bytes "max_priority_fee_per_gas", str request.max_fee_per_gas)
    ∷ (bytes "data", str request.call_data)
    ∷ (bytes "type", str (bytes "eip1559"))
    ∷ (bytes "created_at", str created_at)
    ∷ [])

pub payload_json-requested :
    (a : Adapter) (source : Wallet) (request : TransactionRequest) (nonce : ℕ) (created_at : Str)
    → payload_json (local_payload a source request nonce created_at)
      ≡ requested_json a source request nonce created_at
unfolding payload_json new_payload chain_evm fields_of
payload_json-requested a source request nonce created_at = refl

-- What a transaction that was built has: the payload, and a request that asks for a positive value.
pub record BuiltLocally (a : Adapter) (source : Wallet) (request : TransactionRequest) (nonce : ℕ)
    (raw : RawTransaction) : Type 0 where
  pub created_at : Str
  pub value : ℤ
  pub raw_lem :
      raw
      ≡ record { chain = bytes "evm"; payload = requested_json a source request nonce created_at }
  pub value_read : parse_big request.amount ≡ some value
  pub value_positive : pos 0 <ℤ value

value_of :
    (request : TransactionRequest) (v : ℤ)
    → check_request request ≡ ok v
    → (parse_big request.amount ≡ some v) × (pos 0 <ℤ v)
unfolding check_request
value_of request v h = elim (Option-cases (parse_big request.amount)) [
  | inl bad ↦ absurd (ground arith)
  | inr (z, good) ↦ ground arith
]

module _ {X : Type 0} where
  abbrev Any : State X → Type 0
  Any _ = Unit

  abbrev Has : Dict ℕ → State X → Type 0
  Has nonces w = w.nonces ≡ nonces

  Post-outside :
      {A : Type 0} (nonces : Dict ℕ) (r : Result A × X) (w : State X)
      → Has nonces w
      → Post Any (λ _. Has nonces) (r.0, record w { external = r.1 })
  Post-outside nonces (ok a, x) w h = h
  Post-outside nonces (err e, x) w h = tt

  Triple-outside :
      {A : Type 0} (nonces : Dict ℕ) (m : Exec X A)
      → Triple Any (Has nonces) (outside m) (λ _. Has nonces)
  Triple-outside nonces m = record { at = λ w h. Post-outside nonces (m w.external) w h }

  Triple-nonce :
      (address : Str) (nonces : Dict ℕ)
      → Triple Any (Has nonces) (next_nonce {X = X} address) (λ n _. n ≡ nonce_of address nonces)
  unfolding next_nonce
  Triple-nonce address nonces = record { at = λ w h. ap (nonce_of address) h }

  Triple-fill :
      (request : TransactionRequest) (p : EvmTransactionPayload) (nonces : Dict ℕ)
      → Triple Any (Has nonces) (fill_locally {X = X} request p) (λ q _. q ≡ record p {
        nonce = nonce_of p.from nonces;
        gas_limit = request.gas_limit;
        max_fee_per_gas = request.max_fee_per_gas;
        max_priority_fee_per_gas = request.max_fee_per_gas;
      })
  unfolding fill_locally
  Triple-fill request p nonces =
      Triple-guard _ _ _ (λ w h. tt)
        λ _.
          Triple-guard _ _ _ (λ w h. tt)
            λ _. Triple-bind (Triple-nonce p.from nonces) λ n. Triple-pure _ _ λ w e. rw e refl

module _ {X : Type 0} (o : Outside X) (a : Adapter) (ctx : Context) (source : Wallet)
    (request : TransactionRequest) (local : a.rpc_url ≡ []) where
  Triple-build :
      (nonces : Dict ℕ)
      → Triple
          (Any {X = X})
          (Has nonces)
          (build_transaction o a ctx source request)
          (λ raw _. BuiltLocally a source request (nonce_of source.address nonces) raw)
  unfolding build_transaction new_payload chain_evm
  Triple-build nonces = Triple-bind (Triple-outside nonces (o.done ctx)) λ _.
      Triple-lift_bind _ _ (λ w h. tt)
        λ value checked. Triple-bind (Triple-outside nonces o.now) λ created.
          Triple-bind
            (Triple-then _ _ (eq→str_eq a.rpc_url [] local) (Triple-fill request _ nonces))
            λ filled. Triple-pure _ _ λ w e. record {
              created_at = o.format_time created;
              value = value;
              raw_lem =
                  ap (λ q. record { chain = bytes "evm"; payload = q })
                    (ap payload_json e
                      ∙ payload_json-requested a source request _ (o.format_time created));
              value_read = (value_of request value checked).0;
              value_positive = (value_of request value checked).1;
            }

  -- Without a node, a transaction that BuildTransaction answers with is the JSON object of the
  -- adapter's chain id, the source's address and its next nonce, the request's receiver, amount, gas
  -- limit and data, the fee that was asked for (as the tip too), the type eip1559 and a time; and the
  -- request asks for a positive value.
  pub build_transaction-BuiltLocally :
      (w w' : State X) (raw : RawTransaction)
      → build_transaction o a ctx source request w ≡ (ok raw, w')
      → BuiltLocally a source request (nonce_of source.address w.nonces) raw
  build_transaction-BuiltLocally w w' raw h =
      subst
        (Post (Any {X = X})
          (λ r _. BuiltLocally a source request (nonce_of source.address w.nonces) r))
        h ((Triple-build w.nonces).at w refl)
