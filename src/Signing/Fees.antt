-- ===== src/Signing/Fees.antt =====
-- A fee that is no number, at the EVM adapter (internal/chains/evm/evm.go) and at the backend
-- (internal/signing/demo.go).
use mpc_custody.Prelude.{ℕ, ◌≡◌, ◌≢◌, sym, ap, ◌∙◌, refl, none, some, [], arith, ◌==◌, false}
use mpc_custody.Errors.{Error, message}
use mpc_custody.Go.Str.{Str, str_eq, str_eq_iff, eq→str_eq, bytes}
use mpc_custody.Go.Int.{ℤ, pos, ◌<ℤ◌}
use mpc_custody.Go.Strconv.{parse_big}
use mpc_custody.Go.Exec.{Result, ok, err, Exec, lift, ◌>>=◌}
use mpc_custody.Wallet.Types.{Time, Wallet, TransactionRequest, TransactionProposal, chain_evm}
use mpc_custody.Wallet.Interfaces.{Context}
use mpc_custody.Chains.Evm
use mpc_custody.Chains.Evm.{payload_json}
use mpc_custody.Chains.Evm.Local.{requested_json, local_payload, payload_json-requested}
use mpc_custody.Signing.{Library, State, sign_evm_transaction, sign_transaction, number}
use mpc_custody.Signing.Built.{IsAsked, at_gate, bind_lift, number_ok}

-- A request that the adapter takes without a node: it looks at the fee only for being empty.
pub record IsTaken (request : TransactionRequest) (value : ℤ) : Type 0 where
  pub has_destination : request.to ≢ []
  pub amount_read : parse_big request.amount ≡ some value
  pub amount_positive : pos 0 <ℤ value
  pub has_gas : request.gas_limit ≢ 0
  pub has_fee : request.max_fee_per_gas ≢ []

parse_big-nil : parse_big [] ≡ none
unfolding parse_big
parse_big-nil = refl

check_request_ok :
    (request : TransactionRequest) (value : ℤ)
    → IsTaken request value
    → Evm.check_request request ≡ ok value
unfolding Evm.check_request
check_request_ok request value h =
    let dest = h.has_destination in
    let read = h.amount_read in
    let positive = h.amount_positive in
    ground (arith, str_eq_iff request.to [], str_eq_iff request.amount [], parse_big-nil)

has_gas_test :
    (request : TransactionRequest) → request.gas_limit ≢ 0 → (request.gas_limit == 0) ≡ false
has_gas_test request h = ground arith

has_fee_test :
    (request : TransactionRequest)
    → request.max_fee_per_gas ≢ []
    → str_eq request.max_fee_per_gas [] ≡ false
has_fee_test request h = ground (arith, str_eq_iff request.max_fee_per_gas [])

built :
    {Y : Type 0} (o : Evm.Outside Y) (a : Evm.Adapter) (ctx : Context) (source : Wallet)
    (request : TransactionRequest) (u : Evm.State Y) (y y' : Y) (now : Time) (value : ℤ)
    → a.rpc_url ≡ []
    → o.done ctx u.external ≡ (ok tt, y)
    → o.now y ≡ (ok now, y')
    → IsTaken request value
    → (Evm.build_transaction o a ctx source request u).0
      ≡ ok (record {
        chain = bytes "evm";
        payload =
            requested_json a source request
              (Evm.nonce_of source.address u.nonces)
              (o.format_time now);
      })
unfolding Evm.build_transaction Evm.fill_locally Evm.next_nonce Evm.new_payload payload_json
    chain_evm ◌>>=◌ mpc_custody.Go.Json.fields_of
built o a ctx source request u y y' now value local alive clock taken =
    rw
      (
        alive,
        check_request_ok request value taken,
        clock,
        eq→str_eq a.rpc_url [] local,
        has_gas_test request taken.has_gas,
        has_fee_test request taken.has_fee,
      )
      refl

bind_lift_err :
    {W A B : Type 0} (r : Result A) (f : A → Exec W B) (w : W) {e : Error}
    → r ≡ err e
    → (lift r >>= f) w ≡ (err e, w)
unfolding ◌>>=◌
bind_lift_err r f w h = rw h refl

number_err :
    (text problem : Str) → parse_big text ≡ none → number text problem ≡ err (message problem)
number_err text problem e = rw (e, number) refl

-- Without a node, a request with a fee that is no number is built by the adapter all the same, where
-- it has a receiver, a positive amount, gas and a fee that is not empty; and a proposal that carries
-- what was built is refused by the backend with an error on the fee, with its two approvals and a
-- wallet that the backend knows. Both contexts are alive, and the payload is read back as it was
-- written.
pub bad_fee_passes_the_adapter :
    {X K Y : Type 0} (l : Library X K) (p : TransactionProposal) (key : K) (w : State X K)
    (o : Evm.Outside Y) (a : Evm.Adapter) (ctx later : Context) (source : Wallet)
    (request : TransactionRequest) (u : Evm.State Y) (x : X) (y y' : Y) (now : Time) (value : ℤ)
    → a.rpc_url ≡ []
    → o.done ctx u.external ≡ (ok tt, y)
    → o.now y ≡ (ok now, y')
    → IsTaken request value
    → parse_big request.max_fee_per_gas ≡ none
    → p.raw_transaction ≡ record {
      chain = bytes "evm";
      payload =
          requested_json a source request
            (Evm.nonce_of source.address u.nonces)
            (o.format_time now);
    }
    → IsAsked l p key w
    → l.done later w.external ≡ (ok tt, x)
    → ((Evm.build_transaction o a ctx source request u).0 ≡ ok p.raw_transaction)
      × ((sign_transaction l later p w).0
          ≡ err (message (bytes "evm max_fee_per_gas must be a base-10 integer")))
unfolding sign_evm_transaction Evm.new_payload
bad_fee_passes_the_adapter {X} {K} l p key w o a ctx later source request u x y y' now value local
      alive clock taken bad carried asked live =
    (
      built o a ctx source request u y y' now value local alive clock taken ∙ ap ok (sym carried),
      ap (λ z. z.0)
          (at_gate l p key w asked later x live
            ∙ bind_lift _ _ v read
            ∙ bind_lift _ _ v (number_ok request.amount _ taken.amount_read)
            ∙ bind_lift_err _ _ v (number_err request.max_fee_per_gas _ bad)),
    )
  where
    v : State X K
    v = record w { external = x }

    nonce : ℕ
    nonce = Evm.nonce_of source.address u.nonces

    read :
        l.unmarshal_payload p.raw_transaction.payload
        ≡ ok (local_payload a source request nonce (o.format_time now))
    read = asked.reads_back _ (
        ap (λ r. r.payload) carried
        ∙ sym (payload_json-requested a source request nonce (o.format_time now)))
