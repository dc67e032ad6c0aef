-- ===== src/Chains/Evm.antt =====
-- internal/chains/evm/evm.go: the adapter that builds and broadcasts EVM transactions. What it asks
-- of an Ethereum node by go-ethereum's ethclient is a parameter.
pub mod Nonces
pub mod Local
use mpc_custody.Prelude.{ℕ, ◌+◌, ◌%◌, ◌^◌, ◌==◌, Option, none, some, [], ◌++◌, if◌then◌else◌}
use mpc_custody.Errors.{message}
use mpc_custody.Go.Str.{Str, str_eq, bytes}
use mpc_custody.Go.Int.{ℤ, pos, leb_ℤ}
use mpc_custody.Go.Dict.{Dict, lookup, insert}
use mpc_custody.Go.Strconv.{parse_big}
use mpc_custody.Go.Split.{trim_prefix}
use mpc_custody.Go.Hex.{hex_encode}
use mpc_custody.Go.Json.{Json, str, num, obj, end, field}
use mpc_custody.Go.Exec.{Result, ok, err, Exec, ◌>>=◌, ◌>>◌, pure, lift, raise_if}
use mpc_custody.Wallet.Types.{Chain, Time, Wallet, TransactionRequest, RawTransaction, chain_evm}
use mpc_custody.Wallet.Interfaces.{Context}

-- What the adapter takes from outside, over a state `X`. `dial` connects to a node, which then
-- answers the next six; addresses are as text, prices are printed in base 10, and `send` decodes a
-- transaction, sends it and gives its hash. `done` is the `select` on ctx.Done().
pub record Outside (X : Type 0) : Type 0 where
  pub done : Context → Exec X Unit
  pub now : Exec X Time
  pub format_time : Time → Str
  pub sha256 : Str → Str
  pub hex_decode : Str → Result Str
  pub dial : Context → Str → Exec X Unit
  pub chain_id : Context → Exec X ℕ
  pub pending_nonce_at : Context → Str → Exec X ℕ
  pub estimate_gas : Context → Str → Str → ℤ → Str → Exec X ℕ
  pub suggest_gas_price : Context → Exec X Str
  pub suggest_gas_tip_cap : Context → Exec X Str
  pub send : Context → Str → Exec X Str

pub record Adapter : Type 0 where
  pub chain_id : ℕ
  pub rpc_url : Str

-- The nonces of the adapter beside what is outside.
pub record State (X : Type 0) : Type 0 where
  pub nonces : Dict ℕ
  pub external : X

unfoldable pub new_adapter : ℕ → Str → Adapter
new_adapter chain_id rpc_url = record {
  chain_id = if chain_id == 0 then 31337 else chain_id;
  rpc_url = rpc_url;
}

pub record EvmTransactionPayload : Type 0 where
  pub chain : Chain
  pub chain_id : ℕ
  pub from : Str
  pub to : Str
  pub value_wei : Str
  pub nonce : ℕ
  pub gas_limit : ℕ
  pub max_fee_per_gas : Str
  pub max_priority_fee_per_gas : Str
  pub call_data : Str
  pub tx_type : Str
  pub created_at : Str

-- json.Marshal of a payload
unfoldable pub payload_json : EvmTransactionPayload → Json
payload_json p = obj (
    field (bytes "chain") (str p.chain) (
      field (bytes "chain_id") (num (pos p.chain_id)) (
        field (bytes "from") (str p.from) (
          field (bytes "to") (str p.to) (
            field (bytes "value_wei") (str p.value_wei) (
              field (bytes "nonce") (num (pos p.nonce)) (
                field (bytes "gas_limit") (num (pos p.gas_limit)) (
                  field (bytes "max_fee_per_gas") (str p.max_fee_per_gas) (
                    field (bytes "max_priority_fee_per_gas") (str p.max_priority_fee_per_gas) (
                      field (bytes "data") (str p.call_data) (
                        field (bytes "type") (str p.tx_type)
                          (field (bytes "created_at") (str p.created_at) end))))))))))))

-- The part of BuildTransaction that looks at every request; the value in wei.
unfoldable pub check_request : TransactionRequest → Result ℤ
check_request request =
    if str_eq request.to []
    then err (message (bytes "evm destination address is required"))
    else if str_eq request.amount []
    then err (message (bytes "evm amount is required"))
    else elim (parse_big request.amount) [
      | none ↦ err (message (bytes "evm amount must be a positive base-10 wei value"))
      | some value ↦
          if leb_ℤ value (pos 0)
          then err (message (bytes "evm amount must be a positive base-10 wei value"))
          else ok value
    ]

-- A missing key of a map reads as 0.
abbrev pub nonce_of : Str → Dict ℕ → ℕ
nonce_of address nonces = elim (lookup address nonces) [ none ↦ 0 | some n ↦ n ]

unfoldable pub new_payload : Adapter → Wallet → TransactionRequest → Str → EvmTransactionPayload
new_payload a source request created_at = record {
  chain = chain_evm;
  chain_id = a.chain_id;
  from = source.address;
  to = request.to;
  value_wei = request.amount;
  nonce = 0;
  gas_limit = 0;
  max_fee_per_gas = [];
  max_priority_fee_per_gas = [];
  call_data = request.call_data;
  tx_type = bytes "eip1559";
  created_at = created_at;
}

-- An action on what is outside.
abbrev pub outside : {X A : Type 0} → Exec X A → Exec (State X) A
outside m w = let (r, x) = m w.external in (r, record w { external = x })

-- `a.nonces[address] = nonce + 1` on a uint64
unfoldable pub next_nonce : {X : Type 0} → Str → Exec (State X) ℕ
next_nonce address w =
    let nonce = nonce_of address w.nonces in
    (ok nonce, record w { nonces = insert address ((nonce + 1) % 2 ^ 64) w.nonces })

unfoldable pub fill_locally :
    {X : Type 0} → TransactionRequest → EvmTransactionPayload → Exec (State X) EvmTransactionPayload
fill_locally request p = do
  raise_if (request.gas_limit == 0) (message (bytes "evm gas_limit must be positive"))
  raise_if (str_eq request.max_fee_per_gas []) (message (bytes "evm max_fee_per_gas is required"))
  nonce ← next_nonce p.from
  pure (record p {
    nonce = nonce;
    gas_limit = request.gas_limit;
    max_fee_per_gas = request.max_fee_per_gas;
    max_priority_fee_per_gas = request.max_fee_per_gas;
  })

module _ {X : Type 0} (o : Outside X) (a : Adapter) (ctx : Context) where
  -- A tip that the node does not suggest is the fee.
  abbrev tip_or : Str → Exec X Str
  tip_or fee x = tip (o.suggest_gas_tip_cap ctx x)
    where
      tip : Result Str × X → Result Str × X
      tip (ok t, x') = (ok t, x')
      tip (err _, x') = (ok fee, x')

  -- The payload that is filled in, rather than written through a pointer.
  unfoldable pub populate_from_rpc :
      EvmTransactionPayload → ℤ → TransactionRequest → Exec X EvmTransactionPayload
  populate_from_rpc p value request = do
    o.dial ctx a.rpc_url
    chain_id ← o.chain_id ctx
    nonce ← o.pending_nonce_at ctx p.from
    input ← lift (o.hex_decode (trim_prefix (bytes "0x") request.call_data))
    gas_limit ←
        if request.gas_limit == 0
        then o.estimate_gas ctx p.from request.to value input
        else pure request.gas_limit
    fee ←
        if str_eq request.max_fee_per_gas []
        then o.suggest_gas_price ctx
        else pure request.max_fee_per_gas
    priority ← tip_or fee
    pure (record p {
      chain_id = chain_id;
      nonce = nonce;
      gas_limit = gas_limit;
      max_fee_per_gas = fee;
      max_priority_fee_per_gas = priority;
    })

  unfoldable pub build_transaction : Wallet → TransactionRequest → Exec (State X) RawTransaction
  build_transaction source request = do
    outside (o.done ctx)
    value ← lift (check_request request)
    created ← outside o.now
    let p : EvmTransactionPayload = new_payload a source request (o.format_time created)
    filled ←
        if str_eq a.rpc_url []
        then fill_locally request p
        else outside (populate_from_rpc p value request)
    pure (record { chain = chain_evm; payload = payload_json filled })

  unfoldable pub send_by_rpc : Str → Exec (State X) Str
  send_by_rpc signed_transaction = do
    outside (o.dial ctx a.rpc_url)
    raw ← lift (o.hex_decode (trim_prefix (bytes "0x") signed_transaction))
    outside (o.send ctx raw)

  unfoldable pub broadcast : Str → Exec (State X) Str
  broadcast signed_transaction = do
    outside (o.done ctx)
    raise_if (str_eq signed_transaction []) (message (bytes "signed transaction is required"))
    if str_eq a.rpc_url []
        then pure (bytes "0x" ++ hex_encode (o.sha256 (bytes "evm:" ++ signed_transaction)))
        else send_by_rpc signed_transaction
