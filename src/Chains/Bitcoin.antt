-- ===== src/Chains/Bitcoin.antt =====
-- internal/chains/bitcoin/bitcoin.go: the adapter that builds and broadcasts bitcoin transactions.
use mpc_custody.Prelude.{
  ◌≡◌, ◌≢◌, refl, ap, ◌∙◌, map, ◌↔◌, none, some, List, [], ◌∷◌, ◌++◌, arith, Option-cases, inl, inr,
  if◌then◌else◌,
}
use mpc_custody.Errors.{message}
use mpc_custody.Go.Str.{Str, str_eq, str_eq_iff, bytes}
use mpc_custody.Go.Int.{ℤ, pos, ◌<ℤ◌, leb_ℤ}
use mpc_custody.Go.Strconv.{parse_int}
use mpc_custody.Go.Hex.{hex_encode}
use mpc_custody.Go.Json.{
  Json, str, num, arr, obj, Items, nil, cons, end, field, object, array, items_of, fields_of,
}
use mpc_custody.Go.Exec.{Result, ok, err, Exec, ◌>>=◌, ◌>>◌, pure, lift, raise_if}
use mpc_custody.Wallet.Types.{Time, Wallet, Utxo, TransactionRequest, RawTransaction, chain_bitcoin}
use mpc_custody.Wallet.Interfaces.{Context, ChainAdapter}

pub record Adapter : Type 0 where
  pub network : Str

unfoldable pub new_adapter : Str → Adapter
new_adapter network = record { network = if str_eq network [] then bytes "testnet" else network }

-- The part of BuildTransaction that looks at the request; the amount in satoshis.
unfoldable pub check_request : TransactionRequest → Result ℤ
check_request request =
    if str_eq request.to []
    then err (message (bytes "bitcoin destination address is required"))
    else if str_eq request.amount []
    then err (message (bytes "bitcoin amount is required"))
    else elim (parse_int request.amount) [
      | none ↦ err (message (bytes "bitcoin amount must be positive base-10 sats"))
      | some amount ↦
          if leb_ℤ amount (pos 0)
          then err (message (bytes "bitcoin amount must be positive base-10 sats"))
          else elim request.utxos [
            | [] ↦ err (message (bytes "bitcoin proposal requires at least one utxo"))
            | _ ↦
                if leb_ℤ request.fee_rate_sats (pos 0)
                then err (message (bytes "bitcoin fee_rate_sats must be positive"))
                else ok amount
          ]
    ]

abbrev utxo_json : Utxo → Json
utxo_json u = obj (
    field (bytes "tx_id") (str u.tx_id) (
      field (bytes "vout") (num (pos u.vout)) (
        field (bytes "amount_sats") (num u.amount_sats)
          (field (bytes "script_pub_key") (str u.script_pub_key) end))))

unfoldable pub utxos_json : List Utxo → Items
utxos_json [] = nil
utxos_json (u ∷ us) = cons (utxo_json u) (utxos_json us)

-- The payload; `created_at` is the formatted time.
unfoldable pub payload : Adapter → Wallet → TransactionRequest → ℤ → Str → Json
payload adapter source request amount created_at = obj (
    field (bytes "amount_sats") (num amount) (
      field (bytes "chain") (str chain_bitcoin) (
        field (bytes "change_policy") (str (bytes "send change back to wallet address")) (
          field (bytes "created_at") (str created_at) (
            field (bytes "fee_rate_sats") (num request.fee_rate_sats) (
              field (bytes "from") (str source.address) (
                field (bytes "network") (str adapter.network) (
                  field (bytes "to") (str request.to)
                    (field (bytes "utxos") (arr (utxos_json request.utxos)) end)))))))))

-- `done` is the `select` on ctx.Done(), `now` is time.Now().UTC(), `format_time` is the layout
-- time.RFC3339Nano and `sha256` is sha256.Sum256.
module _ {W : Type 0} (done : Context → Exec W (Unit {0})) (now : Exec W Time)
    (format_time : Time → Str) (sha256 : Str → Str) where
  unfoldable pub build_transaction :
      Adapter → Context → Wallet → TransactionRequest → Exec W RawTransaction
  build_transaction adapter ctx source request = do
    done ctx
    amount ← lift (check_request request)
    created ← now
    pure (record {
      chain = chain_bitcoin;
      payload = payload adapter source request amount (format_time created);
    })

  unfoldable pub broadcast : Context → Str → Exec W Str
  broadcast ctx signed_transaction = do
    done ctx
    raise_if (str_eq signed_transaction []) (message (bytes "signed transaction is required"))
    pure (bytes "btc_" ++ hex_encode (sha256 (bytes "btc:" ++ signed_transaction)))

  abbrev pub bitcoin_adapter : Adapter → ChainAdapter W
  bitcoin_adapter adapter = record {
    chain = chain_bitcoin;
    build_transaction = build_transaction adapter;
    broadcast = broadcast;
  }

-- An output that is spent, as a JSON object.
abbrev spent : Utxo → Json
spent u = object (
    (bytes "tx_id", str u.tx_id)
    ∷ (bytes "vout", num (pos u.vout))
    ∷ (bytes "amount_sats", num u.amount_sats)
    ∷ (bytes "script_pub_key", str u.script_pub_key)
    ∷ [])

-- The JSON object that is to be written for a request, an amount and a time.
abbrev pub written : Adapter → Wallet → TransactionRequest → ℤ → Str → Json
written adapter source request amount created_at = object (
    (bytes "amount_sats", num amount)
    ∷ (bytes "chain", str (bytes "bitcoin"))
    ∷ (bytes "change_policy", str (bytes "send change back to wallet address"))
    ∷ (bytes "created_at", str created_at)
    ∷ (bytes "fee_rate_sats", num request.fee_rate_sats)
    ∷ (bytes "from", str source.address)
    ∷ (bytes "network", str adapter.network)
    ∷ (bytes "to", str request.to)
    ∷ (bytes "utxos", array (map spent request.utxos))
    ∷ [])

utxos_json-spent : (us : List Utxo) → utxos_json us ≡ items_of (map spent us)
unfolding utxos_json items_of fields_of
utxos_json-spent [] = refl
utxos_json-spent (u ∷ us) = ap (cons (utxo_json u)) (utxos_json-spent us)

payload-written :
    (adapter : Adapter) (source : Wallet) (request : TransactionRequest) (v : ℤ) (created_at : Str)
    → payload adapter source request v created_at ≡ written adapter source request v created_at
unfolding payload chain_bitcoin fields_of
payload-written adapter source request v created_at = rw (utxos_json-spent request.utxos) refl

-- What BuildTransaction asks of a request, with the amount `v` that it reads.
pub record IsBuildable (request : TransactionRequest) (v : ℤ) : Type 0 where
  pub has_destination : request.to ≢ []
  pub amount_read : parse_int request.amount ≡ some v
  pub amount_positive : pos 0 <ℤ v
  pub has_utxo : request.utxos ≢ []
  pub fee_positive : pos 0 <ℤ request.fee_rate_sats

parse_int-nil : parse_int [] ≡ none
unfolding parse_int
parse_int-nil = refl

check_request-IsBuildable :
    (request : TransactionRequest) (v : ℤ) → check_request request ≡ ok v → IsBuildable request v
unfolding check_request
check_request-IsBuildable request v h = elim (Option-cases (parse_int request.amount)) [
  | inl bad ↦ absurd (ground arith)
  | inr (z, good) ↦ record {
    has_destination = ground (arith, str_eq_iff request.to []);
    amount_read = ground arith;
    amount_positive = ground arith;
    has_utxo = ground arith;
    fee_positive = ground arith;
  }
]

IsBuildable-check_request :
    (request : TransactionRequest) (v : ℤ) → IsBuildable request v → check_request request ≡ ok v
unfolding check_request
IsBuildable-check_request request v h =
    let dest = h.has_destination in
    let read = h.amount_read in
    let positive = h.amount_positive in
    let utxo = h.has_utxo in
    let fee = h.fee_positive in
    ground (arith, str_eq_iff request.to [], str_eq_iff request.amount [], parse_int-nil)

abbrev answer : (ℤ → RawTransaction) → Result ℤ → Result RawTransaction
answer f (ok v) = ok (f v)
answer f (err e) = err e

answer_inv :
    (f : ℤ → RawTransaction) (r : Result ℤ) (raw : RawTransaction)
    → answer f r ≡ ok raw
    → (v : ℤ) × (r ≡ ok v) × (raw ≡ f v)
answer_inv f (ok v) raw h = (v, refl, cc)
answer_inv f (err e) raw h = absurd (cc)

clocked :
    {W : Type 0} (now : Exec W Time) (f : Time → ℤ → RawTransaction) (r : Result ℤ) (w w' : W)
    (t : Time)
    → now w ≡ (ok t, w')
    → ((lift {W = W} r >>= λ v. now >>= λ t. pure (f t v)) w).0 ≡ answer (f t) r
unfolding ◌>>=◌
clocked now f (ok v) w w' t h = rw (h) refl
clocked now f (err e) w w' t h = refl

-- Where the context is alive, BuildTransaction answers with a transaction exactly for a buildable
-- request, and its payload is the object of the amount that was read, the addresses and the network,
-- the fee rate, the request's outputs in their order, and the time of the clock.
pub build_transaction_iff :
    {W : Type 0} (done : Context → Exec W (Unit {0})) (now : Exec W Time) (format_time : Time → Str)
    (sha256 : Str → Str) (adapter : Adapter) (ctx : Context) (source : Wallet)
    (request : TransactionRequest) (raw : RawTransaction) (w w' w'' : W) (t : Time)
    → done ctx w ≡ (ok tt, w')
    → now w' ≡ (ok t, w'')
    → ((build_transaction done now format_time sha256 adapter ctx source request w).0 ≡ ok raw) ↔ (
        (v : ℤ) × IsBuildable request v
        × (raw ≡ record {
          chain = bytes "bitcoin";
          payload = written adapter source request v (format_time t);
        }))
unfolding build_transaction chain_bitcoin ◌>>=◌
build_transaction_iff {W} done now format_time sha256 adapter ctx source request raw w w' w'' t
      alive clock =
    rw (run) (
      λ h.
          let (v, read, e) = answer_inv (built t) (check_request request) raw h in
          (v, check_request-IsBuildable request v read, e ∙ built-written v),
      λ (v, buildable, e).
          rw (IsBuildable-check_request request v buildable, e) (ap ok (built-written v)),
    )
  where
    built : Time → ℤ → RawTransaction
    built at_time v = record {
      chain = chain_bitcoin;
      payload = payload adapter source request v (format_time at_time);
    }

    built-written :
        (v : ℤ)
        → built t v ≡ record {
          chain = bytes "bitcoin";
          payload = written adapter source request v (format_time t);
        }
    built-written v =
        ap (λ j. record { chain = bytes "bitcoin"; payload = j })
          (payload-written adapter source request v (format_time t))

    run :
        (build_transaction done now format_time sha256 adapter ctx source request w).0
        ≡ answer (built t) (check_request request)
    run = rw (alive) (clocked now built (check_request request) w' w'' t clock)
