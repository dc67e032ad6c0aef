-- ===== src/Wallet/Service/Creation.antt =====
-- internal/wallet/service.go: CreateWallet and ProposeTransaction.
use mpc_custody.Prelude.{Bool, true, false, not, none, some, [], ◌∷◌, ◌++◌, if◌then◌else◌}
use mpc_custody.Errors.{unsupported_chain}
use mpc_custody.Go.Str.{Str, str_eq, bytes}
use mpc_custody.Go.Dict.{contains}
use mpc_custody.Go.Json.{marshal_strings}
use mpc_custody.Go.Exec.{Exec, pure, lift, raise_if, ◌>>=◌, ◌>>◌}
use mpc_custody.Ids.{new_id}
use mpc_custody.Wallet.Types.{
  Time, Chain, Wallet, TransactionRequest, RawTransaction, TransactionProposal, proposed,
  wallet_created, transaction_proposed,
}
use mpc_custody.Wallet.Interfaces.{Context, Trace, trace_from_context}
use mpc_custody.Wallet.Policy.{validate_amount_policy}
use mpc_custody.Wallet.Service.Core.{
  Service, chain_label, transaction_event, append_audit, adapter_for,
}

-- The proposal as it is first stored.
unfoldable pub new_proposal :
    Str → Wallet → TransactionRequest → RawTransaction → Trace → Time → TransactionProposal
new_proposal id source request raw trace now = record {
  id = id;
  wallet_id = source.id;
  chain = source.chain;
  status = proposed;
  request = request;
  raw_transaction = raw;
  approvals = [];
  signed_transaction = [];
  broadcast_hash = [];
  error = [];
  trace = (bytes "trace_id", trace.trace_id) ∷ (bytes "span_id", trace.span_id) ∷ [];
  created_at = now;
  updated_at = now;
}

module _ {W : Type 0} (s : Service W) where
  unfoldable pub store_wallet : Context → Chain → Str → Wallet → Exec W (Wallet × Bool)
  store_wallet ctx chain key w =
      if str_eq key [] then (do s.store.create_wallet ctx w; pure (w, true)) else (do
        now ← s.now
        s.store.create_wallet_idempotently ctx w (record {
          scope = bytes "wallet:" ++ chain;
          key = key;
          resource_type = bytes "wallet";
          resource_id = w.id;
          created_at = now;
        }))

  unfoldable pub finish_wallet : Context → Chain → Wallet × Bool → Exec W Wallet
  finish_wallet ctx chain (w, false) = pure w
  finish_wallet ctx chain (w, true) = do
    append_audit s ctx (record {
      id = [];
      event_type = wallet_created;
      actor = [];
      resource_type = bytes "wallet";
      resource_id = w.id;
      chain = chain;
      metadata = none;
      created_at = 0;
    })
    s.inc (bytes "custody_wallets_created_total") (chain_label chain)
    pure w

  unfoldable pub create_wallet : Context → Chain → Str → Exec W Wallet
  unfolding store_wallet finish_wallet
  create_wallet ctx chain key = do
    raise_if (not (contains chain s.chains)) (unsupported_chain chain)
    id ← new_id s.rand_read (bytes "wlt")
    material ← s.signer.create_wallet ctx id chain
    now ← s.now
    stored ← store_wallet ctx chain key (record {
      id = id;
      chain = chain;
      address = material.address;
      public_key = material.public_key;
      created_at = now;
    })
    finish_wallet ctx chain stored

  unfoldable pub store_proposal :
      Context
      → TransactionRequest
      → Str
      → Time
      → TransactionProposal
      → Exec W (TransactionProposal × Bool)
  store_proposal ctx request key now p =
      if str_eq key []
      then (do s.store.create_transaction ctx p; pure (p, true))
      else s.store.create_transaction_idempotently ctx p (record {
        scope = bytes "transaction:" ++ request.wallet_id;
        key = key;
        resource_type = bytes "transaction";
        resource_id = p.id;
        created_at = now;
      })

  unfoldable pub finish_proposal :
      Context → Chain → TransactionProposal × Bool → Exec W TransactionProposal
  finish_proposal ctx chain (p, false) = pure p
  finish_proposal ctx chain (p, true) = do
    append_audit s ctx (
        transaction_event transaction_proposed [] p
          (some (marshal_strings ((bytes "wallet_id", p.wallet_id) ∷ []))))
    s.inc (bytes "custody_transactions_proposed_total") (chain_label chain)
    pure p

  unfoldable pub propose_transaction :
      Context → TransactionRequest → Str → Exec W TransactionProposal
  unfolding adapter_for store_proposal finish_proposal
  propose_transaction ctx request key = do
    source ← s.store.get_wallet ctx request.wallet_id
    lift (validate_amount_policy s.policy source.chain request.amount)
    adapter ← adapter_for s source.chain
    raw ← adapter.build_transaction ctx source request
    id ← new_id s.rand_read (bytes "txn")
    now ← s.now
    stored ←
        store_proposal ctx request key now
          (new_proposal id source request raw (trace_from_context ctx) now)
    finish_proposal ctx source.chain stored
