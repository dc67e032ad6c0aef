-- ===== src/Cmd/Assembly.antt =====
-- cmd/custody-api/main.go: what main puts together, over the in-memory store. The adapters of both
-- chains and the demo backend keep their own states in what the service shares with them.
pub mod Own
pub mod Boot
mod Examples
mod Quorums
use mpc_custody.Prelude.{ℕ, Option, List, [], ◌∷◌}
use mpc_custody.Go.Str.{Str}
use mpc_custody.Go.Dict.{Dict}
use mpc_custody.Go.Exec.{Exec, lift, pure, ◌>>=◌}
use mpc_custody.Wallet.Types.{chain_evm}
use mpc_custody.Wallet.Interfaces.{Context, ChainAdapter, SigningBackend}
use mpc_custody.Chains.Bitcoin
use mpc_custody.Chains.Evm
use mpc_custody.Signing
use mpc_custody.Signing.{WalletRecord, Library, with_evm_private_key}
use mpc_custody.Observability.Metrics.{new_metrics}
use mpc_custody.Store.Memory.{new_memory_store}
use mpc_custody.Store.Postgres.Sql.{Database}
use mpc_custody.World
use mpc_custody.World.{World, Setup}
use mpc_custody.Config.{Config}
use mpc_custody.Cmd.{policy_of, Backing, open_store}

-- The nonces of the EVM adapter, the wallets of the backend, and what lies beyond the program.
pub record Parts (X K : Type 0) : Type 0 where
  pub nonces : Dict ℕ
  pub records : Dict (WalletRecord K)
  pub beyond : X

-- What the program takes from its libraries.
pub record Libraries (X K : Type 0) : Type 0 where
  pub chain : Evm.Outside X
  pub signing : Library X K
  pub outside : World.Outside

module _ {X K A : Type 0} where
  -- An action of one part, on the state that all share.
  abbrev pub on_beyond : Exec X A → Exec (World (Parts X K)) A
  on_beyond m w =
      let (r, x) = m w.external.beyond in
      (r, record w { external = record w.external { beyond = x } })

  abbrev pub on_evm : Exec (Evm.State X) A → Exec (World (Parts X K)) A
  on_evm m w =
      let (r, s) = m (record { nonces = w.external.nonces; external = w.external.beyond }) in
      (r, record w { external = record w.external { nonces = s.nonces; beyond = s.external } })

  abbrev pub on_signer : Exec (Signing.State X K) A → Exec (World (Parts X K)) A
  on_signer m w =
      let (r, s) = m (record { records = w.external.records; external = w.external.beyond }) in
      (r, record w { external = record w.external { records = s.records; beyond = s.external } })

module _ {X K : Type 0} (l : Libraries X K) where
  abbrev pub bitcoin_part : Bitcoin.Adapter → ChainAdapter (World (Parts X K))
  bitcoin_part =
      Bitcoin.bitcoin_adapter (λ ctx. on_beyond (l.chain.done ctx)) (on_beyond l.chain.now)
        l.chain.format_time l.chain.sha256

  abbrev pub evm_part : Evm.Adapter → ChainAdapter (World (Parts X K))
  evm_part a = record {
    chain = chain_evm;
    build_transaction =
        λ ctx source request. on_evm (Evm.build_transaction l.chain a ctx source request);
    broadcast = λ ctx payload. on_evm (Evm.broadcast l.chain a ctx payload);
  }

  abbrev pub signer_part : Option K → SigningBackend (World (Parts X K))
  signer_part fixed = record {
    create_wallet = λ ctx id chain. on_signer (Signing.create_wallet l.signing fixed ctx id chain);
    sign_transaction = λ ctx p. on_signer (Signing.sign_transaction l.signing ctx p);
  }

  -- The registry, the backend and the policy that main gives to the service.
  abbrev pub assembly : Config → Option K → Setup (Parts X K)
  assembly cfg key = record {
    adapters =
        bitcoin_part (Bitcoin.new_adapter cfg.bitcoin_network)
        ∷ evm_part (Evm.new_adapter cfg.evm_chain_id cfg.evm_rpc_url)
        ∷ [];
    signer = signer_part key;
    policy = policy_of cfg;
    outside = l.outside;
  }

  -- The steps of main before it serves, of which each may end the program.
  unfoldable pub boot :
      {D Doc : Type 0} → Database D Doc → Context → Dict Str → Config → Exec D (Backing × Option K)
  unfolding open_store
  boot db ctx files cfg = do
    backing ← open_store db ctx files cfg
    key ← lift (with_evm_private_key l.signing cfg.evm_dev_private_key)
    pure (backing, key)

  -- What a fresh process starts from.
  abbrev pub fresh : X → World (Parts X K)
  fresh x = record {
    store = new_memory_store;
    metrics = new_metrics;
    external = record { nonces = []; records = []; beyond = x };
    tick = 0;
  }
