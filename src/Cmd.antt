-- ===== src/Cmd.antt =====
-- cmd/custody-api/main.go: how a configuration becomes a policy and a store.
pub mod Assembly
pub mod Server
mod Access
mod Limits
mod Keys
mod Examples
use mpc_custody.Prelude.{Option, none, some, List, [], ◌∷◌, foldl, if◌then◌else◌}
use mpc_custody.Go.Str.{Str, str_eq}
use mpc_custody.Go.Int.{ℤ}
use mpc_custody.Go.Dict.{Dict, insert}
use mpc_custody.Go.Exec.{Exec, pure, ◌>>=◌, ◌>>◌}
use mpc_custody.Wallet.Interfaces.{Context}
use mpc_custody.Store.Postgres.Sql.{Database}
use mpc_custody.Store.Postgres.Core.{open_postgres}
use mpc_custody.Wallet.Policy.{Policy}
use mpc_custody.Config.{Config}

unfoldable pub signer_set : List Str → Dict (Unit {0})
signer_set signers = foldl (λ set signer. insert signer tt set) [] signers

-- A copy, which a value is.
abbrev pub clone_big_int : Option ℤ → Option ℤ
clone_big_int none = none
clone_big_int (some value) = some value

unfoldable pub policy_of : Config → Policy
policy_of cfg = record {
  allowed_signers = signer_set cfg.signer_ids;
  max_bitcoin_amount_sats = cfg.max_btc_amount_sats;
  max_evm_amount_wei = clone_big_int cfg.max_evm_amount_wei;
}

-- The store that the service is given.
pub data Backing : Type 0 where
  in_memory over_postgres : Backing

unfoldable pub open_store :
    {D Doc : Type 0} → Database D Doc → Context → Dict Str → Config → Exec D Backing
unfolding open_postgres
open_store db ctx files cfg =
    if str_eq cfg.database_url []
    then pure in_memory
    else (do open_postgres db ctx files cfg.database_url; pure over_postgres)
