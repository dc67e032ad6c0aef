-- ===== src/Cmd/Assembly/Examples.antt =====
-- The start of the program with an environment in which no variable is set.
use mpc_custody.Prelude.{◌≡◌, ◌↔◌, refl, none, [], ◌∷◌}
use mpc_custody.Go.Str.{Str, str_eq}
use mpc_custody.Go.Exec.{ok}
use mpc_custody.Wallet.Interfaces.{Context}
use mpc_custody.Chains.Examples.{no_node}
use mpc_custody.Signing.Examples.{toy}
use mpc_custody.Store.Postgres.Tables.{no_tables}
use mpc_custody.Store.Postgres.Sample.{Session, sample}
use mpc_custody.Config.{Config, load, env}
use mpc_custody.Cmd.{in_memory}
use mpc_custody.Cmd.Assembly.{Libraries, boot}
use mpc_custody.Cmd.Assembly.Boot.{IsKey, boot_iff}

abbrev libraries : Libraries Unit Str
libraries = record {
  chain = no_node;
  signing = toy;
  outside = record { now_at = λ n. n; random_at = λ n size. ok (n ∷ []) };
}

abbrev live : Context
live = record { err_at = λ n. none; trace = none }

abbrev unset_config : Config
unset_config = load (λ name. [])

abbrev session : Session
session = (no_tables, none)

boot_iff_example :
    (boot libraries sample live [] unset_config session ≡ (ok (in_memory, none), session))
    ↔ IsKey toy unset_config.evm_dev_private_key none
unfolding load env str_eq
boot_iff_example = boot_iff libraries sample live [] unset_config none session refl
