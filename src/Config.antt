-- ===== src/Config.antt =====
-- internal/config/config.go: the configuration from environment variables. `getenv` is os.Getenv,
-- which is empty for a variable that is not set.
pub mod Bounds
pub mod Lists
mod Examples
use mpc_custody.Prelude.{
  ℕ, ◌-◌, ◌*◌, ◌%◌, ◌^◌, Option, none, some, List, [], ◌∷◌, ltb, ◌==◌, if◌then◌else◌,
}
use mpc_custody.Go.Str.{Str, str_eq, bytes}
use mpc_custody.Go.Int.{ℤ, pos, negsuc, leb_ℤ, ltb_ℤ, pos_part}
use mpc_custody.Go.Strconv.{parse_int, parse_uint, parse_big}
use mpc_custody.Go.Split.{split}
use mpc_custody.Go.Space.{trim_space}

-- A time.Duration: nanoseconds, in an int64.
abbrev pub Duration : Type 0
Duration = ℤ

abbrev pub second : ℕ
second = 10 ^ 9

-- The int64 that a product of numbers wraps around to.
abbrev pub wrap_int64 : ℕ → ℤ
wrap_int64 n = let r = n % 2 ^ 64 in if ltb r (2 ^ 63) then pos r else negsuc (2 ^ 64 - r - 1)

pub record Config : Type 0 where
  pub http_addr : Str
  pub service_name : Str
  pub environment : Str
  pub broadcast_mode : Str
  pub database_url : Str
  pub bitcoin_network : Str
  pub evm_rpc_url : Str
  pub evm_chain_id : ℕ
  pub evm_dev_private_key : Str
  pub api_keys : List Str
  pub signer_ids : List Str
  pub max_btc_amount_sats : ℤ
  pub max_evm_amount_wei : Option ℤ
  pub shutdown_grace_time : Duration

module _ (getenv : Str → Str) where
  unfoldable pub env : Str → Str → Str
  env key fallback = if str_eq (getenv key) [] then fallback else getenv key

  -- `time.Duration(seconds) * time.Second`, for an int of 64 bits
  unfoldable pub env_duration : Str → Duration → Duration
  env_duration key fallback =
      if str_eq (getenv key) [] then fallback else elim (parse_int (getenv key)) [
        | none ↦ fallback
        | some seconds ↦
            if leb_ℤ seconds (pos 0) then fallback else wrap_int64 (pos_part seconds * second)
      ]

  unfoldable pub env_uint64 : Str → ℕ → ℕ
  env_uint64 key fallback =
      if str_eq (getenv key) [] then fallback else elim (parse_uint (getenv key)) [
        | none ↦ fallback
        | some parsed ↦ if parsed == 0 then fallback else parsed
      ]

  unfoldable pub env_int64 : Str → ℤ → ℤ
  env_int64 key fallback =
      if str_eq (getenv key) [] then fallback else elim (parse_int (getenv key)) [
        | none ↦ fallback
        | some parsed ↦ if ltb_ℤ parsed (pos 0) then fallback else parsed
      ]

  unfoldable pub env_big_int : Str → Option ℤ
  env_big_int key = if str_eq (getenv key) [] then none else elim (parse_big (getenv key)) [
    | none ↦ none
    | some parsed ↦ if ltb_ℤ parsed (pos 0) then none else some parsed
  ]

-- The loop over the parts of a list.
unfoldable pub trimmed_items : List Str → List Str
trimmed_items [] = []
trimmed_items (part ∷ parts) =
    let items = trimmed_items parts in
    let item = trim_space part in if str_eq item [] then items else item ∷ items

module _ (getenv : Str → Str) where
  unfoldable pub env_list : Str → List Str
  unfolding trimmed_items
  env_list key = if str_eq (getenv key) [] then [] else trimmed_items (split b',' (getenv key))

  unfoldable pub load : Config
  load = record {
    http_addr = env getenv (bytes "HTTP_ADDR") (bytes ":8080");
    service_name = env getenv (bytes "SERVICE_NAME") (bytes "mpc-custody-api");
    environment = env getenv (bytes "ENVIRONMENT") (bytes "local");
    broadcast_mode = env getenv (bytes "BROADCAST_MODE") (bytes "mock");
    database_url = env getenv (bytes "DATABASE_URL") [];
    bitcoin_network = env getenv (bytes "BITCOIN_NETWORK") (bytes "testnet");
    evm_rpc_url = env getenv (bytes "EVM_RPC_URL") [];
    evm_chain_id = env_uint64 getenv (bytes "EVM_CHAIN_ID") 31337;
    evm_dev_private_key = env getenv (bytes "EVM_DEV_PRIVATE_KEY") [];
    api_keys = env_list (bytes "API_KEYS");
    signer_ids = env_list (bytes "SIGNER_IDS");
    max_btc_amount_sats = env_int64 getenv (bytes "MAX_BTC_AMOUNT_SATS") (pos 0);
    max_evm_amount_wei = env_big_int getenv (bytes "MAX_EVM_AMOUNT_WEI");
    shutdown_grace_time =
        env_duration getenv (bytes "SHUTDOWN_GRACE_SECONDS") (wrap_int64 (10 * second));
  }
