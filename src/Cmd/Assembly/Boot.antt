-- ===== src/Cmd/Assembly/Boot.antt =====
-- How main of cmd/custody-api/main.go starts without a database.
use mpc_custody.Prelude.{
  ◌≡◌, ◌≢◌, refl, subst, ◌↔◌, Option, none, some, [], Bool-cases, arith, inl, inr,
}
use mpc_custody.Go.Str.{Str, str_eq, str_eq_iff, bytes}
use mpc_custody.Go.Dict.{Dict}
use mpc_custody.Go.Split.{trim_prefix}
use mpc_custody.Go.Exec.{Result-cases, ok, ◌>>=◌}
use mpc_custody.Wallet.Interfaces.{Context}
use mpc_custody.Signing.{Library, with_evm_private_key}
use mpc_custody.Store.Postgres.Sql.{Database}
use mpc_custody.Config.{Config}
use mpc_custody.Cmd.{in_memory, open_store}
use mpc_custody.Cmd.Assembly.{Libraries, boot}

-- The key that a configured text stands for: none where it is empty, and else what the library reads
-- in it after "0x".
pub data IsKey {X K : Type 0} (l : Library X K) (text : Str) : Option K → Type 0 where
  not_configured : text ≡ [] → IsKey l text none
  is_read :
      {key : K}
      → text ≢ []
      → l.hex_to_ecdsa (trim_prefix (bytes "0x") text) ≡ ok key
      → IsKey l text (some key)

module _ {X K : Type 0} (l : Library X K) (text : Str) where
  with_evm_private_key-IsKey :
      (key : Option K) → with_evm_private_key l text ≡ ok key → IsKey l text key
  unfolding with_evm_private_key
  with_evm_private_key-IsKey key h = elim (Bool-cases (str_eq text [])) [
    | inl empty ↦
        let none_read : none ≡ key = ground arith in
        subst (IsKey l text) none_read (not_configured ((str_eq_iff text []).0 empty))
    | inr full ↦ elim (Result-cases (l.hex_to_ecdsa (trim_prefix (bytes "0x") text))) [
      | inl (k, read) ↦
          let one_read : some k ≡ key = ground arith in
          subst (IsKey l text) one_read (is_read (λ e. ground (arith, str_eq_iff text [])) read)
      | inr (x, refused) ↦ absurd (ground arith)
    ]
  ]

  IsKey-with_evm_private_key :
      (key : Option K) → IsKey l text key → with_evm_private_key l text ≡ ok key
  unfolding with_evm_private_key str_eq
  IsKey-with_evm_private_key none (not_configured empty) = rw empty refl
  IsKey-with_evm_private_key (some key) (is_read full read) = ground (arith, str_eq_iff text [])

boot_reads :
    {X K D Doc : Type 0} (l : Libraries X K) (db : Database D Doc) (ctx : Context)
    (files : Dict Str) (cfg : Config) (key : Option K) (s : D)
    → cfg.database_url ≡ []
    → (boot l db ctx files cfg s ≡ (ok (in_memory, key), s))
      ↔ (with_evm_private_key l.signing cfg.evm_dev_private_key ≡ ok key)
unfolding boot open_store ◌>>=◌ str_eq
boot_reads l db ctx files cfg key s local =
    elim (Result-cases (with_evm_private_key l.signing cfg.evm_dev_private_key)) [
      | inl (k, read) ↦ rw (local, read) (λ e. cc, λ e. cc)
      | inr (x, refused) ↦ rw (local, refused) (λ e. absurd (cc), λ e. absurd (cc))
    ]

-- Without DATABASE_URL the program comes to serve exactly where the configured key is empty, or is one
-- that the library reads, over the in-memory store and with this key, and it asks nothing of a database.
pub boot_iff :
    {X K D Doc : Type 0} (l : Libraries X K) (db : Database D Doc) (ctx : Context)
    (files : Dict Str) (cfg : Config) (key : Option K) (s : D)
    → cfg.database_url ≡ []
    → (boot l db ctx files cfg s ≡ (ok (in_memory, key), s))
      ↔ IsKey l.signing cfg.evm_dev_private_key key
boot_iff l db ctx files cfg key s local =
    let served = boot_reads l db ctx files cfg key s local in
    (
      λ e. with_evm_private_key-IsKey l.signing cfg.evm_dev_private_key key (served.0 e),
      λ k. served.1 (IsKey-with_evm_private_key l.signing cfg.evm_dev_private_key key k),
    )
