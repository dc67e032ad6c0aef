-- ===== src/Cmd/Assembly/Quorums.antt =====
-- An approval that completes the quorum, at what main of cmd/custody-api/main.go puts together.
use mpc_custody.Prelude.{◌≡◌, refl, none, [], ◌∷◌, ◌++◌, arith}
use mpc_custody.Go.Str.{Str, bytes}
use mpc_custody.Go.Dict.{lookup}
use mpc_custody.Go.Hex.{hex_encode}
use mpc_custody.Go.Exec.{ok}
use mpc_custody.Wallet.Types.{TransactionProposal}
use mpc_custody.Wallet.Policy.{signer_allowed}
use mpc_custody.Wallet.Service.{cosign}
use mpc_custody.Signing
use mpc_custody.Signing.Examples.{live, proposal, its_record}
use mpc_custody.World.{World, Setup, service}
use mpc_custody.World.Calm.{Calm}
use mpc_custody.World.Liveness.{Completed, cosign_completes}
use mpc_custody.Cmd.Assembly.{Parts, assembly, fresh}
use mpc_custody.Cmd.Assembly.Own.{assembly-HasOwnState}
use mpc_custody.Cmd.Server.Examples.{libraries, cfg}

abbrev parts : Setup (Parts Unit Str)
parts = assembly libraries cfg none

-- A transfer that the EVM adapter built, approved by ann.
abbrev half_approved : TransactionProposal
half_approved = record (proposal (bytes "30")) {
  approvals = (bytes "ann", record { signer_id = bytes "ann"; created_at = 1 }) ∷ [];
}

abbrev awaiting : World (Parts Unit Str)
awaiting = record (fresh libraries tt) {
  store = record (fresh libraries tt).store { transactions = (bytes "txn_1", half_approved) ∷ [] };
  external = record { nonces = []; records = (bytes "wlt_1", its_record) ∷ []; beyond = tt };
}

parts-Calm : Calm parts live
parts-Calm = record { alive = λ n. refl; bytes_at = λ n size. n ∷ []; random_ok = λ n size. refl }

cosign_completes_example :
    (q : TransactionProposal) × ((cosign
        (service parts)
        live
        (bytes "txn_1")
        (bytes "bob")
        awaiting).0
      ≡ ok q)
    × Completed parts live awaiting.external
        (bytes "txn_1")
        (bytes "bob")
        half_approved
        q
        (cosign (service parts) live (bytes "txn_1") (bytes "bob") awaiting).1.store.transactions
unfolding lookup mpc_custody.Go.Str.str_eq bytes signer_allowed mpc_custody.Cmd.signer_set
    mpc_custody.Cmd.policy_of mpc_custody.Go.Dict.insert Signing.sign_transaction
    Signing.sign_evm_transaction mpc_custody.Go.Exec.◌>>=◌ mpc_custody.Go.Strconv.parse_big
    mpc_custody.Go.Split.after_prefix mpc_custody.Chains.Evm.payload_json
    mpc_custody.Chains.Evm.new_payload mpc_custody.Wallet.Types.chain_evm
cosign_completes_example =
    cosign_completes parts live (bytes "txn_1") (bytes "bob") half_approved awaiting parts-Calm
      (assembly-HasOwnState libraries cfg none) (cc) refl refl refl refl refl (ground arith)
      (λ at_time v e. (
        record { signed_transaction = bytes "0x" ++ hex_encode (5 ∷ []); signature_id = 4 ∷ [] },
        rw (e) refl,
      ))
