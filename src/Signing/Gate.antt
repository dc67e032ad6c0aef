-- ===== src/Signing/Gate.antt =====
-- When the backend of internal/signing/demo.go signs.
use mpc_custody.Prelude.{◌≤◌, ◌≡◌, refl, sym, subst, ap, false, Option, none, some, arith, ltb}
use mpc_custody.Go.Str.{Str, str_eq}
use mpc_custody.Go.Dict.{Dict, lookup}
use mpc_custody.Go.Exec.{Result, ok, err, Exec}
use mpc_custody.Go.Exec.Triple.{
  Post, Triple, Triple-bind, Triple-guard, Triple-if, Triple-pure, Triple-lift_bind, Triple-weaken,
  Triple-given,
}
use mpc_custody.Wallet.Types.{Signature, TransactionProposal, approvals_count, chain_evm}
use mpc_custody.Wallet.Interfaces.{Context}
use mpc_custody.Signing.{
  Library, WalletRecord, State, outside, sign_evm_transaction, sign_envelope, sign_transaction,
  known, record_of,
}

module _ {X K : Type 0} (recs : Dict (WalletRecord K)) where
  abbrev Has : State X K → Type 0
  Has w = w.records ≡ recs

  Post-outside :
      {A : Type 0} (r : Result A × X) (w : State X K)
      → Has w
      → Post Has (λ _. Has) (r.0, record w { external = r.1 })
  Post-outside (ok a, x) w h = h
  Post-outside (err e, x) w h = h

  pub Triple-outside : {A : Type 0} (m : Exec X A) → Triple Has Has (outside m) (λ _. Has)
  Triple-outside m = record { at = λ w h. Post-outside (m w.external) w h }

  Post-known :
      (id : Str) (o : Option (WalletRecord K)) (w : State X K)
      → lookup id recs ≡ o
      → Has w
      → Post Has (λ r v. Has v × (lookup id recs ≡ some r)) (known o, w)
  Post-known id none w e h = h
  Post-known id (some r) w e h = (h, e)

  -- The record of a wallet, if the backend has one.
  Triple-record_of :
      (id : Str) → Triple Has Has (record_of id) (λ r w. Has w × (lookup id recs ≡ some r))
  Triple-record_of id = record {
    at = λ w h. Post-known id (lookup id w.records) w (ap (lookup id) (sym h)) h;
  }

  module _ (l : Library X K) where
    Triple-sign_evm :
        (p : TransactionProposal) (key : K)
        → Triple Has Has (sign_evm_transaction l p key) (λ _. Has)
    unfolding sign_evm_transaction
    Triple-sign_evm p key =
        Triple-lift_bind _ _ (λ w h. h)
          λ payload _.
            Triple-lift_bind _ _ (λ w h. h)
              λ value _.
                Triple-lift_bind _ _ (λ w h. h)
                  λ fee _.
                    Triple-lift_bind _ _ (λ w h. h)
                      λ tip _.
                        Triple-lift_bind _ _ (λ w h. h)
                          λ input _.
                            Triple-lift_bind _ _ (λ w h. h) λ tx _. Triple-pure _ _ (λ w h. h)

    Triple-envelope :
        (p : TransactionProposal) (key : K) → Triple Has Has (sign_envelope l p key) (λ _. Has)
    unfolding sign_envelope
    Triple-envelope p key =
        Triple-lift_bind _ _ (λ w h. h)
          λ raw _. Triple-bind (Triple-outside _) λ signature.
            Triple-bind (Triple-outside _)
              λ signed_at. Triple-lift_bind _ _ (λ w h. h) λ payload _. Triple-pure _ _ (λ w h. h)

-- What a signature stands on.
pub record IsGated {X K : Type 0} (p : TransactionProposal) (w : State X K) : Type 0 where
  pub quorum : 2 ≤ approvals_count p
  pub wallet : WalletRecord K
  pub is_known : lookup p.wallet_id w.records ≡ some wallet

module _ {X K : Type 0} (l : Library X K) (ctx : Context) (p : TransactionProposal) where
  enough : ltb (approvals_count p) 2 ≡ false → 2 ≤ approvals_count p
  enough h = ground arith

  Triple-sign :
      (w : State X K)
      → Triple
          (Has w.records)
          (Has w.records)
          (sign_transaction l ctx p)
          (λ _ v. Has w.records v × IsGated p w)
  unfolding sign_transaction
  Triple-sign w = Triple-bind (Triple-outside w.records (l.done ctx)) λ _.
      Triple-guard _ _ _ (λ v h. h)
        λ reached. Triple-bind (Triple-record_of w.records p.wallet_id) λ r. Triple-given λ found.
          Triple-weaken
            (λ g v h. (h, record { quorum = enough reached; wallet = r; is_known = found }))
            (Triple-if (str_eq p.chain chain_evm) (λ _. Triple-sign_evm w.records l p r.private)
              (λ _. Triple-envelope w.records l p r.private))

  -- The backend signs for two approvals at least and a wallet of its own only, and signing leaves
  -- its wallets as they are.
  pub sign_transaction-IsGated :
      (w w' : State X K) (g : Signature)
      → sign_transaction l ctx p w ≡ (ok g, w')
      → IsGated p w × (w'.records ≡ w.records)
  sign_transaction-IsGated w w' g h =
      let (kept, gated) =
        subst (Post (Has w.records) (λ _ v. Has w.records v × IsGated p w)) h
          ((Triple-sign w).at w refl) in
      (gated, kept)
