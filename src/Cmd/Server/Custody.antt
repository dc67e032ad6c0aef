-- ===== src/Cmd/Server/Custody.antt =====
-- The custody promises of the whole program of cmd/custody-api/main.go over the in-memory store: of its
-- HTTP server, over the service, both adapters and the demo backend, under its configuration.
use mathlib.Core.List.{Memᴰ}
use mpc_custody.Prelude.{
  ℕ, ◌≡◌, ◌≢◌, ◌≤◌, refl, subst, ◌⊎◌, inl, inr, false, Option, some, [], ◌∷◌, arith, length,
}
use mpc_custody.Go.Str.{Str, str_eq, str_eq_iff, str_eq_refl}
use mpc_custody.Go.Dict.{Dict, lookup}
use mpc_custody.Go.Exec.{ok}
use mpc_custody.Wallet.Types.{
  Approval, TransactionProposal, TransactionStatus, signed, broadcasted, approvals_count,
}
use mpc_custody.Wallet.Policy.{validate_amount_policy}
use mpc_custody.Store.Memory.{new_memory_store}
use mpc_custody.World.{World}
use mpc_custody.World.Activity.{Activity, run, run-Steady, handle_among-Steady}
use mpc_custody.World.Grows.{Steady}
use mpc_custody.World.Quorum.{HasQuorum, ApprovalsSound, AllSound}
use mpc_custody.Api.Auth.{HttpRequest}
use mpc_custody.Config.{Config}
use mpc_custody.Cmd.{policy_of}
use mpc_custody.Cmd.Access.{signer_allowed-policy_of}
use mpc_custody.Cmd.Assembly.{Parts, Libraries, assembly, fresh}
use mpc_custody.Cmd.Assembly.Own.{assembly-HasOwnState}
use mpc_custody.Cmd.Server.{Web, http_among}
use mpc_custody.Cmd.Server.Keeping.{http_among-Steady}

-- An approval of `p` by a signer whom the configuration lists, if it lists any.
pub record ApprovedBy (cfg : Config) (p : TransactionProposal) (signer : Str) : Type 0 where
  pub approval : Approval
  pub is_recorded : lookup signer p.approvals ≡ some approval
  pub by_signer : approval.signer_id ≡ signer
  pub is_listed : (cfg.signer_ids ≡ []) ⊎ Memᴰ signer cfg.signer_ids

-- Two different signers approved `p`.
pub record HasTwoSigners (cfg : Config) (p : TransactionProposal) : Type 0 where
  pub first : Str
  pub second : Str
  pub are_different : first ≢ second
  pub by_first : ApprovedBy cfg p first
  pub by_second : ApprovedBy cfg p second

two_signers :
    (cfg : Config) (p : TransactionProposal) (m : Dict Approval)
    → p.approvals ≡ m
    → ApprovalsSound (policy_of cfg) m
    → 2 ≤ length m
    → HasTwoSigners cfg p
unfolding lookup
two_signers cfg p [] e s enough = absurd (ground arith)
two_signers cfg p (x ∷ []) e s enough = absurd (ground arith)
two_signers cfg p ((j, a) ∷ (k, b) ∷ m) e s enough = record {
  first = j;
  second = k;
  are_different = apart;
  by_first = record {
    approval = a;
    is_recorded = rw (e, str_eq_refl j) refl;
    by_signer = s.1;
    is_listed = (signer_allowed-policy_of cfg j).0 s.0;
  };
  by_second = record {
    approval = b;
    is_recorded = rw (e, other, str_eq_refl k) refl;
    by_signer = s.3.1;
    is_listed = (signer_allowed-policy_of cfg k).0 s.3.0;
  };
}
  where
    apart : j ≢ k
    apart same = absurd (ground (arith, s.2, str_eq_iff k j))

    other : str_eq j k ≡ false
    other = ground (arith, str_eq_iff j k)

abbrev IsCommitted : TransactionStatus → Type 0
IsCommitted status = (status ≡ signed) ⊎ (status ≡ broadcasted)

committed_quorum :
    (status : TransactionStatus) (n : ℕ) → IsCommitted status → HasQuorum status n → 2 ≤ n
committed_quorum status n (inl e) q = subst (λ t. HasQuorum t n) e q
committed_quorum status n (inr e) q = subst (λ t. HasQuorum t n) e q

module _ {X K : Type 0} (l : Libraries X K) (cfg : Config) (key : Option K)
    (web : Web (World (Parts X K))) where
  -- What requests to the HTTP server of the program leave, of which some may overlap.
  abbrev pub served : Activity HttpRequest → World (Parts X K) → World (Parts X K)
  served = run (http_among (assembly l cfg key) web cfg.api_keys)

  abbrev pub stored_after : Activity HttpRequest → X → Dict TransactionProposal
  stored_after a x = (served a (fresh l x)).store.transactions

  fresh-AllSound : (x : X) → AllSound (policy_of cfg) (fresh l x).store.transactions
  unfolding new_memory_store lookup
  fresh-AllSound x = record { at_id = λ id p found. absurd (cc) }

  served-Steady : (a : Activity HttpRequest) → Steady (AllSound (policy_of cfg)) (served a)
  served-Steady =
      run-Steady (AllSound (policy_of cfg)) (http_among (assembly l cfg key) web cfg.api_keys)
        λ others ctx r steady.
          http_among-Steady (assembly l cfg key) web cfg.api_keys (AllSound (policy_of cfg)) others
            (λ c q.
              handle_among-Steady (assembly l cfg key) others c q (assembly-HasOwnState l cfg key)
                steady)
            ctx r

  pub stored_after-AllSound :
      (a : Activity HttpRequest) (x : X) → AllSound (policy_of cfg) (stored_after a x)
  stored_after-AllSound a x = (served-Steady a).keeps (fresh l x) (fresh-AllSound x)

  -- Whatever HTTP requests reach a fresh process, one after the other or each wholly between two calls
  -- of the store by another, to any depth: a proposal that is signed or broadcast has the recorded
  -- approvals of two different signers of the configured list (of any two signers, where the list is
  -- empty), and its amount is one that the configured limits admit.
  pub stored_after-HasTwoSigners :
      (a : Activity HttpRequest) (x : X) (id : Str) (p : TransactionProposal)
      → lookup id (stored_after a x) ≡ some p
      → IsCommitted p.status
      → HasTwoSigners cfg p
        × (validate_amount_policy (policy_of cfg) p.chain p.request.amount ≡ ok tt)
  stored_after-HasTwoSigners a x id p found committed =
      let h = (stored_after-AllSound a x).at_id id p found in
      (
        two_signers cfg p p.approvals refl h.approvals_sound
            (committed_quorum p.status (approvals_count p) committed h.quorum),
        h.amount,
      )
