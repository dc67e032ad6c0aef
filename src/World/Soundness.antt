-- ===== src/World/Soundness.antt =====
-- The quorum rules of custody as a property that the service keeps.
use mpc_custody.Prelude.{◌≤◌, ◌≡◌, refl, true, List, arith}
use mpc_custody.Wallet.Types.{TransactionProposal, is_signed, approvals_count}
use mpc_custody.Wallet.Interfaces.{Context}
use mpc_custody.Wallet.Policy.{Policy}
use mpc_custody.World.{World, Setup}
use mpc_custody.World.Requests.{Request, serve}
use mpc_custody.World.Order.{HasOwnState}
use mpc_custody.World.Quorum.{HasQuorum, IsSound, AllSound, insert-ApprovalsSound, insert-AllSound}
use mpc_custody.World.Invariant.{Invariant}
use mpc_custody.World.Keeping.{serve-keeps}

module _ (policy : Policy) where
  pub signed_quorum :
      (p : TransactionProposal)
      → is_signed p.status ≡ true
      → HasQuorum p.status (approvals_count p)
      → 2 ≤ approvals_count p
  signed_quorum p h q = ground arith

  abbrev pub quorum_rules : Invariant policy
  quorum_rules = record {
    All = AllSound policy;
    One = IsSound policy;
    keyed = λ id p h. h.keyed;
    at_id = λ m id p h found. h.at_id id p found;
    write_law = λ m id p h new. insert-AllSound policy id p m h new;
    add_law = λ m p h fresh new. insert-AllSound policy p.id p m h (record {
      keyed = refl;
      approvals_sound = rw (new.no_approvals) tt;
      quorum = rw (new.is_open) tt;
      amount = new.admitted;
    });
    approve_law = λ id a p allowed open_status fresh h. record {
      keyed = h.keyed;
      approvals_sound = insert-ApprovalsSound policy a p.approvals allowed h.approvals_sound;
      quorum = rw open_status tt;
      amount = h.amount;
    };
    sign_law = λ id payload p open_status enough h. record {
      keyed = h.keyed;
      approvals_sound = h.approvals_sound;
      quorum = enough;
      amount = h.amount;
    };
    fail_law = λ id message now p open_status h. record {
      keyed = h.keyed;
      approvals_sound = h.approvals_sound;
      quorum = tt;
      amount = h.amount;
    };
    broadcast_law = λ id hash now p signed_now h. record {
      keyed = h.keyed;
      approvals_sound = h.approvals_sound;
      quorum = signed_quorum p signed_now h.quorum;
      amount = h.amount;
    };
  }

-- From a sound store, whatever requests are served and however they end, every stored proposal is
-- under its own id, has an amount that the policy admits, has approvals by distinct allowed
-- signers, and has at least two of them if it is signed or broadcast, where adapters and backend do
-- not reach into the store.
serve-AllSound :
    {X : Type 0} (d : Setup X) (rs : List (Context × Request)) (w : World X)
    → HasOwnState d
    → AllSound d.policy w.store.transactions
    → AllSound d.policy (serve d rs w).store.transactions
serve-AllSound d rs w own h = serve-keeps d own (quorum_rules d.policy) rs w h
