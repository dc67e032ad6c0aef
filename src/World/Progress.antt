-- ===== src/World/Progress.antt =====
-- The lifecycle of stored proposals over runs of requests, as a property that the service keeps.
use mpc_custody.Prelude.{◌≡◌, refl, sym, ◌∙◌, subst, subst₂, inl, inr, Bool-cases, none, some, List}
use mathlib.Core.Option.{some-injective}
use mpc_custody.Go.Str.{Str, str_eq}
use mpc_custody.Go.Dict.{lookup, insert, lookup-insert, lookup-insert_cases}
use mpc_custody.Wallet.Types.{TransactionProposal}
use mpc_custody.Wallet.Interfaces.{Context}
use mpc_custody.Wallet.Policy.{Policy}
use mpc_custody.World.{World, Setup}
use mpc_custody.World.Requests.{Request, serve}
use mpc_custody.World.Order.{HasOwnState}
use mpc_custody.World.Hoare.{Proposals}
use mpc_custody.World.Invariant.{Invariant}
use mpc_custody.World.Keeping.{serve-keeps}
use mpc_custody.World.Lifecycle.{
  Moved, Advanced, Advanced-refl, Advanced-Moved, approve-Moved, sign-Moved, failed_of-Moved,
  broadcasted_proposal-Moved,
}

-- Against the proposals `o` of an earlier store.
module _ (policy : Policy) (o : Proposals) where
  pub record IsUnder (id : Str) (p : TransactionProposal) : Type 0 where
    pub own_id : p.id ≡ id
    pub advanced : (q : TransactionProposal) → lookup id o ≡ some q → Advanced q p

  pub record Progress (t : Proposals) : Type 0 where
    pub each : (id : Str) (p : TransactionProposal) → lookup id t ≡ some p → IsUnder id p
    pub present :
        (id : Str) (q : TransactionProposal)
        → lookup id o ≡ some q
        → (p : TransactionProposal) × (lookup id t ≡ some p)

  moved :
      (id : Str) (p q : TransactionProposal) → q.id ≡ p.id → Moved p q → IsUnder id p → IsUnder id q
  moved id p q same m h = record {
    own_id = same ∙ h.own_id;
    advanced = λ r found. Advanced-Moved r p q (h.advanced r found) m;
  }

  insert-present :
      (t : Proposals) (id j : Str) (p r : TransactionProposal)
      → lookup j t ≡ some r
      → (q : TransactionProposal) × (lookup j (insert id p t) ≡ some q)
  insert-present t id j p r there = elim (Bool-cases (str_eq id j)) [
    | inl same ↦ (p, rw (lookup-insert id j p t, same) refl)
    | inr other ↦ (r, rw (lookup-insert id j p t, other) there)
  ]

  insert-Progress :
      (t : Proposals) (id : Str) (p : TransactionProposal)
      → Progress t
      → IsUnder id p
      → Progress (insert id p t)
  insert-Progress t id p h new = record {
    each = λ j q found. elim (lookup-insert_cases id j p t found) [
      | inl (same, written) ↦ subst₂ IsUnder same written new
      | inr kept ↦ h.each j q kept
    ];
    present = λ j q found. let (r, there) = h.present j q found in insert-present t id j p r there;
  }

  fresh-IsUnder :
      (t : Proposals) (p : TransactionProposal) → Progress t → lookup p.id t ≡ none → IsUnder p.id p
  fresh-IsUnder t p h fresh = record {
    own_id = refl;
    advanced = λ q found. let (r, there) = h.present p.id q found in absurd (cc);
  }

  abbrev progress_rules : Invariant policy
  progress_rules = record {
    All = Progress;
    One = IsUnder;
    keyed = λ id p h. h.own_id;
    at_id = λ m id p h found. h.each id p found;
    write_law = insert-Progress;
    add_law = λ m p h fresh new. insert-Progress m p.id p h (fresh-IsUnder m p h fresh);
    approve_law = λ id a p allowed open_status absent h.
        moved id p _ refl (approve-Moved a p open_status absent) h;
    sign_law =
        λ id payload p open_status enough h. moved id p _ refl (sign-Moved payload p open_status) h;
    fail_law =
        λ id message now p moving h. moved id p _ refl (failed_of-Moved message now p moving) h;
    broadcast_law = λ id hash now p signed_now h.
        moved id p _ refl (broadcasted_proposal-Moved hash now p signed_now) h;
  }

  pub Progress-refl :
      ((id : Str) (p : TransactionProposal) → lookup id o ≡ some p → p.id ≡ id) → Progress o
  Progress-refl own = record {
    each = λ id p found. record {
      own_id = own id p found;
      advanced = λ q there.
          subst (λ r. Advanced r p) (some-injective p q (sym found ∙ there)) (Advanced-refl p);
    };
    present = λ id q found. (q, found);
  }

pub serve-Progress :
    {X : Type 0} (d : Setup X) (o : Proposals) (rs : List (Context × Request)) (w : World X)
    → HasOwnState d
    → Progress d.policy o w.store.transactions
    → Progress d.policy o (serve d rs w).store.transactions
serve-Progress d o rs w own h = serve-keeps d own (progress_rules d.policy o) rs w h

-- The lifecycle of a proposal: whatever requests are served and however they end, a stored proposal
-- stays stored, its status moves only from proposed to signed or failed and from signed to broadcast
-- or failed, its request, wallet and built transaction stay as they were, no approval is lost, its
-- approvals and its signed payload stay once it is not proposed any more, and a broadcast or failed
-- one stays as it is, where every proposal is stored under its own id, and adapters and backend do not
-- reach into the store.
pub serve-Advanced :
    {X : Type 0} (d : Setup X) (rs : List (Context × Request)) (w : World X) (id : Str)
    (p : TransactionProposal)
    → HasOwnState d
    → ((j : Str) (q : TransactionProposal) → lookup j w.store.transactions ≡ some q → q.id ≡ j)
    → lookup id w.store.transactions ≡ some p
    → (q : TransactionProposal) × (lookup id (serve d rs w).store.transactions ≡ some q)
      × Advanced p q
serve-Advanced d rs w id p own keyed found =
    let before = w.store.transactions in
    let h = serve-Progress d before rs w own (Progress-refl d.policy before keyed) in
    let (q, there) = h.present id p found in (q, there, (h.each id q there).advanced p found)
