-- ===== src/World/Rules.antt =====
-- The quorum rules against the proposals of an earlier store, as a property that a request to
-- internal/wallet/service.go keeps among others.
use mpc_custody.Prelude.{◌≡◌, ◌≢◌, refl, sym, subst, ◌∙◌, inl, inr, none, some, arith, Bool-cases}
use mathlib.Core.Option.{some-injective}
use mpc_custody.Go.Str.{Str, str_eq, str_eq→eq, str_eq_iff}
use mpc_custody.Go.Dict.{lookup, insert, lookup-insert, length-insert}
use mpc_custody.Wallet.Types.{Approval, TransactionProposal, proposed, signed, failed, broadcasted}
use mpc_custody.Wallet.Policy.{Policy}
use mpc_custody.Store.Memory.{approve}
use mpc_custody.World.Quorum.{IsSound, AllSound, insert-AllSound}
use mpc_custody.World.Soundness.{quorum_rules}
use mpc_custody.World.Invariant.{Invariant}
use mpc_custody.World.Hoare.{Proposals}
use mpc_custody.World.Grows.{Grown, Grown-trans, Grows}

pub approve-Grown :
    (a : Approval) (p : TransactionProposal)
    → p.status ≡ proposed
    → lookup a.signer_id p.approvals ≡ none
    → Grown p (approve a p)
approve-Grown a p open_status fresh = record {
  was_open = λ e. open_status;
  no_fewer = λ e. ground (arith, length-insert a.signer_id a p.approvals);
  none_lost = λ e k b there.
      ground (arith, lookup-insert a.signer_id k a p.approvals, str_eq_iff a.signer_id k);
}

-- A proposal that is not open any more has grown, whatever else it is.
pub closed-Grown : (p q : TransactionProposal) → q.status ≢ proposed → Grown p q
closed-Grown p q closed = record {
  was_open = λ e. absurd (closed e);
  no_fewer = λ e. absurd (closed e);
  none_lost = λ e k b there. absurd (closed e);
}

pub signed_closed : signed ≢ proposed
signed_closed e = cc

pub failed_closed : failed ≢ proposed
failed_closed e = cc

pub broadcasted_closed : broadcasted ≢ proposed
broadcasted_closed e = cc

module _ (policy : Policy) (o : Proposals) where
  -- Sound, and grown out of what was stored under the id.
  pub record IsSince (id : Str) (p : TransactionProposal) : Type 0 where
    pub sound : IsSound policy id p
    pub grown : (q : TransactionProposal) → lookup id o ≡ some q → Grown q p

  abbrev pub AllSince : Proposals → Type 0
  AllSince t = AllSound policy t × Grows o t

  pub becomes :
      (id : Str) (p q : TransactionProposal)
      → IsSound policy id q
      → Grown p q
      → IsSince id p
      → IsSince id q
  becomes id p q sound more h = record {
    sound = sound;
    grown = λ r found. Grown-trans r p q (h.grown r found) more;
  }

  pub insert-Grows :
      (m : Proposals) (id : Str) (p : TransactionProposal)
      → Grows o m
      → ((q : TransactionProposal) → lookup id o ≡ some q → Grown q p)
      → Grows o (insert id p m)
  insert-Grows m id p h new = record {
    later = λ j q found. elim (Bool-cases (str_eq id j)) [
      | inl same ↦ (
        p,
        rw (lookup-insert id j p m, same) refl,
        new q (subst (λ k. lookup k o ≡ some q) (sym (str_eq→eq id j same)) found),
      )
      | inr other ↦
          let (r, there, more) = h.later j q found in
          (r, rw (lookup-insert id j p m, other) there, more)
    ];
  }

  pub of_stored :
      (m : Proposals) (id : Str) (p : TransactionProposal)
      → AllSince m
      → lookup id m ≡ some p
      → IsSince id p
  of_stored m id p h found = record {
    sound = h.0.at_id id p found;
    grown = λ q before.
        let (r, there, more) = h.1.later id q before in
        subst (λ x. Grown q x) (some-injective r p (sym there ∙ found)) more;
  }

  pub of_fresh :
      (m : Proposals) (p : TransactionProposal)
      → AllSince m
      → lookup p.id m ≡ none
      → (q : TransactionProposal) → lookup p.id o ≡ some q
      → Grown q p
  of_fresh m p h fresh q before = let (r, there, more) = h.1.later p.id q before in absurd (cc)

  abbrev pub since_rules : Invariant policy
  since_rules = record {
    All = AllSince;
    One = IsSince;
    keyed = λ id p h. h.sound.keyed;
    at_id = of_stored;
    write_law = λ m id p h new.
        (insert-AllSound policy id p m h.0 new.sound, insert-Grows m id p h.1 new.grown);
    add_law = λ m p h fresh new. (
      (quorum_rules policy).add_law m p h.0 fresh new,
      insert-Grows m p.id p h.1 (of_fresh m p h fresh),
    );
    approve_law = λ id a p allowed open_status fresh h.
        becomes id p _ ((quorum_rules policy).approve_law id a p allowed open_status fresh h.sound)
          (approve-Grown a p open_status fresh) h;
    sign_law = λ id payload p open_status enough h.
        becomes id p _ ((quorum_rules policy).sign_law id payload p open_status enough h.sound)
          (closed-Grown p _ signed_closed) h;
    fail_law = λ id message now p moving h.
        becomes id p _ ((quorum_rules policy).fail_law id message now p moving h.sound)
          (closed-Grown p _ failed_closed) h;
    broadcast_law = λ id hash now p signed_now h.
        becomes id p _ ((quorum_rules policy).broadcast_law id hash now p signed_now h.sound)
          (closed-Grown p _ broadcasted_closed) h;
  }
