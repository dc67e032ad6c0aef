-- ===== src/World/Delivery.antt =====
-- Broadcast of internal/wallet/service.go where no outside call fails.
use mpc_custody.Prelude.{
  ◌≡◌, ◌≢◌, refl, sym, subst, ap, ◌∙◌, false, not, ◌||◌, none, some, [], ◌∷◌, arith,
}
use mpc_custody.Errors.{unsupported_chain}
use mpc_custody.Go.Str.{Str, bytes, str_eq, str_eq_iff}
use mpc_custody.Go.Dict.{lookup, lookup-insert_self}
use mpc_custody.Go.Json.{marshal_strings}
use mpc_custody.Go.Exec.{Result, ok, err}
use mpc_custody.Go.Exec.Triple.{
  Post, Triple, Triple-pure, Triple-bind, Triple-on_error, Triple-given, Triple-pass,
  Triple-lift_ok, Triple-strengthen, Triple-weaken,
}
use mpc_custody.Wallet.Types.{
  Time, TransactionProposal, signed, broadcasted, is_signed, TransactionStatus,
  transaction_broadcast,
}
use mpc_custody.Wallet.Interfaces.{Context, ChainAdapter}
use mpc_custody.Wallet.Service.{transaction_event, broadcasted_proposal, adapter_for, broadcast}
use mpc_custody.Store.Memory
use mpc_custody.Store.Memory.{MemoryStore}
use mpc_custody.World.{World, Setup, service}
use mpc_custody.World.Hoare.{Proposals, At, In}
use mpc_custody.World.Calm.{
  Calm, Never, ask-total, count_metric-total, on_store-total, append_audit-total,
}

-- The adapter of a chain accepts a payload, and keeps its state apart from the store.
pub record Accepts {X : Type 0} (d : Setup X) (ctx : Context) (chain payload hash : Str)
    : Type 0 where
  pub adapter : ChainAdapter (World X)
  pub registered : lookup chain (service d).chains ≡ some adapter
  pub answers : (w : World X) → (adapter.broadcast ctx payload w).0 ≡ ok hash
  pub keeps : (w : World X) → (adapter.broadcast ctx payload w).1.store ≡ w.store

ready :
    (s : TransactionStatus) (payload : Str)
    → s ≡ signed
    → payload ≢ []
    → (not (is_signed s) || str_eq payload []) ≡ false
ready s payload e h = ground (arith, str_eq_iff payload [])

get-total :
    (id : Str) (p : TransactionProposal)
    → Triple
        (In Never)
        (In (λ t. lookup id t ≡ some p))
        (Memory.get_transaction none id)
        (λ q s. (lookup id s.transactions ≡ some p) × (q ≡ p))
unfolding Memory.get_transaction mpc_custody.Go.Exec.◌>>=◌
get-total id p = record { at = λ s found. rw found (found, refl) }

update-total :
    (hash : Str) (now : Time) (p : TransactionProposal)
    → Triple
        (In Never)
        (In (λ t. lookup p.id t ≡ some p))
        (Memory.update_transaction none (broadcasted_proposal hash now p))
        (λ _. In (λ t. lookup p.id t ≡ some (broadcasted_proposal hash now p)))
unfolding Memory.update_transaction mpc_custody.Go.Exec.◌>>=◌ lookup
update-total hash now p = record {
  at = λ s found.
      rw found (lookup-insert_self p.id (broadcasted_proposal hash now p) s.transactions);
}

-- What a broadcast of `p` with a hash ends in.
pub record Delivered (p : TransactionProposal) (hash : Str) (q : TransactionProposal)
    (t : Proposals) : Type 0 where
  pub status_broadcasted : q.status ≡ broadcasted
  pub hash_kept : q.broadcast_hash ≡ hash
  pub payload_kept : q.signed_transaction ≡ p.signed_transaction
  pub approvals_kept : q.approvals ≡ p.approvals
  pub request_kept : q.request ≡ p.request
  pub raw_kept : q.raw_transaction ≡ p.raw_transaction
  pub is_stored : lookup p.id t ≡ some q

module _ {X : Type 0} (d : Setup X) (ctx : Context) (calm : Calm d ctx) where
  send-total :
      (P : Proposals → Type 0) (chain payload hash : Str) (a : Accepts d ctx chain payload hash)
      → Triple (At Never) (At P) (a.adapter.broadcast ctx payload) (λ h w. At P w × (h ≡ hash))
  send-total P chain payload hash a = record {
    at = λ w h.
        answered (a.adapter.broadcast ctx payload w) (a.answers w)
          (subst (λ s. P s.transactions) (sym (a.keeps w)) h);
  }
    where
      answered :
          (r : Result Str × World X)
          → r.0 ≡ ok hash
          → At P r.1
          → Post {W = World X} (At Never) (λ h w. At P w × (h ≡ hash)) r
      answered (ok g, w) e h = (h, ground arith)
      answered (err x, w) e h = absurd (cc)

  found_adapter :
      (chain payload hash : Str) (a : Accepts d ctx chain payload hash)
      → elim (lookup chain (service d).chains) [
        | none ↦ err (unsupported_chain chain)
        | some adapter ↦ ok adapter
      ]
        ≡ ok a.adapter
  found_adapter chain payload hash a = rw (a.registered) refl

  broadcast-total :
      (p : TransactionProposal) (hash : Str)
      → p.status ≡ signed
      → p.signed_transaction ≢ []
      → Accepts d ctx p.chain p.signed_transaction hash
      → Triple
          (At Never)
          (At (λ t. lookup p.id t ≡ some p))
          (broadcast (service d) ctx p.id)
          (λ q. At (Delivered p hash q))
  unfolding broadcast adapter_for
  broadcast-total p hash signed_now full a =
      Triple-bind
        (on_store-total (λ t. lookup p.id t ≡ some p) (λ q t. (lookup p.id t ≡ some p) × (q ≡ p))
          ctx _ calm.alive (get-total p.id p))
        λ q. Triple-given λ e.
          let P : Proposals → Type 0 = λ t. lookup q.id t ≡ some q in
          let b : Accepts d ctx q.chain q.signed_transaction hash =
            subst (λ r. Accepts d ctx r.chain r.signed_transaction hash) (sym e) a in
          Triple-strengthen
            (λ w h. subst (λ r. lookup r.id w.store.transactions ≡ some r) (sym e) h)
            (Triple-weaken (λ r w h. subst (λ k. Delivered k hash r w.store.transactions) e h)
              (Triple-pass _ _ _
                (ready q.status q.signed_transaction (ap (λ r. r.status) e ∙ signed_now)
                  (subst (λ r. r.signed_transaction ≢ []) (sym e) full))
                (Triple-lift_ok _ b.adapter _ (found_adapter q.chain q.signed_transaction hash b) (
                  Triple-bind
                    (Triple-on_error {R = At Never}
                      (send-total P q.chain q.signed_transaction hash b)
                      (λ x. record { at = λ w h. absurd h }))
                    λ got. Triple-given λ same.
                      Triple-bind (ask-total P _ d.outside.now_at (λ n. refl)) λ now.
                        Triple-bind
                          (on_store-total P
                            (λ _ t. lookup q.id t ≡ some (broadcasted_proposal got now q)) ctx _
                            calm.alive (update-total got now q))
                          λ _.
                            Triple-bind
                              (append_audit-total d ctx calm
                                (λ t. lookup q.id t ≡ some (broadcasted_proposal got now q))
                                (transaction_event transaction_broadcast []
                                  (broadcasted_proposal got now q)
                                  (some (marshal_strings ((bytes "broadcast_hash", got) ∷ [])))))
                              λ _.
                                Triple-bind
                                  (count_metric-total
                                    (λ t. lookup q.id t ≡ some (broadcasted_proposal got now q)) _
                                    _)
                                  λ _. Triple-pure (broadcasted_proposal got now q) _ (λ w h.
                                    record {
                                      status_broadcasted = refl;
                                      hash_kept = same;
                                      payload_kept = refl;
                                      approvals_kept = refl;
                                      request_kept = refl;
                                      raw_kept = refl;
                                      is_stored = h;
                                    })))))

-- Where the context stays alive, the random source answers and the adapter of its chain accepts its
-- payload, a stored, signed transaction with a payload is answered as broadcast with the hash that the
-- adapter gave: it is stored so, and keeps its payload, its approvals, its request and what was built
-- for it.
pub broadcast_completes :
    {X : Type 0} (d : Setup X) (ctx : Context) (calm : Calm d ctx) (p : TransactionProposal)
    (hash : Str) (w : World X)
    → Accepts d ctx p.chain p.signed_transaction hash
    → lookup p.id w.store.transactions ≡ some p
    → p.status ≡ signed
    → p.signed_transaction ≢ []
    → (q : TransactionProposal) × ((broadcast (service d) ctx p.id w).0 ≡ ok q)
      × Delivered p hash q (broadcast (service d) ctx p.id w).1.store.transactions
broadcast_completes {X} d ctx calm p hash w a found signed_now full =
    returned (broadcast (service d) ctx p.id w)
      ((broadcast-total d ctx calm p hash signed_now full a).at w found)
  where
    returned :
        (r : Result TransactionProposal × World X)
        → Post {W = World X} (At Never) (λ q. At (Delivered p hash q)) r
        → (q : TransactionProposal) × (r.0 ≡ ok q) × Delivered p hash q r.1.store.transactions
    returned (ok q, v) h = (q, refl, h)
    returned (err e, v) h = absurd h
