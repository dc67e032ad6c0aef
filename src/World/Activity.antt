-- ===== src/World/Activity.antt =====
-- Requests to internal/wallet/service.go that overlap, over the in-memory store: the HTTP server of
-- cmd/custody-api/main.go serves each in a goroutine of its own.
use mpc_custody.Prelude.{ℕ, List, [], ◌∷◌}
use mpc_custody.Wallet.Interfaces.{Context}
use mpc_custody.World.{World, Setup}
use mpc_custody.World.Among.{service_among}
use mpc_custody.World.Requests.{Request, handle_by}
use mpc_custody.World.Order.{HasOwnState}
use mpc_custody.World.Quorum.{AllSound}
use mpc_custody.World.Hoare.{Proposals, At}
use mpc_custody.World.Grows.{Grows, Grows-refl, Grows-trans, Steady, undisturbed}
use mpc_custody.World.Rules.{since_rules}
use mpc_custody.World.Keeping.{handle_among-keeps}

-- What requests of a kind `R` do: nothing, one activity after another, or a request during which, at its
-- call of the store at each instant, another activity takes place.
pub data Activity (R : Type 0) : Type 0 where
  rests : Activity R
  follows : Activity R → Activity R → Activity R
  serves : Context → R → (ℕ → Activity R) → Activity R

-- Requests one after the other.
unfoldable pub in_turn : {R : Type 0} → List (Context × R) → Activity R
in_turn [] = rests
in_turn ((ctx, r) ∷ rest) = follows (serves ctx r (λ n. rests)) (in_turn rest)

module _ {X R : Type 0} (serve : (World X → World X) → Context → R → World X → World X) where
  -- What an activity leaves, where `serve` is one request among what others do.
  unfoldable pub run : Activity R → World X → World X
  run rests w = w
  run (follows a b) w = run b (run a w)
  run (serves ctx r meanwhile) w = serve (λ v. run (meanwhile v.tick) v) ctx r w

  -- What holds of doing nothing, of one thing after another, and of a choice by the instant, holds of
  -- an activity, if a request among others has it of them.
  pub run_has :
      (Has : (World X → World X) → Type 0)
      → Has (λ w. w)
      → ((f g : World X → World X) → Has f → Has g → Has (λ w. g (f w)))
      → ((f : ℕ → World X → World X) → ((n : ℕ) → Has (f n)) → Has (λ w. f w.tick w))
      → ((others : World X → World X) (ctx : Context) (r : R)
          → Has others
          → Has (serve others ctx r))
      → (a : Activity R) → Has (run a)
  unfolding run
  run_has Has nothing both choice request rests = nothing
  run_has Has nothing both choice request (follows a b) =
      both (run a) (run b) (run_has Has nothing both choice request a)
        (run_has Has nothing both choice request b)
  run_has Has nothing both choice request (serves ctx r meanwhile) =
      request _ ctx r (
        choice (λ n. run (meanwhile n))
          (λ n. run_has Has nothing both choice request (meanwhile n)))

-- One request to the service among others.
abbrev pub handle_among :
    {X : Type 0} → Setup X → (World X → World X) → Context → Request → World X → World X
handle_among d others = handle_by (service_among others d)

pub handle_among-Steady :
    {X : Type 0} (d : Setup X) (others : World X → World X) (ctx : Context) (r : Request)
    → HasOwnState d
    → Steady (AllSound d.policy) others
    → Steady (AllSound d.policy) (handle_among d others ctx r)
handle_among-Steady d others ctx r own steady = record {
  keeps = λ w h. (both w h).0;
  grows = λ w h. (both w h).1;
}
  where
    since : (o : Proposals) → Steady (since_rules d.policy o).All others
    since o = record {
      keeps = λ w (h, before). (steady.keeps w h, Grows-trans o _ _ before (steady.grows w h));
      grows = λ w (h, before). steady.grows w h;
    }

    both :
        (w : World _)
        → At (AllSound d.policy) w
        → At
            (since_rules d.policy w.store.transactions).All
            (handle_by (service_among others d) ctx r w)
    both w h =
        handle_among-keeps d own (since_rules d.policy w.store.transactions) others
          (since w.store.transactions) ctx r w (h, Grows-refl w.store.transactions)

-- Whatever others do between the calls of the store that a request makes: where they keep the quorum
-- rules, and neither remove a proposal, nor open one again, nor take an approval from an open one, and
-- the rules hold at first, the request does the same, however it ends, if adapters and backend do not
-- reach into the store.
pub handle_among_sound :
    {X : Type 0} (d : Setup X) (others : World X → World X) (ctx : Context) (r : Request)
    (w : World X)
    → HasOwnState d
    → Steady (AllSound d.policy) others
    → AllSound d.policy w.store.transactions
    → AllSound d.policy (handle_among d others ctx r w).store.transactions
      × Grows w.store.transactions (handle_among d others ctx r w).store.transactions
handle_among_sound d others ctx r w own steady h =
    let after = handle_among-Steady d others ctx r own steady in (after.keeps w h, after.grows w h)

pub run-Steady :
    {X R : Type 0} (All : Proposals → Type 0)
    (serve : (World X → World X) → Context → R → World X → World X)
    → ((others : World X → World X) (ctx : Context) (r : R)
        → Steady All others
        → Steady All (serve others ctx r))
    → (a : Activity R) → Steady All (run serve a)
run-Steady All serve request a =
    run_has serve (Steady All) (undisturbed All)
      (λ f g hf hg. record {
        keeps = λ w h. hg.keeps (f w) (hf.keeps w h);
        grows = λ w h. Grows-trans _ _ _ (hf.grows w h) (hg.grows (f w) (hf.keeps w h));
      })
      (λ f h. record {
        keeps = λ w all. (h w.tick).keeps w all;
        grows = λ w all. (h w.tick).grows w all;
      })
      request a

-- Of requests that overlap, each wholly between two calls of the store by another, to any depth, the
-- quorum rules hold at the end if they held at the start, no proposal is removed or opened again, and
-- an open one has lost no approval, where adapters and backend do not reach into the store.
pub run-AllSound :
    {X : Type 0} (d : Setup X) (a : Activity Request) (w : World X)
    → HasOwnState d
    → AllSound d.policy w.store.transactions
    → AllSound d.policy (run (handle_among d) a w).store.transactions
      × Grows w.store.transactions (run (handle_among d) a w).store.transactions
run-AllSound d a w own h =
    let steady =
      run-Steady (AllSound d.policy) (handle_among d)
        (λ others ctx r. handle_among-Steady d others ctx r own) a in
    (steady.keeps w h, steady.grows w h)
