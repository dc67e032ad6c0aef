-- ===== src/Cmd/Assembly/Own.antt =====
-- The parts that cmd/custody-api/main.go puts together keep to their own states.
use mathlib.Core.List.{Memᴰ}
use mpc_custody.Prelude.{◌≡◌, ◌∙◌, refl, sym, subst, Option}
use mpc_custody.Wallet.Interfaces.{ChainAdapter}
use mpc_custody.Wallet.Service.Registry.{registry-Memᴰ}
use mpc_custody.Go.Exec.{Exec}
use mpc_custody.Go.Exec.Within.{Preorder, Within, within_rules}
use mpc_custody.World.{World}
use mpc_custody.World.Order.{KeepsStore, HasOwnState}
use mpc_custody.Chains.Bitcoin
use mpc_custody.Chains.Evm
use mpc_custody.Config.{Config}
use mpc_custody.Cmd.Assembly.{Parts, Libraries, on_beyond, bitcoin_part, evm_part, assembly}

abbrev same_store : {Y : Type 0} → Preorder (World Y)
same_store = record {
  rel = λ v w. w.store ≡ v.store;
  rel_refl = λ w. refl;
  rel_trans = λ u v w p q. q ∙ p;
}

KeepsStore-Within :
    {Y A : Type 0} {m : Exec (World Y) A} → Within (same_store {Y = Y}) m → KeepsStore m
KeepsStore-Within h = record { at = h.at }

on_beyond-Within :
    {X K A : Type 0} (m : Exec X A) → Within (same_store {Y = Parts X K}) (on_beyond {K = K} m)
on_beyond-Within m = record { at = λ w. refl }

module _ {X K : Type 0} (l : Libraries X K) (cfg : Config) where
  -- An adapter that leaves the store alone.
  record AdapterKeeps (a : ChainAdapter (World (Parts X K))) : Type 0 where
    pub builds : (ctx : _) (w : _) (r : _) → KeepsStore (a.build_transaction ctx w r)
    pub sends : (ctx : _) (payload : _) → KeepsStore (a.broadcast ctx payload)

  bitcoin_part-AdapterKeeps : (a : Bitcoin.Adapter) → AdapterKeeps (bitcoin_part l a)
  unfolding Bitcoin.build_transaction Bitcoin.broadcast
  bitcoin_part-AdapterKeeps a = record {
    builds = λ ctx w r. KeepsStore-Within (search (within_rules, on_beyond-Within));
    sends = λ ctx payload. KeepsStore-Within (search (within_rules, on_beyond-Within));
  }

  evm_part-AdapterKeeps : (a : Evm.Adapter) → AdapterKeeps (evm_part l a)
  evm_part-AdapterKeeps a = record {
    builds = λ ctx w r. record { at = λ v. refl };
    sends = λ ctx payload. record { at = λ v. refl };
  }

  part-AdapterKeeps :
      (key : Option K) (a : ChainAdapter (World (Parts X K)))
      → Memᴰ a (assembly l cfg key).adapters
      → AdapterKeeps a
  part-AdapterKeeps key a (Memᴰ.head e) =
      subst AdapterKeeps (sym e)
        (bitcoin_part-AdapterKeeps (Bitcoin.new_adapter cfg.bitcoin_network))
  part-AdapterKeeps key a (Memᴰ.tail (Memᴰ.head e)) =
      subst AdapterKeeps (sym e)
        (evm_part-AdapterKeeps (Evm.new_adapter cfg.evm_chain_id cfg.evm_rpc_url))
  part-AdapterKeeps key a (Memᴰ.tail (Memᴰ.tail m)) = elim m [ ]

  pub assembly-HasOwnState : (key : Option K) → HasOwnState (assembly l cfg key)
  assembly-HasOwnState key = record {
    key_keeps = λ ctx id chain. record { at = λ w. refl };
    sign_keeps = λ ctx p. record { at = λ w. refl };
    build_keeps = λ ctx chain a w r found.
        (part-AdapterKeeps key a (registry-Memᴰ chain a _ found)).builds ctx w r;
    send_keeps = λ ctx chain a payload found.
        (part-AdapterKeeps key a (registry-Memᴰ chain a _ found)).sends ctx payload;
  }
