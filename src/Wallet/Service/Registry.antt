-- ===== src/Wallet/Service/Registry.antt =====
-- NewChainRegistry and AdapterFor of internal/wallet/service.go: what a registry holds.
use mathlib.Core.List.{Memᴰ}
use mpc_custody.Prelude.{◌≡◌, sym, ◌⊎◌, inl, inr, some, List, [], ◌∷◌, foldl}
use mpc_custody.Go.Str.{Str}
use mpc_custody.Go.Dict.{Dict, lookup, insert, lookup-insert_cases}
use mpc_custody.Wallet.Interfaces.{ChainAdapter}
use mpc_custody.Wallet.Service.Core.{new_chain_registry}

module _ {W : Type 0} where
  abbrev register : Dict (ChainAdapter W) → ChainAdapter W → Dict (ChainAdapter W)
  register registry adapter = insert adapter.chain adapter registry

  foldl-register :
      (chain : Str) (b : ChainAdapter W) (adapters : List (ChainAdapter W))
      (m : Dict (ChainAdapter W))
      → lookup chain (foldl register m adapters) ≡ some b
      → Memᴰ b adapters ⊎ (lookup chain m ≡ some b)
  foldl-register chain b [] m h = inr h
  foldl-register chain b (a ∷ adapters) m h =
      elim (foldl-register chain b adapters (register m a) h) [
        | inl there ↦ inl (Memᴰ.tail there)
        | inr found ↦ elim (lookup-insert_cases a.chain chain a m found) [
          | inl (same, written) ↦ inl (Memᴰ.head (sym written))
          | inr kept ↦ inr kept
        ]
      ]

  -- What a registry finds is one of its adapters.
  pub registry-Memᴰ :
      (chain : Str) (b : ChainAdapter W) (adapters : List (ChainAdapter W))
      → lookup chain (new_chain_registry adapters) ≡ some b
      → Memᴰ b adapters
  unfolding new_chain_registry lookup
  registry-Memᴰ chain b adapters h = elim (foldl-register chain b adapters [] h) [
    | inl there ↦ there
    | inr found ↦ absurd (cc)
  ]
