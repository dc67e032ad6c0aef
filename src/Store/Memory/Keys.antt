-- ===== src/Store/Memory/Keys.antt =====
-- `idempotencyKey` of internal/store/memory.go joins scope and key by a NUL byte.
use mpc_custody.Prelude.{◌≡◌, ◌≢◌, [], ◌∷◌, arith}
use mpc_custody.Go.Str.{Str}
use mpc_custody.Store.Memory.{idempotency_key}

abbrev pub NoNul : Str → Type 0
NoNul [] = Unit
NoNul (c ∷ s) = (c ≢ 0) × NoNul s

-- Two pairs of a scope and a key with the same joined key are the same pair, where neither scope
-- has a NUL byte.
pub idempotency_key_injective :
    (scope scope' key key' : Str)
    → NoNul scope
    → NoNul scope'
    → idempotency_key scope key ≡ idempotency_key scope' key'
    → (scope ≡ scope') × (key ≡ key')
unfolding idempotency_key
idempotency_key_injective [] [] key key' n n' e = ground arith
idempotency_key_injective [] (c ∷ s) key key' n n' e = ground arith
idempotency_key_injective (c ∷ s) [] key key' n n' e = ground arith
idempotency_key_injective (c ∷ s) (d ∷ t) key key' n n' e =
    ground (arith, idempotency_key_injective s t key key' n.1 n'.1)
