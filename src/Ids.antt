-- ===== src/Ids.antt =====
-- internal/ids/ids.go: random identifiers. `rand_read` is crypto/rand.Read on a buffer of the given
-- size.
use mpc_custody.Prelude.{ℕ, ◌++◌, ◌∷◌}
use mpc_custody.Go.Str.{Str}
use mpc_custody.Go.Hex.{hex_encode}
use mpc_custody.Go.Exec.{Exec, pure, ◌>>=◌}

unfoldable pub new_id : {W : Type 0} → (ℕ → Exec W Str) → Str → Exec W Str
unfolding hex_encode
new_id rand_read prefix = do raw ← rand_read 16; pure (prefix ++ b'_' ∷ hex_encode raw)
