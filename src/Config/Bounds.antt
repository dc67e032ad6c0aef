-- ===== src/Config/Bounds.antt =====
-- Durations of internal/config/config.go against the range of an int64.
use mpc_custody.Prelude.{ℕ, ◌*◌, ◌^◌, ◌≤◌, ◌<◌, ◌≡◌, ◌≢◌, ◌↔◌, some, [], arith}
use mpc_custody.Go.Str.{Str, str_eq_iff}
use mpc_custody.Go.Int.{pos}
use mpc_custody.Go.Strconv.{parse_int}
use mpc_custody.Config.{Duration, second, wrap_int64, env_duration}

wrap_int64_iff : (n : ℕ) → (wrap_int64 n ≡ pos n) ↔ (n < 2 ^ 63)
wrap_int64_iff n = (λ h. ground arith, λ h. ground arith)

seconds_iff : (s : ℕ) → (wrap_int64 (s * second) ≡ pos (s * second)) ↔ (s ≤ 9223372036)
seconds_iff s =
    let w = wrap_int64_iff (s * second) in
    (λ h. let small = w.0 h in omega arith, λ h. w.1 (omega arith))

-- For a variable of a positive number of seconds, the duration is that many seconds exactly up to
-- 9223372036, which is what an int64 of nanoseconds holds.
pub env_duration_iff :
    (getenv : Str → Str) (key : Str) (fallback : Duration) (s : ℕ)
    → getenv key ≢ []
    → parse_int (getenv key) ≡ some (pos s)
    → 0 < s
    → (env_duration getenv key fallback ≡ pos (s * second)) ↔ (s ≤ 9223372036)
unfolding env_duration
env_duration_iff getenv key fallback s present parsed positive =
    let e : env_duration getenv key fallback ≡ wrap_int64 (s * second) =
      ground (arith, str_eq_iff (getenv key) []) in
    rw e (seconds_iff s)
