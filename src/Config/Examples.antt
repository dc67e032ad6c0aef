-- ===== src/Config/Examples.antt =====
-- Variables of an environment.
use mpc_custody.Prelude.{◌*◌, ◌≤◌, ◌≡◌, refl, ◌↔◌, [], ◌∷◌, arith, if◌then◌else◌}
use mpc_custody.Go.Str.{Str, str_eq, bytes}
use mpc_custody.Go.Int.{pos, negsuc}
use mpc_custody.Go.Split.{split}
use mpc_custody.Config.{second, env_duration, env_list}
use mpc_custody.Config.Bounds.{env_duration_iff}

abbrev getenv : Str → Str
getenv key =
    if str_eq key (bytes "GRACE")
    then bytes "9223372037"
    else if str_eq key (bytes "KEYS")
    then bytes " k1 ,, k2"
    else []

-- Ten digits of seconds wrap around to a negative duration.
wrapped : env_duration getenv (bytes "GRACE") (pos 0) ≡ negsuc 9223372036709551615
unfolding env_duration str_eq bytes mpc_custody.Go.Strconv.parse_int
wrapped = refl

trimmed : env_list getenv (bytes "KEYS") ≡ bytes "k1" ∷ bytes "k2" ∷ []
unfolding env_list str_eq bytes split mpc_custody.Go.Space.trim_space
trimmed = refl

env_duration_iff_example :
    (env_duration getenv (bytes "GRACE") (pos 5) ≡ pos (9223372037 * second))
    ↔ (9223372037 ≤ 9223372036)
unfolding str_eq bytes mpc_custody.Go.Strconv.parse_int
env_duration_iff_example =
    env_duration_iff getenv (bytes "GRACE") (pos 5) 9223372037 (cc) refl (omega arith)
