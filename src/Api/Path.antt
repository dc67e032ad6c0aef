-- ===== src/Api/Path.antt =====
-- parseTransactionPath of internal/api/server.go.
use mathlib.Core.List.{append_assoc}
use mpc_custody.Prelude.{
  ℕ, List, ◌≡◌, ◌≢◌, refl, false, Option, none, some, [], ◌∷◌, ◌++◌, arith, ◌||◌, if◌then◌else◌,
}
use mpc_custody.Go.Str.{Str, str_eq, str_eq_iff, bytes}
use mpc_custody.Go.Split.{
  trim_prefix, trim, trim_left, split, NoByte, after_prefix-append, ne-append, split-single,
  split-append, trim_right-append,
}

unfoldable pub route : Str
unfolding bytes
route = bytes "/v1/transactions/"

abbrev id_and_action : List Str → Option (Str × Str)
id_and_action (id ∷ []) = some (id, [])
id_and_action (id ∷ action ∷ []) = some (id, action)
id_and_action _ = none

unfoldable pub parse_transaction_path : Str → Option (Str × Str)
parse_transaction_path path =
    let trimmed = trim_prefix route path in
    if str_eq trimmed path || str_eq trimmed []
    then none
    else id_and_action (split b'/' (trim b'/' trimmed))

-- A path of the route is cut.
cut_route : (s : Str) → str_eq s (route ++ s) ≡ false
unfolding route bytes
cut_route s = ground (arith, str_eq_iff s (route ++ s), ne-append b'/' (bytes "v1/transactions/") s)

-- What starts and ends with another byte is not trimmed.
trim_kept :
    (c x y : ℕ) (s t : Str)
    → NoByte c (x ∷ s)
    → NoByte c (y ∷ t)
    → trim c (x ∷ (s ++ (c ∷ y ∷ t))) ≡ x ∷ (s ++ (c ∷ y ∷ t))
unfolding trim_left
trim_kept c x y s t h k =
    let whole = trim_right-append c (x ∷ s ++ c ∷ []) y t k in
    let joined = append_assoc s (c ∷ []) (y ∷ t) in ground arith

-- The path of an id and an action, neither empty nor with a slash, is read as these two.
pub parse_transaction_path-action :
    (id action : Str)
    → id ≢ []
    → action ≢ []
    → NoByte b'/' id
    → NoByte b'/' action
    → parse_transaction_path (route ++ (id ++ b'/' ∷ action)) ≡ some (id, action)
unfolding parse_transaction_path
parse_transaction_path-action [] action n m f g = absurd (n refl)
parse_transaction_path-action id [] n m f g = absurd (m refl)
parse_transaction_path-action (x ∷ id) (y ∷ action) n m f g = ground (
  arith,
  after_prefix-append route (x ∷ (id ++ (b'/' ∷ y ∷ action))),
  cut_route (x ∷ (id ++ (b'/' ∷ y ∷ action))),
  str_eq_iff (x ∷ (id ++ (b'/' ∷ y ∷ action))) [],
  trim_kept b'/' x y id action f g,
  split-append b'/' (x ∷ id) (y ∷ action) f,
  split-single b'/' (y ∷ action) g,
)
