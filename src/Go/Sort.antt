-- ===== src/Go/Sort.antt =====
-- sort.Strings, as the sorted keys of a map of strings to strings.
use mpc_custody.Prelude.{[], ◌∷◌, if◌then◌else◌}
use mpc_custody.Go.Str.{Str, str_lt}
use mpc_custody.Go.Dict.{Dict}

insert_sorted {ℓ} : {V : Type ℓ} → Str → V → Dict V → Dict V
insert_sorted k v [] = (k, v) ∷ []
insert_sorted k v ((j, w) ∷ m) =
    if str_lt j k then (j, w) ∷ insert_sorted k v m else (k, v) ∷ (j, w) ∷ m

-- The entries in the order of their keys.
unfoldable pub sort_by_key {ℓ} : {V : Type ℓ} → Dict V → Dict V
unfolding insert_sorted str_lt
sort_by_key [] = []
sort_by_key ((k, v) ∷ m) = insert_sorted k v (sort_by_key m)
