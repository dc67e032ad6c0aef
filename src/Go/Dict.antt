-- ===== src/Go/Dict.antt =====
-- Go's `map[string]V`, as an association list in which `m[k] = v` replaces the entry of `k`.
use mpc_custody.Prelude.{
  ◌+◌, ◌≡◌, refl, ◌≢◌, Bool, true, false, Option, none, some, List, [], ◌∷◌, arith, length, ◌⊎◌,
  inl, inr, Bool-cases, if◌then◌else◌,
}
use mpc_custody.Go.Str.{Str, str_eq, str_eq→eq, str_eq_iff, str_eq_refl}

abbrev pub Dict {ℓ} : Type ℓ → Type ℓ
Dict V = List (Str × V)

module _ {ℓ} {V : Type ℓ} where
  -- `v, ok := m[k]`
  unfoldable pub lookup : Str → Dict V → Option V
  lookup k [] = none
  lookup k ((j, v) ∷ m) = if str_eq j k then some v else lookup k m

  -- `m[k] = v`
  unfoldable pub insert : Str → V → Dict V → Dict V
  insert k v [] = (k, v) ∷ []
  insert k v ((j, w) ∷ m) = if str_eq j k then (j, v) ∷ m else (j, w) ∷ insert k v m

  -- `_, ok := m[k]`
  abbrev pub contains : Str → Dict V → Bool
  contains k m = elim (lookup k m) [ none ↦ false | some _ ↦ true ]

  pub lookup-insert :
      (k j : Str) (v : V) (m : Dict V)
      → lookup j (insert k v m) ≡ (if str_eq k j then some v else lookup j m)
  unfolding lookup insert
  lookup-insert k j v [] = refl
  lookup-insert k j v ((i, w) ∷ m) =
      ground (arith, str_eq_iff k j, str_eq_iff i k, str_eq_iff i j, lookup-insert k j v m)

  pub lookup-insert_self : (k : Str) (v : V) (m : Dict V) → lookup k (insert k v m) ≡ some v
  lookup-insert_self k v m = ground (arith, lookup-insert k k v m, str_eq_refl k)

  pub lookup-insert_ne :
      (k j : Str) (v : V) (m : Dict V) → k ≢ j → lookup j (insert k v m) ≡ lookup j m
  lookup-insert_ne k j v m h = ground (arith, lookup-insert k j v m, str_eq_iff k j)

  pub length-insert :
      (k : Str) (v : V) (m : Dict V)
      → length (insert k v m) ≡ (if contains k m then length m else length m + 1)
  unfolding lookup insert
  length-insert k v [] = ground arith
  length-insert k v ((i, w) ∷ m) = ground (arith, length-insert k v m)

  -- A key that is there stays there.
  pub contains-insert :
      (k j : Str) (v : V) (m : Dict V) → contains j m ≡ true → contains j (insert k v m) ≡ true
  contains-insert k j v m h = ground (arith, lookup-insert k j v m)

  -- What is found after a write is what was written or what was there.
  pub lookup-insert_cases :
      (k j : Str) (v : V) (m : Dict V) {w : V}
      → lookup j (insert k v m) ≡ some w
      → ((k ≡ j) × (v ≡ w)) ⊎ (lookup j m ≡ some w)
  lookup-insert_cases k j v m h = elim (Bool-cases (str_eq k j)) [
    | inl same ↦ inl (str_eq→eq k j same, ground (arith, lookup-insert k j v m))
    | inr other ↦ inr (ground (arith, lookup-insert k j v m))
  ]
