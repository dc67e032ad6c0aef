-- ===== src/Cmd/Access.antt =====
-- Who may sign and who may ask, by the lists of a configuration (cmd/custody-api/main.go,
-- internal/config/config.go).
use mathlib.Core.List.{Memᴰ}
use mathlib.Core.List.Memᴰ
use mpc_custody.Prelude.{
  ◌≡◌, refl, sym, ap, ◌∙◌, ◌↔◌, ◌⊎◌, inl, inr, true, false, Bool-cases, List, [], ◌∷◌, foldl, arith,
}
use mpc_custody.Go.Str.{Str, str_eq, str_eq_iff}
use mpc_custody.Go.Dict.{Dict, lookup, insert, contains, lookup-insert}
use mpc_custody.Wallet.Policy.{signer_allowed}
use mpc_custody.Wallet.Policy.Limits.{signer_allowed_iff}
use mpc_custody.Config.{Config}
use mpc_custody.Cmd.{signer_set, policy_of}

abbrev put : Dict (Unit {0}) → Str → Dict (Unit {0})
put set signer = insert signer tt set

contains-put :
    (s signer : Str) (set : Dict (Unit {0}))
    → (contains s (put set signer) ≡ true) ↔ ((signer ≡ s) ⊎ (contains s set ≡ true))
contains-put s signer set = elim (Bool-cases (str_eq signer s)) [
  | inl same ↦
      (λ h. inl ((str_eq_iff signer s).0 same), λ h. ground (arith, lookup-insert signer s tt set))
  | inr other ↦ (λ h. inr (ground (arith, lookup-insert signer s tt set)), kept other)
]
  where
    kept :
        str_eq signer s ≡ false
        → (signer ≡ s) ⊎ (contains s set ≡ true)
        → contains s (put set signer) ≡ true
    kept other (inl e) = absurd (ground (arith, str_eq_iff signer s))
    kept other (inr there) = ground (arith, lookup-insert signer s tt set)

-- What the loop over the signers has put so far, and what is left of them.
contains-foldl :
    (s : Str) (signers : List Str) (set : Dict (Unit {0}))
    → (contains s (foldl put set signers) ≡ true) ↔ (Memᴰ s signers ⊎ (contains s set ≡ true))
contains-foldl s [] set = (λ h. inr h, done)
  where
    done : Memᴰ s [] ⊎ (contains s set ≡ true) → contains s set ≡ true
    done (inl m) = elim m [ ]
    done (inr h) = h
contains-foldl s (signer ∷ signers) set =
    let rest = contains-foldl s signers (put set signer) in
    let first = contains-put s signer set in
    (λ h. found first.0 (rest.0 h), λ h. rest.1 (placed first.1 h))
  where
    found :
        (contains s (put set signer) ≡ true → (signer ≡ s) ⊎ (contains s set ≡ true))
        → Memᴰ s signers ⊎ (contains s (put set signer) ≡ true)
        → Memᴰ s (signer ∷ signers) ⊎ (contains s set ≡ true)
    found f (inl m) = inl (Memᴰ.tail m)
    found f (inr h) = elim (f h) [ inl e ↦ inl (Memᴰ.head (sym e)) | inr there ↦ inr there ]

    placed :
        ((signer ≡ s) ⊎ (contains s set ≡ true) → contains s (put set signer) ≡ true)
        → Memᴰ s (signer ∷ signers) ⊎ (contains s set ≡ true)
        → Memᴰ s signers ⊎ (contains s (put set signer) ≡ true)
    placed f (inl m) = elim (Memᴰ.cases_cons m) [
      | inl e ↦ inr (f (inl (sym e)))
      | inr there ↦ inl there
    ]
    placed f (inr h) = inr (f (inr h))

contains-signer_set :
    (s : Str) (signers : List Str) → (contains s (signer_set signers) ≡ true) ↔ Memᴰ s signers
unfolding signer_set lookup
contains-signer_set s signers =
    let both = contains-foldl s signers [] in (λ h. drop (both.0 h), λ m. both.1 (inl m))
  where
    drop : Memᴰ s signers ⊎ (contains {V = Unit {0}} s [] ≡ true) → Memᴰ s signers
    drop (inl m) = m
    drop (inr h) = absurd (cc)

no_signers : (signers : List Str) → signer_set signers ≡ [] → signers ≡ []
unfolding lookup
no_signers [] h = refl
no_signers (s ∷ signers) h =
    let there = (contains-signer_set s (s ∷ signers)).1 (Memᴰ.head refl) in
    absurd (false-ne-true (ap (λ set. contains s set) (sym h) ∙ there))
  where
    false-ne-true : false ≡ true → ⊥
    false-ne-true e = cc

-- Under the policy of a configuration exactly the listed signers may sign, and everybody where none
-- is listed.
pub signer_allowed-policy_of :
    (cfg : Config) (s : Str)
    → (signer_allowed (policy_of cfg) s ≡ true) ↔ ((cfg.signer_ids ≡ []) ⊎ Memᴰ s cfg.signer_ids)
unfolding policy_of signer_set
signer_allowed-policy_of cfg s =
    let both = signer_allowed_iff (policy_of cfg) s in
    let listed = contains-signer_set s cfg.signer_ids in
    (λ h. to listed.0 (both.0 h), λ h. both.1 (from listed.1 h))
  where
    to :
        (contains s (signer_set cfg.signer_ids) ≡ true → Memᴰ s cfg.signer_ids)
        → (signer_set cfg.signer_ids ≡ []) ⊎ (contains s (signer_set cfg.signer_ids) ≡ true)
        → (cfg.signer_ids ≡ []) ⊎ Memᴰ s cfg.signer_ids
    to f (inl none_set) = inl (no_signers cfg.signer_ids none_set)
    to f (inr there) = inr (f there)

    from :
        (Memᴰ s cfg.signer_ids → contains s (signer_set cfg.signer_ids) ≡ true)
        → (cfg.signer_ids ≡ []) ⊎ Memᴰ s cfg.signer_ids
        → (signer_set cfg.signer_ids ≡ []) ⊎ (contains s (signer_set cfg.signer_ids) ≡ true)
    from f (inl nobody) = inl (ap signer_set nobody)
    from f (inr m) = inr (f m)
