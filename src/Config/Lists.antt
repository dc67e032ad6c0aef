-- ===== src/Config/Lists.antt =====
-- The lists of internal/config/config.go.
use mathlib.Core.List.{Memᴰ}
use mathlib.Core.List.Memᴰ
use mpc_custody.Prelude.{
  ◌≡◌, ◌≢◌, ◌⊎◌, refl, sym, ◌∙◌, false, Bool-cases, inl, inr, List, [], ◌∷◌, arith,
}
use mpc_custody.Go.Str.{Str, str_eq, str_eq_iff}
use mpc_custody.Go.Split.{split}
use mpc_custody.Go.Space.{trim_space}
use mpc_custody.Config.{trimmed_items, env_list}

-- An item that is not empty, and is a trimmed part.
abbrev pub FromPart : List Str → Str → Type 0
FromPart parts item = (item ≢ []) × ((part : Str) × Memᴰ part parts × (item ≡ trim_space part))

FromPart-cons :
    (first : Str) (parts : List Str) (item : Str)
    → FromPart parts item
    → FromPart (first ∷ parts) item
FromPart-cons first parts item (n, (part, m, e)) = (n, (part, Memᴰ.tail m, e))

full_item : (s : Str) → str_eq s [] ≡ false → s ≢ []
full_item s h e = absurd (ground (arith, str_eq_iff s []))

kept_or_first :
    (first : Str) (parts : List Str) (item : Str)
    → str_eq (trim_space first) [] ≡ false
    → (Memᴰ item (trimmed_items parts) → FromPart parts item)
    → (item ≡ trim_space first) ⊎ Memᴰ item (trimmed_items parts)
    → FromPart (first ∷ parts) item
kept_or_first first parts item full rest (inl e) =
    (λ empty. full_item (trim_space first) full (sym e ∙ empty), (first, Memᴰ.head refl, e))
kept_or_first first parts item full rest (inr m) = FromPart-cons first parts item (rest m)

trimmed_items-FromPart :
    (parts : List Str) (item : Str) → Memᴰ item (trimmed_items parts) → FromPart parts item
unfolding trimmed_items
trimmed_items-FromPart [] item m = elim m [ ]
trimmed_items-FromPart (first ∷ parts) item m = elim (Bool-cases (str_eq (trim_space first) [])) [
  | inl empty ↦ FromPart-cons first parts item (trimmed_items-FromPart parts item (rw empty at m))
  | inr full ↦
      kept_or_first first parts item full (trimmed_items-FromPart parts item)
        (Memᴰ.cases_cons (rw full at m))
]

-- Every item of a list is a part of the variable between commas, trimmed, and is not empty.
pub env_list-FromPart :
    (getenv : Str → Str) (key item : Str)
    → Memᴰ item (env_list getenv key)
    → FromPart (split b',' (getenv key)) item
unfolding env_list
env_list-FromPart getenv key item m = elim (Bool-cases (str_eq (getenv key) [])) [
  | inl unset ↦ absurd (Memᴰ.not-nil (rw unset at m))
  | inr set ↦ trimmed_items-FromPart (split b',' (getenv key)) item (rw set at m)
]
