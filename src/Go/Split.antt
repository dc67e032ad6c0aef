-- ===== src/Go/Split.antt =====
-- strings.TrimPrefix, strings.HasPrefix, and strings.Trim and strings.Split at a single byte.
use mpc_custody.Prelude.{
  ℕ, suc, ◌≡◌, ◌≢◌, refl, ap, Bool, true, false, ◌&&◌, Option, none, some, List, [], ◌∷◌, ◌++◌,
  length, length-append, arith, ◌==◌, if◌then◌else◌,
}
use mpc_custody.Go.Str.{Str, str_eq}

-- What follows a prefix, if it is one.
unfoldable pub after_prefix : Str → Str → Option Str
after_prefix [] s = some s
after_prefix (a ∷ p) [] = none
after_prefix (a ∷ p) (b ∷ s) = let rest = after_prefix p s in if a == b then rest else none

-- the arguments of strings.TrimPrefix and strings.HasPrefix, in the other order
abbrev pub trim_prefix : Str → Str → Str
trim_prefix p s = elim (after_prefix p s) [ none ↦ s | some rest ↦ rest ]

abbrev pub has_prefix : Str → Str → Bool
has_prefix p s = elim (after_prefix p s) [ none ↦ false | some _ ↦ true ]

unfoldable pub trim_left : ℕ → Str → Str
trim_left c [] = []
trim_left c (x ∷ s) = let rest = trim_left c s in if x == c then rest else x ∷ s

unfoldable pub trim_right : ℕ → Str → Str
trim_right c [] = []
trim_right c (x ∷ s) =
    let rest = trim_right c s in if x == c && str_eq rest [] then [] else x ∷ rest

abbrev pub trim : ℕ → Str → Str
trim c s = trim_right c (trim_left c s)

abbrev cons_head : ℕ → List Str → List Str
cons_head x [] = (x ∷ []) ∷ []
cons_head x (part ∷ parts) = (x ∷ part) ∷ parts

unfoldable pub split : ℕ → Str → List Str
split c [] = [] ∷ []
split c (x ∷ s) = let parts = split c s in if x == c then [] ∷ parts else cons_head x parts

abbrev pub NoByte : ℕ → Str → Type 0
NoByte c [] = Unit
NoByte c (x ∷ s) = (x ≢ c) × NoByte c s

pub after_prefix-append : (p s : Str) → after_prefix p (p ++ s) ≡ some s
unfolding after_prefix
after_prefix-append [] s = refl
after_prefix-append (a ∷ p) s = ground (arith, after_prefix-append p s)

-- A prefix that is not empty does change the string.
pub ne-append : (a : ℕ) (p s : Str) → s ≢ a ∷ p ++ s
ne-append a p s h =
    let same : length s ≡ suc (length (p ++ s)) = ap length h in
    let sum = length-append p s in absurd (omega arith)

pub split-single : (c : ℕ) (s : Str) → NoByte c s → split c s ≡ s ∷ []
unfolding split
split-single c [] h = refl
split-single c (x ∷ s) h = ground (arith, split-single c s h.1)

pub split-append : (c : ℕ) (s t : Str) → NoByte c s → split c (s ++ c ∷ t) ≡ s ∷ split c t
unfolding split
split-append c [] t h = ground arith
split-append c (x ∷ s) t h = ground (arith, split-append c s t h.1)

pub trim_right-NoByte : (c : ℕ) (s : Str) → NoByte c s → trim_right c s ≡ s
unfolding trim_right
trim_right-NoByte c [] h = refl
trim_right-NoByte c (x ∷ s) h = ground (arith, trim_right-NoByte c s h.1)

pub trim_right-append :
    (c : ℕ) (s : Str) (x : ℕ) (t : Str) → NoByte c (x ∷ t) → trim_right c (s ++ x ∷ t) ≡ s ++ x ∷ t
unfolding trim_right str_eq
trim_right-append c [] x t h = ground (arith, trim_right-NoByte c t h.1)
trim_right-append c (y ∷ []) x t h = ground (arith, trim_right-append c [] x t h)
trim_right-append c (y ∷ z ∷ s) x t h = ground (arith, trim_right-append c (z ∷ s) x t h)
