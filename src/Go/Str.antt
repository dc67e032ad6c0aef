-- ===== src/Go/Str.antt =====
-- Go's string: a sequence of bytes. The literals of the source are ASCII, so a literal's bytes are
-- its code points.
use Prim.Native.Char.{code}
use mpc_custody.Prelude.{
  ℕ, String, ◌≡◌, refl, ◌↔◌, Bool, true, false, ◌&&◌, List, [], ◌∷◌, arith, ◌==◌, ltb,
  if◌then◌else◌,
}

abbrev pub Str : Type 0
Str = List ℕ

unfoldable pub bytes : String → Str
bytes String.[] = []
bytes (String.◌∷◌ c s) = code c ∷ bytes s

-- `s == t` on strings
unfoldable pub str_eq : Str → Str → Bool
str_eq [] [] = true
str_eq [] (_ ∷ _) = false
str_eq (_ ∷ _) [] = false
str_eq (a ∷ s) (b ∷ t) = a == b && str_eq s t

pub str_eq→eq : (s t : Str) → str_eq s t ≡ true → s ≡ t
unfolding str_eq
str_eq→eq [] [] h = refl
str_eq→eq [] (b ∷ t) h = cc
str_eq→eq (a ∷ s) [] h = cc
str_eq→eq (a ∷ s) (b ∷ t) h = ground (arith, str_eq→eq s t)

pub str_eq_refl : (s : Str) → str_eq s s ≡ true
unfolding str_eq
str_eq_refl [] = refl
str_eq_refl (a ∷ s) = ground (arith, str_eq_refl s)

pub eq→str_eq : (s t : Str) → s ≡ t → str_eq s t ≡ true
eq→str_eq s t h = rw h (str_eq_refl t)

pub str_eq_iff : (s t : Str) → (str_eq s t ≡ true) ↔ (s ≡ t)
str_eq_iff s t = (str_eq→eq s t, eq→str_eq s t)

-- `s < t` on strings, byte by byte
unfoldable pub str_lt : Str → Str → Bool
str_lt s [] = false
str_lt [] (_ ∷ _) = true
str_lt (a ∷ s) (b ∷ t) = if ltb a b then true else if a == b then str_lt s t else false
