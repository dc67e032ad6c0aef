-- ===== src/Go/Strconv.antt =====
-- Decimal numbers of Go's standard library: strconv.ParseUint(s, 10, 64), strconv.ParseInt(s, 10,
-- 64) and big.Int.SetString(s, 10). An error of any kind is `none`: the callers only test for it.
use mpc_custody.Prelude.{
  ℕ, ◌+◌, ◌-◌, ◌*◌, ◌^◌, ◌≡◌, Bool, ◌&&◌, Option, none, some, [], ◌∷◌, arith, leb, ◌==◌,
  if◌then◌else◌,
}
use mpc_custody.Go.Str.{Str}
use mpc_custody.Go.Int.{ℤ, pos, negsuc, neg, ◌≤ℤ◌, leb_ℤ}

abbrev pub is_digit : ℕ → Bool
is_digit c = leb b'0' c && leb c b'9'

digits_from : ℕ → Str → Option ℕ
digits_from n [] = some n
digits_from n (c ∷ s) =
    let rest = digits_from (n * 10 + (c - b'0')) s in if is_digit c then rest else none

-- A non-empty string of decimal digits.
unfoldable pub parse_digits : Str → Option ℕ
unfolding digits_from
parse_digits [] = none
parse_digits (c ∷ s) = digits_from 0 (c ∷ s)

abbrev within : ℕ → Option ℕ → Option ℕ
within limit none = none
within limit (some n) = if leb n limit then some n else none

abbrev signed : (ℕ → ℤ) → Option ℕ → Option ℤ
signed sign none = none
signed sign (some n) = some (sign n)

abbrev pub max_uint64 : ℕ
max_uint64 = 2 ^ 64 - 1

abbrev pub max_int64 : ℕ
max_int64 = 2 ^ 63 - 1

unfoldable pub parse_uint : Str → Option ℕ
unfolding parse_digits
parse_uint s = within max_uint64 (parse_digits s)

-- big.Int.SetString(s, 10): an optional sign and digits, of any size
unfoldable pub parse_big : Str → Option ℤ
unfolding parse_digits
parse_big [] = none
parse_big (c ∷ s) =
    if c == b'-'
    then signed neg (parse_digits s)
    else if c == b'+'
    then signed pos (parse_digits s)
    else signed pos (parse_digits (c ∷ s))

-- the range of int64
abbrev pub IsInt64 : ℤ → Type 0
IsInt64 z = (negsuc max_int64 ≤ℤ z) × (z ≤ℤ pos max_int64)

unfoldable pub parse_int : Str → Option ℤ
unfolding parse_big
parse_int s = elim (parse_big s) [
  | none ↦ none
  | some z ↦ if leb_ℤ (negsuc max_int64) z && leb_ℤ z (pos max_int64) then some z else none
]

pub parse_int-IsInt64 : (s : Str) (z : ℤ) → parse_int s ≡ some z → IsInt64 z
unfolding parse_int
parse_int-IsInt64 s z h = ground arith
