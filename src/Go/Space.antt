-- ===== src/Go/Space.antt =====
-- strings.TrimSpace, on text in UTF-8.
use mpc_custody.Prelude.{ℕ, zero, suc, Bool, ◌&&◌, ◌||◌, [], ◌∷◌, leb, ◌==◌, if◌then◌else◌}
use mpc_custody.Go.Str.{Str, str_eq}

-- unicode.IsSpace on one byte, and on the code points that take two and three.
unfoldable pub is_ascii_space : ℕ → Bool
is_ascii_space a = a == 0x20 || (leb 0x09 a && leb a 0x0d)

unfoldable pub is_space_2 : ℕ → ℕ → Bool
is_space_2 a b = a == 0xc2 && (b == 0x85 || b == 0xa0)

unfoldable pub is_space_3 : ℕ → ℕ → ℕ → Bool
is_space_3 a b c =
    (a == 0xe1 && (b == 0x9a && c == 0x80))
    || ((a == 0xe2
          && ((b == 0x80 && ((leb 0x80 c && leb c 0x8a) || (c == 0xa8 || (c == 0xa9 || c == 0xaf))))
              || (b == 0x81 && c == 0x9f)))
        || (a == 0xe3 && (b == 0x80 && c == 0x80)))

-- How many bytes the space has with which a text starts; 0 if it starts with none.
unfoldable pub space_length : Str → ℕ
unfolding is_ascii_space is_space_2 is_space_3
space_length [] = 0
space_length (a ∷ []) = if is_ascii_space a then 1 else 0
space_length (a ∷ b ∷ []) = if is_ascii_space a then 1 else if is_space_2 a b then 2 else 0
space_length (a ∷ b ∷ c ∷ s) =
    if is_ascii_space a then 1 else if is_space_2 a b then 2 else if is_space_3 a b c then 3 else 0

-- `skip` bytes of a space are still to be dropped.
unfoldable pub trim_left_space : ℕ → Str → Str
unfolding space_length
trim_left_space skip [] = []
trim_left_space (suc skip) (a ∷ s) = trim_left_space skip s
trim_left_space zero (a ∷ s) = elim (space_length (a ∷ s)) [
  | zero ↦ a ∷ s
  | suc skip ↦ trim_left_space skip s
]

unfoldable pub trim_right_space : Str → Str
unfolding trim_left_space
trim_right_space [] = []
trim_right_space (a ∷ s) =
    let rest = trim_right_space s in if str_eq (trim_left_space 0 (a ∷ s)) [] then [] else a ∷ rest

unfoldable pub trim_space : Str → Str
unfolding trim_left_space trim_right_space
trim_space s = trim_right_space (trim_left_space 0 s)
