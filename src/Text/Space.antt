-- ===== src/Text/Space.antt =====
-- strings.TrimSpace: the characters of unicode.IsSpace, by their encodings, at either end.
use mathlib.Core.List.{reverse}
use ochakai.Common.{
  ℕ, zero, suc, Bool, ◌&&◌, ◌||◌, [], ◌∷◌, ◌==◌, leb, ltb, if◌then◌else◌, ◌≡◌, refl,
}
use ochakai.Text.Basic.{Bytes, codes}

-- '\t', '\n', '\v', '\f', '\r' and ' '
abbrev ascii_space : ℕ → Bool
ascii_space b = (leb 9 b && leb b 13) || b == 32

-- unicode.IsSpace on a rune.
unfoldable pub is_space : ℕ → Bool
is_space r =
    ascii_space r
    || r == 0x85
    || r == 0xA0
    || r == 0x1680
    || (leb 0x2000 r && leb r 0x200A)
    || r == 0x2028
    || r == 0x2029
    || r == 0x202F
    || r == 0x205F
    || r == 0x3000

-- unicode.IsControl on a rune.
unfoldable pub is_control : ℕ → Bool
is_control r = ltb r 0x20 || (leb 0x7F r && leb r 0x9F)

-- Are these three bytes one of the longer space characters?
wide_space : ℕ → ℕ → ℕ → Bool
wide_space a b c =
    (a == 0xE1 && b == 0x9A && c == 0x80)
    || (a == 0xE2
        && b == 0x80
        && ((leb 0x80 c && leb c 0x8A) || c == 0xA8 || c == 0xA9 || c == 0xAF))
    || (a == 0xE2 && b == 0x81 && c == 0x9F)
    || (a == 0xE3 && b == 0x80 && c == 0x80)

-- How many bytes the space character at the front takes; none, if there is none.
space_width : ℕ → Bytes → ℕ
unfolding wide_space
space_width a [] = if ascii_space a then 1 else 0
space_width a (b ∷ []) =
    if ascii_space a then 1 else if a == 0xC2 && (b == 0x85 || b == 0xA0) then 2 else 0
space_width a (b ∷ c ∷ _) =
    if ascii_space a
    then 1
    else if a == 0xC2 && (b == 0x85 || b == 0xA0)
    then 2
    else if wide_space a b c
    then 3
    else 0

-- The same at the end, on the text read backwards.
space_width_back : ℕ → Bytes → ℕ
unfolding wide_space
space_width_back a [] = if ascii_space a then 1 else 0
space_width_back a (b ∷ []) =
    if ascii_space a then 1 else if b == 0xC2 && (a == 0x85 || a == 0xA0) then 2 else 0
space_width_back a (b ∷ c ∷ _) =
    if ascii_space a
    then 1
    else if b == 0xC2 && (a == 0x85 || a == 0xA0)
    then 2
    else if wide_space c b a
    then 3
    else 0

-- Drop such characters; the first argument counts the bytes left of the one before.
drop_spaces : (ℕ → Bytes → ℕ) → ℕ → Bytes → Bytes
drop_spaces width skip [] = []
drop_spaces width (suc k) (b ∷ s) = drop_spaces width k s
drop_spaces width zero (b ∷ s) = elim (width b s) [ zero ↦ b ∷ s | suc k ↦ drop_spaces width k s ]

unfoldable pub trim_space : Bytes → Bytes
unfolding drop_spaces space_width space_width_back
trim_space s = reverse (drop_spaces space_width_back 0 (reverse (drop_spaces space_width 0 s)))

trim_space-run : trim_space (codes " \t a b\n") ≡ codes "a b"
unfolding trim_space
trim_space-run = refl
