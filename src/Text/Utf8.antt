-- ===== src/Text/Utf8.antt =====
-- Package `unicode/utf8`: decoding one rune at a time, and the test for valid text.
use ochakai.Common.{
  ℕ, zero, suc, ◌+◌, ◌-◌, ◌*◌, ◌≤◌, ◌<◌, Bool, true, false, not, ◌&&◌, ◌||◌, List, [], ◌∷◌, ◌≡◌,
  arith, ltb, leb, ◌==◌, if◌then◌else◌, All, every,
}
use ochakai.Text.Basic.{Bytes}

-- A rune of the text, and how many bytes behind its first one it takes; `invalid` is RuneError
-- of width one.
pub data Decoded : Type 0 where
  rune : ℕ → ℕ → Decoded
  invalid : Decoded

abbrev is_continuation : ℕ → Bool
is_continuation b = leb 0x80 b && leb b 0xBF

-- A sequence of two bytes starts with 0xC2 to 0xDF.
decode_2 : ℕ → Bytes → Decoded
decode_2 b0 [] = invalid
decode_2 b0 (b1 ∷ _) =
    if is_continuation b1 then rune ((b0 - 0xC0) * 64 + (b1 - 0x80)) 1 else invalid

-- 0xE0 wants 0xA0 or more behind it, 0xED at most 0x9F: no overlong form, and no surrogate.
decode_3 : ℕ → Bytes → Decoded
decode_3 b0 (b1 ∷ b2 ∷ _) =
    if is_continuation b1
      && is_continuation b2
      && (not (b0 == 0xE0) || leb 0xA0 b1)
      && (not (b0 == 0xED) || leb b1 0x9F)
    then rune ((b0 - 0xE0) * 4096 + (b1 - 0x80) * 64 + (b2 - 0x80)) 2
    else invalid
decode_3 b0 _ = invalid

-- 0xF0 wants 0x90 or more behind it, 0xF4 at most 0x8F: nothing above U+10FFFF.
decode_4 : ℕ → Bytes → Decoded
decode_4 b0 (b1 ∷ b2 ∷ b3 ∷ _) =
    if is_continuation b1
      && is_continuation b2
      && is_continuation b3
      && (not (b0 == 0xF0) || leb 0x90 b1)
      && (not (b0 == 0xF4) || leb b1 0x8F)
    then rune ((b0 - 0xF0) * 262144 + (b1 - 0x80) * 4096 + (b2 - 0x80) * 64 + (b3 - 0x80)) 3
    else invalid
decode_4 b0 _ = invalid

-- utf8.DecodeRune at a first byte and what follows it.
unfoldable pub decode : ℕ → Bytes → Decoded
unfolding decode_2 decode_3 decode_4
decode b0 s =
    if ltb b0 0x80
    then rune b0 0
    else if ltb b0 0xC2
    then invalid
    else if ltb b0 0xE0
    then decode_2 b0 s
    else if ltb b0 0xF0
    then decode_3 b0 s
    else if ltb b0 0xF5
    then decode_4 b0 s
    else invalid

abbrev pub rune_error : ℕ
rune_error = 0xFFFD

abbrev decoded_rune : Decoded → ℕ
decoded_rune (rune r _) = r
decoded_rune invalid = rune_error

abbrev decoded_more : Decoded → ℕ
decoded_more (rune _ w) = w
decoded_more invalid = 0

abbrev is_rune : Decoded → Bool
is_rune (rune _ _) = true
is_rune invalid = false

-- `for _, r := range s`: the first argument counts the bytes left of the rune before.
runes_from : ℕ → Bytes → List ℕ
runes_from skip [] = []
runes_from (suc k) (b ∷ s) = runes_from k s
runes_from zero (b ∷ s) = let d = decode b s in decoded_rune d ∷ runes_from (decoded_more d) s

unfoldable pub runes : Bytes → List ℕ
unfolding runes_from decode
runes s = runes_from 0 s

valid_from : ℕ → Bytes → Bool
valid_from skip [] = true
valid_from (suc k) (b ∷ s) = valid_from k s
valid_from zero (b ∷ s) = let d = decode b s in is_rune d && valid_from (decoded_more d) s

-- utf8.ValidString
unfoldable pub valid_string : Bytes → Bool
unfolding valid_from decode
valid_string s = valid_from 0 s

-- The next `k` bytes are no ASCII bytes.
abbrev Skippable : ℕ → Bytes → Type 0
Skippable zero s = Unit
Skippable (suc k) [] = Unit
Skippable (suc k) (b ∷ s) = (0x80 ≤ b) × Skippable k s

decode_2-Skippable : (b : ℕ) (s : Bytes) → Skippable (decoded_more (decode_2 b s)) s
unfolding decode_2
decode_2-Skippable b [] = tt
decode_2-Skippable b (c ∷ s) = ground arith

decode_3-Skippable : (b : ℕ) (s : Bytes) → Skippable (decoded_more (decode_3 b s)) s
unfolding decode_3
decode_3-Skippable b [] = tt
decode_3-Skippable b (c ∷ []) = tt
decode_3-Skippable b (c ∷ d ∷ s) = ground arith

decode_4-Skippable : (b : ℕ) (s : Bytes) → Skippable (decoded_more (decode_4 b s)) s
unfolding decode_4
decode_4-Skippable b [] = tt
decode_4-Skippable b (c ∷ []) = tt
decode_4-Skippable b (c ∷ d ∷ []) = tt
decode_4-Skippable b (c ∷ d ∷ e ∷ s) = ground arith

decode-Skippable : (b : ℕ) (s : Bytes) → Skippable (decoded_more (decode b s)) s
unfolding decode
decode-Skippable b s =
    ground (arith, decode_2-Skippable b s, decode_3-Skippable b s, decode_4-Skippable b s)

decode_ascii : (b : ℕ) (s : Bytes) → b < 0x80 → decode b s ≡ rune b 0
unfolding decode
decode_ascii b s h = ground arith

-- What holds of every rune of a text holds of its ASCII bytes.
module _ (p : ℕ → Bool) where
  abbrev pub AsciiPass : Bytes → Type 0
  AsciiPass = All (λ b. b < 0x80 → p b ≡ true)

  runes_from-AsciiPass :
      (k : ℕ) (s : Bytes) → Skippable k s → every p (runes_from k s) ≡ true → AsciiPass s
  unfolding runes_from
  runes_from-AsciiPass k [] h e = tt
  runes_from-AsciiPass (suc k) (b ∷ s) (h, hs) e =
      ((λ lt. absurd (omega arith)), runes_from-AsciiPass k s hs e)
  runes_from-AsciiPass zero (b ∷ s) h e = (
    (λ lt. ground (arith, decode_ascii b s lt)),
    runes_from-AsciiPass (decoded_more (decode b s)) s (decode-Skippable b s) (ground arith),
  )

  pub runes-AsciiPass : (s : Bytes) → every p (runes s) ≡ true → AsciiPass s
  unfolding runes
  runes-AsciiPass s = runes_from-AsciiPass 0 s tt
