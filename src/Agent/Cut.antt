-- ===== src/Agent/Cut.antt =====
-- cut, which shortens a tool's result without splitting a character.
use ochakai.Common.{
  ℕ, zero, suc, ◌≤◌, Bool, true, not, ◌&&◌, [], ◌∷◌, ◌++◌, ◌≡◌, refl, sym, arith, ltb, leb,
  if◌then◌else◌, length, take, drop, ◌⊎◌, inl, inr, Bool-cases, append-nil,
}
use ochakai.Common.Slices.{take-drop}
use ochakai.Text.{Bytes}

-- utf8.RuneStart
abbrev pub rune_start : ℕ → Bool
rune_start b = not (leb 0x80 b && ltb b 0xC0)

-- Does a character start at this offset? The offset is inside the text.
abbrev pub starts_at : Bytes → Bool
starts_at [] = true
starts_at (b ∷ _) = rune_start b

-- The loop: the offset it stops at.
unfoldable pub back_to_start : Bytes → ℕ → ℕ
back_to_start s zero = zero
back_to_start s (suc n) =
    let before = back_to_start s n in if starts_at (drop (suc n) s) then suc n else before

-- cut
unfoldable pub cut : Bytes → ℕ → Bytes
unfolding back_to_start
cut s n = if leb (length s) n then s else take (back_to_start s n) s

back_to_start-bound : (s : Bytes) (n : ℕ) → back_to_start s n ≤ n
unfolding back_to_start
back_to_start-bound s zero = omega arith
back_to_start-bound s (suc n) = ground (arith, back_to_start-bound s n)

back_to_start-starts :
    (s : Bytes) (n : ℕ) → (back_to_start s n ≡ 0) ⊎ (starts_at (drop (back_to_start s n) s) ≡ true)
unfolding back_to_start
back_to_start-starts s zero = inl refl
back_to_start-starts s (suc n) = ground (arith, back_to_start-starts s n)

length-take_le : (n : ℕ) (s : Bytes) → length (take n s) ≤ n
length-take_le zero s = omega arith
length-take_le (suc n) [] = omega arith
length-take_le (suc n) (b ∷ s) = omega (arith, length-take_le n s)

-- What is cut off a result is a rest of it, the part that is kept fits in the limit, and the rest begins
-- with the start of a character unless nothing at all is kept.
pub cut-bounds :
    (s : Bytes) (n : ℕ)
    → (length (cut s n) ≤ n)
      × (rest : Bytes) × (s ≡ cut s n ++ rest)
      × ((cut s n ≡ []) ⊎ (starts_at rest ≡ true))
unfolding cut
cut-bounds s n = elim (Bool-cases (leb (length s) n)) [
  | inl short ↦ (rw (short) (ground arith), [], rw (short) (sym (append-nil s)), inr refl)
  | inr long ↦ (
    rw (long) (ground (arith, length-take_le (back_to_start s n) s, back_to_start-bound s n)),
    drop (back_to_start s n) s,
    rw (long) (sym (take-drop (back_to_start s n) s)),
    elim (back_to_start-starts s n) [ inl e ↦ inl (rw (long, e) refl) | inr e ↦ inr e ],
  )
]
