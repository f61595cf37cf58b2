-- ===== src/Service/Cursor/Count.antt =====
-- The text of a count.
use ochakai.Common.{
  ℕ, zero, suc, ◌+◌, ◌-◌, ◌*◌, ◌/◌, ◌%◌, ◌^◌, ◌<◌, [], ◌∷◌, ◌++◌, ◌≡◌, refl, arith,
}
use ochakai.Text.{Bytes}
use ochakai.Service.Cursor.{digits, format_int}

-- The number that decimal digits spell, behind the one read so far.
pub value : ℕ → Bytes → ℕ
value acc [] = acc
value acc (c ∷ s) = value (acc * 10 + (c - 48)) s

value-append : (acc : ℕ) (s t : Bytes) → value acc (s ++ t) ≡ value (value acc s) t
unfolding value
value-append acc [] t = refl
value-append acc (c ∷ s) t = value-append (acc * 10 + (c - 48)) s t

last_digit : (n : ℕ) → value (n / 10) ((n % 10 + 48) ∷ []) ≡ n
unfolding value
last_digit n = omega arith

-- With as many digits as the number has, its text spells it.
value-digits : (fuel n : ℕ) → n < 10 ^ fuel → value 0 (digits fuel n) ≡ n
unfolding digits
value-digits zero n h = unfold value in omega arith
value-digits (suc fuel) n h = ground (
  arith,
  value-digits fuel (n / 10) (omega arith),
  value-append 0 (digits fuel (n / 10)) ((n % 10 + 48) ∷ []),
  last_digit n,
)

-- The text of a count below 2 ^ 63 spells that count in decimal digits.
pub value-format_int : (n : ℕ) → n < 2 ^ 63 → value 0 (format_int n) ≡ n
value-format_int n h = value-digits 19 n (omega arith)
