-- ===== src/Text/Basic.antt =====
-- Equality of strings, prefixes, suffixes, `Cut`, `Trim` and `ContainsAny`.
use Prim.Native.Char.{code}
use Prim.Native.String.{String}
use mathlib.Core.List.{reverse}
use ochakai.Common.{
  ℕ, Bool, true, false, ◌&&◌, List, [], ◌∷◌, ◌++◌, Option, none, some, ◌≡◌, ◌≢◌, refl, ◌↔◌, arith,
  ◌==◌, if◌then◌else◌, any, ℕ_discrete,
}

abbrev pub Bytes : Type 0
Bytes = List ℕ

abbrev pub codes : String → Bytes
codes String.[] = []
codes (String.◌∷◌ c s) = code c ∷ codes s

pub cons_heads : {x y : ℕ} {xs ys : Bytes} → ◌≡◌ {A = Bytes} (x ∷ xs) (y ∷ ys) → x ≡ y
cons_heads p = cc p

pub cons_tails : {x y : ℕ} {xs ys : Bytes} → ◌≡◌ {A = Bytes} (x ∷ xs) (y ∷ ys) → xs ≡ ys
cons_tails p = cc p

pub cons_eq : {x y : ℕ} {xs ys : Bytes} → x ≡ y → xs ≡ ys → ◌≡◌ {A = Bytes} (x ∷ xs) (y ∷ ys)
cons_eq p q = cc

pub nil-ne-cons : {x : ℕ} {xs : Bytes} → ◌≢◌ {A = Bytes} [] (x ∷ xs)
nil-ne-cons p = cc p

pub cons-ne-nil : {x : ℕ} {xs : Bytes} → ◌≢◌ {A = Bytes} (x ∷ xs) []
cons-ne-nil p = cc p

unfoldable pub bytes_discrete : Discrete Bytes
unfolding ℕ_discrete
bytes_discrete [] [] = yes refl
bytes_discrete [] (y ∷ ys) = no nil-ne-cons
bytes_discrete (x ∷ xs) [] = no cons-ne-nil
bytes_discrete (x ∷ xs) (y ∷ ys) = elim (ℕ_discrete x y) [
  | no h ↦ no (λ p. h (cons_heads p))
  | yes h ↦ elim (bytes_discrete xs ys) [
    | yes t ↦ yes (cons_eq h t)
    | no t ↦ no (λ p. t (cons_tails p))
  ]
]

-- `a == b` on strings.
infix 50 ◌=?◌
abbrev pub ◌=?◌ : Bytes → Bytes → Bool
a =? b = elim (bytes_discrete a b) [ yes _ ↦ true | no _ ↦ false ]

pub =?_iff : (a b : Bytes) → ((a =? b) ≡ true) ↔ (a ≡ b)
=?_iff a b = ground arith

pub =?_refl : (a : Bytes) → (a =? a) ≡ true
=?_refl a = ground arith

-- strings.HasPrefix
unfoldable pub has_prefix : Bytes → Bytes → Bool
has_prefix s [] = true
has_prefix [] (p ∷ ps) = false
has_prefix (c ∷ s) (p ∷ ps) = c == p && has_prefix s ps

-- strings.CutPrefix: what is left, if the prefix is there.
unfoldable pub cut_prefix : Bytes → Bytes → Option Bytes
cut_prefix s [] = some s
cut_prefix [] (p ∷ ps) = none
cut_prefix (c ∷ s) (p ∷ ps) = let rest = cut_prefix s ps in if c == p then rest else none

-- strings.HasSuffix
unfoldable pub has_suffix : Bytes → Bytes → Bool
unfolding has_prefix
has_suffix s t = has_prefix (reverse s) (reverse t)

-- strings.CutSuffix
unfoldable pub cut_suffix : Bytes → Bytes → Option Bytes
cut_suffix [] t = if [] =? t then some [] else none
cut_suffix (c ∷ s) t =
    let rest = cut_suffix s t in
    if (c ∷ s) =? t then some [] else elim rest [ some r ↦ some (c ∷ r) | none ↦ none ]

-- strings.Cut at one byte: what stands before it, and after it.
unfoldable pub cut : Bytes → ℕ → Option (Bytes × Bytes)
cut [] b = none
cut (c ∷ s) b =
    let rest = cut s b in
    if c == b then some ([], s) else elim rest [ some (l, r) ↦ some (c ∷ l, r) | none ↦ none ]

-- Is the byte in the set?
abbrev pub has_byte : ℕ → Bytes → Bool
has_byte b = any (λ c. c == b)

-- strings.ContainsAny
abbrev pub contains_any : Bytes → Bytes → Bool
contains_any s set = any (λ c. has_byte c set) s

trim_left : Bytes → Bytes → Bytes
trim_left [] set = []
trim_left (c ∷ s) set = let rest = trim_left s set in if has_byte c set then rest else c ∷ s

-- strings.Trim with a set of ASCII characters.
unfoldable pub trim : Bytes → Bytes → Bytes
unfolding trim_left
trim s set = reverse (trim_left (reverse (trim_left s set)) set)

pub has_prefix-append : (p r : Bytes) → has_prefix (p ++ r) p ≡ true
unfolding has_prefix
has_prefix-append [] r = refl
has_prefix-append (c ∷ p) r = ground (arith, has_prefix-append p r)

pub has_prefix→append : (s p : Bytes) → has_prefix s p ≡ true → (r : Bytes) × (s ≡ p ++ r)
unfolding has_prefix
has_prefix→append s [] h = (s, refl)
has_prefix→append [] (c ∷ p) h = absurd (cc)
has_prefix→append (d ∷ s) (c ∷ p) h =
    let (r, e) = has_prefix→append s p (ground arith) in (r, ground arith)

pub cut_prefix-append : (p r : Bytes) → cut_prefix (p ++ r) p ≡ some r
unfolding cut_prefix
cut_prefix-append [] r = refl
cut_prefix-append (c ∷ p) r = ground (arith, cut_prefix-append p r)
