-- ===== src/Text/Base64.antt =====
-- encoding/base64's RawURLEncoding: three bytes are four characters, without padding. Decoding
-- passes over line breaks, and the spare bits of a last group are not looked at.
use ochakai.Common.{
  ℕ, ◌+◌, ◌-◌, ◌*◌, ◌/◌, ◌%◌, ◌<◌, Bool, false, not, ◌&&◌, ◌||◌, List, [], ◌∷◌, Option, none, some,
  ◌≡◌, ◌≢◌, refl, arith, ltb, leb, ◌==◌, if◌then◌else◌, keep, map, All,
}
use ochakai.Text.Basic.{Bytes}

-- The character of a sextet.
sextet_char : ℕ → ℕ
sextet_char v =
    if ltb v 26
    then v + 65
    else if ltb v 52
    then v + 71
    else if ltb v 62
    then v - 4
    else if v == 62
    then b'-'
    else b'_'

-- The sextet of a character, if it is of the alphabet.
char_sextet : ℕ → Option ℕ
char_sextet c =
    if leb b'A' c && leb c b'Z'
    then some (c - 65)
    else if leb b'a' c && leb c b'z'
    then some (c - 71)
    else if leb b'0' c && leb c b'9'
    then some (c + 4)
    else if c == b'-'
    then some 62
    else if c == b'_'
    then some 63
    else none

-- The sextets of the bytes.
unpack : List ℕ → List ℕ
unpack [] = []
unpack (a ∷ []) = (a / 4) ∷ ((a % 4) * 16) ∷ []
unpack (a ∷ b ∷ []) = (a / 4) ∷ ((a % 4) * 16 + b / 16) ∷ ((b % 16) * 4) ∷ []
unpack (a ∷ b ∷ c ∷ rest) =
    (a / 4) ∷ ((a % 4) * 16 + b / 16) ∷ ((b % 16) * 4 + c / 64) ∷ (c % 64) ∷ unpack rest

abbrev map_some {ℓ} : {A : Type ℓ} → (A → A) → Option A → Option A
map_some f none = none
map_some f (some a) = some (f a)

-- The bytes of the sextets; one sextet alone is an error.
pack : List ℕ → Option (List ℕ)
pack [] = some []
pack (a ∷ []) = none
pack (a ∷ b ∷ []) = some ((a * 4 + b / 16) ∷ [])
pack (a ∷ b ∷ c ∷ []) = some ((a * 4 + b / 16) ∷ ((b % 16) * 16 + c / 4) ∷ [])
pack (a ∷ b ∷ c ∷ d ∷ rest) =
    map_some (λ tail. (a * 4 + b / 16) ∷ ((b % 16) * 16 + c / 4) ∷ ((c % 4) * 64 + d) ∷ tail)
      (pack rest)

-- Every character's sextet, or none.
sextets : List ℕ → Option (List ℕ)
unfolding char_sextet
sextets [] = some []
sextets (c ∷ cs) =
    let rest = sextets cs in
    elim (char_sextet c) [ none ↦ none | some v ↦ map_some (λ vs. v ∷ vs) rest ]

abbrev is_break : ℕ → Bool
is_break c = c == 10 || c == 13

-- RawURLEncoding.EncodeToString
unfoldable pub encode_raw_url : Bytes → Bytes
unfolding unpack sextet_char
encode_raw_url s = map sextet_char (unpack s)

-- RawURLEncoding.DecodeString
unfoldable pub decode_raw_url : Bytes → Option Bytes
unfolding sextets pack
decode_raw_url s = elim (sextets (keep (λ c. not (is_break c)) s)) [
  | none ↦ none
  | some vs ↦ pack vs
]

abbrev pub IsByte : ℕ → Type 0
IsByte c = c < 256

char_sextet-sextet_char : (v : ℕ) → v < 64 → char_sextet (sextet_char v) ≡ some v
unfolding char_sextet sextet_char
char_sextet-sextet_char v h = ground arith

sextet_char-not_break : (v : ℕ) → v < 64 → is_break (sextet_char v) ≡ false
unfolding sextet_char
sextet_char-not_break v h = ground arith

keep-sextet_chars :
    (vs : List ℕ)
    → All (λ v. v < 64) vs
    → keep (λ c. not (is_break c)) (map sextet_char vs) ≡ map sextet_char vs
keep-sextet_chars [] h = refl
keep-sextet_chars (v ∷ vs) h = ground (arith, keep-sextet_chars vs, sextet_char-not_break v)

sextets-sextet_chars : (vs : List ℕ) → All (λ v. v < 64) vs → sextets (map sextet_char vs) ≡ some vs
unfolding sextets
sextets-sextet_chars [] h = refl
sextets-sextet_chars (v ∷ vs) h = ground (arith, sextets-sextet_chars vs, char_sextet-sextet_char v)

unpack-sextets : (s : List ℕ) → All IsByte s → All (λ v. v < 64) (unpack s)
unfolding unpack
unpack-sextets [] h = tt
unpack-sextets (a ∷ []) h = ground arith
unpack-sextets (a ∷ b ∷ []) h = ground arith
unpack-sextets (a ∷ b ∷ c ∷ rest) h = ground (arith, unpack-sextets rest)

pack-unpack : (s : List ℕ) → All IsByte s → pack (unpack s) ≡ some s
unfolding pack unpack
pack-unpack [] h = refl
pack-unpack (a ∷ []) h = ground arith
pack-unpack (a ∷ b ∷ []) h = ground arith
pack-unpack (a ∷ b ∷ c ∷ rest) h = ground (arith, pack-unpack rest)

-- What is encoded is decoded again.
pub decode-encode_raw_url : (s : Bytes) → All IsByte s → decode_raw_url (encode_raw_url s) ≡ some s
unfolding decode_raw_url encode_raw_url
decode-encode_raw_url s h = ground (
  arith,
  keep-sextet_chars (unpack s) (unpack-sextets s h),
  sextets-sextet_chars (unpack s) (unpack-sextets s h),
  pack-unpack s h,
)

pub encode_raw_url-ne-nil : (s : Bytes) → s ≢ [] → encode_raw_url s ≢ []
unfolding encode_raw_url unpack
encode_raw_url-ne-nil [] h e = h refl
encode_raw_url-ne-nil (a ∷ []) h e = ground arith
encode_raw_url-ne-nil (a ∷ b ∷ []) h e = ground arith
encode_raw_url-ne-nil (a ∷ b ∷ c ∷ s) h e = ground arith
