-- ===== src/Service/Cursor/RoundTrip.antt =====
-- A position that was packed is read back.
use ochakai.Common.{
  ℕ, false, List, [], ◌∷◌, Option, none, some, ◌≡◌, ◌≢◌, refl, ◌∙◌, arith, if◌then◌else◌, length,
  All, All-append,
}
use ochakai.Common.Result.{ok, err, ◌>>=◌}
use ochakai.Text.{Bytes, has_byte}
use ochakai.Text.Split.{join, split-join}
use ochakai.Text.Base64.{IsByte, decode-encode_raw_url, encode_raw_url-ne-nil}
use ochakai.Service.Cursor.{
  malformed, belongs_to, cursor_version, key_part, position_parts, encode_cursor, read_key,
  read_position, named_back, read_parts, decode_cursor,
}

-- Bytes with no zero byte, which the cursor's parts are separated by.
abbrev pub IsPlain : Bytes → Type 0
IsPlain s = All IsByte s × (has_byte 0 s ≡ false)

abbrev pub IsPlainKey : Option Bytes → Type 0
IsPlainKey none = Unit
IsPlainKey (some k) = IsPlain k

key_part-IsPlain : (k : Option Bytes) → IsPlainKey k → IsPlain (key_part k)
unfolding key_part
key_part-IsPlain none h = ground arith
key_part-IsPlain (some k) h = ground arith

position_parts-IsPlain :
    (keys : List (Option Bytes)) (id : Bytes)
    → All IsPlainKey keys
    → IsPlain id
    → All IsPlain (position_parts keys id)
unfolding position_parts
position_parts-IsPlain [] id h p = (p, tt)
position_parts-IsPlain (k ∷ keys) id (h, hs) p =
    (key_part-IsPlain k h, position_parts-IsPlain keys id hs p)

join-IsByte : (parts : List Bytes) → All IsPlain parts → All IsByte (join 0 parts)
unfolding join
join-IsByte [] h = tt
join-IsByte (p ∷ []) ((h, _), _) = h
join-IsByte (p ∷ q ∷ parts) ((h, _), hs) =
    All-append IsByte p (0 ∷ join 0 (q ∷ parts)) h (omega arith, join-IsByte (q ∷ parts) hs)

IsPlain-lacks : (parts : List Bytes) → All IsPlain parts → All (λ q. has_byte 0 q ≡ false) parts
IsPlain-lacks [] h = tt
IsPlain-lacks (p ∷ parts) ((_, h), hs) = (h, IsPlain-lacks parts hs)

read_key-key_part : (k : Option Bytes) → read_key (key_part k) ≡ ok k
unfolding read_key key_part
read_key-key_part none = ground arith
read_key-key_part (some k) = ground arith

-- The parts behind the listing's name are an id after its keys.
record IsLaidOut (keys : List (Option Bytes)) (id : Bytes) : Type 0 where
  first : Bytes
  rest : List Bytes
  parts : position_parts keys id ≡ first ∷ rest
  counted : length rest ≡ length keys
  read : read_position first rest ≡ ok (record { keys = keys; id = id })

position_parts-IsLaidOut : (keys : List (Option Bytes)) (id : Bytes) → IsLaidOut keys id
unfolding position_parts read_position
position_parts-IsLaidOut [] id = record {
  first = id;
  rest = [];
  parts = refl;
  counted = refl;
  read = refl;
}
position_parts-IsLaidOut (k ∷ keys) id = one_more (position_parts-IsLaidOut keys id)
  where
    one_more : IsLaidOut keys id → IsLaidOut (k ∷ keys) id
    one_more p = record {
      first = key_part k;
      rest = p.first ∷ p.rest;
      parts = rw (p.parts) refl;
      counted = omega (arith, p.counted);
      read = rw (read_key-key_part k, p.read) refl;
    }

module _ (sort : Bytes) (keys : List (Option Bytes)) (id : Bytes) where
  -- A cursor's parts.
  cursor_parts : List Bytes
  cursor_parts = cursor_version ∷ sort ∷ position_parts keys id

  pub encode_cursor-ne-nil : encode_cursor sort keys id ≢ []
  unfolding encode_cursor join
  encode_cursor-ne-nil = encode_raw_url-ne-nil _ (λ e. cc e)

  cursor_parts-IsPlain : IsPlain sort → All IsPlainKey keys → IsPlain id → All IsPlain cursor_parts
  unfolding cursor_parts
  cursor_parts-IsPlain s ks i = (ground arith, (s, position_parts-IsPlain keys id ks i))

  decode_parts :
      (other : Bytes) (want : ℕ)
      → IsPlain sort
      → All IsPlainKey keys
      → IsPlain id
      → decode_cursor (encode_cursor sort keys id) other want
        ≡ (read_parts cursor_parts other want >>= λ after. ok (some after))
  unfolding decode_cursor encode_cursor cursor_parts
  decode_parts other want s ks i = ground (
    arith,
    encode_cursor-ne-nil,
    decode-encode_raw_url (join 0 cursor_parts)
        (join-IsByte cursor_parts (cursor_parts-IsPlain s ks i)),
    split-join 0 cursor_version (sort ∷ position_parts keys id)
        (IsPlain-lacks cursor_parts (cursor_parts-IsPlain s ks i)),
  )

  -- A position that was packed for a listing is read back for it: its keys, absent ones included,
  -- and its id. The name of the listing, the keys and the id hold no zero byte.
  pub decode-encode_cursor :
      IsPlain sort
      → All IsPlainKey keys
      → IsPlain id
      → decode_cursor (encode_cursor sort keys id) sort (length keys)
        ≡ ok (some (record { keys = keys; id = id }))
  unfolding read_parts cursor_parts
  decode-encode_cursor s ks i =
      decode_parts sort (length keys) s ks i ∙ read (position_parts-IsLaidOut keys id)
    where
      read :
          IsLaidOut keys id
          → (read_parts cursor_parts sort (length keys) >>= λ after. ok (some after))
            ≡ ok (some (record { keys = keys; id = id }))
      read p = ground (arith, p.parts, p.counted, p.read)

  -- It is refused by another listing, and where the listing is one that a refusal names, the
  -- refusal names it.
  pub decode-encode_other :
      (other : Bytes) (want : ℕ)
      → IsPlain sort
      → All IsPlainKey keys
      → IsPlain id
      → sort ≢ other
      → decode_cursor (encode_cursor sort keys id) other want
        ≡ err (if named_back sort then belongs_to sort other else malformed)
  unfolding read_parts cursor_parts
  decode-encode_other other want s ks i ne =
      decode_parts other want s ks i ∙ read (position_parts-IsLaidOut keys id)
    where
      read :
          IsLaidOut keys id
          → (read_parts cursor_parts other want >>= λ after. ok (some after))
            ≡ err (if named_back sort then belongs_to sort other else malformed)
      read p = ground (arith, p.parts)
