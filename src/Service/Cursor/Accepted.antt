-- ===== src/Service/Cursor/Accepted.antt =====
-- What an accepted cursor says.
use ochakai.Common.{ℕ, List, [], ◌∷◌, Option, none, some, ◌≡◌, refl, sym, ap, ◌∙◌, arith, length}
use ochakai.Common.Result.{Result, ok, ◌>>=◌, bind-eq-ok}
use ochakai.Text.{Bytes}
use ochakai.Text.Split.{split, join, join-split}
use ochakai.Text.Base64.{decode_raw_url}
use ochakai.Service.Cursor.{
  After, CursorError, cursor_version, key_part, position_parts, read_key, read_position, read_parts,
  decode_cursor,
}

-- What a position that was read says of the parts it was read from.
abbrev ReadFrom : After → Bytes → List Bytes → Type 0
ReadFrom a p ps = (position_parts a.keys a.id ≡ p ∷ ps) × (length a.keys ≡ length ps)

key_part-read_key : (q : Bytes) {k : Option Bytes} → read_key q ≡ ok k → key_part k ≡ q
unfolding read_key key_part
key_part-read_key [] h = cc
key_part-read_key (c ∷ v) {k = none} h = ground arith
key_part-read_key (c ∷ v) {k = some w} h = ground arith

abbrev add_key : Option Bytes → After → Result CursorError After
add_key k b = ok (record b { keys = k ∷ b.keys })

read_position-ReadFrom :
    (p : Bytes) (ps : List Bytes) {a : After} → read_position p ps ≡ ok a → ReadFrom a p ps
unfolding read_position position_parts
read_position-ReadFrom p [] h = ground arith
read_position-ReadFrom p (q ∷ ps) {a} h =
    with_key (λ b f. read_position-ReadFrom q ps {a = b} f)
      (bind-eq-ok (read_key p) (λ k. read_position q ps >>= add_key k) h)
  where
    with_rest :
        ((b : After) → read_position q ps ≡ ok b → ReadFrom b q ps)
        → (k : Option Bytes) → read_key p ≡ ok k
        → (b : After) × (read_position q ps ≡ ok b) × (add_key k b ≡ ok a)
        → ReadFrom a p (q ∷ ps)
    with_rest ih k e (b, f, g) = ground (arith, key_part-read_key p e, (ih b f).0, (ih b f).1)

    with_key :
        ((b : After) → read_position q ps ≡ ok b → ReadFrom b q ps)
        → (k : Option Bytes) × (read_key p ≡ ok k) × ((read_position q ps >>= add_key k) ≡ ok a)
        → ReadFrom a p (q ∷ ps)
    with_key ih (k, e, g) = with_rest ih k e (bind-eq-ok (read_position q ps) (add_key k) g)

read_parts-ok :
    (parts : List Bytes) (sort : Bytes) (want : ℕ) {a : After}
    → read_parts parts sort want ≡ ok a
    → (parts ≡ cursor_version ∷ sort ∷ position_parts a.keys a.id) × (length a.keys ≡ want)
unfolding read_parts
read_parts-ok [] sort want h = absurd (ground arith)
read_parts-ok (v ∷ []) sort want h = absurd (ground arith)
read_parts-ok (v ∷ l ∷ []) sort want h = absurd (ground arith)
read_parts-ok (v ∷ l ∷ p ∷ ps) sort want {a} h = (
  ground (arith, read_position-ReadFrom p ps {a = a}),
  ground (arith, read_position-ReadFrom p ps {a = a}),
)

-- A cursor that is accepted for a listing decodes to the text of exactly the position it is read
-- as, with as many keys as the listing orders by: the listing's name, the keys and the id after the
-- version, separated by zero bytes.
pub decode_cursor-ok :
    (enc sort : Bytes) (want : ℕ) {a : After}
    → decode_cursor enc sort want ≡ ok (some a)
    → (length a.keys ≡ want)
      × (decode_raw_url enc ≡ some (join 0 (cursor_version ∷ sort ∷ position_parts a.keys a.id)))
unfolding decode_cursor
decode_cursor-ok enc sort want {a} h = decoded (decode_raw_url enc) refl
  where
    decoded :
        (o : Option Bytes)
        → decode_raw_url enc ≡ o
        → (length a.keys ≡ want)
          × (decode_raw_url enc
              ≡ some (join 0 (cursor_version ∷ sort ∷ position_parts a.keys a.id)))
    decoded none e = absurd (ground arith)
    decoded (some raw) e = from_parts (read_parts-ok (split 0 raw) sort want (ground arith))
      where
        from_parts :
            (split 0 raw ≡ cursor_version ∷ sort ∷ position_parts a.keys a.id)
              × (length a.keys ≡ want)
            → (length a.keys ≡ want)
              × (decode_raw_url enc
                  ≡ some (join 0 (cursor_version ∷ sort ∷ position_parts a.keys a.id)))
        from_parts (p, n) = (n, e ∙ ap some (sym (join-split 0 raw) ∙ ap (join 0) p))
