-- ===== src/Tests/Cursor.antt =====
-- Cursors of small listings.
use ochakai.Common.{
  ℕ, true, false, List, [], ◌∷◌, Option, none, some, ◌≡◌, refl, arith, if◌then◌else◌, length, All,
}
use ochakai.Common.Result.{ok, err}
use ochakai.Text.{Bytes, codes, ◌=?◌, bytes_discrete}
use ochakai.Text.Split.{join, split}
use ochakai.Text.Base64.{encode_raw_url, decode_raw_url}
use ochakai.Service.Cursor.{
  malformed, other_directory, encode_cursor, decode_cursor, SearchHit, sort_by_address,
  decode_browse_cursor, next_browse_cursor, cursor_version, position_parts,
}
use ochakai.Service.Cursor.RoundTrip.{IsPlain, IsPlainKey, decode-encode_cursor}
use ochakai.Service.Cursor.Accepted.{decode_cursor-ok}
use ochakai.Service.Cursor.Paging.{IsPlainHit}
use ochakai.Service.Cursor.Browse.{decode-next_browse_cursor, address_cursor-refused}

abbrev usage_name : Bytes
usage_name = codes "usage"

abbrev verified_name : Bytes
verified_name = codes "verified_at"

abbrev some_id : Bytes
some_id = codes "docs/a"

abbrev two_keys : List (Option Bytes)
two_keys = some (codes "12") ∷ none ∷ []

usage-IsPlain : IsPlain usage_name
usage-IsPlain = ground arith

verified-IsPlain : IsPlain verified_name
verified-IsPlain = ground arith

id-IsPlain : IsPlain some_id
id-IsPlain = ground arith

twelve-IsPlain : IsPlain (codes "12")
twelve-IsPlain = ground arith

keys-IsPlain : All IsPlainKey two_keys
keys-IsPlain = (twelve-IsPlain, (tt, tt))

encoded : encode_cursor usage_name two_keys some_id ≡ codes "MQB1c2FnZQA9MTIAfgBkb2NzL2E"
unfolding encode_cursor encode_raw_url join position_parts
encoded = refl

decode-encode_cursor_example :
    decode_cursor (encode_cursor usage_name two_keys some_id) usage_name 2
    ≡ ok (some (record { keys = two_keys; id = some_id }))
decode-encode_cursor_example =
    decode-encode_cursor usage_name two_keys some_id usage-IsPlain keys-IsPlain id-IsPlain

-- A line break inside the text changes nothing.
read_broken :
    decode_cursor (codes "MQB1c2Fn\nZQA9MTIAfgBkb2NzL2E") usage_name 2
    ≡ ok (some (record { keys = two_keys; id = some_id }))
unfolding decode_cursor decode_raw_url split bytes_discrete
read_broken = refl

decode_cursor-ok_example :
    (length two_keys ≡ 2)
    × (decode_raw_url (codes "MQB1c2Fn\nZQA9MTIAfgBkb2NzL2E")
        ≡ some (join 0 (cursor_version ∷ usage_name ∷ position_parts two_keys some_id)))
decode_cursor-ok_example =
    decode_cursor-ok (codes "MQB1c2Fn\nZQA9MTIAfgBkb2NzL2E") usage_name 2 read_broken

abbrev stamp : ℕ → Bytes
stamp t = codes "2026-01-01T00:00:00Z"

stamp-IsPlain : (t : ℕ) → IsPlain (stamp t)
stamp-IsPlain t = ground arith

abbrev some_hit : SearchHit ℕ
some_hit = record {
  id = some_id;
  stale_after = [];
  created_at = 7;
  verified_at = none;
  usage =
      some (record { fetches = 12; worked = 1; failed = 0; recent_fetches = 3; recent_failed = 0 });
}

some_hit-IsPlainHit : IsPlainHit some_hit
some_hit-IsPlainHit = record { id = id-IsPlain; stale_after = ground arith }

decode-next_browse_cursor_example :
    decode_browse_cursor
      (next_browse_cursor (codes "docs/") (some some_id) true none false)
      (codes "teams/")
    ≡ (if codes "docs/" =? codes "teams/"
        then ok (some (record { concepts = some some_id; files = none }))
        else err (other_directory (codes "docs/") (codes "teams/")))
decode-next_browse_cursor_example =
    decode-next_browse_cursor (codes "docs/") (some some_id) none true false (ground arith)
      id-IsPlain tt (codes "teams/") refl

address_cursor-refused_example :
    decode_cursor (encode_cursor sort_by_address [] some_id) usage_name 3 ≡ err malformed
address_cursor-refused_example =
    address_cursor-refused [] some_id usage_name 3 tt id-IsPlain (λ e. cc e)
