-- ===== src/Service/Cursor.antt =====
-- internal/service/cursor.go and the cursors of internal/service/browse.go: where the next page of
-- a listing resumes. Times are of any type `Time` with `format`, the print of
-- `t.UTC().Format(time.RFC3339Nano)`. A count is a natural number.
pub mod RoundTrip
pub mod Accepted
pub mod Paging
pub mod Browse
pub mod Count
use ochakai.Common.{
  ℕ, zero, suc, ◌+◌, ◌/◌, ◌%◌, Bool, true, false, not, ◌&&◌, ◌||◌, List, [], ◌∷◌, ◌++◌, Option,
  none, some, ltb, ◌==◌, if◌then◌else◌, length, any,
}
use ochakai.Common.Result.{Result, ok, err, ◌>>=◌}
use ochakai.Text.{Bytes, codes, ◌=?◌}
use ochakai.Text.Split.{split, join}
use ochakai.Text.Base64.{encode_raw_url, decode_raw_url}

abbrev pub cursor_version : Bytes
cursor_version = codes "1"

abbrev pub cursor_null : Bytes
cursor_null = codes "~"

-- domain.ListSorts
abbrev pub list_sorts : List Bytes
list_sorts = codes "verified_at" ∷ codes "usage" ∷ codes "failed" ∷ codes "stale_after" ∷ []

abbrev pub sort_by_source : Bytes
sort_by_source = codes "source"

abbrev pub sort_by_links_to : Bytes
sort_by_links_to = codes "links_to"

abbrev pub sort_by_address : Bytes
sort_by_address = codes "address"

abbrev pub browse_listing : Bytes
browse_listing = codes "bundle"

-- store.After; an absent key is a nil pointer.
pub record After : Type 0 where
  pub keys : List (Option Bytes)
  pub id : Bytes

pub data CursorError : Type 0 where
  malformed : CursorError
  belongs_to : Bytes → Bytes → CursorError
  other_directory : Bytes → Bytes → CursorError

unfoldable pub key_part : Option Bytes → Bytes
key_part none = cursor_null
key_part (some k) = b'=' ∷ k

-- The loop over the keys, and the id behind them.
unfoldable pub position_parts : List (Option Bytes) → Bytes → List Bytes
unfolding key_part
position_parts [] id = id ∷ []
position_parts (k ∷ keys) id = key_part k ∷ position_parts keys id

-- encodeCursor
unfoldable pub encode_cursor : Bytes → List (Option Bytes) → Bytes → Bytes
unfolding position_parts
encode_cursor sort keys id =
    encode_raw_url (join 0 (cursor_version ∷ sort ∷ position_parts keys id))

-- The switch on one key.
unfoldable pub read_key : Bytes → Result CursorError (Option Bytes)
read_key [] = err malformed
read_key (c ∷ v) =
    if c ∷ v =? cursor_null then ok none else if c == b'=' then ok (some v) else err malformed

-- The keys and, last, the id.
unfoldable pub read_position : Bytes → List Bytes → Result CursorError After
unfolding read_key
read_position p [] = ok (record { keys = []; id = p })
read_position p (q ∷ ps) = do
  key ← read_key p
  after ← read_position q ps
  ok (record after { keys = key ∷ after.keys })

-- The listings that a refusal names.
abbrev pub named_back : Bytes → Bool
named_back listing =
    any (λ s. s =? listing) list_sorts
    || listing =? sort_by_source
    || listing =? sort_by_links_to
    || listing =? browse_listing

unfoldable pub read_parts : List Bytes → Bytes → ℕ → Result CursorError After
unfolding read_position
read_parts [] sort want = err malformed
read_parts (version ∷ []) sort want = err malformed
read_parts (version ∷ listing ∷ []) sort want = err malformed
read_parts (version ∷ listing ∷ p ∷ ps) sort want =
    if not (version =? cursor_version)
    then err malformed
    else if not (listing =? sort)
    then (if named_back listing then err (belongs_to listing sort) else err malformed)
    else if not (length (version ∷ listing ∷ p ∷ ps) == want + 3)
    then err malformed
    else read_position p ps

-- decodeCursor; no position for an empty cursor.
unfoldable pub decode_cursor : Bytes → Bytes → ℕ → Result CursorError (Option After)
unfolding read_parts
decode_cursor enc sort want = if enc =? [] then ok none else elim (decode_raw_url enc) [
  | none ↦ err malformed
  | some raw ↦ (do after ← read_parts (split 0 raw) sort want; ok (some after))
]

-- strconv.FormatInt at base 10; the fuel is the number of digits that are allowed.
unfoldable pub digits : ℕ → ℕ → Bytes
digits zero n = []
digits (suc fuel) n =
    let rest = digits fuel (n / 10) in
    if ltb n 10 then (n + 48) ∷ [] else rest ++ (n % 10 + 48) ∷ []

-- An int64 has at most 19 digits.
abbrev pub format_int : ℕ → Bytes
format_int n = digits 19 n

-- The part of domain.Usage that the feeds order by.
pub record Usage : Type 0 where
  pub fetches : ℕ
  pub worked : ℕ
  pub failed : ℕ
  pub recent_fetches : ℕ
  pub recent_failed : ℕ

abbrev pub no_usage : Usage
no_usage = record { fetches = 0; worked = 0; failed = 0; recent_fetches = 0; recent_failed = 0 }

-- The part of domain.SearchHit that the feeds order by.
pub record SearchHit (Time : Type 0) : Type 0 where
  pub id : Bytes
  pub stale_after : Bytes
  pub created_at : Time
  pub verified_at : Option Time
  pub usage : Option Usage

-- usageOf
unfoldable pub usage_of : Option Usage → Usage
usage_of none = no_usage
usage_of (some u) = u

-- The last hit of a page.
unfoldable pub last_hit : {Time : Type 0} → SearchHit Time → List (SearchHit Time) → SearchHit Time
last_hit h [] = h
last_hit h (k ∷ hits) = last_hit k hits

module _ {Time : Type 0} (format : Time → Bytes) where
  -- cursorTime
  unfoldable pub cursor_time : Option Time → Option Bytes
  cursor_time none = none
  cursor_time (some t) = some (format t)

  -- cursorKeys; the listings without a case order by id alone.
  unfoldable pub cursor_keys : Bytes → SearchHit Time → List (Option Bytes)
  unfolding cursor_time usage_of
  cursor_keys sort h =
      let u = usage_of h.usage in
      if sort =? codes "verified_at"
      then cursor_time h.verified_at ∷ []
      else if sort =? codes "stale_after"
      then some h.stale_after ∷ []
      else if sort =? codes "usage"
      then some (format_int u.recent_fetches)
        ∷ some (format_int u.fetches)
        ∷ cursor_time (some h.created_at)
        ∷ []
      else if sort =? codes "failed"
      then some (format_int u.recent_failed)
        ∷ some (format_int u.failed)
        ∷ some (format_int u.worked)
        ∷ cursor_time h.verified_at
        ∷ []
      else []

  -- nextCursor
  unfoldable pub next_cursor : Bytes → List (SearchHit Time) → Bool → Bytes
  unfolding last_hit
  next_cursor sort [] more = []
  next_cursor sort (h ∷ hits) more =
      if not more
      then []
      else let last = last_hit h hits in encode_cursor sort (cursor_keys sort last) last.id

-- The zero domain.SearchHit, at any time.
abbrev pub zero_hit : {Time : Type 0} → Time → SearchHit Time
zero_hit t = record { id = []; stale_after = []; created_at = t; verified_at = none; usage = none }

-- cursorSortKeys, of which the zero time is an argument.
unfoldable pub cursor_sort_keys : {Time : Type 0} → (Time → Bytes) → Time → Bytes → ℕ
unfolding cursor_keys
cursor_sort_keys format t sort = length (cursor_keys format sort (zero_hit t))

-- store.BrowseAfter
pub record BrowseAfter : Type 0 where
  pub concepts : Option Bytes
  pub files : Option Bytes

-- `after.Keys[0], after.Keys[1]`, which decodeCursor has counted.
browse_after : List (Option Bytes) → Option BrowseAfter
browse_after (c ∷ f ∷ _) = some (record { concepts = c; files = f })
browse_after _ = none

-- decodeBrowseCursor
unfoldable pub decode_browse_cursor : Bytes → Bytes → Result CursorError (Option BrowseAfter)
unfolding browse_after
decode_browse_cursor cursor prefix = do
  after ← decode_cursor cursor browse_listing 2
  elim after [
    | none ↦ ok none
    | some a ↦
        if not (a.id =? prefix) then err (other_directory a.id prefix) else ok (browse_after a.keys)
  ]

-- A page's last address where the kind has more, and nothing where it ran out.
abbrev pub stopped_at : Option Bytes → Bool → Option Bytes
stopped_at last more = if more then last else none

-- nextBrowseCursor; `concepts` and `files` are the last addresses of the page, which a kind that has
-- more has.
unfoldable pub next_browse_cursor : Bytes → Option Bytes → Bool → Option Bytes → Bool → Bytes
next_browse_cursor prefix concepts more_concepts files more_files =
    if not more_concepts && not more_files
    then []
    else encode_cursor browse_listing
        (stopped_at concepts more_concepts ∷ stopped_at files more_files ∷ []) prefix
