-- ===== src/Service/Listing.antt =====
-- internal/service/list.go: one page of a listing, and the walk of a caller who asks for page after
-- page. `query` is the listing's query of the store, which answers at most so many rows from a
-- position on; the limit and the filter have been checked before.
pub mod Walk
use ochakai.Common.{
  ℕ, zero, suc, ◌+◌, Bool, true, false, List, [], ◌∷◌, ◌++◌, Option, ltb, if◌then◌else◌, length,
  take,
}
use ochakai.Common.Result.{Result, ok, err, ◌>>=◌}
use ochakai.Text.{Bytes, ◌=?◌}
use ochakai.Service.Cursor.{
  After, CursorError, SearchHit, decode_cursor, cursor_sort_keys, next_cursor,
}

-- Listing
pub record Listing (Time : Type 0) : Type 0 where
  pub hits : List (SearchHit Time)
  pub cursor : Bytes

module _ {Time : Type 0} (format : Time → Bytes) (zero_time : Time)
    (query : Option After → ℕ → List (SearchHit Time)) (sort : Bytes) where
  -- One row beyond the page tells whether there is more.
  unfoldable pub page_of : ℕ → List (SearchHit Time) → Listing Time
  page_of limit rows =
      let more = ltb limit (length rows) in
      let hits = if more then take limit rows else rows in
      record { hits = hits; cursor = next_cursor format sort hits more }

  -- Service.list
  unfoldable pub list_page : ℕ → Bytes → Result CursorError (Listing Time)
  unfolding page_of
  list_page limit cursor = do
    after ← decode_cursor cursor sort (cursor_sort_keys format zero_time sort)
    ok (page_of limit (query after (limit + 1)))

  -- All hits of at most so many pages, from a cursor on, until a page has none.
  unfoldable pub walk : ℕ → ℕ → Bytes → Result CursorError (List (SearchHit Time))
  walk limit zero cursor = ok []
  walk limit (suc pages) cursor = do
    page ← list_page limit cursor
    let rest = walk limit pages page.cursor
    if page.cursor =? [] then ok page.hits else (do behind ← rest; ok (page.hits ++ behind))
