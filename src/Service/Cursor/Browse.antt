-- ===== src/Service/Cursor/Browse.antt =====
-- Cursors of a directory's level, and cursors of another listing.
use ochakai.Common.{
  ℕ, Bool, true, false, ◌||◌, List, [], ◌∷◌, Option, some, ◌≡◌, ◌≢◌, sym, arith, if◌then◌else◌, All,
}
use ochakai.Common.Result.{ok, err}
use ochakai.Text.{Bytes, ◌=?◌, bytes_discrete}
use ochakai.Service.Cursor.{
  malformed, other_directory, encode_cursor, decode_cursor, browse_listing, sort_by_address,
  browse_after, decode_browse_cursor, next_browse_cursor, stopped_at,
}
use ochakai.Service.Cursor.RoundTrip.{
  IsPlain, IsPlainKey, decode-encode_cursor, decode-encode_other,
}

browse_listing-IsPlain : IsPlain browse_listing
browse_listing-IsPlain = ground arith

sort_by_address-IsPlain : IsPlain sort_by_address
sort_by_address-IsPlain = ground arith

stopped_at-IsPlain :
    (last : Option Bytes) (more : Bool) → IsPlainKey last → IsPlainKey (stopped_at last more)
stopped_at-IsPlain last true h = h
stopped_at-IsPlain last false h = tt

module _ (prefix : Bytes) (concepts files : Option Bytes) (more_concepts more_files : Bool)
    (prefix-IsPlain : IsPlain prefix) (concepts-IsPlain : IsPlainKey concepts)
    (files-IsPlain : IsPlainKey files) where
  level_cursor : Bytes
  level_cursor = next_browse_cursor prefix concepts more_concepts files more_files

  decode-level_cursor :
      (more_concepts || more_files) ≡ true
      → decode_cursor level_cursor browse_listing 2
        ≡ ok (
            some (record {
              keys = stopped_at concepts more_concepts ∷ stopped_at files more_files ∷ [];
              id = prefix;
            }))
  unfolding level_cursor next_browse_cursor
  decode-level_cursor m = ground (
    arith,
    decode-encode_cursor browse_listing
        (stopped_at concepts more_concepts ∷ stopped_at files more_files ∷ []) prefix
        browse_listing-IsPlain
        (
          stopped_at-IsPlain concepts more_concepts concepts-IsPlain,
          (stopped_at-IsPlain files more_files files-IsPlain, tt),
        )
        prefix-IsPlain,
  )

  -- The cursor of a page of a directory, where either kind has more, is read back in that directory
  -- as the two positions, absent for a kind that ran out, and is refused in any other directory,
  -- where the refusal names both. The texts hold no zero byte.
  pub decode-next_browse_cursor :
      (here : Bytes)
      → (more_concepts || more_files) ≡ true
      → decode_browse_cursor
          (next_browse_cursor prefix concepts more_concepts files more_files)
          here
        ≡ (if prefix =? here
            then ok (
                some (record {
                  concepts = stopped_at concepts more_concepts;
                  files = stopped_at files more_files;
                }))
            else err (other_directory prefix here))
  unfolding decode_browse_cursor browse_after level_cursor
  decode-next_browse_cursor here m = ground (arith, decode-level_cursor m)

-- A cursor of the plain enumeration is answered as malformed by every other listing, although the
-- server handed it out. The keys and the id hold no zero byte.
pub address_cursor-refused :
    (keys : List (Option Bytes)) (id other : Bytes) (want : ℕ)
    → All IsPlainKey keys
    → IsPlain id
    → other ≢ sort_by_address
    → decode_cursor (encode_cursor sort_by_address keys id) other want ≡ err malformed
unfolding bytes_discrete
address_cursor-refused keys id other want ks i ne =
    decode-encode_other sort_by_address keys id other want sort_by_address-IsPlain ks i
      (λ e. ne (sym e))
