-- ===== src/Domain/Segments.antt =====
-- internal/domain/knowledge.go, validSegment to ValidIDPrefix, ConceptPath and DisplayTitle, and the
-- path rules of internal/domain/file.go. A `for` over the segments is a test of every one.
pub mod Laws
use ochakai.Common.{
  ℕ, ◌+◌, Bool, true, false, not, ◌&&◌, ◌||◌, List, [], ◌∷◌, ◌++◌, Option, none, some, ltb, ◌==◌,
  if◌then◌else◌, length, every,
}
use ochakai.Text.{Bytes, codes, ◌=?◌, has_prefix, cut_suffix}
use ochakai.Text.Split.{split}
use ochakai.Text.Utf8.{valid_string, runes}

abbrev pub slash : ℕ
slash = b'/'

abbrev pub allowed_rune : ℕ → Bool
allowed_rune r = not (ltb r 0x20 || r == 0x7F || r == slash)

-- validSegment
unfoldable pub valid_segment : Bytes → Bool
valid_segment s =
    if s =? [] || ltb 128 (length s) || has_prefix s (codes ".") || not (valid_string s)
    then false
    else every allowed_rune (runes s)

-- segs[len(segs)-1]
last_segment : List Bytes → Bytes
last_segment [] = []
last_segment (s ∷ []) = s
last_segment (s ∷ t ∷ r) = last_segment (t ∷ r)

-- ValidID
unfoldable pub valid_id : Bytes → Bool
unfolding last_segment
valid_id id =
    if id =? [] || ltb 512 (length id)
    then false
    else let segs = split slash id in
      if not (every valid_segment segs)
      then false
      else not (last_segment segs =? codes "index") && not (last_segment segs =? codes "log")

-- ValidIDPrefix
unfoldable pub valid_id_prefix : Bytes → Bool
valid_id_prefix prefix =
    if prefix =? []
    then true
    else if ltb 512 (length prefix)
    then false
    else every valid_segment (split slash prefix)

-- ReservedBundleName
unfoldable pub reserved_bundle_name : Bytes → Bool
reserved_bundle_name name = name =? codes "index.md" || name =? codes "log.md"

-- ValidBundlePath
unfoldable pub valid_bundle_path : Bytes → Bool
unfolding last_segment reserved_bundle_name
valid_bundle_path p =
    if p =? [] || ltb 512 (length p)
    then false
    else let segs = split slash p in
      if not (every valid_segment segs)
      then false
      else not (reserved_bundle_name (last_segment segs))

-- ConceptPath
unfoldable pub concept_path : Bytes → Bytes
concept_path id = id ++ codes ".md"

-- ConceptID
unfoldable pub concept_id : Bytes → Option Bytes
concept_id path = cut_suffix path (codes ".md")

-- DisplayTitle: the title, or the id from behind its last slash.
unfoldable pub display_title : Bytes → Bytes → Bytes
unfolding last_segment
display_title title id = if not (title =? []) then title else last_segment (split slash id)
