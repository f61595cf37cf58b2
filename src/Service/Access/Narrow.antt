-- ===== src/Service/Access/Narrow.antt =====
-- `narrow` and `intersect`: the caller's read scope forced onto a listing's filter.
pub mod Laws
use ochakai.Common.{
  Bool, true, false, not, ◌&&◌, ◌||◌, List, [], ◌∷◌, ◌++◌, Option, none, some, if◌then◌else◌,
  length, any, ◌==◌,
}
use ochakai.Common.Result.{Result, ok, err, ◌>>=◌}
use ochakai.Text.{Bytes, ◌=?◌}
use ochakai.Domain.Actor.{Actor}
use ochakai.Domain.Access.{under}
use ochakai.Service.Access.{Platform, Service, Fault, Scope, reads_whole_bundle, scope}

-- store.Filter; the pairs of `frontmatter` are those of the map.
pub record Filter : Type 0 where
  pub types : List Bytes
  pub statuses : List Bytes
  pub tags : List Bytes
  pub source : Bytes
  pub links_to : Bytes
  pub prefixes : List Bytes
  pub created_by : List Bytes
  pub trust : List Bytes
  pub frontmatter : List (Bytes × Bytes)

-- The switch of `intersect`: the narrower of two prefixes, or `continue`.
unfoldable pub narrower : Bytes → Bytes → Option Bytes
narrower want have =
    if under want have then some want else if under have want then some have else none

-- `if !seen[keep]`: the map holds what `out` holds.
unfoldable pub add_new : Option Bytes → List Bytes → List Bytes
add_new none out = out
add_new (some keep) out = if any (λ o. o =? keep) out then out else out ++ keep ∷ []

-- The inner loop, over the granted prefixes.
unfoldable pub intersect_one : Bytes → List Bytes → List Bytes → List Bytes
unfolding narrower add_new
intersect_one want [] out = out
intersect_one want (have ∷ granted) out =
    intersect_one want granted (add_new (narrower want have) out)

-- The outer loop, over the requested ones.
unfoldable pub intersect_from : List Bytes → List Bytes → List Bytes → List Bytes
unfolding intersect_one
intersect_from [] granted out = out
intersect_from (want ∷ requested) granted out =
    intersect_from requested granted (intersect_one want granted out)

-- intersect
unfoldable pub intersect : List Bytes → List Bytes → List Bytes
unfolding intersect_from
intersect requested granted = intersect_from requested granted []

-- What `narrow` does once the scope is known.
unfoldable pub narrow_to : Scope → Filter → Filter × Bool
unfolding intersect
narrow_to sc f =
    if reads_whole_bundle sc
    then (f, true)
    else if length sc.read == 0
    then (f, false)
    else if length f.prefixes == 0
    then (record f { prefixes = sc.read }, true)
    else let both = intersect f.prefixes sc.read in
      (record f { prefixes = both }, not (length both == 0))

-- Service.narrow
unfoldable pub narrow : Platform → Service → Actor → Filter → Result Fault (Filter × Bool)
unfolding narrow_to
narrow pl s caller f = do sc ← scope pl s caller; ok (narrow_to sc f)
