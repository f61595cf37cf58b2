-- ===== src/Service/Access/Narrow/Laws.antt =====
-- The narrowed filter asks for exactly what was asked for and may be read.
use ochakai.Common.{
  Bool, true, false, not, ◌&&◌, ◌||◌, List, [], ◌∷◌, Option, none, some, length, any, any-append,
  ◌==◌, ◌≡◌, refl, sym, ap, ◌∙◌, ◌↔◌, inl, inr, arith, Bool-cases,
}
use ochakai.Common.Result.{ok, bind-eq-ok}
use ochakai.Text.{Bytes, ◌=?◌}
use ochakai.Domain.Actor.{Actor}
use ochakai.Domain.Access.{under}
use ochakai.Domain.Access.Under.{under_trans, under_comparable, under_root}
use ochakai.Service.Access.{
  Platform, Service, Scope, under_any, reads_whole_bundle, scope_may_read, scope, may_read,
}
use ochakai.Service.Access.Narrow.{
  Filter, narrower, add_new, intersect_one, intersect_from, intersect, narrow_to, narrow,
}

-- What the switch keeps covers what both prefixes cover.
abbrev covers_kept : Bytes → Option Bytes → Bool
covers_kept id none = false
covers_kept id (some p) = under id p

covers_kept-narrower :
    (id want have : Bytes) → covers_kept id (narrower want have) ≡ (under id want && under id have)
unfolding narrower
covers_kept-narrower id want have =
    ground
      (arith, under_trans id want have, under_trans id have want, under_comparable id want have)

add_new-covers :
    (id : Bytes) (k : Option Bytes) (out : List Bytes)
    → under_any id (add_new k out) ≡ (under_any id out || covers_kept id k)
unfolding add_new
add_new-covers id none out = ground arith
add_new-covers id (some p) out = elim (Bool-cases (any (λ o. o =? p) out)) [
  | inl old ↦ rw old (ground (arith, seen_covers out old))
  | inr new ↦ rw new (ground (arith, any-append (λ q. under id q) out (p ∷ [])))
]
  where
    seen_covers :
        (l : List Bytes) → any (λ o. o =? p) l ≡ true → under id p ≡ true → under_any id l ≡ true
    seen_covers [] h u = cc h
    seen_covers (o ∷ l) h u = ground (arith, seen_covers l)

intersect_one-covers :
    (id want : Bytes) (granted out : List Bytes)
    → under_any id (intersect_one want granted out)
      ≡ (under_any id out || (under id want && under_any id granted))
unfolding intersect_one
intersect_one-covers id want [] out = ground arith
intersect_one-covers id want (have ∷ granted) out = ground (
  arith,
  intersect_one-covers id want granted (add_new (narrower want have) out),
  add_new-covers id (narrower want have) out,
  covers_kept-narrower id want have,
)

intersect_from-covers :
    (id : Bytes) (requested granted out : List Bytes)
    → under_any id (intersect_from requested granted out)
      ≡ (under_any id out || (under_any id requested && under_any id granted))
unfolding intersect_from
intersect_from-covers id [] granted out = ground arith
intersect_from-covers id (want ∷ requested) granted out = ground (
  arith,
  intersect_from-covers id requested granted (intersect_one want granted out),
  intersect_one-covers id want granted out,
)

-- The intersection covers exactly the addresses that both lists cover.
pub intersect-covers :
    (id : Bytes) (requested granted : List Bytes)
    → under_any id (intersect requested granted) ≡ (under_any id requested && under_any id granted)
unfolding intersect
intersect-covers id requested granted = intersect_from-covers id requested granted []

-- What a filter asks for: everything, if it names no prefix.
abbrev pub asks : List Bytes → Bytes → Bool
asks [] id = true
asks (p ∷ ps) id = under_any id (p ∷ ps)

root_covers : (id : Bytes) (ps : List Bytes) → any (λ p. p =? []) ps ≡ true → under_any id ps ≡ true
root_covers id [] h = cc h
root_covers id (p ∷ ps) h = ground (arith, root_covers id ps, under_root id)

whole_reads : (sc : Scope) (id : Bytes) → reads_whole_bundle sc ≡ true → scope_may_read sc id ≡ true
unfolding reads_whole_bundle scope_may_read
whole_reads sc id h = ground (arith, root_covers id sc.read)

-- What a listing may show: nothing, where `narrow` says that nothing is left.
abbrev pub shown : Filter × Bool → Bytes → Bool
shown (f, some_left) id = some_left && asks f.prefixes id

asks_some : (id : Bytes) (ps : List Bytes) → (not (length ps == 0) && asks ps id) ≡ under_any id ps
asks_some id [] = refl
asks_some id (p ∷ ps) = ground arith

narrow_scoped :
    (sc : Scope) (f : Filter) (id : Bytes) (ps rs : List Bytes)
    → f.prefixes ≡ ps
    → sc.read ≡ rs
    → reads_whole_bundle sc ≡ false
    → shown (narrow_to sc f) id ≡ (asks ps id && under_any id rs)
unfolding narrow_to
narrow_scoped sc f id ps [] e g h = ground arith
narrow_scoped sc f id [] (r ∷ rs) e g h = ground arith
narrow_scoped sc f id (p ∷ ps) (r ∷ rs) e g h =
    ground
      (arith, asks_some id (intersect (p ∷ ps) (r ∷ rs)), intersect-covers id (p ∷ ps) (r ∷ rs))

not_whole :
    (sc : Scope) (id : Bytes)
    → reads_whole_bundle sc ≡ false
    → scope_may_read sc id ≡ under_any id sc.read
unfolding reads_whole_bundle scope_may_read
not_whole sc id h = ground arith

narrow_to-shown :
    (sc : Scope) (f : Filter) (id : Bytes)
    → shown (narrow_to sc f) id ≡ (asks f.prefixes id && scope_may_read sc id)
narrow_to-shown sc f id = elim (Bool-cases (reads_whole_bundle sc)) [
  | inl whole ↦ unfold narrow_to in ground (arith, whole_reads sc id whole)
  | inr part ↦
      narrow_scoped sc f id f.prefixes sc.read refl refl part
      ∙ ap (λ b. asks f.prefixes id && b) (sym (not_whole sc id part))
]

-- A listing under the narrowed filter shows an address exactly when the caller's filter asks for it
-- and a read of it by the same caller is let through.
pub narrow-may_read :
    (pl : Platform) (s : Service) (caller : Actor) (f : Filter) (id : Bytes)
    {narrowed : Filter × Bool}
    → narrow pl s caller f ≡ ok narrowed
    → (shown narrowed id ≡ true) ↔ ((asks f.prefixes id ≡ true) × (may_read pl s caller id ≡ ok tt))
unfolding narrow may_read
narrow-may_read pl s caller f id {narrowed} h =
    let (sc, e, g) = bind-eq-ok (scope pl s caller) _ h in
    let law : shown narrowed id ≡ (asks f.prefixes id && scope_may_read sc id) =
      rw (← narrow_to-shown sc f id) (ground arith) in
    (ground arith, ground arith)
