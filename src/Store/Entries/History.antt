-- ===== src/Store/Entries/History.antt =====
-- The revisions of a path and of an id: their numbers, and the last change of each id.
use ochakai.Common.{
  ℕ, ◌+◌, ◌≤◌, ◌<◌, Bool, false, ◌||◌, List, [], ◌∷◌, ◌++◌, Option, none, some, ◌≡◌, ◌≢◌, refl,
  arith, if◌then◌else◌, if-either, keep, All, All-append,
}
use ochakai.Text.{Bytes, codes, ◌=?◌}
use ochakai.Store.Entries.{Revision, max_rev}
use ochakai.Store.Entries.Writes.{outlives}

-- Later revisions of a path have greater numbers.
abbrev pub Precedes : Revision → Revision → Type 0
Precedes v w = v.path ≡ w.path → v.rev < w.rev

abbrev pub Numbered : List Revision → Type 0
Numbered [] = Unit
Numbered (v ∷ vs) = All (Precedes v) vs × Numbered vs

max_rev-step :
    (path : Bytes) (v : Revision) (vs : List Revision)
    → (max_rev path vs ≤ max_rev path (v ∷ vs)) × (v.path ≡ path → v.rev ≤ max_rev path (v ∷ vs))
unfolding max_rev
max_rev-step path v vs = (ground arith, (λ e. ground arith))

Numbered-append :
    (vs : List Revision) (v : Revision) (n : ℕ)
    → Numbered vs
    → max_rev v.path vs ≤ n
    → n < v.rev
    → Numbered (vs ++ v ∷ [])
unfolding max_rev
Numbered-append [] v n a le lt = (tt, tt)
Numbered-append (w ∷ vs) v n (b, a) le lt = (
  All-append (Precedes w) vs (v ∷ []) b ((λ e. ground (arith, max_rev-step v.path w vs)), tt),
  Numbered-append vs v n a (ground (arith, max_rev-step v.path w vs)) lt,
)

pub Numbered-next :
    (vs : List Revision) (v : Revision)
    → Numbered vs
    → v.rev ≡ max_rev v.path vs + 1
    → Numbered (vs ++ v ∷ [])
Numbered-next vs v a e = Numbered-append vs v (max_rev v.path vs) a (omega arith) (omega (arith, e))

pub All-keep_revisions :
    (P : Revision → Type 0) (p : Revision → Bool) (vs : List Revision)
    → All P vs
    → All P (keep p vs)
All-keep_revisions P p [] a = tt
All-keep_revisions P p (v ∷ vs) (q, a) =
    if-either (All P) (p v) (λ _. (q, All-keep_revisions P p vs a))
      (λ _. All-keep_revisions P p vs a)

pub Numbered-keep : (p : Revision → Bool) (vs : List Revision) → Numbered vs → Numbered (keep p vs)
Numbered-keep p [] a = tt
Numbered-keep p (v ∷ vs) (b, a) =
    if-either Numbered (p v) (λ _. (All-keep_revisions (Precedes v) p vs b, Numbered-keep p vs a))
      (λ _. Numbered-keep p vs a)

abbrev pub is_owned : Bytes → Revision → Bool
is_owned id v = elim v.id [ none ↦ false | some owner ↦ owner =? id ]

-- The last change of an id.
unfoldable pub last_change : Bytes → List Revision → Option Bytes
last_change id [] = none
last_change id (v ∷ vs) = elim (last_change id vs) [
  | none ↦ if is_owned id v then some v.change else none
  | some c ↦ some c
]

pub last_change-next :
    (id : Bytes) (vs : List Revision) (v : Revision)
    → v.id ≡ some id
    → last_change id (vs ++ v ∷ []) ≡ some v.change
unfolding last_change
last_change-next id [] v e = ground arith
last_change-next id (w ∷ vs) v e = ground (arith, last_change-next id vs v e)

pub last_change-other :
    (id : Bytes) (vs : List Revision) (v : Revision) {owner : Bytes}
    → v.id ≡ some owner
    → id ≢ owner
    → last_change id (vs ++ v ∷ []) ≡ last_change id vs
unfolding last_change
last_change-other id [] v e ne = ground arith
last_change-other id (w ∷ vs) v e ne = ground (arith, last_change-other id vs v e ne)

pub last_change-outlives :
    (id other : Bytes) (vs : List Revision)
    → other ≢ id
    → last_change other (keep (outlives id) vs) ≡ last_change other vs
unfolding last_change
last_change-outlives id other [] ne = refl
last_change-outlives id other (v ∷ vs) ne = ground (arith, last_change-outlives id other vs ne)

pub last_change-purged :
    (id : Bytes) (vs : List Revision) → last_change id (keep (outlives id) vs) ≡ none
unfolding last_change
last_change-purged id [] = refl
last_change-purged id (v ∷ vs) = ground (arith, last_change-purged id vs)

-- The changes that leave a tombstone.
abbrev pub buries : Bytes → Bool
buries change = change =? codes "delete" || change =? codes "reject"
