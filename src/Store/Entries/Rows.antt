-- ===== src/Store/Entries/Rows.antt =====
-- The laws of the rows: one row per id, which a write replaces and a purge takes away.
use ochakai.Common.{
  Bool, true, false, List, [], ◌∷◌, none, some, ◌≡◌, ◌≢◌, refl, sym, ◌∙◌, arith, if◌then◌else◌,
  keep, All, if-either, subst,
}
use ochakai.Text.{Bytes, ◌=?◌, =?_iff}
use ochakai.Store.Entries.{Row, find_row, put_row, drop_row}

module _ (row : Row) where
  pub find_row-put_row : (rows : List Row) → find_row row.entry.id (put_row row rows) ≡ some row
  unfolding find_row put_row
  find_row-put_row [] = ground arith
  find_row-put_row (r ∷ rs) = ground (arith, find_row-put_row rs)

  pub find_row-put_row_other :
      (id : Bytes) (rows : List Row)
      → id ≢ row.entry.id
      → find_row id (put_row row rows) ≡ find_row id rows
  unfolding find_row put_row
  find_row-put_row_other id [] ne = ground arith
  find_row-put_row_other id (r ∷ rs) ne = ground (arith, find_row-put_row_other id rs ne)

pub find_row-id :
    (id : Bytes) (rows : List Row) {r : Row} → find_row id rows ≡ some r → r.entry.id ≡ id
unfolding find_row
find_row-id id [] h = absurd (cc h)
find_row-id id (q ∷ rs) {r} h = ground (arith, find_row-id id rs {r = r})

pub find_row-drop_row : (id : Bytes) (rows : List Row) → find_row id (drop_row id rows) ≡ none
unfolding find_row drop_row
find_row-drop_row id [] = refl
find_row-drop_row id (r ∷ rs) = ground (arith, find_row-drop_row id rs)

pub find_row-drop_row_other :
    (id other : Bytes) (rows : List Row)
    → other ≢ id
    → find_row other (drop_row id rows) ≡ find_row other rows
unfolding find_row drop_row
find_row-drop_row_other id other [] ne = refl
find_row-drop_row_other id other (r ∷ rs) ne =
    ground (arith, find_row-drop_row_other id other rs ne)

-- No id has two rows.
abbrev pub Keyed : List Row → Type 0
Keyed [] = Unit
Keyed (r ∷ rs) = (find_row r.entry.id rs ≡ none) × Keyed rs

absent-put_row :
    (id : Bytes) (row : Row) (rows : List Row)
    → id ≢ row.entry.id
    → find_row id rows ≡ none
    → find_row id (put_row row rows) ≡ none
absent-put_row id row rows ne h = find_row-put_row_other row id rows ne ∙ h

pub put_row-Keyed : (row : Row) (rows : List Row) → Keyed rows → Keyed (put_row row rows)
unfolding put_row find_row
put_row-Keyed row [] k = (refl, tt)
put_row-Keyed row (r ∷ rs) (a, k) =
    if-either Keyed (r.entry.id =? row.entry.id)
      (λ h. (rw (sym ((=?_iff r.entry.id row.entry.id).0 h)) a, k))
      (λ h. (absent-put_row r.entry.id row rs (λ e. ground arith) a, put_row-Keyed row rs k))

absent-keep :
    (id : Bytes) (p : Row → Bool) (rows : List Row)
    → find_row id rows ≡ none
    → find_row id (keep p rows) ≡ none
unfolding find_row
absent-keep id p [] h = refl
absent-keep id p (r ∷ rs) h = ground (arith, absent-keep id p rs)

pub keep-Keyed : (p : Row → Bool) (rows : List Row) → Keyed rows → Keyed (keep p rows)
keep-Keyed p [] k = tt
keep-Keyed p (r ∷ rs) (a, k) =
    if-either Keyed (p r) (λ _. (absent-keep r.entry.id p rs a, keep-Keyed p rs k))
      (λ _. keep-Keyed p rs k)

-- What holds of every row holds of the row that an id finds, and stays where the row written has it.
module _ (P : Row → Type 0) where
  pub All-find_row :
      (id : Bytes) (rows : List Row) {r : Row} → All P rows → find_row id rows ≡ some r → P r
  unfolding find_row
  All-find_row id [] a h = absurd (cc h)
  All-find_row id (q ∷ rs) (p, a) h = found (q.entry.id =? id) h (All-find_row id rs a)
    where
      found :
          {r : Row} (b : Bool)
          → (if b then some q else find_row id rs) ≡ some r
          → (find_row id rs ≡ some r → P r)
          → P r
      found true e rest = subst P (cc e) p
      found false e rest = rest e

  pub All-put_row : (row : Row) (rows : List Row) → P row → All P rows → All P (put_row row rows)
  unfolding put_row
  All-put_row row [] p a = (p, tt)
  All-put_row row (r ∷ rs) p (q, a) =
      if-either (All P) (r.entry.id =? row.entry.id) (λ _. (p, a))
        (λ _. (q, All-put_row row rs p a))

  pub All-keep : (p : Row → Bool) (rows : List Row) → All P rows → All P (keep p rows)
  All-keep p [] a = tt
  All-keep p (r ∷ rs) (q, a) =
      if-either (All P) (p r) (λ _. (q, All-keep p rs a)) (λ _. All-keep p rs a)
