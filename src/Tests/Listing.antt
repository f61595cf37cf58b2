-- ===== src/Tests/Listing.antt =====
-- A walk over two rows, one at a time.
use ochakai.Common.{
  ℕ, List, [], ◌∷◌, ◌++◌, Option, none, some, ◌≡◌, refl, ap, arith, if◌then◌else◌, take, subst,
}
use ochakai.Common.Result.{ok}
use ochakai.Text.{Bytes, codes, ◌=?◌, bytes_discrete}
use ochakai.Service.Cursor.{After, SearchHit}
use ochakai.Service.Cursor.RoundTrip.{IsPlain}
use ochakai.Service.Cursor.Paging.{IsPlainHit}
use ochakai.Service.Listing.{walk}
use ochakai.Service.Listing.Walk.{Answers, walk-rows}

abbrev stamp : ℕ → Bytes
stamp t = codes "2026-01-01T00:00:00Z"

stamp-IsPlain : (t : ℕ) → IsPlain (stamp t)
stamp-IsPlain t = ground arith

abbrev hit : Bytes → SearchHit ℕ
hit id = record { id = id; stale_after = []; created_at = 7; verified_at = none; usage = none }

abbrev hit_a : SearchHit ℕ
hit_a = hit (codes "a")

abbrev hit_b : SearchHit ℕ
hit_b = hit (codes "b")

abbrev rows : List (SearchHit ℕ)
rows = hit_a ∷ hit_b ∷ []

abbrev behind_id : Bytes → List (SearchHit ℕ) → List (SearchHit ℕ)
behind_id id [] = []
behind_id id (h ∷ hits) = let rest = behind_id id hits in if h.id =? id then hits else rest

-- Rows are found again by their ids.
abbrev query : Option After → ℕ → List (SearchHit ℕ)
query none n = take n rows
query (some a) n = take n (behind_id a.id rows)

abbrev usage_name : Bytes
usage_name = codes "usage"

usage-IsPlain : IsPlain usage_name
usage-IsPlain = ground arith

hit_a-IsPlainHit : IsPlainHit hit_a
hit_a-IsPlainHit = record { id = ground arith; stale_after = ground arith }

hit_b-IsPlainHit : IsPlainHit hit_b
hit_b-IsPlainHit = record { id = ground arith; stale_after = ground arith }

behind-row :
    (before : List (SearchHit ℕ)) (h : SearchHit ℕ) (rest : List (SearchHit ℕ))
    → rows ≡ before ++ (h ∷ rest)
    → behind_id h.id rows ≡ rest
unfolding bytes_discrete
behind-row [] h rest e = subst (λ x. behind_id x.id rows ≡ rest) first behind
  where
    first : hit_a ≡ h
    first = cc

    behind : hit_b ∷ [] ≡ rest
    behind = cc
behind-row (x ∷ []) h rest e = subst (λ x. behind_id x.id rows ≡ rest) second behind
  where
    second : hit_b ≡ h
    second = cc

    behind : [] ≡ rest
    behind = cc
behind-row (x ∷ y ∷ []) h rest e = absurd (ground arith)
behind-row (x ∷ y ∷ z ∷ before) h rest e = absurd (ground arith)

answers : Answers stamp 0 query usage_name rows
answers = record {
  start = λ n. refl;
  behind = λ before h rest e n. ap (take n) (behind-row before h rest e);
}

walk-rows_example : walk stamp 0 query usage_name 1 3 [] ≡ ok rows
walk-rows_example =
    walk-rows stamp stamp-IsPlain 0 query usage_name usage-IsPlain rows
      (hit_a-IsPlainHit, (hit_b-IsPlainHit, tt)) answers 1 3 (omega arith) (omega arith)
