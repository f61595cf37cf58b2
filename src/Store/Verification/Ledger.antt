-- ===== src/Store/Verification/Ledger.antt =====
-- The steps of an entry's timeline, and the order of its ledger.
use ochakai.Common.{
  ℕ, ◌≤◌, ◌<◌, List, [], ◌∷◌, ◌++◌, Option, none, some, ◌≡◌, refl, sym, arith, All, All-append,
  subst,
}
use ochakai.Common.Result.{ok}
use ochakai.Text.{Bytes}
use ochakai.Domain.Actor.{Actor}
use ochakai.Domain.Trust.{Verification, last_verified, newest}
use ochakai.Store.Verification.{
  Row, clamp, last_verified_at, verify_time, verify, change_content, report_failed,
}
use ochakai.Store.Verification.Timeline.{with_verification, verify-row, verify_time-newest}

-- What the writes make of a row, at any clocks.
pub data Step : Row → Row → Type 0 where
  verifies : (now : ℕ) (actor : Actor) {r r' : Row} → verify now actor r ≡ ok r' → Step r r'
  changes : (at : ℕ) (r : Row) → Step r (change_content at r)
  fails : (now : ℕ) (r : Row) → Step r (report_failed now r)

-- What a row can become.
pub data Reaches (start : Row) : Row → Type 0 where
  here : Reaches start start
  there : {r r' : Row} → Reaches start r → Step r r' → Reaches start r'

-- Each verification is earlier than those behind it.
abbrev pub Ascends : List Verification → Type 0
Ascends [] = Unit
Ascends (v ∷ vs) = All (λ w. v.at < w.at) vs × Ascends vs

later-append :
    (c : ℕ) (vs : List Verification) (v : Verification)
    → All (λ w. c < w.at) vs
    → c < v.at
    → All (λ w. c < w.at) (vs ++ v ∷ [])
later-append c vs v h k = All-append (λ w. c < w.at) vs (v ∷ []) h (k, tt)

pub Ascends-append :
    (vs : List Verification) (v : Verification)
    → Ascends vs
    → clamp 0 (last_verified_at vs) ≤ v.at
    → Ascends (vs ++ v ∷ [])
unfolding clamp last_verified_at
Ascends-append [] v a h = (tt, tt)
Ascends-append (w ∷ vs) v (b, a) h =
    (later-append w.at vs v b (ground arith), Ascends-append vs v a (ground arith))

Step-Ascends : {r r' : Row} → Step r r' → Ascends r.ledger → Ascends r'.ledger
unfolding change_content report_failed with_verification
Step-Ascends {r} (verifies now actor h) a =
    subst (λ q. Ascends q.ledger) (sym (verify-row now actor r h))
      (Ascends-append r.ledger (record { by = actor; at = verify_time now r }) a
        (verify_time-newest now r))
Step-Ascends (changes at r) a = a
Step-Ascends (fails now r) a = a

newest-later :
    (v w : Verification) (vs : List Verification)
    → v.at < w.at
    → Ascends (w ∷ vs)
    → v.at < (newest w vs).at
unfolding newest
newest-later v w [] h a = h
newest-later v w (x ∷ vs) h ((wx, b), a) = newest-later v x vs (omega arith) a

-- The entry that the domain takes for the newest, the last in the ledger, has the time that the
-- store takes for the newest, the greatest.
newest-last_verified_at :
    (v : Verification) (vs : List Verification)
    → Ascends (v ∷ vs)
    → last_verified_at (v ∷ vs) ≡ some (newest v vs).at
unfolding newest last_verified_at
newest-last_verified_at v [] a = refl
newest-last_verified_at v (w ∷ vs) ((vw, b), a) =
    ground (arith, newest-last_verified_at w vs a, newest-later v w vs vw a)

abbrev pub time_of : Option Verification → Option ℕ
time_of none = none
time_of (some v) = some v.at

-- However verifications, changes and failures follow one another, whatever the clocks say, each
-- verification in the ledger is later than the one before it, where this was so at the start.
pub Reaches-Ascends : {start r : Row} → Ascends start.ledger → Reaches start r → Ascends r.ledger
Reaches-Ascends a here = a
Reaches-Ascends a (there p s) = Step-Ascends s (Reaches-Ascends a p)

-- So the verification that a read takes for the newest, the last of the ledger, has the time that
-- the store takes for the newest, the greatest.
pub Reaches-last_verified :
    {start r : Row} (status : Bytes)
    → Ascends start.ledger
    → Reaches start r
    → time_of (last_verified (record { status = status; verifications = r.ledger }))
      ≡ last_verified_at r.ledger
Reaches-last_verified {r = r} status a p = newest_of r.ledger (Reaches-Ascends a p)
  where
    newest_of :
        (vs : List Verification)
        → Ascends vs
        → time_of (last_verified (record { status = status; verifications = vs }))
          ≡ last_verified_at vs
    newest_of [] b = unfold last_verified last_verified_at in refl
    newest_of (v ∷ vs) b = unfold last_verified in sym (newest-last_verified_at v vs b)
