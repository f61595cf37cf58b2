-- ===== src/Store/Entries/Timelines.antt =====
-- The rows that the store's writes make, as the entry's timeline sees them.
use ochakai.Common.{ℕ, false, ◌≡◌, refl, arith}
use ochakai.Common.Result.{ok}
use ochakai.Text.{Bytes}
use ochakai.Domain.Actor.{Actor}
use ochakai.Domain.Content.{Knowledge}
use ochakai.Store.Verification.{change_content}
use ochakai.Store.Verification as Ledger
use ochakai.Store.Entries.{Row}
use ochakai.Store.Entries.Writes.{timeline}
use ochakai.Store.Entries.Effects.{vouched, updated, updated_entry, stamped}

pub updated-change_content :
    (now : ℕ) (given : Knowledge) (doc hash : Bytes) (r : Row)
    → timeline (updated now given doc hash r)
      ≡ change_content (stamped now given).content_changed_at (timeline r)
unfolding updated updated_entry change_content
updated-change_content now given doc hash r = refl

pub vouched-verify :
    (now : ℕ) (actor : Actor) (r : Row)
    → r.deleted ≡ false
    → Ledger.verify now actor (timeline r) ≡ ok (timeline (vouched now actor r))
unfolding vouched Ledger.verify
vouched-verify now actor r h = ground arith
