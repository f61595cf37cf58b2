-- ===== src/Service/Entries/Predictions.antt =====
-- What a plan announces, the put does: the other way of Puts, and both ways together.
use ochakai.Common.{ℕ, Option, ◌≡◌}
use ochakai.Common.Result.{Result, ok, err}
use ochakai.Text.{Bytes}
use ochakai.Domain.Actor.{Actor}
use ochakai.Domain.Content.{Knowledge}
use ochakai.Store.Entries.{Base}
use ochakai.Store.Entries.Writes as Db
use ochakai.Store.Entries.Invariants.{IsApart}
use ochakai.Service.Access.{Platform, Service}
use ochakai.Service.Entries.{Formats, WriteError, normalize_keys}
use ochakai.Service.Entries.Writes.{Written}
use ochakai.Service.Entries.Plans.{Agrees}
use ochakai.Service.Entries.Renders.{Renders}

module _ (pl : Platform) (f : Formats) (s : Service) (caller : Actor) where
  module _ (renders : Renders f.okf) (now : ℕ) (actor : Actor) (if_match : Option Bytes)
      (given : Knowledge) (b : Base)
      (steady : normalize_keys f (normalize_keys f given) ≡ normalize_keys f given)
      (apart : IsApart b.files (f.nfc given.id)) where
    abbrev Answers : Base × Result WriteError Written → Type 0
    Answers r = (b' : Base) × (out : Written) × (r ≡ (b', ok out))

-- Two answers that announce and do the same, or two refusals.
abbrev pub SameOutcome : Result WriteError Written → Result WriteError Written → Type 0
SameOutcome (ok p) (ok out) = Agrees p out
SameOutcome (err _) (err _) = Unit
SameOutcome (ok _) (err _) = ⊥
SameOutcome (err _) (ok _) = ⊥
