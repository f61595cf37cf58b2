-- ===== src/Service/Entries/Verifying.antt =====
-- What a verification that answers leaves.
use ochakai.Common.{ℕ, false, ◌≡◌, ◌≢◌, refl, sym, ap, ◌∙◌, some, if◌then◌else◌, if-either}
use ochakai.Common.Result.{ok}
use ochakai.Common.Exec.{lift-bind-ok, bind-ok, settle-ok}
use ochakai.Text.{Bytes, ◌=?◌, =?_iff}
use ochakai.Domain.Actor.{Actor, actor_human}
use ochakai.Domain.Trust.{unverified, human_reviewed}
use ochakai.Domain.Content.{Knowledge}
use ochakai.Store.Verification.Tiers.{row_trust}
use ochakai.Store.Verification.Timeline.{verify-trust}
use ochakai.Store.Entries.{Row, Base, find_row}
use ochakai.Store.Entries.Rows.{find_row-id}
use ochakai.Store.Entries.Writes as Db
use ochakai.Store.Entries.Effects.{verify-Verified, vouched}
use ochakai.Store.Entries.Kept.{Wrote-found}
use ochakai.Store.Entries.Timelines.{vouched-verify}
use ochakai.Service.Access.{Platform, Service, may_write}
use ochakai.Service.Access.Policy.{check_writable}
use ochakai.Service.Entries.{Formats}
use ochakai.Service.Entries.Settle.{in_store, in_scope}
use ochakai.Service.Entries.Updates.{in_store-ok}
use ochakai.Service.Entries.Writes.{Windows}
use ochakai.Service.Entries.Requests.{publish_draft, verify}

abbrev pub Stands : Bytes → Actor → Base → Knowledge → Type 0
Stands id actor b' k =
    (r : Row) × (find_row id b'.rows ≡ some r)
    × (r.deleted ≡ false)
    × (r.entry ≡ k)
    × (row_trust (Db.timeline r) ≢ unverified)
    × ((if actor.kind =? actor_human then row_trust (Db.timeline r) else human_reviewed)
        ≡ human_reviewed)

module _ (pl : Platform) (f : Formats) (s : Service) (caller : Actor) where
  -- Whatever others write between its steps, a verification that answers leaves a live row at the id, the
  -- one that it answers with, in which the concept is no longer unverified, and for a person it is
  -- human-reviewed.
  pub verify-Stands :
      (w : Windows) (now db_now : ℕ) (actor : Actor) (id : Bytes) (b : Base) {b' : Base}
      {k : Knowledge}
      → verify pl f s caller w now db_now actor id b ≡ (b', ok k)
      → Stands (f.nfc id) actor b' k
  unfolding verify vouched
  verify-Stands w now db_now actor id b {b'} h =
      let (_, _, h₁) = lift-bind-ok (in_scope (check_writable s.config)) _ b h in
      let (_, _, h₂) = lift-bind-ok (in_scope (may_write pl s caller (f.nfc id))) _ b h₁ in
      let (c, _, _, h₃) =
        bind-ok (publish_draft pl f s caller w.before_create w.in_update now actor (f.nfc id) b) _
          h₂ in
      let d = w.before_retry c in
      let v = verify-Verified f.okf db_now actor (f.nfc id) d (
        in_store-ok (Db.verify f.okf db_now actor (f.nfc id) d)
          (settle-ok d (in_store (Db.verify f.okf db_now actor (f.nfc id) d)) h₃)) in
      let t =
        verify-trust db_now actor (Db.timeline v.row)
          (vouched-verify db_now actor v.row v.is_live) in
      (
        vouched db_now actor v.row,
        ap (λ j. find_row j b'.rows) (sym (find_row-id (f.nfc id) d.rows v.found))
            ∙ Wrote-found v.wrote,
        v.is_live,
        sym v.answer,
        t.0,
        if-either (λ x. x ≡ human_reviewed) (actor.kind =? actor_human)
            (λ e. t.1 ((=?_iff actor.kind actor_human).0 e)) (λ _. refl),
      )
