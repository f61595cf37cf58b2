-- ===== src/Service/Entries/Creates.antt =====
-- What a create that answers has done, and what it never writes over.
use ochakai.Common.{ℕ, Bool, false, ◌≡◌, inl, inr}
use ochakai.Common.Result.{ok, err}
use ochakai.Common.Exec.{lift-bind-ok, lift-bind-err, settle-ok, settle-err}
use ochakai.Domain.Actor.{Actor}
use ochakai.Domain.Trust.{lifecycle_of}
use ochakai.Domain.Content.{Knowledge}
use ochakai.Store.Entries.{Base}
use ochakai.Store.Entries.Writes as Db
use ochakai.Service.Access.{Platform, Service}
use ochakai.Service.Access.Policy.{check_writable}
use ochakai.Service.Entries.{Formats, WriteError}
use ochakai.Service.Entries.Settle.{in_store, in_scope, prepare}
use ochakai.Service.Entries.Updates.{in_store-ok}
use ochakai.Service.Entries.Writes.{create_checked, create}

-- The payload of a create, signed.
abbrev pub authored : Actor → Knowledge → Knowledge
authored actor k = record k {
  status = lifecycle_of k.status;
  created_by = actor;
  updated_by = actor;
}

module _ (pl : Platform) (f : Formats) (s : Service) (caller : Actor) where
  pub create_checked-ok :
      (now : ℕ) (actor : Actor) (keep_curated : Bool) (given : Knowledge) (b : Base) {b' : Base}
      {k : Knowledge}
      → create_checked pl f s caller now actor keep_curated given b ≡ (b', ok k)
      → (p : Knowledge) × (prepare pl f s caller given ≡ ok p)
        × (Db.create f.okf now keep_curated (authored actor p) b ≡ ok (b', k))
  unfolding create_checked
  create_checked-ok now actor keep_curated given b h =
      let (p, e, h₁) = lift-bind-ok (prepare pl f s caller given) _ b h in
      (
        p,
        e,
        in_store-ok (Db.create f.okf now keep_curated (authored actor p) b)
            (settle-ok b (in_store (Db.create f.okf now keep_curated (authored actor p) b)) h₁),
      )

  pub create_checked-err :
      (now : ℕ) (actor : Actor) (keep_curated : Bool) (given : Knowledge) (b : Base) {b' : Base}
      {e : WriteError}
      → create_checked pl f s caller now actor keep_curated given b ≡ (b', err e)
      → b' ≡ b
  unfolding create_checked
  create_checked-err now actor keep_curated given b h =
      elim (lift-bind-err (prepare pl f s caller given) _ b h) [
        | inl (_, e) ↦ e
        | inr (p, _, h₁) ↦
            (settle-err b (in_store (Db.create f.okf now keep_curated (authored actor p) b)) h₁).0
      ]

  pub create-ok :
      (now : ℕ) (actor : Actor) (given : Knowledge) (b : Base) {b' : Base} {k : Knowledge}
      → create pl f s caller now actor given b ≡ (b', ok k)
      → (p : Knowledge) × (prepare pl f s caller given ≡ ok p)
        × (Db.create f.okf now false (authored actor p) b ≡ ok (b', k))
  unfolding create
  create-ok now actor given b h =
      let (_, _, h₁) = lift-bind-ok (in_scope (check_writable s.config)) _ b h in
      create_checked-ok now actor false given b h₁

  pub create-err :
      (now : ℕ) (actor : Actor) (given : Knowledge) (b : Base) {b' : Base} {e : WriteError}
      → create pl f s caller now actor given b ≡ (b', err e)
      → b' ≡ b
  unfolding create
  create-err now actor given b h = elim (lift-bind-err (in_scope (check_writable s.config)) _ b h) [
    | inl (_, e) ↦ e
    | inr (_, _, h₁) ↦ create_checked-err now actor false given b h₁
  ]
