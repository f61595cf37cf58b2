-- ===== src/Service/Entries/Updates.antt =====
-- What an update comes to, whatever others write between its reading and its writing.
use ochakai.Common.{
  ℕ, Bool, true, false, not, Option, ◌≡◌, refl, ap, ◌∙◌, ◌⊎◌, inl, inr, arith, if◌then◌else◌,
}
use ochakai.Common.Result.{Result, ok, err, bind-eq-ok}
use ochakai.Common.Exec.{after, pure, settle}
use ochakai.Text.{Bytes, ◌=?◌}
use ochakai.Domain.Actor.{Actor}
use ochakai.Domain.Content.{Knowledge}
use ochakai.Store.Entries.{Row, Base, Failure, conflict, get_one, stored_doc}
use ochakai.Store.Entries.Writes as Db
use ochakai.Store.Entries.Effects.{Updated, update-Updated}
use ochakai.Service.Access.{Platform, Service}
use ochakai.Service.Access.Policy.{check_writable}
use ochakai.Service.Entries.{Formats, WriteError, failure}
use ochakai.Service.Entries.Settle.{
  in_store, in_scope, Settled, prepare, stale, beside, settle_update, sign,
}
use ochakai.Service.Entries.Writes.{Written, update_settled, update}

pub in_store-ok {ℓ} : {A : Type ℓ} (r : Result Failure A) {a : A} → in_store r ≡ ok a → r ≡ ok a
in_store-ok (ok x) h = ground arith
in_store-ok (err e) h = absurd (cc h)

module _ (pl : Platform) (f : Formats) (s : Service) (caller : Actor) where
  -- What a settled update rests on.
  pub record Settling (given : Knowledge) (if_match : Option Bytes) (b : Base) (u : Settled)
      : Type 0 where
    pub payload : Knowledge
    pub row : Row
    pub doc : Bytes
    pub hash : Bytes
    pub settles : settle_update pl f s caller given if_match b ≡ ok u
    pub writable : in_scope (check_writable s.config) ≡ ok tt
    pub checked : prepare pl f s caller given ≡ ok payload
    pub read : get_one false payload.id b ≡ ok row
    pub fresh : stale if_match row.entry ≡ false
    pub old : u.old ≡ row.entry
    pub next : u.next ≡ beside f payload row.entry
    pub stored : stored_doc f.okf u.next ≡ ok (doc, hash)
    pub changed : u.changed ≡ not (doc =? row.entry.doc)

  pub settle_update-Settling :
      (given : Knowledge) (if_match : Option Bytes) (b : Base) {u : Settled}
      → settle_update pl f s caller given if_match b ≡ ok u
      → Settling given if_match b u
  unfolding settle_update
  settle_update-Settling given if_match b h =
      let (_, w, h₁) = bind-eq-ok (in_scope (check_writable s.config)) _ h in
      let (k, p, h₂) = bind-eq-ok (prepare pl f s caller given) _ h₁ in
      let (r, g, h₃) = bind-eq-ok (in_store (get_one false k.id b)) _ h₂ in
      let (_, t, h₄) =
        bind-eq-ok (if stale if_match r.entry then err (failure conflict) else ok tt) _ h₃ in
      let (made, d, h₅) = bind-eq-ok (in_store (stored_doc f.okf (beside f k r.entry))) _ h₄ in
      record {
        payload = k;
        row = r;
        doc = made.0;
        hash = made.1;
        settles = h;
        writable = w;
        checked = p;
        read = in_store-ok (get_one false k.id b) g;
        fresh = ground arith;
        old = ground arith;
        next = ground arith;
        stored =
            ap (stored_doc f.okf) (ground arith)
            ∙ in_store-ok (stored_doc f.okf (beside f k r.entry)) d;
        changed = ground arith;
      }

  -- What an update that answers has done: nothing, the row being as the payload would leave it; or one
  -- write of the store over the row that stood there when it was written.
  pub record Quiet (given : Knowledge) (if_match : Option Bytes) (b : Base) (out : Written)
      : Type 0 where
    pub settled : Settled
    pub rests : Settling given if_match b settled
    pub same : settled.changed ≡ false
    pub answer : out ≡ record { entry = settled.old; created = false; changed = false }

  pub record Loud (window : Base → Base) (now : ℕ) (actor : Actor) (if_match : Option Bytes)
      (given : Knowledge) (b b' : Base) (out : Written) : Type 0 where
    pub settled : Settled
    pub rests : Settling given if_match b settled
    pub differs : settled.changed ≡ true
    pub stored : Updated f.okf now actor if_match (sign now actor settled) (window b) b' out.entry
    pub created : out.created ≡ false
    pub changed : out.changed ≡ true

  abbrev pub Outcome :
      (Base → Base)
      → ℕ
      → Actor
      → Option Bytes
      → Knowledge
      → Base
      → Base × Result WriteError Written
      → Type 0
  Outcome window now actor if_match given b (b', ok out) =
      ((b' ≡ b) × Quiet given if_match b out) ⊎ Loud window now actor if_match given b b' out
  Outcome window now actor if_match given b (b', err e) =
      ((b' ≡ b) × (settle_update pl f s caller given if_match b ≡ err e))
      ⊎ ((b' ≡ window b)
          × (u : Settled) × (d : Failure) × Settling given if_match b u
          × (Db.update f.okf now actor if_match (sign now actor u) (window b) ≡ err d)
          × (e ≡ failure d))

  wrote-Outcome :
      (window : Base → Base) (now : ℕ) (actor : Actor) (if_match : Option Bytes) (given : Knowledge)
      (b : Base) (u : Settled)
      → Settling given if_match b u
      → u.changed ≡ true
      → (r : Result Failure (Base × Knowledge))
      → Db.update f.okf now actor if_match (sign now actor u) (window b) ≡ r
      → Outcome window now actor if_match given b (
          after
            (settle (window b) (in_store r))
            (λ k. pure (record { entry = k; created = false; changed = true })))
  wrote-Outcome window now actor if_match given b u rests d (ok (b', k)) e = inr (record {
    settled = u;
    rests = rests;
    differs = d;
    stored = update-Updated f.okf now actor if_match (sign now actor u) (window b) e;
    created = refl;
    changed = refl;
  })
  wrote-Outcome window now actor if_match given b u rests d (err x) e =
      inr (refl, u, x, rests, e, refl)

  settled-Outcome :
      (window : Base → Base) (now : ℕ) (actor : Actor) (if_match : Option Bytes) (given : Knowledge)
      (b : Base) (u : Settled)
      → Settling given if_match b u
      → (d : Bool) → u.changed ≡ d
      → Outcome window now actor if_match given b
          (update_settled pl f s caller window now actor if_match u b)
  unfolding update_settled
  settled-Outcome window now actor if_match given b u rests true d =
      rw (d) (wrote-Outcome window now actor if_match given b u rests d _ refl)
  settled-Outcome window now actor if_match given b u rests false d =
      rw (d) (inl (refl, record { settled = u; rests = rests; same = d; answer = refl }))

  -- Whatever others write between its reading and its writing, an update ends in one of four ways: it
  -- answers with the concept as it stands and has written nothing; it answers with the concept that one
  -- write of the store has left over the row that stood there by then; it is refused before that write,
  -- and has written nothing; or the store refuses the write, and nothing is written but what others wrote.
  pub update-Outcome :
      (window : Base → Base) (now : ℕ) (actor : Actor) (if_match : Option Bytes) (given : Knowledge)
      (b : Base)
      → Outcome window now actor if_match given b
          (update pl f s caller window now actor if_match given b)
  unfolding update
  update-Outcome window now actor if_match given b =
      go (settle_update pl f s caller given if_match b) refl
    where
      go :
          (r : Result WriteError Settled)
          → settle_update pl f s caller given if_match b ≡ r
          → Outcome window now actor if_match given b
              (after (b, r) (λ u. update_settled pl f s caller window now actor if_match u))
      go (ok u) e =
          settled-Outcome window now actor if_match given b u
            (settle_update-Settling given if_match b e) u.changed refl
      go (err _) e = inl (refl, e)
