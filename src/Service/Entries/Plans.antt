-- ===== src/Service/Entries/Plans.antt =====
-- A plan says what a put would do.
use ochakai.Common.{ℕ, ◌<◌, true, false, Option, ◌≡◌, refl, sym, ap, subst, ◌∙◌, arith, All}
use ochakai.Common.Result.{Result, ok, err}
use ochakai.Text.{Bytes}
use ochakai.Domain.Actor.{Actor}
use ochakai.Domain.Content.{Knowledge}
use ochakai.Store.Entries.{Base, stored_doc}
use ochakai.Store.Entries.Rows.{All-find_row}
use ochakai.Store.Entries.Effects.{stamped, updated_entry, get_one-live}
use ochakai.Store.Entries.Effects.Births.{create-Created}
use ochakai.Service.Access.{Platform, Service}
use ochakai.Service.Entries.{Formats, WriteError, normalize_keys, derive_links}
use ochakai.Service.Entries.Settle.{Settled, prepare, settle_update, sign}
use ochakai.Service.Entries.Writes.{Written, create}
use ochakai.Service.Entries.Requests.{is_free, prepared, planned_create, plan_settled, plan}
use ochakai.Service.Entries.Updates.{Settling, Quiet, Loud}
use ochakai.Service.Entries.Creates.{authored, create-ok}
use ochakai.Service.Entries.Overwrites.{prepare-lem}
use ochakai.Service.Entries.Free.{rendered-ok}

-- An answer that a plan and a put share.
abbrev pub Agrees : Written → Written → Type 0
Agrees p q =
    (p.created ≡ q.created)
    × (p.changed ≡ q.changed)
    × (p.entry.doc ≡ q.entry.doc)
    × (p.entry.content_hash ≡ q.entry.content_hash)

abbrev pub Predicts : Result WriteError Written → Written → Type 0
Predicts r out = (p : Written) × (r ≡ ok p) × Agrees p out

module _ (pl : Platform) (f : Formats) (s : Service) (caller : Actor) where
  -- What a plan and a put rest on.
  module _ (now : ℕ) (actor : Actor) (if_match : Option Bytes) (given : Knowledge) (b : Base)
      (later : 0 < now) (past : All (λ r. 0 < r.entry.content_changed_at) b.rows)
      (steady : normalize_keys f (normalize_keys f given) ≡ normalize_keys f given) where
    abbrev Planned : Written → Type 0
    Planned out = Predicts (plan pl f s caller now actor if_match given b) out

    checked-plan :
        {k : Knowledge}
        → prepare pl f s caller given ≡ ok k
        → plan pl f s caller now actor if_match given b
          ≡ plan_settled pl f s caller now actor if_match k
              (settle_update pl f s caller given if_match b)
    unfolding plan prepared
    checked-plan {k} e =
        passes ((prepare-lem pl f s caller given e).0)
        ∙ ap
            (λ q.
              plan_settled pl f s caller now actor if_match q
                (settle_update pl f s caller given if_match b))
            (left e)
      where
        passes :
            {B : Type 0} {x : Result WriteError B} {r : Result WriteError (Unit {0})}
            → r ≡ ok tt
            → (elim r [ err d ↦ err d | ok _ ↦ x ]) ≡ x
        passes h = rw (h) refl

        left : prepare pl f s caller given ≡ ok k → prepared pl f s caller given ≡ k
        left h = rw (h, prepared) refl

    pub Quiet-Planned : {out : Written} → Quiet pl f s caller given if_match b out → Planned out
    unfolding plan_settled
    Quiet-Planned {out} q = (
      record { entry = q.settled.old; created = false; changed = false },
      checked-plan q.rests.checked
          ∙ ap (plan_settled pl f s caller now actor if_match q.rests.payload) q.rests.settles
          ∙ unchanged q.rests.payload q.settled q.same,
      agree q.answer,
    )
      where
        unchanged :
            (k : Knowledge) (u : Settled)
            → u.changed ≡ false
            → plan_settled pl f s caller now actor if_match k (ok u)
              ≡ ok (record { entry = u.old; created = false; changed = false })
        unchanged k u e = rw (e) refl

        agree : {p : Written} → out ≡ p → Agrees p out
        agree e = (ground arith, ground arith, ground arith, ground arith)

    aged : {u : Settled} → Settling pl f s caller given if_match b u → 0 < u.old.content_changed_at
    aged r =
        subst (λ (o : Knowledge). 0 < o.content_changed_at) (sym r.old)
          (All-find_row (λ q. 0 < q.entry.content_changed_at) r.payload.id b.rows past
            (get_one-live f.okf r.payload.id b r.read).0)

    pub Loud-Planned :
        {b' : Base} {out : Written}
        → Loud pl f s caller (λ c. c) now actor if_match given b b' out
        → Planned out
    unfolding plan_settled updated_entry
    Loud-Planned {out = out} l =
        let signed = sign now actor l.settled in
        let planned = record signed { updated_at = now } in
        (
          record {
            entry = record planned { doc = l.stored.doc; content_hash = l.stored.hash };
            created = false;
            changed = true;
          },
          checked-plan l.rests.checked
              ∙ ap (plan_settled pl f s caller now actor if_match l.rests.payload) l.rests.settles
              ∙ answers l.rests.payload l.settled l.differs (
                  subst
                    (λ at.
                      stored_doc f.okf (record planned { content_changed_at = at })
                      ≡ ok (l.stored.doc, l.stored.hash))
                    (timed l.settled (aged l.rests)) l.stored.stored),
          (
            sym l.created,
            sym l.changed,
            sym (ap (λ (q : Knowledge). q.doc) l.stored.answer),
            sym (ap (λ (q : Knowledge). q.content_hash) l.stored.answer),
          ),
        )
      where
        answers :
            (k : Knowledge) {doc hash : Bytes} (u : Settled)
            → u.changed ≡ true
            → stored_doc f.okf (record (sign now actor u) { updated_at = now }) ≡ ok (doc, hash)
            → plan_settled pl f s caller now actor if_match k (ok u)
              ≡ ok (record {
                entry = record (sign now actor u) {
                  updated_at = now;
                  doc = doc;
                  content_hash = hash;
                };
                created = false;
                changed = true;
              })
        answers k u e d =
            rw (e, rendered-ok pl f s caller (record (sign now actor u) { updated_at = now }) d)
              refl

        timed :
            (u : Settled)
            → 0 < u.old.content_changed_at
            → (stamped now (sign now actor u)).content_changed_at
              ≡ (sign now actor u).content_changed_at
        timed u lt = unfold sign in ground arith

    -- The payload that a create is left with is the one that the plan is.
    pub prepared-again :
        {p q : Knowledge}
        → prepare pl f s caller given ≡ ok p
        → prepare pl f s caller p ≡ ok q
        → q ≡ p
    unfolding derive_links normalize_keys
    prepared-again h g =
        let (_, _, e) = prepare-lem pl f s caller given h in
        let (_, _, d) = prepare-lem pl f s caller _ g in
        d ∙ ap (λ x. derive_links f (normalize_keys f x)) e ∙ ap (derive_links f) steady ∙ sym e

    pub made-Planned :
        {p : Knowledge} {e : WriteError} {b' : Base} {k : Knowledge}
        → prepare pl f s caller given ≡ ok p
        → settle_update pl f s caller given if_match b ≡ err e
        → is_free if_match e ≡ true
        → create pl f s caller now actor p b ≡ (b', ok k)
        → Planned (record { entry = k; created = true; changed = true })
    unfolding plan_settled
    made-Planned {p} {e} {k = k} h g free made =
        let (q, again, done) = create-ok pl f s caller now actor p b made in
        let c = create-Created f.okf now false (authored actor q) b done in
        (
          record {
            entry = record (planned_create pl f s caller now actor p) {
              doc = c.doc;
              content_hash = c.hash;
            };
            created = true;
            changed = true;
          },
          checked-plan h
              ∙ ap (plan_settled pl f s caller now actor if_match p) g
              ∙ answers e free (
                  subst
                    (λ x.
                      stored_doc f.okf (planned_create pl f s caller now actor x)
                      ≡ ok (c.doc, c.hash))
                    (prepared-again h again) c.stored),
          (refl, refl, sym (ap (λ x. x.doc) c.answer), sym (ap (λ x. x.content_hash) c.answer)),
        )
      where
        answers :
            {doc hash : Bytes} (e : WriteError)
            → is_free if_match e ≡ true
            → stored_doc f.okf (planned_create pl f s caller now actor p) ≡ ok (doc, hash)
            → plan_settled pl f s caller now actor if_match p (err e)
              ≡ ok (record {
                entry = record (planned_create pl f s caller now actor p) {
                  doc = doc;
                  content_hash = hash;
                };
                created = true;
                changed = true;
              })
        answers e i d =
            rw (i, rendered-ok pl f s caller (planned_create pl f s caller now actor p) d) refl
