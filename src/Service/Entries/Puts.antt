-- ===== src/Service/Entries/Puts.antt =====
-- What a put comes to is what its plan says.
use ochakai.Common.{
  ℕ, ◌<◌, Bool, true, false, Option, none, ◌≡◌, refl, sym, ap, subst, ◌∙◌, ◌⊎◌, inl, inr, arith,
  if◌then◌else◌, All,
}
use ochakai.Common.Result.{Result, ok, err, Result-cases}
use ochakai.Text.{Bytes}
use ochakai.Domain.Actor.{Actor}
use ochakai.Domain.Content.{Knowledge}
use ochakai.Store.Entries.{
  Row, Base, Failure, missing, conflict, already_exists, unrenderable, curated_tombstone,
  not_deleted, get_one,
}
use ochakai.Service.Access.{Platform, Service}
use ochakai.Service.Curation.{Refusal, fault}
use ochakai.Service.Access.Policy.{check_writable}
use ochakai.Service.Entries.{
  Formats, Invalid, WriteError, failure, refusal, invalid, normalize_keys, derive_links,
}
use ochakai.Service.Entries.Settle.{prepare, settle_update, sign}
use ochakai.Service.Entries.Writes.{Written, alone, update, create_checked, create}
use ochakai.Service.Entries.Requests.{
  is_free, prepared, after_update, after_create, composed, put_created, put_updated, put, plan,
}
use ochakai.Service.Entries.Updates.{Outcome, update-Outcome}
use ochakai.Service.Entries.Creates.{create-err}
use ochakai.Service.Entries.Overwrites.{prepare-lem, Settling-id, sign-id}
use ochakai.Service.Entries.Free.{free-missing, settle_update-free, update-hits, refused_by}
use ochakai.Service.Entries.Plans.{
  Predicts, Quiet-Planned, Loud-Planned, prepared-again, made-Planned,
}

module _ (pl : Platform) (f : Formats) (s : Service) (caller : Actor) where
  -- What a plan and a put rest on.
  module _ (now : ℕ) (actor : Actor) (if_match : Option Bytes) (given : Knowledge) (b : Base)
      (later : 0 < now) (past : All (λ r. 0 < r.entry.content_changed_at) b.rows)
      (steady : normalize_keys f (normalize_keys f given) ≡ normalize_keys f given) where
    abbrev Planned : Written → Type 0
    Planned out = Predicts (plan pl f s caller now actor if_match given b) out

    kept_id : (k : Knowledge) → (composed pl f s caller k).id ≡ k.id
    unfolding composed
    kept_id k = ground arith

    steady-id : {p : Knowledge} → prepare pl f s caller given ≡ ok p → f.nfc p.id ≡ p.id
    unfolding normalize_keys derive_links
    steady-id h =
        let (_, _, e) = prepare-lem pl f s caller given h in
        ap (λ (q : Knowledge). f.nfc q.id) e
        ∙ ap (λ (q : Knowledge). q.id) steady
        ∙ sym (ap (λ (q : Knowledge). q.id) e)

    prepared-ok :
        (p : Knowledge) {q : Knowledge}
        → prepare pl f s caller p ≡ ok q
        → prepared pl f s caller p ≡ q
    unfolding prepared
    prepared-ok p e = rw (e, prepared) refl

    prepared-err :
        (p : Knowledge) {e : WriteError}
        → prepare pl f s caller p ≡ err e
        → prepared pl f s caller p ≡ p
    unfolding prepared
    prepared-err p e = rw (e, prepared) refl

    after_create-id :
        {p : Knowledge}
        → prepare pl f s caller given ≡ ok p
        → (after_create pl f s caller now actor p).id ≡ p.id
    unfolding after_create
    after_create-id {p} h = kept_id _ ∙ elim (Result-cases (prepare pl f s caller p)) [
      | inl (q, e) ↦
          ap (λ (x : Knowledge). x.id)
            (prepared-ok p e
              ∙ prepared-again pl f s caller now actor if_match given b later past steady h e)
      | inr (d, e) ↦ ap (λ (x : Knowledge). x.id) (prepared-err p e)
    ]

    read-row :
        (k : Knowledge) (c : Base) {b' : Base} {out : Written} (window : Base → Base)
        → update pl f s caller window now actor none k c ≡ (b', ok out)
        → (row : Row) × (get_one false (f.nfc k.id) c ≡ ok row)
    read-row k c window up =
        elim (subst (Outcome pl f s caller window now actor none k c) up
          (update-Outcome pl f s caller window now actor none k c)) [
            | inl (_, quiet) ↦
                let (_, row, read, _) = Settling-id pl f s caller quiet.rests in (row, read)
            | inr loud ↦ let (_, row, read, _) = Settling-id pl f s caller loud.rests in (row, read)
          ]

    -- A retry finds nothing where a create found no live concept.
    retry-absurd :
        {p : Knowledge} {c b' : Base} {out : Written} (window : Base → Base)
        → prepare pl f s caller given ≡ ok p
        → get_one false p.id b ≡ err missing
        → c ≡ b
        → update pl f s caller window now actor none (after_create pl f s caller now actor p) c
          ≡ (b', ok out)
        → ⊥
    retry-absurd {p} {c} window h g same up =
        let (row, read) = read-row (after_create pl f s caller now actor p) c window up in
        let i = ap f.nfc (after_create-id h) ∙ steady-id h in
        clash (sym (ap (λ j. get_one false j c) i ∙ ap (get_one false p.id) same ∙ g) ∙ read)
      where
        clash : {r : Row} → ◌≡◌ {A = Result Failure Row} (err missing) (ok r) → ⊥
        clash e = cc e

    -- A put from a free id on.
    free-Planned :
        {e : WriteError} {b' : Base} {out : Written}
        → settle_update pl f s caller given if_match b ≡ err e
        → is_free if_match e ≡ true
        → (p : Knowledge) → prepare pl f s caller given ≡ ok p
        → put_created pl f s caller alone now actor p (create pl f s caller now actor p b)
          ≡ (b', ok out)
        → Planned out
    unfolding put_created
    free-Planned {e} {b'} {out} g free p prep h = go (create pl f s caller now actor p b) refl h
      where
        answered_by :
            {c : Base} {k : Knowledge}
            → ◌≡◌ {A = Base × Result WriteError Written}
                (c, ok (record { entry = k; created = true; changed = true }))
                (b', ok out)
            → ◌≡◌ {A = Written} (record { entry = k; created = true; changed = true }) out
        answered_by q = cc q

        go :
            (r : Base × Result WriteError Knowledge)
            → create pl f s caller now actor p b ≡ r
            → put_created pl f s caller alone now actor p r ≡ (b', ok out)
            → Planned out
        go (c, ok k) made e' = subst Planned (answered_by e') (
            made-Planned pl f s caller now actor if_match given b later past steady prep g free
              made)
        go (c, err (failure already_exists)) made e' = absurd (
            retry-absurd (λ x. x) prep
              (settle_update-free pl f s caller given if_match b prep g
                (free-missing if_match e free))
              (create-err pl f s caller now actor p b made) e')
        go (c, err (failure missing)) made e' = absurd (cc e')
        go (c, err (failure conflict)) made e' = absurd (cc e')
        go (c, err (failure curated_tombstone)) made e' = absurd (cc e')
        go (c, err (failure not_deleted)) made e' = absurd (cc e')
        go (c, err (failure unrenderable)) made e' = absurd (cc e')
        go (c, err (refusal _)) made e' = absurd (cc e')
        go (c, err (invalid _)) made e' = absurd (cc e')

    create-refused :
        {d : WriteError}
        → prepare pl f s caller given ≡ err d
        → (y : WriteError) × (create pl f s caller now actor given b ≡ (b, err y))
          × (((z : Refusal) × (y ≡ refusal z)) ⊎ ((z : Invalid) × (y ≡ invalid z)))
    unfolding create create_checked
    create-refused {d} h = elim (Result-cases (check_writable s.config)) [
      | inr (z, q) ↦ (refusal (fault z), (rw (q) refl), inl (fault z, refl))
      | inl (_, q) ↦ (d, (rw (q, h) refl), refused_by pl f s caller given h)
    ]

    -- A payload that the checks refuse is not created, and not for want of a free id.
    refused-Planned :
        {d : WriteError} {b' : Base} {out : Written}
        → prepare pl f s caller given ≡ err d
        → put_created pl f s caller alone now actor given (create pl f s caller now actor given b)
          ≡ (b', ok out)
        → ⊥
    unfolding put_created
    refused-Planned {d} {b'} {out} h e =
        let (y, made, why) = create-refused h in
        go why
          (subst (λ r. put_created pl f s caller alone now actor given r ≡ (b', ok out)) made e)
      where
        go :
            {y : WriteError}
            → ((z : Refusal) × (y ≡ refusal z)) ⊎ ((z : Invalid) × (y ≡ invalid z))
            → put_created pl f s caller alone now actor given (b, err y) ≡ (b', ok out)
            → ⊥
        go (inl (z, q)) k = cc (
            subst (λ y. put_created pl f s caller alone now actor given (b, err y) ≡ (b', ok out)) q
              k)
        go (inr (z, q)) k = cc (
            subst (λ y. put_created pl f s caller alone now actor given (b, err y) ≡ (b', ok out)) q
              k)

    same_answer :
        {c b' : Base} {o out : Written}
        → ◌≡◌ {A = Base × Result WriteError Written} (c, ok o) (b', ok out)
        → o ≡ out
    same_answer q = cc q

    free-branch :
        (c : Base) {b' : Base} {out : Written} (e : WriteError) (free : Bool)
        {x : Base × Result WriteError Written}
        → (if free then x else (c, err e)) ≡ (b', ok out)
        → (free ≡ true) × (x ≡ (b', ok out))
    free-branch c e true h = (refl, h)
    free-branch c e false h = absurd (cc h)

    left-err :
        {e : WriteError}
        → settle_update pl f s caller given if_match b ≡ err e
        → after_update pl f s caller now actor if_match given b ≡ prepared pl f s caller given
    unfolding after_update
    left-err g = rw (g, after_update) refl

    begun :
        {e : WriteError} {b' : Base} {out : Written}
        → settle_update pl f s caller given if_match b ≡ err e
        → is_free if_match e ≡ true
        → put_created pl f s caller alone now actor
            (prepared pl f s caller given)
            (create pl f s caller now actor (prepared pl f s caller given) b)
          ≡ (b', ok out)
        → Planned out
    begun {b' = b'} {out} g free h = elim (Result-cases (prepare pl f s caller given)) [
      | inl (p, e) ↦ free-Planned g free p e (
          subst
            (λ z.
              put_created pl f s caller alone now actor z (create pl f s caller now actor z b)
              ≡ (b', ok out))
            (prepared-ok given e) h)
      | inr (d, e) ↦ absurd (
          refused-Planned e (
            subst
              (λ z.
                put_created pl f s caller alone now actor z (create pl f s caller now actor z b)
                ≡ (b', ok out))
              (prepared-err given e) h))
    ]

    -- A put that nobody disturbs does what the plan of it says: where the payload is in normal form once
    -- it is normalised and the clocks are past the zero time, the plan answers too, with the same word on
    -- whether a concept is created, whether anything changes, the same document and the same hash.
    pub put-plan :
        {b' : Base} {out : Written}
        → put pl f s caller alone now actor if_match given b ≡ (b', ok out)
        → Predicts (plan pl f s caller now actor if_match given b) out
    unfolding put put_updated
    put-plan {b'} {out} h =
        go (update pl f s caller (λ c. c) now actor if_match given b)
          (update-Outcome pl f s caller (λ c. c) now actor if_match given b) h
      where
        go :
            (r : Base × Result WriteError Written)
            → Outcome pl f s caller (λ c. c) now actor if_match given b r
            → put_updated pl f s caller alone now actor if_match
                (after_update pl f s caller now actor if_match given b)
                r
              ≡ (b', ok out)
            → Planned out
        go (c, ok o) (inl (_, q)) e =
            subst Planned (same_answer e)
              (Quiet-Planned pl f s caller now actor if_match given b later past steady q)
        go (c, ok o) (inr l) e =
            subst Planned (same_answer e)
              (Loud-Planned pl f s caller now actor if_match given b later past steady l)
        go (c, err x) (inl (same, g)) e =
            let (free, y) = free-branch c x (is_free if_match x) e in
            begun g free (
              subst
                (λ z.
                  put_created pl f s caller alone now actor z (create pl f s caller now actor z b)
                  ≡ (b', ok out))
                (left-err g)
                (subst
                  (λ z.
                    put_created pl f s caller alone now actor
                      (after_update pl f s caller now actor if_match given b)
                      (create pl f s caller now actor
                        (after_update pl f s caller now actor if_match given b) z)
                    ≡ (b', ok out))
                  same y))
        go (c, err x) (inr (_, u, d, rests, missed, e')) e =
            let (free, _) = free-branch c x (is_free if_match x) e in
            let (next, row, read, _) = Settling-id pl f s caller rests in
            let i = sign-id pl f s caller now actor u ∙ next in
            absurd (
              ground (
                arith,
                free-missing if_match x free,
                e',
                update-hits pl f s caller now actor if_match (sign now actor u) b missed
                    (ap (λ j. get_one false j b) i ∙ read),
              ))
