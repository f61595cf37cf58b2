-- ===== src/Agent/Noted.antt =====
-- What the calls of a turn leave in its lists, held against the log of the server's answers.
use ochakai.Common.{
  ◌≤◌, ◌<◌, true, false, not, ◌&&◌, ◌||◌, List, [], ◌∷◌, ◌++◌, ◌≡◌, refl, sym, ap, ◌∙◌, arith, leb,
  if-either, length, length-append, any, any-append,
}
use ochakai.Common.Result.{Result, ok, err, option-either, result-either}
use ochakai.Text.{Bytes, codes, ◌=?◌, bytes_discrete}
use ochakai.Domain.Trust.{status_draft}
use ochakai.Domain.Content.{Knowledge}
use ochakai.Agent.{TurnRevision, max_drafts}
use ochakai.Agent.Tools.{
  Call, str, Run, Toolbox, Outcome, draft_created, write_draft, propose, propose_revision,
  concept_read, looked, readers, dispatch, call_all,
}
use ochakai.Agent.Logged.{Log, logged, noted_get, noted_create}

-- No id stands twice.
abbrev pub Once : List Bytes → Type 0
Once [] = Unit
Once (i ∷ is) = (any (λ j. j =? i) is ≡ false) × Once is

-- What a turn has done, held against the log of the server's answers: it names the concepts that
-- it was handed, each once, and the concepts that it created, in their order.
pub record Fits (log : Log) (read : List Bytes) (drafts : List Bytes)
    (revisions : List TurnRevision) : Type 0 where
  pub once : Once read
  pub complete : (i : Bytes) → any (λ j. j =? i) read ≡ any (λ j. j =? i) log.got
  pub created : drafts ≡ log.made
  pub few_drafts : length drafts ≤ max_drafts
  pub few_revisions : length revisions ≤ max_drafts

abbrev pub RunFits : Log → Run → Type 0
RunFits log r = Fits log r.read r.drafts r.revisions

Once-append :
    (is : List Bytes) (i : Bytes) → Once is → any (λ j. j =? i) is ≡ false → Once (is ++ i ∷ [])
Once-append [] i o h = (refl, tt)
Once-append (k ∷ is) i (a, o) h =
    (any-append (λ j. j =? k) is (i ∷ []) ∙ ground arith, Once-append is i o (ground arith))

module _ {W : Type 0} (tb : Toolbox W) where
  abbrev OutcomeFits : Outcome (W × Log) → Type 0
  OutcomeFits o = RunFits o.0.1 o.1

  draft_created-Fits :
      (r : Run) (log : Log) (got : W × Result Bytes Knowledge)
      → length r.drafts < max_drafts
      → RunFits log r
      → OutcomeFits (draft_created (logged tb) r (noted_create log got))
  draft_created-Fits r log (w, err e) lt f = f
  draft_created-Fits r log (w, ok k) lt f = record {
    once = f.once;
    complete = f.complete;
    created = ap (λ d. d ++ k.id ∷ []) f.created;
    few_drafts = omega (arith, length-append r.drafts (k.id ∷ []));
    few_revisions = f.few_revisions;
  }

  write_draft-Fits :
      (id document : Bytes) (r : Run) (s : W × Log)
      → RunFits s.1 r
      → OutcomeFits (write_draft (logged tb) id document r s)
  unfolding write_draft
  write_draft-Fits id document r s f =
      if-either OutcomeFits (leb max_drafts (length r.drafts)) (λ _. f)
        (λ room.
          if-either OutcomeFits (id =? [] || document =? []) (λ _. f)
            (λ _. option-either OutcomeFits (tb.parse document) f (λ d.
              if-either OutcomeFits (not (d.status =? []) && not (d.status =? status_draft))
                (λ _. f)
                (λ _.
                  draft_created-Fits r s.1
                    (tb.create (record d { id = id; status = status_draft }) s.0) (ground arith)
                    f))))

  propose-Fits :
      (id given document : Bytes) (r : Run) (s : W × Log)
      → RunFits s.1 r
      → OutcomeFits (propose (logged tb) id given document r s)
  unfolding propose
  propose-Fits id given document r s f =
      if-either OutcomeFits (leb max_drafts (length r.revisions)) (λ _. f)
        (λ room.
          if-either OutcomeFits (given =? [] || document =? []) (λ _. f)
            (λ _.
              if-either OutcomeFits (any (λ v. v.id =? id) r.revisions) (λ _. f)
                (λ _.
                  result-either OutcomeFits (tb.revisable id document s.0) (λ _. f)
                    (λ k.
                      result-either OutcomeFits (tb.current id s.0) (λ _. f)
                        (λ cur. option-either OutcomeFits (tb.canonical k) f (λ canon. record {
                          once = f.once;
                          complete = f.complete;
                          created = f.created;
                          few_drafts = f.few_drafts;
                          few_revisions =
                              one_more
                                (record { id = id; document = canon; base = cur.content_hash })
                                (ground arith);
                        }))))))
    where
      one_more :
          (v : TurnRevision)
          → length r.revisions < max_drafts
          → length (r.revisions ++ v ∷ []) ≤ max_drafts
      one_more v lt = omega (arith, length-append r.revisions (v ∷ []))

  -- A concept that is handed out joins the list, unless it is on it.
  concept_read-Fits :
      (r : Run) (log : Log) (got : W × Result Bytes Knowledge)
      → RunFits log r
      → OutcomeFits (concept_read (logged tb) r (noted_get log got))
  unfolding concept_read
  concept_read-Fits r log (w, err e) f = f
  concept_read-Fits r log (w, ok k) f =
      if-either (RunFits (record log { got = log.got ++ k.id ∷ [] })) (any (λ i. i =? k.id) r.read)
        (λ seen. record {
          once = f.once;
          complete = λ i. again i seen;
          created = f.created;
          few_drafts = f.few_drafts;
          few_revisions = f.few_revisions;
        })
        (λ unseen. record {
          once = Once-append r.read k.id f.once unseen;
          complete = λ i.
              any-append (λ j. j =? i) r.read (k.id ∷ [])
              ∙ ap (λ c. c || any (λ j. j =? i) (k.id ∷ [])) (f.complete i)
              ∙ sym (any-append (λ j. j =? i) log.got (k.id ∷ []));
          created = f.created;
          few_drafts = f.few_drafts;
          few_revisions = f.few_revisions;
        })
    where
      again :
          (i : Bytes)
          → any (λ j. j =? k.id) r.read ≡ true
          → any (λ j. j =? i) r.read ≡ any (λ j. j =? i) (log.got ++ k.id ∷ [])
      again i seen =
          ground (
            arith,
            any-append (λ j. j =? i) log.got (k.id ∷ []),
            f.complete i,
            bytes_discrete k.id i,
          )

  looked-Fits :
      (r : Run) (s : (W × Log) × Result Bytes Bytes)
      → RunFits s.0.1 r
      → OutcomeFits (looked (logged tb) r s)
  looked-Fits r (s, err e) f = f
  looked-Fits r (s, ok out) f = f

  dispatch-Fits :
      (c : Call) (r : Run) (s : W × Log) → RunFits s.1 r → OutcomeFits (dispatch (logged tb) c r s)
  unfolding dispatch propose_revision
  dispatch-Fits c r s f =
      if-either OutcomeFits (c.name =? codes "get_concept")
        (λ _. concept_read-Fits r s.1 (tb.get (str c (codes "id")) s.0) f)
        (λ _.
          if-either OutcomeFits (c.name =? codes "write_draft")
            (λ _. write_draft-Fits (str c (codes "id")) (str c (codes "document")) r s f)
            (λ _.
              if-either OutcomeFits (c.name =? codes "propose_revision")
                (λ _.
                  propose-Fits (tb.nfc (str c (codes "id"))) (str c (codes "id"))
                    (str c (codes "document")) r s f)
                (λ _.
                  if-either OutcomeFits (any (λ n. n =? c.name) (readers tb))
                    (λ _. looked-Fits r ((logged tb).look c s) f) (λ _. f))))

  pub call_all-Fits :
      (cs : List Call) (r : Run) (s : W × Log)
      → RunFits s.1 r
      → RunFits (call_all (logged tb) cs r s).0.1 (call_all (logged tb) cs r s).1
  unfolding call_all
  call_all-Fits [] r s f = f
  call_all-Fits (c ∷ cs) r s f =
      call_all-Fits cs (dispatch (logged tb) c r s).1 (dispatch (logged tb) c r s).0
        (dispatch-Fits c r s f)
