-- ===== src/Agent/Bounds.antt =====
-- What a turn can come to: its lists are those of the server's answers, and the drafts and the revisions
-- that it makes are few.
use ochakai.Common.{
  ℕ, zero, suc, Bool, true, false, not, List, [], Option, none, some, refl, sym, subst, arith, ◌==◌,
  if-either, length,
}
use ochakai.Common.Result.{Result, ok, err, option-either, result-either}
use ochakai.Text.{Bytes, ◌=?◌}
use ochakai.Text.Space.{trim_space}
use ochakai.Agent.{Message, Answer, Refusal, max_rounds, validate}
use ochakai.Agent.Tools.{Run, Toolbox}
use ochakai.Agent.Loop.{
  Turn, Exchange, Request, Generated, turn, no_answer, broken, Texts, Model, proposal, sql_in_text,
  concludes, after_turn, after_generated, rounds, Mode, mode_of, messages, fresh, answer,
}
use ochakai.Agent.Logged.{Log, empty_log, Beside, logged, logged-Alike}
use ochakai.Agent.Noted.{Fits, RunFits, call_all-Fits}
use ochakai.Agent.Alike.{Same}
use ochakai.Agent.Replay.{answer-alike}

abbrev pub ResultFits : Log → Result Refusal Answer → Type 0
ResultFits log (ok a) = Fits log a.read a.drafts a.revisions
ResultFits log (err _) = Unit

abbrev EndFits : {W : Type 0} → (W × Log) × Result Refusal Answer → Type 0
EndFits e = ResultFits e.0.1 e.1

module _ (x : Texts) where
  concludes-Fits :
      (text : Bytes) (log : Log) (r : Run)
      → RunFits log r
      → ResultFits log (ok (concludes x text r))
  unfolding concludes
  concludes-Fits text log r f =
      option-either (λ (a : Answer). ResultFits log (ok a)) (sql_in_text x text) f (λ p. f)

  module _ {W : Type 0} where
    after_turn-Fits :
        (retried : Bool) (r : Run) (w : W × Log)
        (stumbled further : (W × Log) × Result Refusal Answer) (t : Turn)
        → RunFits w.1 r
        → EndFits stumbled
        → EndFits further
        → EndFits (after_turn x retried r w stumbled further t)
    unfolding after_turn
    after_turn-Fits retried r w stumbled further t f s g =
        option-either EndFits (proposal t.calls)
          (if-either EndFits (not (length t.calls == 0)) (λ _. g)
            (λ _.
              if-either EndFits (not (trim_space t.said =? []))
                (λ _. concludes-Fits (trim_space t.said) w.1 r f)
                (λ _. if-either EndFits retried (λ _. tt) (λ _. s))))
          (λ p. f)

    after_generated-Fits :
        (retried : Bool) (r : Run) (w : W × Log) (stumbled : (W × Log) × Result Refusal Answer)
        (further : Turn → (W × Log) × Result Refusal Answer) (g : Generated)
        → RunFits w.1 r
        → EndFits stumbled
        → ((t : Turn) → EndFits (further t))
        → EndFits (after_generated x retried r w stumbled further g)
    unfolding after_generated
    after_generated-Fits retried r w stumbled further no_answer f s go =
        if-either EndFits retried (λ _. tt) (λ _. s)
    after_generated-Fits retried r w stumbled further broken f s go = tt
    after_generated-Fits retried r w stumbled further (turn t) f s go =
        after_turn-Fits retried r w stumbled (further t) t f s (go t)

  module _ (generate : ℕ → Request → Generated) {W : Type 0} (tb : Toolbox W) (mode : Mode) where
    rounds-Fits :
        (left asked : ℕ) (retried : Bool) (contents : List Exchange) (r : Run) (w : W × Log)
        → RunFits w.1 r
        → EndFits (rounds x generate (logged tb) mode left asked retried contents r w)
    unfolding rounds
    rounds-Fits zero asked retried contents r w f = tt
    rounds-Fits (suc left) asked retried contents r w f =
        after_generated-Fits retried r w _ _
          (generate asked (record { mode = mode; contents = contents })) f
          (rounds-Fits left (suc asked) true contents r w f)
          (λ t. rounds-Fits left (suc asked) retried _ _ _ (call_all-Fits tb t.calls r w f))

logged_answer-Fits :
    {W : Type 0} (tb : Toolbox W) (m : Option Model) (read_only dry_run : Bool)
    (msgs : List Message) (w : W)
    → EndFits (answer (logged tb) m read_only dry_run msgs (w, empty_log))
unfolding answer
logged_answer-Fits tb none read_only dry_run msgs w = tt
logged_answer-Fits tb (some m) read_only dry_run msgs w =
    result-either EndFits (validate msgs) (λ _. tt)
      (λ contents.
        rounds-Fits m.texts m.generate tb (mode_of dry_run read_only) max_rounds 0 false
          (messages contents) fresh (w, empty_log)
          (record {
            once = tt;
            complete = λ _. refl;
            created = refl;
            few_drafts = omega arith;
            few_revisions = omega arith;
          }))

-- The log beside the turn is of the same turn.
logged_answer-Same :
    {W : Type 0} (tb : Toolbox W) (m : Option Model) (read_only dry_run : Bool)
    (msgs : List Message) (w : W)
    → Same Beside
        (answer tb m read_only dry_run msgs w)
        (answer (logged tb) m read_only dry_run msgs (w, empty_log))
unfolding answer
logged_answer-Same tb none read_only dry_run msgs w = (refl, refl)
logged_answer-Same tb (some m) read_only dry_run msgs w =
    answer-alike m.texts m.generate m.generate tb (logged tb) Beside (logged-Alike tb) read_only
      dry_run dry_run msgs w (w, empty_log) refl (λ n c lt. refl)

-- Whatever the model calls for and whatever the server answers: with the same turn run beside a
-- log of the server's answers, an answer names the concepts that get_concept was handed, all of them
-- and each once, and as its drafts the concepts that write_draft created, in their order. It
-- comes with five drafts at most and with five revisions at most.
pub answer-Fits :
    {W : Type 0} (tb : Toolbox W) (m : Option Model) (read_only dry_run : Bool)
    (msgs : List Message) (w : W)
    → ResultFits
        (answer (logged tb) m read_only dry_run msgs (w, empty_log)).0.1
        (answer tb m read_only dry_run msgs w).1
answer-Fits tb m read_only dry_run msgs w =
    subst (ResultFits (answer (logged tb) m read_only dry_run msgs (w, empty_log)).0.1)
      (sym (logged_answer-Same tb m read_only dry_run msgs w).1)
      (logged_answer-Fits tb m read_only dry_run msgs w)
