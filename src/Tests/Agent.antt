-- ===== src/Tests/Agent.antt =====
-- A turn of the agent: it reads a concept, drafts another, and answers.
use ochakai.Common.{
  ℕ, Bool, zero, suc, ltb, if◌then◌else◌, arith, List, ◌≤◌, true, false, [], ◌∷◌, ◌++◌, none, some,
  ◌≡◌, ◌⊎◌, length,
}
use ochakai.Common.Result.{ok}
use ochakai.Text.{Bytes, codes}
use ochakai.Agent.{Message}
use ochakai.Agent.Cut.{cut, starts_at, cut-bounds}
use ochakai.Agent.Tools.{Toolbox}
use ochakai.Agent.Loop.{Turn, Request, Generated, turn, no_answer, Model, Recorder, answer}
use ochakai.Agent.Bounds.{ResultFits, answer-Fits}
use ochakai.Agent.Replay.{answer-rounds}
use ochakai.Agent.Alike.{Alike}
use ochakai.Agent.Logged.{logged, empty_log}
use ochakai.Tests.Entries.{note}

abbrev toolbox : Toolbox ℕ
toolbox = record {
  nfc = λ s. s;
  parse = λ s. some (record (note s) { status = [] });
  canonical = λ k. some k.body;
  encode = λ _. codes "reply";
  create = λ k w. (suc w, ok k);
  revisable = λ id document w. ok (note document);
  current = λ id w. ok (note (codes "one"));
  get = λ id w. (w, ok (record (note (codes "one")) { id = id }));
  view = λ k. ok k.body;
  look = λ c w. (w, ok (codes "none"));
}

abbrev drafting : Turn
drafting = record {
  said = [];
  calls =
      record { name = codes "get_concept"; args = λ _. codes "teams/a/x" }
      ∷ record { name = codes "write_draft"; args = λ _. codes "teams/a/y" }
      ∷ [];
}

abbrev concluding : Turn
concluding = record { said = codes "done"; calls = [] }

-- It drafts when it is first asked, stumbles, and concludes.
abbrev script : ℕ → Request → Generated
script zero q = turn drafting
script (suc zero) q = no_answer
script (suc (suc _)) q = turn concluding

-- The same script, but that it falls silent behind the last round.
abbrev silent : ℕ → Request → Generated
silent n q = if ltb n 16 then script n q else no_answer

abbrev model : Model
model = record { texts = record { fenced = λ _. none; upper = λ s. s }; generate = script }

abbrev asked : List Message
asked = record { role = codes "user"; text = codes "What is x?" } ∷ []

answer-Fits_example :
    ResultFits
      (answer (logged toolbox) (some model) false false asked (0, empty_log)).0.1
      (answer toolbox (some model) false false asked 0).1
answer-Fits_example = answer-Fits toolbox (some model) false false asked 0

answer-rounds_example :
    answer toolbox (some model) false false asked 0
    ≡ answer toolbox (some (record { texts = model.texts; generate = silent })) false false asked 0
answer-rounds_example =
    answer-rounds toolbox model.texts script silent false false asked 0 (λ n q lt. ground arith)

-- Tools that count what they hand out, where they are measured, beside the drafts.
abbrev counting : Bool → Toolbox (ℕ × ℕ)
counting measured = record {
  nfc = λ s. s;
  parse = toolbox.parse;
  canonical = toolbox.canonical;
  encode = toolbox.encode;
  create = λ k w. ((suc w.0, w.1), ok k);
  revisable = λ id document w. ok (note document);
  current = λ id w. ok (note (codes "one"));
  get = λ id w.
      ((w.0, if measured then suc w.1 else w.1), ok (record (note (codes "one")) { id = id }));
  view = toolbox.view;
  look = λ c w. (w, ok (codes "none"));
}

abbrev SameDrafts : ℕ × ℕ → ℕ × ℕ → Type 0
SameDrafts w w' = w.0 ≡ w'.0

-- The recorder gives every turn one name.
abbrev one_name : Recorder (ℕ × ℕ)
one_name opening question a w = (w, codes "turn")

cut-bounds_example :
    (length (cut (codes "abc") 2) ≤ 2)
    × (rest : Bytes) × (codes "abc" ≡ cut (codes "abc") 2 ++ rest)
    × ((cut (codes "abc") 2 ≡ []) ⊎ (starts_at rest ≡ true))
cut-bounds_example = cut-bounds (codes "abc") 2
