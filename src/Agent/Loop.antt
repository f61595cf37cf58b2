-- ===== src/Agent/Loop.antt =====
-- The turn: answer and its rounds. `generate` is the model, asked for the n-th time, and `fenced` is the
-- last SQL block of a text: what stands before it, in it and behind it.
use ochakai.Common.{
  ℕ, zero, suc, Bool, true, false, not, ◌&&◌, List, [], ◌∷◌, ◌++◌, Option, none, some, ◌==◌,
  if◌then◌else◌, length,
}
use ochakai.Common.Result.{Result, ok, err}
use ochakai.Text.{Bytes, codes, ◌=?◌}
use ochakai.Text.Space.{trim_space, is_space}
use ochakai.Text.Utf8.{runes}
use ochakai.Agent.{
  Message, Content, Proposal, Answer, Refusal, off, not_answered, unfinished, max_rounds, validate,
  first_asked,
}
use ochakai.Agent.Tools.{Response, Call, str, Run, Toolbox, call_all}

pub record Turn : Type 0 where
  pub said : Bytes
  pub calls : List Call

-- What is in a request behind its tools.
pub data Exchange : Type 0 where
  message : Content → Exchange
  replied : Turn → Exchange
  handed : List Response → Exchange

-- Which prompt and which tools go with the contents.
pub data Mode : Type 0 where
  replaying drafting answering : Mode

pub record Request : Type 0 where
  pub mode : Mode
  pub contents : List Exchange

pub data Generated : Type 0 where
  turn : Turn → Generated
  no_answer broken : Generated

-- What the source takes from package regexp and from Unicode.
pub record Texts : Type 0 where
  pub fenced : Bytes → Option (Bytes × Bytes × Bytes)
  pub upper : List ℕ → List ℕ

pub record Model : Type 0 where
  pub texts : Texts
  pub generate : ℕ → Request → Generated

-- proposal
unfoldable pub proposal : List Call → Option Proposal
proposal [] = none
proposal (c ∷ cs) =
    let rest = proposal cs in
    if c.name =? codes "propose_sql" && not (str c (codes "query") =? [])
    then some (record { query = str c (codes "query"); purpose = str c (codes "purpose") })
    else rest

-- The first of strings.Fields.
abbrev pub first_field : List ℕ → List ℕ
first_field [] = []
first_field (r ∷ rs) = let rest = first_field rs in if is_space r then [] else r ∷ rest

module _ (x : Texts) where
  -- sqlInText
  unfoldable pub sql_in_text : Bytes → Option (Proposal × Bytes)
  sql_in_text text = elim (x.fenced text) [
    | none ↦ none
    | some (before, block, behind) ↦
        let q = trim_space block in
        let head = x.upper (first_field (runes (q ++ codes " x"))) in
        let rest = trim_space (before ++ behind) in
        if not (head =? codes "SELECT") && not (head =? codes "WITH")
        then none
        else some (record { query = q; purpose = rest }, rest)
  ]

  abbrev pub answer_with : Bytes → Option Proposal → Run → Answer
  answer_with text sql r = record {
    text = text;
    read = r.read;
    sql = sql;
    drafts = r.drafts;
    revisions = r.revisions;
  }

  -- A turn that ends at a query.
  abbrev pub proposes : Turn → Proposal → Run → Answer
  proposes t p r =
      let text = trim_space t.said in
      answer_with (if text =? [] then p.purpose else text) (some p) r

  -- A turn without calls, whose text is not empty.
  unfoldable pub concludes : Bytes → Run → Answer
  unfolding sql_in_text
  concludes text r = elim (sql_in_text text) [
    | none ↦ answer_with text none r
    | some (p, rest) ↦ answer_with rest (some p) r
  ]

  module _ {W : Type 0} where
    -- What a round makes of the model's turn, with what the loop comes to if it goes on.
    unfoldable pub after_turn :
        Bool
        → Run
        → W
        → W × Result Refusal Answer
        → W × Result Refusal Answer
        → Turn
        → W × Result Refusal Answer
    unfolding proposal concludes
    after_turn retried r w stumbled further t = elim (proposal t.calls) [
      | some p ↦ (w, ok (proposes t p r))
      | none ↦
          if not (length t.calls == 0)
          then further
          else if not (trim_space t.said =? [])
          then (w, ok (concludes (trim_space t.said) r))
          else if retried
          then (w, err not_answered)
          else stumbled
    ]

    -- What a round makes of the model's answer.
    unfoldable pub after_generated :
        Bool
        → Run
        → W
        → W × Result Refusal Answer
        → (Turn → W × Result Refusal Answer)
        → Generated
        → W × Result Refusal Answer
    unfolding after_turn
    after_generated retried r w stumbled further no_answer =
        if retried then (w, err not_answered) else stumbled
    after_generated retried r w stumbled further broken = (w, err not_answered)
    after_generated retried r w stumbled further (turn t) =
        after_turn retried r w stumbled (further t) t

  module _ (generate : ℕ → Request → Generated) {W : Type 0} (tb : Toolbox W) (mode : Mode) where
    -- The rounds: how many are left, how often the model was asked, whether it has stumbled, the
    -- contents of the request, what the turn has done, and the server.
    unfoldable pub rounds : ℕ → ℕ → Bool → List Exchange → Run → W → W × Result Refusal Answer
    unfolding after_generated call_all
    rounds zero asked retried contents r w = (w, err unfinished)
    rounds (suc left) asked retried contents r w =
        after_generated retried r w (rounds left (suc asked) true contents r w)
          (λ t.
            let (w', r', answers) = call_all tb t.calls r w in
            rounds left (suc asked) retried (contents ++ replied t ∷ handed answers ∷ []) r' w')
          (generate asked (record { mode = mode; contents = contents }))

-- The mode of a call.
unfoldable pub mode_of : Bool → Bool → Mode
mode_of dry_run read_only = if dry_run then replaying else if read_only then answering else drafting

abbrev pub messages : List Content → List Exchange
messages [] = []
messages (c ∷ cs) = message c ∷ messages cs

abbrev pub fresh : Run
fresh = record { read = []; drafts = []; revisions = [] }

-- answer
unfoldable pub answer :
    {W : Type 0}
    → Toolbox W
    → Option Model
    → Bool
    → Bool
    → List Message
    → W
    → W × Result Refusal Answer
unfolding validate rounds mode_of
answer tb none read_only dry_run msgs w = (w, err off)
answer tb (some m) read_only dry_run msgs w = elim (validate msgs) [
  | err e ↦ (w, err e)
  | ok contents ↦
      rounds m.texts m.generate tb (mode_of dry_run read_only) max_rounds 0 false
        (messages contents) fresh w
]

-- A turn that was answered, with the name it is kept under.
pub record Kept : Type 0 where
  pub answer : Answer
  pub name : Bytes

-- RecordAgentTurn: the opening question, the message that was answered, and the answer.
abbrev pub Recorder : Type 0 → Type 0
Recorder W = Bytes → Bytes → Answer → W → W × Bytes

abbrev pub kept : Answer → Bytes → Kept
kept a name = record { answer = if name =? [] then record a { revisions = [] } else a; name = name }

abbrev pub last_text : List Message → Bytes
last_text [] = []
last_text (m ∷ []) = m.text
last_text (_ ∷ n ∷ ns) = last_text (n ∷ ns)

-- Run, from the answer on; the recorder is missing where there is no store.
unfoldable pub keep_turn :
    {W : Type 0}
    → Option (Recorder W)
    → Bool
    → List Message
    → W × Result Refusal Answer
    → W × Result Refusal Kept
unfolding first_asked
keep_turn recorder dry_run msgs (w, err e) = (w, err e)
keep_turn none dry_run msgs (w, ok a) = (w, ok (record { answer = a; name = [] }))
keep_turn (some record_turn) dry_run msgs (w, ok a) =
    let (w', name) = record_turn (first_asked msgs) (last_text msgs) a w in
    if dry_run then (w, ok (record { answer = a; name = [] })) else (w', ok (kept a name))

-- Run. `toolbox measured` is the tools with their reads counted, or left out of the counts
-- as service.Unmeasured has it.
unfoldable pub run :
    {W : Type 0}
    → (Bool → Toolbox W)
    → Option (Recorder W)
    → Option Model
    → Bool
    → Bool
    → List Message
    → W
    → W × Result Refusal Kept
unfolding answer keep_turn
run toolbox recorder m read_only dry_run msgs w =
    keep_turn recorder dry_run msgs (answer (toolbox (not dry_run)) m read_only dry_run msgs w)
