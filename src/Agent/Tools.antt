-- ===== src/Agent/Tools.antt =====
-- The tools of a turn: call, dispatch, writeDraft and proposeRevision. `Toolbox` bundles what they ask of
-- the service, of package okf and of the JSON encoder, over the state W of the server.
use ochakai.Common.{
  not, ◌&&◌, ◌||◌, List, [], ◌∷◌, ◌++◌, Option, none, some, ltb, leb, ◌==◌, if◌then◌else◌, length,
  any,
}
use ochakai.Common.Result.{Result, ok, err}
use ochakai.Text.{Bytes, codes, ◌=?◌}
use ochakai.Text.Space.{trim_space}
use ochakai.Domain.Trust.{status_draft}
use ochakai.Domain.Content.{Knowledge}
use ochakai.Agent.{TurnRevision, max_drafts, max_result_bytes}
use ochakai.Agent.Cut.{cut}

-- What a tool answers with.
pub data Reply : Type 0 where
  text : Bytes → Reply
  drafted : Bytes → Bytes → Reply
  proposed : Bytes → List Bytes → Bytes → Reply

pub data ToolError : Type 0 where
  too_many incomplete unreadable uncanonical : ToolError
  not_a_draft repeated unknown refused : Bytes → ToolError

-- What the model is handed back.
pub data Response : Type 0 where
  failed : ToolError → Response
  truncated : Bytes → Response
  whole : Bytes → Response

pub record Call : Type 0 where
  pub name : Bytes
  pub args : Bytes → Bytes

-- args.str; an argument that is missing or no string is empty.
abbrev pub str : Call → Bytes → Bytes
str c key = trim_space (c.args key)

pub record Run : Type 0 where
  pub read : List Bytes
  pub drafts : List Bytes
  pub revisions : List TurnRevision

pub record Toolbox (W : Type 0) : Type 0 where
  pub nfc : Bytes → Bytes
  pub parse : Bytes → Option Knowledge
  pub canonical : Knowledge → Option Bytes
  pub encode : Reply → Bytes
  pub create : Knowledge → W → W × Result Bytes Knowledge
  pub revisable : Bytes → Bytes → W → Result Bytes Knowledge
  pub current : Bytes → W → Result Bytes Knowledge
  pub get : Bytes → W → W × Result Bytes Knowledge
  pub view : Knowledge → Result Bytes Bytes
  pub look : Call → W → W × Result Bytes Bytes

abbrev pub Outcome : Type 0 → Type 0
Outcome W = W × Run × Result ToolError Reply

module _ {W : Type 0} (tb : Toolbox W) where
  -- writeDraft, from the create on.
  abbrev pub draft_created : Run → W × Result Bytes Knowledge → Outcome W
  draft_created r (w, err e) = (w, r, err (refused e))
  draft_created r (w, ok k) =
      (w, record r { drafts = r.drafts ++ k.id ∷ [] }, ok (drafted k.id k.status))

  -- writeDraft
  unfoldable pub write_draft : Bytes → Bytes → Run → W → Outcome W
  write_draft id document r w =
      if leb max_drafts (length r.drafts)
      then (w, r, err too_many)
      else if id =? [] || document =? []
      then (w, r, err incomplete)
      else elim (tb.parse document) [
        | none ↦ (w, r, err unreadable)
        | some d ↦
            if not (d.status =? []) && not (d.status =? status_draft)
            then (w, r, err (not_a_draft d.status))
            else draft_created r (tb.create (record d { id = id; status = status_draft }) w)
      ]

  -- Which parts of a draft a proposal changes.
  unfoldable pub changes : Knowledge → Knowledge → Bytes → List Bytes
  changes k cur canon =
      let parts =
        (if k.title =? cur.title then [] else codes "title" ∷ [])
        ++ (if k.description =? cur.description then [] else codes "description" ∷ [])
        ++ (if trim_space k.body =? trim_space cur.body then [] else codes "body" ∷ []) in
      elim (tb.canonical cur) [
        | none ↦ parts
        | some was ↦
            if length parts == 0 && not (was =? canon) then codes "frontmatter" ∷ [] else parts
      ]

  -- proposeRevision, with the id in its normal form.
  unfoldable pub propose : Bytes → Bytes → Bytes → Run → W → Outcome W
  unfolding changes
  propose id given document r w =
      if leb max_drafts (length r.revisions)
      then (w, r, err too_many)
      else if given =? [] || document =? []
      then (w, r, err incomplete)
      else if any (λ v. v.id =? id) r.revisions
      then (w, r, err (repeated id))
      else elim (tb.revisable id document w) [
        | err e ↦ (w, r, err (refused e))
        | ok k ↦ elim (tb.current id w) [
          | err e ↦ (w, r, err (refused e))
          | ok cur ↦ elim (tb.canonical k) [
            | none ↦ (w, r, err uncanonical)
            | some canon ↦ (
              w,
              record r {
                revisions =
                    r.revisions
                    ++ record { id = id; document = canon; base = cur.content_hash } ∷ [];
              },
              ok (proposed id (changes k cur canon) k.description),
            )
          ]
        ]
      ]

  -- proposeRevision
  unfoldable pub propose_revision : Bytes → Bytes → Run → W → Outcome W
  unfolding propose
  propose_revision given document r w = propose (tb.nfc given) given document r w

  -- The concept as it is handed back.
  abbrev pub viewed : Result Bytes Bytes → Result ToolError Reply
  viewed (err e) = err (refused e)
  viewed (ok out) = ok (text out)

  -- get_concept, which keeps the ids that it has read, each once, also where the view fails.
  unfoldable pub concept_read : Run → W × Result Bytes Knowledge → Outcome W
  concept_read r (w, err e) = (w, r, err (refused e))
  concept_read r (w, ok k) =
      let r' = if any (λ i. i =? k.id) r.read then r else record r { read = r.read ++ k.id ∷ [] } in
      (w, r', viewed (tb.view k))

  abbrev pub looked : Run → W × Result Bytes Bytes → Outcome W
  looked r (w, err e) = (w, r, err (refused e))
  looked r (w, ok out) = (w, r, ok (text out))

  -- The tools that read and keep nothing of it.
  abbrev pub readers : List Bytes
  readers =
      codes "search_concepts"
      ∷ codes "list_concepts"
      ∷ codes "get_stats"
      ∷ codes "get_usage"
      ∷ codes "list_turns"
      ∷ codes "read_log"
      ∷ []

  -- dispatch
  unfoldable pub dispatch : Call → Run → W → Outcome W
  unfolding write_draft propose_revision concept_read
  dispatch c r w =
      let drafting = write_draft (str c (codes "id")) (str c (codes "document")) r w in
      let revising = propose_revision (str c (codes "id")) (str c (codes "document")) r w in
      if c.name =? codes "get_concept"
      then concept_read r (tb.get (str c (codes "id")) w)
      else if c.name =? codes "write_draft"
      then drafting
      else if c.name =? codes "propose_revision"
      then revising
      else if any (λ n. n =? c.name) readers
      then looked r (tb.look c w)
      else (w, r, err (unknown c.name))

  -- What call makes of a tool's answer.
  unfoldable pub respond : Result ToolError Reply → Response
  respond (err e) = failed e
  respond (ok out) =
      let b = tb.encode out in
      if ltb max_result_bytes (length b) then truncated (cut b max_result_bytes) else whole b

  -- The calls of one turn, one after the other.
  unfoldable pub call_all : List Call → Run → W → W × Run × List Response
  unfolding dispatch respond
  call_all [] r w = (w, r, [])
  call_all (c ∷ cs) r w =
      let (w₁, r₁, out) = dispatch c r w in
      let (w₂, r₂, rest) = call_all cs r₁ w₁ in (w₂, r₂, respond out ∷ rest)
