-- ===== src/Agent.antt =====
-- internal/agent/agent.go: the conversation that a call carries, what it is held to, and the state of a
-- turn. Limits are in bytes and in rounds, as the source has them.
pub mod Cut
pub mod Alike
pub mod Tools
pub mod Loop
pub mod Logged
pub mod Noted
pub mod Bounds
pub mod Replay
use ochakai.Common.{
  ℕ, zero, suc, ◌+◌, ◌*◌, Bool, true, false, not, ◌&&◌, ◌||◌, List, [], ◌∷◌, ◌++◌, Option, none,
  some, ltb, leb, ◌==◌, if◌then◌else◌, length, any,
}
use ochakai.Common.Result.{Result, ok, err, ◌>>=◌, ◌>>◌, refuse}
use ochakai.Text.{Bytes, codes, ◌=?◌}
use ochakai.Text.Space.{trim_space}

pub record Message : Type 0 where
  pub role : Bytes
  pub text : Bytes

-- A turn as the model is handed it.
pub record Content : Type 0 where
  pub role : Bytes
  pub text : Bytes

pub record Proposal : Type 0 where
  pub query : Bytes
  pub purpose : Bytes

pub record TurnRevision : Type 0 where
  pub id : Bytes
  pub document : Bytes
  pub base : Bytes

pub record Answer : Type 0 where
  pub text : Bytes
  pub read : List Bytes
  pub sql : Option Proposal
  pub drafts : List Bytes
  pub revisions : List TurnRevision

-- Why a call is not answered.
pub data Refusal : Type 0 where
  off no_messages last_is_agents : Refusal
  too_many_messages too_much_text : ℕ → Refusal
  bad_role : ℕ → Bytes → Refusal
  empty_text : ℕ → Refusal
  not_answered unfinished : Refusal

abbrev pub max_messages : ℕ
max_messages = 40

abbrev pub max_text_bytes : ℕ
max_text_bytes = 65536

abbrev pub max_rounds : ℕ
max_rounds = 16

abbrev pub max_result_bytes : ℕ
max_result_bytes = 24576

abbrev pub max_drafts : ℕ
max_drafts = 5

abbrev pub role_user : Bytes
role_user = codes "user"

abbrev pub role_agent : Bytes
role_agent = codes "agent"

-- firstAsked
unfoldable pub first_asked : List Message → Bytes
first_asked [] = []
first_asked (m ∷ ms) = let rest = first_asked ms in if m.role =? role_user then m.text else rest

-- The model's word for a role.
unfoldable pub model_role : ℕ → Bytes → Result Refusal Bytes
model_role i role =
    if role =? role_user
    then ok (codes "user")
    else if role =? role_agent
    then ok (codes "model")
    else err (bad_role i role)

-- The loop of validate: the bytes of text so far, and the contents.
unfoldable pub check_messages : ℕ → ℕ → List Message → Result Refusal (ℕ × List Content)
unfolding model_role
check_messages i total [] = ok (total, [])
check_messages i total (m ∷ ms) = do
  role ← model_role i m.role
  refuse (trim_space m.text =? []) (empty_text i)
  (all, contents) ← check_messages (suc i) (total + length m.text) ms
  ok (all, record { role = role; text = m.text } ∷ contents)

-- msgs[len(msgs)-1].Role
unfoldable pub last_role : Message → List Message → Bytes
last_role m [] = m.role
last_role m (n ∷ ns) = last_role n ns

-- validate
unfoldable pub validate : List Message → Result Refusal (List Content)
unfolding check_messages last_role
validate [] = err no_messages
validate (m ∷ ms) = do
  refuse (ltb max_messages (length (m ∷ ms))) (too_many_messages (length (m ∷ ms)))
  (total, contents) ← check_messages 0 0 (m ∷ ms)
  refuse (ltb max_text_bytes total) (too_much_text total)
  refuse (not (last_role m ms =? role_user)) last_is_agents
  ok contents
