-- ===== src/Domain/Actor.antt =====
-- internal/domain/knowledge.go, Actor, and the principals of internal/domain/access.go.
use ochakai.Common.{
  ℕ, Bool, true, false, not, ◌&&◌, ◌||◌, [], ◌∷◌, ◌++◌, Option, none, some, ltb, leb, ◌==◌,
  if◌then◌else◌, length, any,
}
use ochakai.Text.{Bytes, codes, ◌=?◌, cut, has_byte, contains_any}
use ochakai.Text.Utf8.{valid_string, runes}
use ochakai.Text.Space.{is_space, is_control}

-- `via` and `producer` are empty where there is none.
pub record Actor : Type 0 where
  pub kind : Bytes
  pub name : Bytes
  pub via : Bytes
  pub producer : Bytes

abbrev pub actor_human : Bytes
actor_human = codes "human"

abbrev pub actor_process : Bytes
actor_process = codes "process"

-- ValidActorKind
unfoldable pub valid_actor_kind : Bytes → Bool
valid_actor_kind kind = kind =? actor_human || kind =? actor_process

-- Actor.String
unfoldable pub actor_string : Actor → Bytes
actor_string a =
    let s = a.kind ++ (b':' ∷ a.name) in
    let s' = if not (a.via =? []) then s ++ codes " via " ++ a.via else s in
    if not (a.producer =? []) then s' ++ codes " using " ++ a.producer else s'

abbrev pub max_producer : ℕ
max_producer = 128

-- The two halves of "<producer>/<version>".
producer_halves : Option (Bytes × Bytes) → Bool
producer_halves none = false
producer_halves (some (name, version)) = not (name =? [] || version =? [] || has_byte b'/' version)

-- ValidProducer
unfoldable pub valid_producer : Bytes → Bool
unfolding producer_halves
valid_producer s =
    if s =? [] || ltb max_producer (length s) || not (valid_string s)
    then false
    else if not (producer_halves (cut s b'/'))
    then false
    else not (any (λ r. r == b':' || is_space r || is_control r) (runes s))

-- AnyPrincipal
abbrev pub any_principal : Bytes
any_principal = codes "*"

-- The parts of `kind:name`, as ValidPrincipal reads them.
principal_parts : Option (Bytes × Bytes) → Bytes → Bool
principal_parts none s = false
principal_parts (some (kind, name)) s =
    valid_actor_kind kind
    && not (name =? [])
    && leb (length s) 320
    && not (contains_any s (codes " \t\r\n"))

-- ValidPrincipal
unfoldable pub valid_principal : Bytes → Bool
unfolding principal_parts valid_actor_kind
valid_principal s = if s =? any_principal then true else principal_parts (cut s b':') s

-- PrincipalOf
unfoldable pub principal_of : Actor → Bytes
principal_of a = a.kind ++ (b':' ∷ a.name)
