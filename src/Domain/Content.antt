-- ===== src/Domain/Content.antt =====
-- internal/domain/knowledge.go: what a concept says, and when two concepts say the same. Times are
-- numbers.
pub mod Parts
pub mod Same
use ochakai.Common.{
  ℕ, Bool, true, false, not, ◌&&◌, ◌||◌, List, [], ◌∷◌, ◌++◌, Option, none, some, ltb, ◌==◌,
  if◌then◌else◌, length, any, every,
}
use ochakai.Text.{Bytes, codes, ◌=?◌}
use ochakai.Text.Space.{trim_space}
use ochakai.Text.Utf8.{runes}
use ochakai.Domain.Actor.{Actor}
use ochakai.Domain.Trust.{Verification, lifecycle_of}

-- A map of the producer's own keys, which are Extra and Attrs: its pairs by key, each value as the
-- canonical JSON of it, or none where JSON cannot encode it.
abbrev pub Extra : Type 0
Extra = List (Bytes × Option Bytes)

-- UsageWindow
pub record UsageWindow : Type 0 where
  pub since : Bytes
  pub until : Bytes

-- A usage count as written, which may be negative.
pub data Count : Type 0 where
  natural : ℕ → Count
  minus : ℕ → Count

-- Source
pub record Source : Type 0 where
  pub resource : Bytes
  pub id : Bytes
  pub title : Bytes
  pub author : Bytes
  pub last_modified : Bytes
  pub usage_count : Option Count
  pub usage_window : Option UsageWindow
  pub extra : Extra

-- Parameter
pub record Parameter : Type 0 where
  pub name : Bytes
  pub kind : Bytes
  pub required : Bool
  pub extra : Extra

-- Executor
pub record Executor : Type 0 where
  pub resource : Bytes
  pub receipt : List Bytes
  pub extra : Extra

-- Attester
pub record Attester : Type 0 where
  pub resource : Bytes
  pub extra : Extra

-- Link
pub record Link : Type 0 where
  pub target : Bytes
  pub anchor : Bytes

-- Knowledge, without the rows that a read adds to it.
pub record Knowledge : Type 0 where
  pub kind : Bytes
  pub id : Bytes
  pub title : Bytes
  pub description : Bytes
  pub resource : Bytes
  pub tags : List Bytes
  pub sources : List Source
  pub usage_window : Option UsageWindow
  pub status : Bytes
  pub status_note : Bytes
  pub stale_after : Bytes
  pub runtime : Bytes
  pub parameters : List Parameter
  pub computation : Bytes
  pub executor : Option Executor
  pub attester : Option Attester
  pub created_by : Actor
  pub updated_by : Actor
  pub verifications : List Verification
  pub links : List Link
  pub attrs : Extra
  pub body : Bytes
  pub created_at : ℕ
  pub updated_at : ℕ
  pub content_changed_at : ℕ
  pub doc : Bytes
  pub content_hash : Bytes

-- slices.EqualFunc
unfoldable pub equal_func {ℓ} : {A : Type ℓ} → (A → A → Bool) → List A → List A → Bool
equal_func same [] [] = true
equal_func same (x ∷ xs) (y ∷ ys) = same x y && equal_func same xs ys
equal_func same [] (y ∷ ys) = false
equal_func same (x ∷ xs) [] = false

-- Two pointers: both nil, or two values that are the same.
unfoldable pub equal_pointers {ℓ} : {A : Type ℓ} → (A → A → Bool) → Option A → Option A → Bool
equal_pointers same none none = true
equal_pointers same (some x) (some y) = same x y
equal_pointers same none (some y) = false
equal_pointers same (some x) none = false

-- json.Marshal of a map: its pairs, or none where a value cannot be encoded.
unfoldable pub encoded : Extra → Option (List (Bytes × Bytes))
encoded [] = some []
encoded ((key, none) ∷ pairs) = none
encoded ((key, some value) ∷ pairs) = elim (encoded pairs) [
  | none ↦ none
  | some rest ↦ some ((key, value) ∷ rest)
]

unfoldable pub same_pair : Bytes × Bytes → Bytes × Bytes → Bool
same_pair (k, v) (l, w) = k =? l && v =? w

abbrev pub is_nil {ℓ} : {A : Type ℓ} → List A → Bool
is_nil [] = true
is_nil (_ ∷ _) = false

-- Extra.sameAs and attrsEqual, which are the same: maps that cannot be encoded differ.
unfoldable pub same_json : Extra → Extra → Bool
unfolding encoded equal_func same_pair
same_json a b = if is_nil a && is_nil b then true else elim (encoded a) [
  | none ↦ false
  | some ja ↦ elim (encoded b) [ none ↦ false | some jb ↦ equal_func same_pair ja jb ]
]

-- UsageWindow.sameAs
unfoldable pub same_window : UsageWindow → UsageWindow → Bool
same_window w o = w.since =? o.since && w.until =? o.until

unfoldable pub same_count : Count → Count → Bool
same_count (natural m) (natural n) = m == n
same_count (minus m) (minus n) = m == n
same_count (natural m) (minus n) = false
same_count (minus m) (natural n) = false

-- Source.sameAs
unfoldable pub same_source : Source → Source → Bool
unfolding equal_pointers same_window same_count same_json
same_source s o =
    s.resource =? o.resource
    && s.id =? o.id
    && s.title =? o.title
    && s.author =? o.author
    && s.last_modified =? o.last_modified
    && equal_pointers same_window s.usage_window o.usage_window
    && same_json s.extra o.extra
    && equal_pointers same_count s.usage_count o.usage_count

unfoldable pub same_bool : Bool → Bool → Bool
same_bool true b = b
same_bool false b = not b

-- Parameter.sameAs
unfoldable pub same_parameter : Parameter → Parameter → Bool
unfolding same_bool same_json
same_parameter p o =
    p.name =? o.name
    && p.kind =? o.kind
    && same_bool p.required o.required
    && same_json p.extra o.extra

-- executorsEqual, of two that are there
unfoldable pub same_executor : Executor → Executor → Bool
unfolding equal_func same_json
same_executor a b =
    a.resource =? b.resource && equal_func ◌=?◌ a.receipt b.receipt && same_json a.extra b.extra

-- attestersEqual, of two that are there
unfoldable pub same_attester : Attester → Attester → Bool
unfolding same_json
same_attester a b = a.resource =? b.resource && same_json a.extra b.extra

unfoldable pub same_link : Link → Link → Bool
same_link a b = a.target =? b.target && a.anchor =? b.anchor

-- Knowledge.SameContent
unfoldable pub same_content : Knowledge → Knowledge → Bool
unfolding lifecycle_of equal_func equal_pointers same_source same_window same_parameter
    same_executor same_attester same_link same_json
same_content k o =
    k.kind =? o.kind
    && k.id =? o.id
    && k.title =? o.title
    && k.description =? o.description
    && k.resource =? o.resource
    && lifecycle_of k.status =? lifecycle_of o.status
    && k.status_note =? o.status_note
    && k.stale_after =? o.stale_after
    && k.runtime =? o.runtime
    && k.computation =? o.computation
    && k.body =? o.body
    && equal_func ◌=?◌ k.tags o.tags
    && equal_func same_source k.sources o.sources
    && equal_pointers same_window k.usage_window o.usage_window
    && equal_func same_parameter k.parameters o.parameters
    && equal_pointers same_executor k.executor o.executor
    && equal_pointers same_attester k.attester o.attester
    && equal_func same_link k.links o.links
    && same_json k.attrs o.attrs

-- ValidType
unfoldable pub valid_type : Bytes → Bool
valid_type t =
    let s = trim_space t in
    if s =? [] || ltb 128 (length s)
    then false
    else not (any (λ r. r == 10 || r == 13 || ltb r 0x20 || r == 0x7F) (runes s))
