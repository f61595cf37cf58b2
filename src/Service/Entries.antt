-- ===== src/Service/Entries.antt =====
-- internal/service/service.go: what the write of a concept is held to before it reaches the store.
-- `Formats` bundles what the source takes from package okf, from the links of a body and from time
-- parsing.
pub mod Settle
pub mod Writes
pub mod Requests
pub mod Valid
pub mod Updates
pub mod Overwrites
pub mod Free
pub mod Plans
pub mod Puts
pub mod Renders
pub mod Predictions
pub mod Creates
pub mod Rulings
pub mod Verifying
use ochakai.Common.{
  ℕ, zero, suc, ◌+◌, Bool, true, false, not, ◌&&◌, ◌||◌, List, [], ◌∷◌, ◌++◌, Option, none, some,
  ltb, leb, ◌==◌, if◌then◌else◌, length, any, keep,
}
use ochakai.Common.Result.{Result, ok, err, ◌>>=◌, ◌>>◌, refuse}
use ochakai.Text.{Bytes, codes, ◌=?◌}
use ochakai.Text.Space.{trim_space}
use ochakai.Domain.Segments.{valid_id}
use ochakai.Domain.Trust.{valid_status}
use ochakai.Domain.Content.{
  Extra, UsageWindow, Count, natural, minus, Source, Parameter, Executor, Attester, Link, Knowledge,
  valid_type,
}
use ochakai.Store.Entries.{Okf, Failure, missing}
use ochakai.Service.Access.{Fault, not_found}
use ochakai.Service.Curation.{Refusal, fault}

pub record Formats : Type 0 where
  pub okf : Okf
  pub nfc : Bytes → Bytes
  pub lower : Bytes → Bytes
  pub valid_instant : Bytes → Bool
  pub links_from_body : Bytes → Bytes → List Link
  pub is_observation : Knowledge → Knowledge → Bool
  pub strip_claim : Bytes → Bytes
  pub set_stable : Bytes → Option Bytes

-- Why a payload is refused; a list's element carries its index.
pub data Invalid : Type 0 where
  bad_type bad_id bad_status bad_stale_after : Invalid
  shadowed_attr : Bytes → Invalid
  source_resource source_modified source_window source_count : ℕ → Invalid
  bad_window bad_executor bad_attester no_runtime long_note : Invalid
  bad_parameter : ℕ → Invalid

pub data WriteError : Type 0 where
  failure : Failure → WriteError
  refusal : Refusal → WriteError
  invalid : Invalid → WriteError

-- errors.Is(err, store.ErrNotFound): a scope's refusal is spelled the same.
unfoldable pub is_not_found : WriteError → Bool
is_not_found (failure missing) = true
is_not_found (failure _) = false
is_not_found (refusal (fault not_found)) = true
is_not_found (refusal _) = false
is_not_found (invalid _) = false

abbrev pub envelope_keys : List Bytes
envelope_keys =
    codes "type"
    ∷ codes "title"
    ∷ codes "description"
    ∷ codes "resource"
    ∷ codes "tags"
    ∷ codes "sources"
    ∷ codes "usage_window"
    ∷ codes "status"
    ∷ codes "status_note"
    ∷ codes "stale_after"
    ∷ codes "runtime"
    ∷ codes "parameters"
    ∷ codes "computation"
    ∷ codes "executor"
    ∷ codes "attester"
    ∷ []

abbrev pub claim_key : Bytes
claim_key = codes "received"

abbrev pub type_computations : Bytes
type_computations = codes "Attested Computation"

-- checkedLimit; zero is an unset limit.
unfoldable pub checked_limit : Count → ℕ → ℕ → Option ℕ
checked_limit (natural n) default highest =
    if n == 0 then some default else if ltb highest n then none else some n
checked_limit (minus n) default highest = if n == 0 then some default else none

-- The first envelope key that the attributes hold.
unfoldable pub shadowed : List Bytes → Extra → Result Invalid (Unit {0})
shadowed [] attrs = ok tt
shadowed (key ∷ keys) attrs =
    let rest = shadowed keys attrs in
    if any (λ a. a.0 =? key) attrs then err (shadowed_attr key) else rest

-- Parameter.Valid
abbrev pub valid_parameter : Parameter → Bool
valid_parameter p = not (p.name =? []) && not (p.kind =? [])

-- The loop over the parameters.
unfoldable pub check_parameters : ℕ → List Parameter → Result Invalid (Unit {0})
check_parameters i [] = ok tt
check_parameters i (p ∷ ps) =
    let rest = check_parameters (suc i) ps in
    if not (valid_parameter p) then err (bad_parameter i) else rest

-- Executor.Valid
abbrev pub valid_executor : Option Executor → Bool
valid_executor none = true
valid_executor (some e) = not (e.resource =? [])

-- Attester.Valid
abbrev pub valid_attester : Option Attester → Bool
valid_attester none = true
valid_attester (some a) = not (a.resource =? [])

abbrev pub is_negative : Option Count → Bool
is_negative none = false
is_negative (some (natural _)) = false
is_negative (some (minus _)) = true

module _ (f : Formats) where
  -- FoldType and EqualType
  unfoldable pub equal_type : Bytes → Bytes → Bool
  equal_type a b = f.lower (trim_space (f.nfc a)) =? f.lower (trim_space (f.nfc b))

  -- ValidInstant, of which `valid_instant` is ParseInstant's success.
  abbrev pub valid_moment : Bytes → Bool
  valid_moment s = s =? [] || f.valid_instant s

  -- UsageWindow.Valid
  abbrev pub valid_window : Option UsageWindow → Bool
  valid_window none = true
  valid_window (some w) = valid_moment w.since && valid_moment w.until

  -- One round of the loop over the sources.
  unfoldable pub check_source : ℕ → Source → Result Invalid (Unit {0})
  check_source i s = do
    refuse (s.resource =? []) (source_resource i)
    refuse (not (valid_moment s.last_modified)) (source_modified i)
    refuse (not (valid_window s.usage_window)) (source_window i)
    refuse (is_negative s.usage_count) (source_count i)

  unfoldable pub check_sources : ℕ → List Source → Result Invalid (Unit {0})
  unfolding check_source
  check_sources i [] = ok tt
  check_sources i (s ∷ ss) = do check_source i s; check_sources (suc i) ss

  -- validateOKF
  unfoldable pub validate_okf : Knowledge → Result Invalid (Unit {0})
  unfolding shadowed check_sources check_parameters equal_type
  validate_okf k = do
    shadowed envelope_keys k.attrs
    check_sources 0 k.sources
    refuse (not (valid_window k.usage_window)) bad_window
    check_parameters 0 k.parameters
    refuse (not (valid_executor k.executor)) bad_executor
    refuse (not (valid_attester k.attester)) bad_attester
    refuse (equal_type k.kind type_computations && k.runtime =? []) no_runtime

  -- validate
  unfoldable pub validate : Knowledge → Result Invalid (Unit {0})
  unfolding validate_okf valid_status
  validate k = do
    refuse (not (valid_type k.kind)) bad_type
    refuse (not (valid_id k.id)) bad_id
    refuse (not (k.status =? []) && not (valid_status k.status)) bad_status
    refuse (not (valid_moment k.stale_after)) bad_stale_after
    validate_okf k

  -- normalizeKeys
  unfoldable pub normalize_keys : Knowledge → Knowledge
  normalize_keys k = record k { id = f.nfc k.id; kind = trim_space (f.nfc k.kind) }

  -- deriveLinks
  unfoldable pub derive_links : Knowledge → Knowledge
  derive_links k = record k { links = f.links_from_body k.id k.body }

  -- okf.DropClaim
  unfoldable pub drop_claim : Knowledge → Knowledge
  drop_claim k = record k {
    attrs = keep (λ a. not (a.0 =? claim_key)) k.attrs;
    doc = if k.doc =? [] then [] else f.strip_claim k.doc;
  }
