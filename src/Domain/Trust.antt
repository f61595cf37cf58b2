-- ===== src/Domain/Trust.antt =====
-- internal/domain/knowledge.go: the status of an entry, its verifications and what they make of it.
-- An instant is a natural number. `Entry` is the part of Knowledge that is read here.
pub mod Laws
use ochakai.Common.{
  ℕ, Bool, true, false, not, ◌&&◌, ◌||◌, List, [], ◌∷◌, Option, none, some, ltb, if◌then◌else◌,
  length, any,
}
use ochakai.Text.{Bytes, codes, ◌=?◌}
use ochakai.Domain.Actor.{Actor, actor_human}

abbrev pub status_draft : Bytes
status_draft = codes "draft"

abbrev pub status_stable : Bytes
status_stable = codes "stable"

abbrev pub status_deprecated : Bytes
status_deprecated = codes "deprecated"

-- ValidStatus
unfoldable pub valid_status : Bytes → Bool
valid_status s = any (λ t. t =? s) (status_draft ∷ status_stable ∷ status_deprecated ∷ [])

-- Trust
pub data Trust : Type 0 where
  unverified machine_confirmed human_reviewed : Trust

-- Verification
pub record Verification : Type 0 where
  pub by : Actor
  pub at : ℕ

pub record Entry : Type 0 where
  pub status : Bytes
  pub verifications : List Verification

-- The loop of TrustOf, with the tier so far.
unfoldable pub trust_from : Trust → List Verification → ℕ → Trust
trust_from tier [] changed_at = tier
trust_from tier (v ∷ vs) changed_at =
    let skipped = trust_from tier vs changed_at in
    let confirmed = trust_from machine_confirmed vs changed_at in
    if ltb v.at changed_at
    then skipped
    else if v.by.kind =? actor_human
    then human_reviewed
    else confirmed

-- TrustOf
unfoldable pub trust_of : List Verification → ℕ → Trust
unfolding trust_from
trust_of vs changed_at = trust_from unverified vs changed_at

-- LifecycleOf
unfoldable pub lifecycle_of : Bytes → Bytes
lifecycle_of s = if s =? [] then status_stable else s

-- StatusFromOKF
unfoldable pub status_from_okf : Bytes → Bytes × Bool
unfolding valid_status
status_from_okf raw =
    if raw =? []
    then ([], true)
    else if valid_status raw
    then (raw, true)
    else (status_draft, false)

-- Knowledge.Verified
unfoldable pub verified : Entry → Bool
verified k = ltb 0 (length k.verifications)

unfoldable pub newest : Verification → List Verification → Verification
newest v [] = v
newest v (w ∷ vs) = newest w vs

-- Knowledge.LastVerified
unfoldable pub last_verified : Entry → Option Verification
unfolding newest
last_verified k = elim k.verifications [ [] ↦ none | v ∷ vs ↦ some (newest v vs) ]

-- Ruling; `no_ruling` is the empty string.
pub data Ruling : Type 0 where
  no_ruling ruling_verified ruling_deprecated : Ruling

-- Knowledge.Ruling
unfoldable pub ruling : Entry → Ruling
unfolding verified
ruling k =
    if verified k
    then ruling_verified
    else if k.status =? status_deprecated
    then ruling_deprecated
    else no_ruling

-- Knowledge.Curated
unfoldable pub curated : Entry → Bool
unfolding ruling
curated k = elim (ruling k) [
  | no_ruling ↦ false
  | ruling_verified ↦ true
  | ruling_deprecated ↦ true
]
