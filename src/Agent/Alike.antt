-- ===== src/Agent/Alike.antt =====
-- Two sets of tools that answer alike make the same turn: each function of the turn, on servers
-- that are related.
use ochakai.Common.{
  Bool, true, false, not, ◌&&◌, ◌||◌, List, [], ◌∷◌, Option, none, some, ◌≡◌, refl, ap, subst, ◌∙◌,
  if◌then◌else◌, leb, length, any,
}
use ochakai.Common.Result.{Result, ok, err}
use ochakai.Text.{Bytes, codes, ◌=?◌}
use ochakai.Domain.Trust.{status_draft}
use ochakai.Domain.Content.{Knowledge}
use ochakai.Agent.{max_drafts}
use ochakai.Agent.Tools.{
  proposed, Call, str, Run, Toolbox, Outcome, Response, Reply, ToolError, draft_created,
  write_draft, changes, propose, propose_revision, concept_read, viewed, looked, readers, dispatch,
  respond, call_all,
}

-- The same answer, from servers that are related.
abbrev pub Same : {W W' A : Type 0} → (W → W' → Type 0) → W × A → W' × A → Type 0
Same R (w, a) (w', a') = R w w' × (a ≡ a')

-- Tools that answer alike, and leave servers that are related.
pub record Alike {W W' : Type 0} (tb : Toolbox W) (tb' : Toolbox W') (R : W → W' → Type 0)
    : Type 0 where
  pub nfc : (s : Bytes) → tb.nfc s ≡ tb'.nfc s
  pub parse : (s : Bytes) → tb.parse s ≡ tb'.parse s
  pub canonical : (k : Knowledge) → tb.canonical k ≡ tb'.canonical k
  pub encode : (r : Reply) → tb.encode r ≡ tb'.encode r
  pub view : (k : Knowledge) → tb.view k ≡ tb'.view k
  pub create : (k : Knowledge) (w : W) (w' : W') → R w w' → Same R (tb.create k w) (tb'.create k w')
  pub revisable :
      (id s : Bytes) (w : W) (w' : W') → R w w' → tb.revisable id s w ≡ tb'.revisable id s w'
  pub current : (id : Bytes) (w : W) (w' : W') → R w w' → tb.current id w ≡ tb'.current id w'
  pub get : (id : Bytes) (w : W) (w' : W') → R w w' → Same R (tb.get id w) (tb'.get id w')
  pub look : (c : Call) (w : W) (w' : W') → R w w' → Same R (tb.look c w) (tb'.look c w')

pub if-both :
    {A B : Type 0} (P : A → B → Type 0) (c : Bool) {x y : A} {x' y' : B}
    → P x x'
    → P y y'
    → P (if c then x else y) (if c then x' else y')
if-both P true p q = p
if-both P false p q = q

pub option-both :
    {C A B : Type 0} (P : A → B → Type 0) (o o' : Option C) {x : A} {x' : B} {f : C → A}
    {f' : C → B}
    → o ≡ o'
    → P x x'
    → ((c : C) → P (f c) (f' c))
    → P (elim o [ none ↦ x | some c ↦ f c ]) (elim o' [ none ↦ x' | some c ↦ f' c ])
option-both {C} P o o' {x} {x'} {f} {f'} e p q =
    subst (λ z. P (elim o [ none ↦ x | some c ↦ f c ]) (elim z [ none ↦ x' | some c ↦ f' c ])) e
      (alike o)
  where
    alike :
        (o : Option C)
        → P (elim o [ none ↦ x | some c ↦ f c ]) (elim o [ none ↦ x' | some c ↦ f' c ])
    alike none = p
    alike (some c) = q c

pub result-both :
    {E C A B : Type 0} (P : A → B → Type 0) (o o' : Result E C) {g : E → A} {g' : E → B} {f : C → A}
    {f' : C → B}
    → o ≡ o'
    → ((e : E) → P (g e) (g' e))
    → ((c : C) → P (f c) (f' c))
    → P (elim o [ err e ↦ g e | ok c ↦ f c ]) (elim o' [ err e ↦ g' e | ok c ↦ f' c ])
result-both {E} {C} P o o' {g} {g'} {f} {f'} e p q =
    subst (λ z. P (elim o [ err e ↦ g e | ok c ↦ f c ]) (elim z [ err e ↦ g' e | ok c ↦ f' c ])) e
      (alike o)
  where
    alike :
        (o : Result E C)
        → P (elim o [ err e ↦ g e | ok c ↦ f c ]) (elim o [ err e ↦ g' e | ok c ↦ f' c ])
    alike (ok c) = q c
    alike (err e) = p e

module _ {W W' : Type 0} (tb : Toolbox W) (tb' : Toolbox W') (R : W → W' → Type 0)
    (alike : Alike tb tb' R) where
  abbrev SameOutcome : Outcome W → Outcome W' → Type 0
  SameOutcome o o' = R o.0 o'.0 × (o.1 ≡ o'.1) × (o.2 ≡ o'.2)

  draft_created-alike :
      (r : Run) (x : W × Result Bytes Knowledge) (y : W' × Result Bytes Knowledge)
      → Same R x y
      → SameOutcome (draft_created tb r x) (draft_created tb' r y)
  draft_created-alike r (w, a) (w', a') (h, e) =
      subst (λ z. SameOutcome (draft_created tb r (w, a)) (draft_created tb' r (w', z))) e (go a)
    where
      go :
          (a : Result Bytes Knowledge)
          → SameOutcome (draft_created tb r (w, a)) (draft_created tb' r (w', a))
      go (ok k) = (h, refl, refl)
      go (err x) = (h, refl, refl)

  write_draft-alike :
      (id document : Bytes) (r : Run) (w : W) (w' : W')
      → R w w'
      → SameOutcome (write_draft tb id document r w) (write_draft tb' id document r w')
  unfolding write_draft
  write_draft-alike id document r w w' h =
      if-both SameOutcome (leb max_drafts (length r.drafts)) (h, refl, refl)
        (if-both SameOutcome (id =? [] || document =? []) (h, refl, refl)
          (option-both SameOutcome (tb.parse document) (tb'.parse document) (alike.parse document)
            (h, refl, refl)
            (λ d.
              if-both SameOutcome (not (d.status =? []) && not (d.status =? status_draft))
                (h, refl, refl)
                (draft_created-alike r _ _
                  (alike.create (record d { id = id; status = status_draft }) w w' h)))))

  changes-alike :
      (k cur : Knowledge) (canon : Bytes) → changes tb k cur canon ≡ changes tb' k cur canon
  unfolding changes
  changes-alike k cur canon =
      option-both (λ x y. x ≡ y) (tb.canonical cur) (tb'.canonical cur) (alike.canonical cur) refl
        (λ was. refl)

  propose-alike :
      (id given document : Bytes) (r : Run) (w : W) (w' : W')
      → R w w'
      → SameOutcome (propose tb id given document r w) (propose tb' id given document r w')
  unfolding propose
  propose-alike id given document r w w' h =
      if-both SameOutcome (leb max_drafts (length r.revisions)) (h, refl, refl)
        (if-both SameOutcome (given =? [] || document =? []) (h, refl, refl)
          (if-both SameOutcome (any (λ v. v.id =? id) r.revisions) (h, refl, refl)
            (result-both SameOutcome (tb.revisable id document w) (tb'.revisable id document w')
              (alike.revisable id document w w' h) (λ _. (h, refl, refl))
              (λ k.
                result-both SameOutcome (tb.current id w) (tb'.current id w')
                  (alike.current id w w' h) (λ _. (h, refl, refl))
                  (λ cur.
                    option-both SameOutcome (tb.canonical k) (tb'.canonical k) (alike.canonical k)
                      (h, refl, refl)
                      (λ canon. (
                        h,
                        refl,
                        ap (λ c. ok (proposed id c k.description)) (changes-alike k cur canon),
                      )))))))

  propose_revision-alike :
      (given document : Bytes) (r : Run) (w : W) (w' : W')
      → R w w'
      → SameOutcome
          (propose_revision tb given document r w)
          (propose_revision tb' given document r w')
  unfolding propose_revision
  propose_revision-alike given document r w w' h =
      subst
        (λ i.
          SameOutcome (propose tb (tb.nfc given) given document r w)
            (propose tb' i given document r w'))
        (alike.nfc given) (propose-alike (tb.nfc given) given document r w w' h)

  viewed-alike : (v : Result Bytes Bytes) → viewed tb v ≡ viewed tb' v
  viewed-alike (ok out) = refl
  viewed-alike (err e) = refl

  concept_read-alike :
      (r : Run) (x : W × Result Bytes Knowledge) (y : W' × Result Bytes Knowledge)
      → Same R x y
      → SameOutcome (concept_read tb r x) (concept_read tb' r y)
  unfolding concept_read
  concept_read-alike r (w, a) (w', a') (h, e) =
      subst (λ z. SameOutcome (concept_read tb r (w, a)) (concept_read tb' r (w', z))) e (go a)
    where
      go :
          (a : Result Bytes Knowledge)
          → SameOutcome (concept_read tb r (w, a)) (concept_read tb' r (w', a))
      go (ok k) = (h, refl, ap (viewed tb) (alike.view k) ∙ viewed-alike (tb'.view k))
      go (err x) = (h, refl, refl)

  looked-alike :
      (r : Run) (x : W × Result Bytes Bytes) (y : W' × Result Bytes Bytes)
      → Same R x y
      → SameOutcome (looked tb r x) (looked tb' r y)
  looked-alike r (w, a) (w', a') (h, e) =
      subst (λ z. SameOutcome (looked tb r (w, a)) (looked tb' r (w', z))) e (go a)
    where
      go : (a : Result Bytes Bytes) → SameOutcome (looked tb r (w, a)) (looked tb' r (w', a))
      go (ok out) = (h, refl, refl)
      go (err x) = (h, refl, refl)

  dispatch-alike :
      (c : Call) (r : Run) (w : W) (w' : W')
      → R w w'
      → SameOutcome (dispatch tb c r w) (dispatch tb' c r w')
  unfolding dispatch
  dispatch-alike c r w w' h =
      if-both SameOutcome (c.name =? codes "get_concept")
        (concept_read-alike r _ _ (alike.get (str c (codes "id")) w w' h))
        (if-both SameOutcome (c.name =? codes "write_draft")
          (write_draft-alike (str c (codes "id")) (str c (codes "document")) r w w' h)
          (if-both SameOutcome (c.name =? codes "propose_revision")
            (propose_revision-alike (str c (codes "id")) (str c (codes "document")) r w w' h)
            (if-both SameOutcome (any (λ n. n =? c.name) (readers tb))
              (looked-alike r _ _ (alike.look c w w' h)) (h, refl, refl))))

  respond-alike : (out : Result ToolError Reply) → respond tb out ≡ respond tb' out
  unfolding respond
  respond-alike (err e) = refl
  respond-alike (ok out) = rw (alike.encode out) refl

  abbrev SameAnswers : W × Run × List Response → W' × Run × List Response → Type 0
  SameAnswers o o' = R o.0 o'.0 × (o.1 ≡ o'.1) × (o.2 ≡ o'.2)

  pub call_all-alike :
      (cs : List Call) (r : Run) (w : W) (w' : W')
      → R w w'
      → SameAnswers (call_all tb cs r w) (call_all tb' cs r w')
  unfolding call_all
  call_all-alike [] r w w' h = (h, refl, refl)
  call_all-alike (c ∷ cs) r w w' h =
      let (h₁, e, o) = dispatch-alike c r w w' h in
      let (h₂, e₂, rest) =
        call_all-alike cs (dispatch tb c r w).1 (dispatch tb c r w).0 (dispatch tb' c r w').0 h₁ in
      subst
        (λ r₁. SameAnswers (call_all tb (c ∷ cs) r w) (
          let (w₂, r₂, rest) = call_all tb' cs r₁ (dispatch tb' c r w').0 in
          (w₂, r₂, respond tb' (dispatch tb' c r w').2 ∷ rest)))
        e
        (
          h₂,
          e₂,
          ap (λ x. x ∷ (call_all tb cs (dispatch tb c r w).1 (dispatch tb c r w).0).2)
                (respond-alike (dispatch tb c r w).2 ∙ ap (respond tb') o)
              ∙ ap (λ x. respond tb' (dispatch tb' c r w').2 ∷ x) rest,
        )
