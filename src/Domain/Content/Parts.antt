-- ===== src/Domain/Content/Parts.antt =====
-- The comparisons of a concept's parts: each answers yes exactly on equal parts that JSON can encode.
use ochakai.Common.{
  Bool, true, false, List, [], ◌∷◌, Option, none, some, ◌≡◌, ◌↔◌, refl, sym, ap, ◌∙◌, arith, every,
}
use ochakai.Text.{Bytes, ◌=?◌}
use ochakai.Domain.Content.{
  Extra, natural, minus, equal_func, equal_pointers, encoded, same_pair, same_json, same_window,
  same_count, same_source, same_bool, same_parameter, same_executor, same_attester, same_link,
}

-- A test that answers yes exactly on equal arguments that are fine.
abbrev pub Compares {ℓ} : {A : Type ℓ} → (A → Bool) → (A → A → Bool) → Type ℓ
Compares {A} fine same = (x y : A) → (same x y ≡ true) ↔ ((x ≡ y) × (fine x ≡ true))

abbrev pub always {ℓ} : {A : Type ℓ} → A → Bool
always _ = true

pub bytes-Compares : Compares always ◌=?◌
bytes-Compares s t = ((λ h. (ground arith, refl)), (λ h. ground arith))

pub equal_func-Compares {ℓ} :
    {A : Type ℓ} (fine : A → Bool) (same : A → A → Bool)
    → Compares fine same
    → Compares (every fine) (equal_func same)
unfolding equal_func
equal_func-Compares fine same d [] [] = ((λ _. (refl, refl)), (λ _. refl))
equal_func-Compares fine same d [] (y ∷ ys) =
    ((λ h. absurd (ground arith)), (λ e. absurd (ground arith)))
equal_func-Compares fine same d (x ∷ xs) [] =
    ((λ h. absurd (ground arith)), (λ e. absurd (ground arith)))
equal_func-Compares fine same d (x ∷ xs) (y ∷ ys) = (
  (λ h. ground (arith, d x y, equal_func-Compares fine same d xs ys)),
  (λ h. ground (arith, d x y, equal_func-Compares fine same d xs ys)),
)

-- What a pointer holds is fine.
abbrev pub if_there {ℓ} : {A : Type ℓ} → (A → Bool) → Option A → Bool
if_there fine none = true
if_there fine (some x) = fine x

pub equal_pointers-Compares {ℓ} :
    {A : Type ℓ} (fine : A → Bool) (same : A → A → Bool)
    → Compares fine same
    → Compares (if_there fine) (equal_pointers same)
unfolding equal_pointers
equal_pointers-Compares fine same d none none = ((λ _. (refl, refl)), (λ _. refl))
equal_pointers-Compares fine same d none (some y) =
    ((λ h. absurd (ground arith)), (λ e. absurd (ground arith)))
equal_pointers-Compares fine same d (some x) none =
    ((λ h. absurd (ground arith)), (λ e. absurd (ground arith)))
equal_pointers-Compares fine same d (some x) (some y) =
    ((λ h. ground (arith, d x y)), (λ h. ground (arith, d x y)))

-- JSON can encode every value of the map.
abbrev pub encodable : Extra → Bool
encodable [] = true
encodable ((key, none) ∷ pairs) = false
encodable ((key, some value) ∷ pairs) = encodable pairs

-- The map that was encoded.
abbrev decoded : List (Bytes × Bytes) → Extra
decoded [] = []
decoded ((key, value) ∷ pairs) = (key, some value) ∷ decoded pairs

encoded-some :
    (a : Extra) {j : List (Bytes × Bytes)}
    → encoded a ≡ some j
    → (a ≡ decoded j) × (encodable a ≡ true)
unfolding encoded
encoded-some [] e = ground arith
encoded-some ((key, none) ∷ pairs) e = absurd (cc e)
encoded-some ((key, some value) ∷ pairs) {j} e = go (encoded pairs) (λ i. encoded-some pairs) e
  where
    go :
        (o : Option (List (Bytes × Bytes)))
        → ((i : List (Bytes × Bytes)) → o ≡ some i → (pairs ≡ decoded i) × (encodable pairs ≡ true))
        → ◌≡◌ {A = Option (List (Bytes × Bytes))}
            (elim o [ none ↦ none | some rest ↦ some ((key, value) ∷ rest) ])
            (some j)
        → ((key, some value) ∷ pairs ≡ decoded j) × (encodable pairs ≡ true)
    go none rec h = absurd (cc h)
    go (some i) rec h =
        let (same, fine) = rec i refl in
        (ap (λ t. (key, some value) ∷ t) same ∙ ap decoded (first_some h), fine)
      where
        first_some :
            {x y : List (Bytes × Bytes)}
            → ◌≡◌ {A = Option (List (Bytes × Bytes))} (some x) (some y)
            → x ≡ y
        first_some q = cc q

encodable-encoded :
    (a : Extra) → encodable a ≡ true → (j : List (Bytes × Bytes)) × (encoded a ≡ some j)
unfolding encoded
encodable-encoded [] e = ([], refl)
encodable-encoded ((key, none) ∷ pairs) e = absurd (cc e)
encodable-encoded ((key, some value) ∷ pairs) e =
    let (j, h) = encodable-encoded pairs e in ((key, value) ∷ j, rw h refl)

same_pair-Compares : Compares always same_pair
unfolding same_pair
same_pair-Compares (k, v) (l, w) = ((λ h. (ground arith, refl)), (λ h. ground arith))

-- The comparison of what was encoded.
abbrev compared : Option (List (Bytes × Bytes)) → Option (List (Bytes × Bytes)) → Bool
compared none _ = false
compared (some ja) none = false
compared (some ja) (some jb) = equal_func same_pair ja jb

same_json-compared : (a b : Extra) → same_json a b ≡ compared (encoded a) (encoded b)
unfolding same_json
same_json-compared [] [] = refl
same_json-compared [] (y ∷ b) = by_cases (encoded (y ∷ b))
  where
    by_cases :
        (o : Option (List (Bytes × Bytes)))
        → elim o [ none ↦ false | some jb ↦ equal_func same_pair [] jb ] ≡ compared (some []) o
    by_cases none = refl
    by_cases (some j) = refl
same_json-compared (x ∷ a) b = by_cases (encoded (x ∷ a)) (encoded b)
  where
    by_cases :
        (o p : Option (List (Bytes × Bytes)))
        → ◌≡◌ {A = Bool}
            (elim o [
              | none ↦ false
              | some ja ↦ elim p [ none ↦ false | some jb ↦ equal_func same_pair ja jb ]
            ])
            (compared o p)
    by_cases none p = refl
    by_cases (some ja) none = refl
    by_cases (some ja) (some jb) = refl

pub every-always {ℓ} : {A : Type ℓ} (l : List A) → every always l ≡ true
every-always [] = refl
every-always (x ∷ l) = every-always l

pub same_json-Compares : Compares encodable same_json
same_json-Compares a b = (
  (λ h. forward (encoded a) (encoded b) refl refl (sym (same_json-compared a b) ∙ h)),
  (λ h. same_json-compared a b ∙ backward (encodable-encoded a h.1) h.0),
)
  where
    forward :
        (o p : Option (List (Bytes × Bytes)))
        → encoded a ≡ o
        → encoded b ≡ p
        → compared o p ≡ true
        → (a ≡ b) × (encodable a ≡ true)
    forward none p ea eb h = absurd (cc h)
    forward (some i) none ea eb h = absurd (cc h)
    forward (some i) (some j) ea eb h = (
      (encoded-some a ea).0
          ∙ ap decoded ((equal_func-Compares always same_pair same_pair-Compares i j).0 h).0
          ∙ sym (encoded-some b eb).0,
      (encoded-some a ea).1,
    )

    backward :
        (j : List (Bytes × Bytes)) × (encoded a ≡ some j)
        → a ≡ b
        → compared (encoded a) (encoded b) ≡ true
    backward (j, e) same =
        ap (λ x. compared x (encoded b)) e
        ∙ ap (λ x. compared (some j) x) (sym (ap encoded same) ∙ e)
        ∙ (equal_func-Compares always same_pair same_pair-Compares j j).1 (refl, every-always j)

pub same_window-Compares : Compares always same_window
unfolding same_window
same_window-Compares w o = ((λ h. (ground arith, refl)), (λ e. ground arith))

same_count-Compares : Compares always same_count
unfolding same_count
same_count-Compares (natural m) (natural n) = ((λ h. (ground arith, refl)), (λ e. ground arith))
same_count-Compares (minus m) (minus n) = ((λ h. (ground arith, refl)), (λ e. ground arith))
same_count-Compares (natural m) (minus n) =
    ((λ h. absurd (ground arith)), (λ e. absurd (ground arith)))
same_count-Compares (minus m) (natural n) =
    ((λ h. absurd (ground arith)), (λ e. absurd (ground arith)))

same_bool-Compares : Compares always same_bool
unfolding same_bool
same_bool-Compares true b = ((λ h. (ground arith, refl)), (λ e. ground arith))
same_bool-Compares false b = ((λ h. (ground arith, refl)), (λ e. ground arith))

pub if_there-always {ℓ} : {A : Type ℓ} (o : Option A) → if_there always o ≡ true
if_there-always none = refl
if_there-always (some x) = refl

pub same_source-Compares : Compares (λ s. encodable s.extra) same_source
unfolding same_source
same_source-Compares s o = (
  (λ h. ground (
    arith,
    equal_pointers-Compares always same_window same_window-Compares s.usage_window o.usage_window,
    equal_pointers-Compares always same_count same_count-Compares s.usage_count o.usage_count,
    same_json-Compares s.extra o.extra,
  )),
  (λ e. ground (
    arith,
    equal_pointers-Compares always same_window same_window-Compares s.usage_window o.usage_window,
    equal_pointers-Compares always same_count same_count-Compares s.usage_count o.usage_count,
    if_there-always s.usage_window,
    if_there-always s.usage_count,
    same_json-Compares s.extra o.extra,
  )),
)

pub same_parameter-Compares : Compares (λ p. encodable p.extra) same_parameter
unfolding same_parameter
same_parameter-Compares p o = (
  (λ h.
      ground (arith, same_bool-Compares p.required o.required, same_json-Compares p.extra o.extra)),
  (λ e.
      ground (arith, same_bool-Compares p.required o.required, same_json-Compares p.extra o.extra)),
)

pub same_executor-Compares : Compares (λ e. encodable e.extra) same_executor
unfolding same_executor
same_executor-Compares a b = (
  (λ h. ground (
    arith,
    equal_func-Compares always ◌=?◌ bytes-Compares a.receipt b.receipt,
    same_json-Compares a.extra b.extra,
  )),
  (λ e. ground (
    arith,
    equal_func-Compares always ◌=?◌ bytes-Compares a.receipt b.receipt,
    every-always a.receipt,
    same_json-Compares a.extra b.extra,
  )),
)

pub same_attester-Compares : Compares (λ t. encodable t.extra) same_attester
unfolding same_attester
same_attester-Compares a b = (
  (λ h. ground (arith, same_json-Compares a.extra b.extra)),
  (λ e. ground (arith, same_json-Compares a.extra b.extra)),
)

pub same_link-Compares : Compares always same_link
unfolding same_link
same_link-Compares a b = ((λ h. (ground arith, refl)), (λ e. ground arith))
