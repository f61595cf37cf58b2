-- ===== src/Service/Entries/Valid.antt =====
-- What a payload that validate accepts is.
use ochakai.Common.{
  ℕ, suc, Bool, true, false, not, ◌&&◌, ◌||◌, List, [], ◌∷◌, ◌≡◌, ◌↔◌, refl, arith, any, every,
}
use ochakai.Common.Result.{Result, ok, err, ◌>>◌, refuse}
use ochakai.Text.{Bytes, ◌=?◌}
use ochakai.Domain.Segments.{valid_id}
use ochakai.Domain.Trust.{valid_status}
use ochakai.Domain.Content.{Extra, Source, Parameter, Knowledge, valid_type}
use ochakai.Service.Entries.{
  Formats, bad_type, bad_id, bad_status, bad_stale_after, bad_window, bad_executor, bad_attester,
  no_runtime, envelope_keys, type_computations, shadowed, valid_parameter, check_parameters,
  valid_executor, valid_attester, is_negative, equal_type, valid_moment, valid_window, check_source,
  check_sources, validate_okf, validate,
}

-- A chain of checks passes exactly if each passes.
then_iff {ℓ} :
    {E : Type ℓ} (m k : Result E (Unit {0})) → ((m >> k) ≡ ok tt) ↔ ((m ≡ ok tt) × (k ≡ ok tt))
then_iff (ok tt) k = ((λ h. (refl, h)), (λ h. h.1))
then_iff (err e) k = ((λ h. absurd (cc h)), (λ h. absurd (cc h.0)))

refuse_iff {ℓ} : {E : Type ℓ} (bad : Bool) (e : E) → (refuse bad e ≡ ok tt) ↔ (bad ≡ false)
refuse_iff true e = ((λ h. absurd (cc h)), (λ h. absurd (cc h)))
refuse_iff false e = ((λ h. refl), (λ h. refl))

shadowed_iff :
    (keys : List Bytes) (attrs : Extra)
    → (shadowed keys attrs ≡ ok tt) ↔ (any (λ key. any (λ a. a.0 =? key) attrs) keys ≡ false)
unfolding shadowed
shadowed_iff [] attrs = ((λ h. refl), (λ h. refl))
shadowed_iff (key ∷ keys) attrs =
    ((λ h. ground (arith, shadowed_iff keys attrs)), (λ h. ground (arith, shadowed_iff keys attrs)))

check_parameters_iff :
    (i : ℕ) (ps : List Parameter)
    → (check_parameters i ps ≡ ok tt) ↔ (every valid_parameter ps ≡ true)
unfolding check_parameters
check_parameters_iff i [] = ((λ h. refl), (λ h. refl))
check_parameters_iff i (p ∷ ps) = (
  (λ h. ground (arith, check_parameters_iff (suc i) ps)),
  (λ h. ground (arith, check_parameters_iff (suc i) ps)),
)

module _ (f : Formats) where
  abbrev pub acceptable_source : Source → Bool
  acceptable_source s =
      not (s.resource =? [])
      && valid_moment f s.last_modified
      && valid_window f s.usage_window
      && not (is_negative s.usage_count)

  check_source_iff :
      (i : ℕ) (s : Source) → (check_source f i s ≡ ok tt) ↔ (acceptable_source s ≡ true)
  unfolding check_source
  check_source_iff i s = ((λ h. ground arith), (λ h. ground arith))

  check_sources_iff :
      (i : ℕ) (ss : List Source)
      → (check_sources f i ss ≡ ok tt) ↔ (every acceptable_source ss ≡ true)
  unfolding check_sources
  check_sources_iff i [] = ((λ h. refl), (λ h. refl))
  check_sources_iff i (s ∷ ss) = (
    (λ h. ground (
      arith,
      then_iff (check_source f i s) (check_sources f (suc i) ss),
      check_source_iff i s,
      check_sources_iff (suc i) ss,
    )),
    (λ h. ground (
      arith,
      then_iff (check_source f i s) (check_sources f (suc i) ss),
      check_source_iff i s,
      check_sources_iff (suc i) ss,
    )),
  )

  -- What a concept has to be to be written.
  pub record Acceptable (k : Knowledge) : Type 0 where
    pub kind : valid_type k.kind ≡ true
    pub id : valid_id k.id ≡ true
    pub status : (k.status =? [] || valid_status k.status) ≡ true
    pub stale_after : valid_moment f k.stale_after ≡ true
    pub attrs : any (λ key. any (λ a. a.0 =? key) k.attrs) envelope_keys ≡ false
    pub sources : every acceptable_source k.sources ≡ true
    pub window : valid_window f k.usage_window ≡ true
    pub parameters : every valid_parameter k.parameters ≡ true
    pub executor : valid_executor k.executor ≡ true
    pub attester : valid_attester k.attester ≡ true
    pub runtime : (equal_type f k.kind type_computations && k.runtime =? []) ≡ false

  -- A payload passes the checks of its fields exactly if each of them is acceptable.
  pub validate-Acceptable : (k : Knowledge) → (validate f k ≡ ok tt) ↔ Acceptable k
  unfolding validate validate_okf
  validate-Acceptable k = (fore, back)
    where
      fore : validate f k ≡ ok tt → Acceptable k
      fore h =
          let (a, h0) = (then_iff (refuse (not (valid_type k.kind)) bad_type) _).0 h in
          let (b, h1) = (then_iff (refuse (not (valid_id k.id)) bad_id) _).0 h0 in
          let (c, h2) =
            (then_iff (refuse (not (k.status =? []) && not (valid_status k.status)) bad_status) _).0
              h1 in
          let (d, h3) =
            (then_iff (refuse (not (valid_moment f k.stale_after)) bad_stale_after) _).0 h2 in
          let (e, h4) = (then_iff (shadowed envelope_keys k.attrs) _).0 h3 in
          let (g, h5) = (then_iff (check_sources f 0 k.sources) _).0 h4 in
          let (i, h6) =
            (then_iff (refuse (not (valid_window f k.usage_window)) bad_window) _).0 h5 in
          let (j, h7) = (then_iff (check_parameters 0 k.parameters) _).0 h6 in
          let (l, h8) = (then_iff (refuse (not (valid_executor k.executor)) bad_executor) _).0 h7 in
          let (m, h9) = (then_iff (refuse (not (valid_attester k.attester)) bad_attester) _).0 h8 in
          record {
            kind = ground (arith, a);
            id = ground (arith, b);
            status = ground (arith, c);
            stale_after = ground (arith, d);
            attrs = (shadowed_iff envelope_keys k.attrs).0 e;
            sources = (check_sources_iff 0 k.sources).0 g;
            window = ground (arith, i);
            parameters = (check_parameters_iff 0 k.parameters).0 j;
            executor = ground (arith, l);
            attester = ground (arith, m);
            runtime = (refuse_iff _ no_runtime).0 h9;
          }

      back : Acceptable k → validate f k ≡ ok tt
      back a = (then_iff (refuse (not (valid_type k.kind)) bad_type) _).1 (
        ground (arith, a.kind),
        (then_iff (refuse (not (valid_id k.id)) bad_id) _).1 (
          ground (arith, a.id),
          (then_iff (refuse (not (k.status =? []) && not (valid_status k.status)) bad_status) _).1 (
            ground (arith, a.status),
            (then_iff (refuse (not (valid_moment f k.stale_after)) bad_stale_after) _).1 (
              ground (arith, a.stale_after),
              (then_iff (shadowed envelope_keys k.attrs) _).1 (
                (shadowed_iff envelope_keys k.attrs).1 a.attrs,
                (then_iff (check_sources f 0 k.sources) _).1 (
                  (check_sources_iff 0 k.sources).1 a.sources,
                  (then_iff (refuse (not (valid_window f k.usage_window)) bad_window) _).1 (
                    ground (arith, a.window),
                    (then_iff (check_parameters 0 k.parameters) _).1 (
                      (check_parameters_iff 0 k.parameters).1 a.parameters,
                      (then_iff (refuse (not (valid_executor k.executor)) bad_executor) _).1 (
                        ground (arith, a.executor),
                        (then_iff (refuse (not (valid_attester k.attester)) bad_attester) _).1 (
                          ground (arith, a.attester),
                          (refuse_iff (equal_type f k.kind type_computations && k.runtime =? [])
                                no_runtime).1
                              a.runtime,
                        ),
                      ),
                    ),
                  ),
                ),
              ),
            ),
          ),
        ),
      )
