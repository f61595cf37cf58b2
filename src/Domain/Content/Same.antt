-- ===== src/Domain/Content/Same.antt =====
-- Two concepts have the same content exactly when a reader reads the same in both and JSON can encode
-- the keys of their producers.
use ochakai.Common.{Bool, true, ◌&&◌, List, Option, ◌≡◌, ◌↔◌, refl, ap, arith, every}
use ochakai.Text.{Bytes, ◌=?◌}
use ochakai.Domain.Trust.{lifecycle_of}
use ochakai.Domain.Content.{
  Extra, UsageWindow, Source, Parameter, Executor, Attester, Link, Knowledge, same_window,
  same_source, same_parameter, same_executor, same_attester, same_link, same_content,
}
use ochakai.Domain.Content.Parts.{
  always, if_there, encodable, every-always, if_there-always, bytes-Compares, equal_func-Compares,
  equal_pointers-Compares, same_json-Compares, same_window-Compares, same_source-Compares,
  same_parameter-Compares, same_executor-Compares, same_attester-Compares, same_link-Compares,
}

-- What a reader reads of a concept, whoever wrote it and when: its status is OKF's default where the
-- document names none.
pub record Written : Type 0 where
  pub kind : Bytes
  pub id : Bytes
  pub title : Bytes
  pub description : Bytes
  pub resource : Bytes
  pub lifecycle : Bytes
  pub status_note : Bytes
  pub stale_after : Bytes
  pub runtime : Bytes
  pub computation : Bytes
  pub body : Bytes
  pub tags : List Bytes
  pub sources : List Source
  pub usage_window : Option UsageWindow
  pub parameters : List Parameter
  pub executor : Option Executor
  pub attester : Option Attester
  pub links : List Link
  pub attrs : Extra

abbrev pub written : Knowledge → Written
written k = record {
  kind = k.kind;
  id = k.id;
  title = k.title;
  description = k.description;
  resource = k.resource;
  lifecycle = lifecycle_of k.status;
  status_note = k.status_note;
  stale_after = k.stale_after;
  runtime = k.runtime;
  computation = k.computation;
  body = k.body;
  tags = k.tags;
  sources = k.sources;
  usage_window = k.usage_window;
  parameters = k.parameters;
  executor = k.executor;
  attester = k.attester;
  links = k.links;
  attrs = k.attrs;
}

-- JSON can encode every key of a producer.
pub record IsEncodable (k : Knowledge) : Type 0 where
  pub in_sources : every (λ (s : Source). encodable s.extra) k.sources ≡ true
  pub in_parameters : every (λ (p : Parameter). encodable p.extra) k.parameters ≡ true
  pub in_executor : if_there (λ (e : Executor). encodable e.extra) k.executor ≡ true
  pub in_attester : if_there (λ (t : Attester). encodable t.extra) k.attester ≡ true
  pub in_attrs : encodable k.attrs ≡ true

-- The first test of a chain and the rest of it.
and-true : (a b : Bool) → (a && b) ≡ true → (a ≡ true) × (b ≡ true)
and-true a b h = ground arith

true-and : {a b : Bool} → a ≡ true → b ≡ true → (a && b) ≡ true
true-and e f = ground arith

module _ (k o : Knowledge) where
  same_content-written : same_content k o ≡ true → (written k ≡ written o) × IsEncodable k
  unfolding same_content
  same_content-written h18 =
      let (h17, e18) = and-true _ _ h18 in
      let (h16, e17) = and-true _ _ h17 in
      let (h15, e16) = and-true _ _ h16 in
      let (h14, e15) = and-true _ _ h15 in
      let (h13, e14) = and-true _ _ h14 in
      let (h12, e13) = and-true _ _ h13 in
      let (h11, e12) = and-true _ _ h12 in
      let (h10, e11) = and-true _ _ h11 in
      let (h9, e10) = and-true _ _ h10 in
      let (h8, e9) = and-true _ _ h9 in
      let (h7, e8) = and-true _ _ h8 in
      let (h6, e7) = and-true _ _ h7 in
      let (h5, e6) = and-true _ _ h6 in
      let (h4, e5) = and-true _ _ h5 in
      let (h3, e4) = and-true _ _ h4 in
      let (h2, e3) = and-true _ _ h3 in
      let (h1, e2) = and-true _ _ h2 in
      let (h0, e1) = and-true _ _ h1 in
      (
        λ i. record {
          kind = ((bytes-Compares k.kind o.kind).0 h0).0 i;
          id = ((bytes-Compares k.id o.id).0 e1).0 i;
          title = ((bytes-Compares k.title o.title).0 e2).0 i;
          description = ((bytes-Compares k.description o.description).0 e3).0 i;
          resource = ((bytes-Compares k.resource o.resource).0 e4).0 i;
          lifecycle = ((bytes-Compares (lifecycle_of k.status) (lifecycle_of o.status)).0 e5).0 i;
          status_note = ((bytes-Compares k.status_note o.status_note).0 e6).0 i;
          stale_after = ((bytes-Compares k.stale_after o.stale_after).0 e7).0 i;
          runtime = ((bytes-Compares k.runtime o.runtime).0 e8).0 i;
          computation = ((bytes-Compares k.computation o.computation).0 e9).0 i;
          body = ((bytes-Compares k.body o.body).0 e10).0 i;
          tags = ((equal_func-Compares always ◌=?◌ bytes-Compares k.tags o.tags).0 e11).0 i;
          sources =
              ((equal_func-Compares (λ (s : Source). encodable s.extra) same_source
                    same_source-Compares k.sources o.sources).0
                  e12).0
                i;
          usage_window =
              ((equal_pointers-Compares always same_window same_window-Compares k.usage_window
                    o.usage_window).0
                  e13).0
                i;
          parameters =
              ((equal_func-Compares (λ (p : Parameter). encodable p.extra) same_parameter
                    same_parameter-Compares k.parameters o.parameters).0
                  e14).0
                i;
          executor =
              ((equal_pointers-Compares (λ (e : Executor). encodable e.extra) same_executor
                    same_executor-Compares k.executor o.executor).0
                  e15).0
                i;
          attester =
              ((equal_pointers-Compares (λ (t : Attester). encodable t.extra) same_attester
                    same_attester-Compares k.attester o.attester).0
                  e16).0
                i;
          links =
              ((equal_func-Compares always same_link same_link-Compares k.links o.links).0 e17).0 i;
          attrs = ((same_json-Compares k.attrs o.attrs).0 e18).0 i;
        },
        record {
          in_sources =
              ((equal_func-Compares (λ (s : Source). encodable s.extra) same_source
                  same_source-Compares k.sources o.sources).0
                e12).1;
          in_parameters =
              ((equal_func-Compares (λ (p : Parameter). encodable p.extra) same_parameter
                  same_parameter-Compares k.parameters o.parameters).0
                e14).1;
          in_executor =
              ((equal_pointers-Compares (λ (e : Executor). encodable e.extra) same_executor
                  same_executor-Compares k.executor o.executor).0
                e15).1;
          in_attester =
              ((equal_pointers-Compares (λ (t : Attester). encodable t.extra) same_attester
                  same_attester-Compares k.attester o.attester).0
                e16).1;
          in_attrs = ((same_json-Compares k.attrs o.attrs).0 e18).1;
        },
      )

  written-same_content : written k ≡ written o → IsEncodable k → same_content k o ≡ true
  unfolding same_content
  written-same_content e n =
      true-and
        (true-and
          (true-and
            (true-and
              (true-and
                (true-and
                  (true-and
                    (true-and
                      (true-and
                        (true-and
                          (true-and
                            (true-and
                              (true-and
                                (true-and
                                  (true-and
                                    (true-and
                                      (true-and
                                        (true-and
                                          ((bytes-Compares k.kind o.kind).1
                                            (ap (λ (w : Written). w.kind) e, refl))
                                          ((bytes-Compares k.id o.id).1
                                            (ap (λ (w : Written). w.id) e, refl)))
                                        ((bytes-Compares k.title o.title).1
                                          (ap (λ (w : Written). w.title) e, refl)))
                                      ((bytes-Compares k.description o.description).1
                                        (ap (λ (w : Written). w.description) e, refl)))
                                    ((bytes-Compares k.resource o.resource).1
                                      (ap (λ (w : Written). w.resource) e, refl)))
                                  ((bytes-Compares (lifecycle_of k.status)
                                      (lifecycle_of o.status)).1
                                    (ap (λ (w : Written). w.lifecycle) e, refl)))
                                ((bytes-Compares k.status_note o.status_note).1
                                  (ap (λ (w : Written). w.status_note) e, refl)))
                              ((bytes-Compares k.stale_after o.stale_after).1
                                (ap (λ (w : Written). w.stale_after) e, refl)))
                            ((bytes-Compares k.runtime o.runtime).1
                              (ap (λ (w : Written). w.runtime) e, refl)))
                          ((bytes-Compares k.computation o.computation).1
                            (ap (λ (w : Written). w.computation) e, refl)))
                        ((bytes-Compares k.body o.body).1 (ap (λ (w : Written). w.body) e, refl)))
                      ((equal_func-Compares always ◌=?◌ bytes-Compares k.tags o.tags).1
                        (ap (λ (w : Written). w.tags) e, every-always k.tags)))
                    ((equal_func-Compares (λ (s : Source). encodable s.extra) same_source
                        same_source-Compares k.sources o.sources).1
                      (ap (λ (w : Written). w.sources) e, n.in_sources)))
                  ((equal_pointers-Compares always same_window same_window-Compares k.usage_window
                      o.usage_window).1
                    (ap (λ (w : Written). w.usage_window) e, if_there-always k.usage_window)))
                ((equal_func-Compares (λ (p : Parameter). encodable p.extra) same_parameter
                    same_parameter-Compares k.parameters o.parameters).1
                  (ap (λ (w : Written). w.parameters) e, n.in_parameters)))
              ((equal_pointers-Compares (λ (e : Executor). encodable e.extra) same_executor
                  same_executor-Compares k.executor o.executor).1
                (ap (λ (w : Written). w.executor) e, n.in_executor)))
            ((equal_pointers-Compares (λ (t : Attester). encodable t.extra) same_attester
                same_attester-Compares k.attester o.attester).1
              (ap (λ (w : Written). w.attester) e, n.in_attester)))
          ((equal_func-Compares always same_link same_link-Compares k.links o.links).1
            (ap (λ (w : Written). w.links) e, every-always k.links)))
        ((same_json-Compares k.attrs o.attrs).1 (ap (λ (w : Written). w.attrs) e, n.in_attrs))

-- Two concepts have the same content exactly when a reader reads the same in both and JSON can encode
-- every value that a producer added, in the attributes and in the parts of the concept.
pub same_content_iff :
    (k o : Knowledge) → (same_content k o ≡ true) ↔ ((written k ≡ written o) × IsEncodable k)
same_content_iff k o = (same_content-written k o, (λ h. written-same_content k o h.0 h.1))
