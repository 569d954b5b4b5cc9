-- ===== src/Service/Lookup.antt =====
-- What a resolved lookup hands out.
use mathlib.Core.Path.{sym, ap, ◌∙◌}
use mathlib.Core.List.{map}
use abstraction_model.Base.{
  All, Bool-cases, Bytes, List, Option, Result, [], ap, arith, equal, equal_iff, err, false, inl,
  inr, is_zero, map, none, not, ok, refl, some, sym, true, ◌||◌, ◌∙◌, ◌∷◌, ◌≡◌, ◌≢◌, ◌⊎◌,
}
use abstraction_model.Download.{Artifact, Source, Spec, attr}
use abstraction_model.Ref.{Ref}
use abstraction_model.Hf.{credential_attr}
use abstraction_model.Registry.{Context, ModelError, Registry, resolve_ref}
use abstraction_model.Wire.{PortableRequest, PortableSource}
use abstraction_model.Service.{
  Outside, add_source, foreign_attrs, has_headers, lookup, mapped, not_portable, portable_source,
  portable_sources, portable_spec, requested, valid_ref, validated,
}

-- A source with no headers, of priority 0, whose credential is none or the one given.
pub record IsSafe (credential : Bytes) (s : Source) : Type 0 where
  pub no_headers : s.headers ≡ []
  pub no_priority : is_zero s.priority ≡ true
  pub own_credential :
      ((portable_source s).credential ≡ []) ⊎ ((portable_source s).credential ≡ credential)

has_headers-eq-false : (hs : List (Bytes × Bytes)) → has_headers hs ≡ false → hs ≡ []
has_headers-eq-false [] e = refl
has_headers-eq-false (h ∷ hs) e = absurd (ground arith)

foreign_attrs-own :
    (credential : Bytes) (attrs : List (Bytes × Bytes))
    → foreign_attrs credential attrs ≡ false
    → (attr credential_attr attrs ≡ []) ⊎ (attr credential_attr attrs ≡ credential)
unfolding foreign_attrs attr
foreign_attrs-own credential [] e = inl refl
foreign_attrs-own credential (a ∷ []) e =
    inr (ground (arith, equal_iff (attr credential_attr (a ∷ [])) credential))
foreign_attrs-own credential (a ∷ (b ∷ more)) e = absurd (ground arith)

not_portable-IsSafe :
    (credential : Bytes) (s : Source) → not_portable credential s ≡ false → IsSafe credential s
unfolding not_portable
not_portable-IsSafe credential s e = record {
  no_headers = has_headers-eq-false s.headers (ground arith);
  no_priority = ground arith;
  own_credential = foreign_attrs-own credential s.attrs (ground arith);
}

add_source-some :
    (s : PortableSource) (o : Option (List PortableSource)) {ps : List PortableSource}
    → add_source s o ≡ some ps
    → (rest : List PortableSource) × (o ≡ some rest) × (ps ≡ s ∷ rest)
add_source-some s none e = absurd (ground arith)
add_source-some s (some rest) e = (rest, refl, ground arith)

portable_sources-some :
    (credential : Bytes) (ss : List Source) {ps : List PortableSource}
    → portable_sources credential ss ≡ some ps
    → (ps ≡ map portable_source ss) × All (IsSafe credential) ss
unfolding portable_sources
portable_sources-some credential [] e = (ground arith, tt)
portable_sources-some credential (s ∷ ss) {ps} e = elim (Bool-cases (not_portable credential s)) [
  | inl h ↦ absurd (ground arith)
  | inr h ↦
      let (rest, found, is) =
        add_source-some (portable_source s) (portable_sources credential ss)
          (rw (portable_sources, h) at e) in
      let (same, safe) = portable_sources-some credential ss found in
      (is ∙ ap (◌∷◌ (portable_source s)) same, (not_portable-IsSafe credential s h, safe))
]

-- What the request of a resolved lookup rests on.
pub record IsLookup (o : Outside) (ctx : Context) (reg : Option Registry) (r : Ref)
    (q : PortableRequest) : Type 0 where
  pub valid : valid_ref o r ≡ true
  pub spec : Spec
  pub found : resolve_ref ctx reg r ≡ ok spec
  pub artifact_is : q.artifact ≡ spec.artifact
  pub digest_ne_nil : spec.artifact.digest ≢ []
  pub no_sink : spec.sink ≡ []
  pub no_request : spec.request ≡ []
  pub sources_are : q.sources ≡ map portable_source spec.sources
  pub safe : All (IsSafe r.credential) spec.sources
  pub accepted : o.portable q ≡ true

validated-request :
    (o : Outside) (p q : PortableRequest)
    → (validated o p).request ≡ some q
    → (o.portable q ≡ true) × (p ≡ q)
unfolding validated
validated-request o p q e = elim (Bool-cases (o.portable p)) [
  | inl h ↦ let same : p ≡ q = ground arith in (ap o.portable (sym same) ∙ h, same)
  | inr h ↦ absurd (ground arith)
]

requested-request :
    (o : Outside) (artifact : Artifact) (x : Option (List PortableSource)) (q : PortableRequest)
    → (requested o artifact x).request ≡ some q
    → (o.portable q ≡ true) × (q.artifact ≡ artifact) × (x ≡ some q.sources)
requested-request o artifact none q e = absurd (ground arith)
requested-request o artifact (some ss) q e =
    let (accepted, same) = validated-request o (record { artifact = artifact; sources = ss }) q e in
    (
      accepted,
      ap (λ (p : PortableRequest). p.artifact) (sym same),
      ap (λ (p : PortableRequest). some p.sources) same,
    )

portable_spec-request :
    (o : Outside) (r : Ref) (spec : Spec) (q : PortableRequest)
    → (portable_spec o r spec).request ≡ some q
    → (spec.sink ≡ [])
      × (spec.request ≡ [])
      × (spec.artifact.digest ≢ [])
      × ((requested o spec.artifact (portable_sources r.credential spec.sources)).request ≡ some q)
unfolding portable_spec
portable_spec-request o r spec q e =
    elim (Bool-cases
      (not (equal spec.sink []) || not (equal spec.request []) || equal spec.artifact.digest [])) [
        | inl h ↦ absurd (ground arith)
        | inr h ↦ (
          (equal_iff spec.sink []).0 (ground arith),
          (equal_iff spec.request []).0 (ground arith),
          (λ d. let e' = (equal_iff spec.artifact.digest []).1 d in absurd (ground arith)),
          ground arith,
        )
      ]

mapped-request :
    (o : Outside) (r : Ref) (answer : Result ModelError Spec) (q : PortableRequest)
    → (mapped o r answer).request ≡ some q
    → (spec : Spec) × (answer ≡ ok spec) × ((portable_spec o r spec).request ≡ some q)
mapped-request o r (ok spec) q e = (spec, refl, e)
mapped-request o r (err x) q e = absurd (ground arith)

lookup-request :
    (o : Outside) (ctx : Context) (reg : Option Registry) (r : Ref) (q : PortableRequest)
    → (lookup o ctx reg r).request ≡ some q
    → (valid_ref o r ≡ true) × ((mapped o r (resolve_ref ctx reg r)).request ≡ some q)
unfolding lookup
lookup-request o ctx reg r q e = elim (Bool-cases (valid_ref o r)) [
  | inl h ↦ (h, ground arith)
  | inr h ↦ absurd (ground arith)
]

-- A lookup hands out a request only for a valid reference that the registry resolved: the request
-- has the resolved artifact, with its digest, and the resolved sources, none of which has headers or
-- a priority, or names another credential than the reference's own.
pub lookup-IsLookup :
    (o : Outside) (ctx : Context) (reg : Option Registry) (r : Ref) {q : PortableRequest}
    → (lookup o ctx reg r).request ≡ some q
    → IsLookup o ctx reg r q
lookup-IsLookup o ctx reg r {q} e =
    let (valid, e1) = lookup-request o ctx reg r q e in
    let (spec, found, e2) = mapped-request o r (resolve_ref ctx reg r) q e1 in
    let (sink, request, digest, e3) = portable_spec-request o r spec q e2 in
    let (accepted, artifact, some_sources) = requested-request o spec.artifact _ q e3 in
    let (sources, safe) = portable_sources-some r.credential spec.sources some_sources in
    record {
      valid = valid;
      spec = spec;
      found = found;
      artifact_is = artifact;
      digest_ne_nil = digest;
      no_sink = sink;
      no_request = request;
      sources_are = sources;
      safe = safe;
      accepted = accepted;
    }
