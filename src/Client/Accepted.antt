-- ===== src/Client/Accepted.antt =====
-- What a client may rely on in a result.
use mathlib.Core.Path.{subst, ap}
use abstraction_model.Base.{
  >>=-eq-ok, All, Bool, Bool-cases, Bytes, List, Option, Option-cases, Result, [], ap, arith, codes,
  equal, equal_iff, err, false, inl, inr, is_negative, length, none, ok, refl, some, true, ℕ, ◌&&◌,
  ◌++◌, ◌+◌, ◌<◌, ◌↔◌, ◌∷◌, ◌≡◌, ◌≢◌, ◌⊎◌,
}
use abstraction_model.Strings.{cut_prefix, has_prefix, trim_prefix}
use abstraction_model.Strings.Cut.{cut_prefix-some}
use abstraction_model.Download.{Artifact, Spec}
use abstraction_model.Ref.{Ref}
use abstraction_model.Wire.{
  LookupOutcome, LookupResult, PortableRequest, PortableSource, forbidden, invalid, resolved,
  unavailable, unsupported_mapping,
}
use abstraction_model.Registry.{
  Context, ModelError, Registry, missing_digest, no_locator, no_registry, no_resolver, not_parsed,
  other, refused, resolve_ref,
}
use abstraction_model.Service.{
  Outside, lookup, mapped, only, portable_sources, portable_spec, valid_ref, validated,
}
use abstraction_model.Client.{
  CallError, ParseUrl, Url, accepted, consistent, digest_mark, hex_bytes, is_hex, is_resolved,
  reads_32, resolve_context, valid_artifact, valid_request, valid_result, valid_sources, valid_url,
}

-- A web address on a host, without a user's name in it, in the scheme that the source states.
pub record IsWeb (parse_url : ParseUrl) (s : PortableSource) : Type 0 where
  pub url : Url
  pub parsed : parse_url s.locator ≡ some url
  pub host_ne_nil : url.host ≢ []
  pub no_user : url.has_user ≡ false
  pub web_scheme : (url.scheme ≡ codes "http") ⊎ (url.scheme ≡ codes "https")
  pub same_scheme : url.scheme ≡ s.scheme

-- A digest of 64 hexadecimal digits behind its mark.
pub record IsDigest (d : Bytes) : Type 0 where
  pub hex : Bytes
  pub digest_is : d ≡ digest_mark ++ hex
  pub all_hex : All (λ c. is_hex c ≡ true) hex
  pub length_is : length hex ≡ 64

pub record IsDownload (parse_url : ParseUrl) (q : PortableRequest) : Type 0 where
  pub digest : IsDigest q.artifact.digest
  pub size_ok : is_negative q.artifact.size ≡ false
  pub some_source : 0 < length q.sources
  pub web : All (IsWeb parse_url) q.sources

valid_url-IsWeb :
    (parse_url : ParseUrl) (s : PortableSource) (x : Option Url)
    → parse_url s.locator ≡ x
    → valid_url s.scheme x ≡ true
    → IsWeb parse_url s
unfolding valid_url
valid_url-IsWeb parse_url s none p e = absurd (ground arith)
valid_url-IsWeb parse_url s (some u) p e = record {
  url = u;
  parsed = p;
  host_ne_nil = ground (arith, equal_iff u.host []);
  no_user = ground arith;
  web_scheme = web;
  same_scheme = (equal_iff u.scheme s.scheme).0 (ground arith);
}
  where
    web : (u.scheme ≡ codes "http") ⊎ (u.scheme ≡ codes "https")
    web = elim (Bool-cases (equal u.scheme (codes "http"))) [
      | inl k ↦ inl ((equal_iff u.scheme (codes "http")).0 k)
      | inr k ↦ inr ((equal_iff u.scheme (codes "https")).0 (ground arith))
    ]

valid_sources-IsWeb :
    (parse_url : ParseUrl) (ss : List PortableSource)
    → valid_sources parse_url ss ≡ true
    → All (IsWeb parse_url) ss
unfolding valid_sources
valid_sources-IsWeb parse_url [] e = tt
valid_sources-IsWeb parse_url (s ∷ ss) e = (
  valid_url-IsWeb parse_url s (parse_url s.locator) refl (ground arith),
  valid_sources-IsWeb parse_url ss (ground arith),
)

hex_bytes-some :
    (s : Bytes) (n : ℕ) → hex_bytes s ≡ some n → All (λ c. is_hex c ≡ true) s × (length s ≡ n + n)
unfolding hex_bytes
hex_bytes-some [] n e = (tt, ground arith)
hex_bytes-some (a ∷ []) n e = absurd (ground arith)
hex_bytes-some (a ∷ (b ∷ s)) n e = elim (Bool-cases (is_hex a && is_hex b)) [
  | inl h ↦ elim (Option-cases (hex_bytes s)) [
    | inl k ↦ absurd (ground arith)
    | inr (m, k) ↦
        let (all, size) = hex_bytes-some s m k in
        ((ground arith, (ground arith, all)), ground arith)
  ]
  | inr h ↦ absurd (ground arith)
]

reads_32-some : (x : Option ℕ) → reads_32 x ≡ true → x ≡ some 32
reads_32-some none e = absurd (ground arith)
reads_32-some (some n) e = ap some (ground arith)

valid_artifact-IsDigest :
    (a : Artifact) → valid_artifact a ≡ true → IsDigest a.digest × (is_negative a.size ≡ false)
unfolding valid_artifact has_prefix trim_prefix
valid_artifact-IsDigest a e = elim (Option-cases (cut_prefix digest_mark a.digest)) [
  | inl k ↦ absurd (ground arith)
  | inr (hex, k) ↦
      let read : reads_32 (hex_bytes hex) ≡ true = ground arith in
      let (all, size) = hex_bytes-some hex 32 (reads_32-some (hex_bytes hex) read) in
      (
        record {
          hex = hex;
          digest_is = cut_prefix-some digest_mark a.digest hex k;
          all_hex = all;
          length_is = size;
        },
        ground arith,
      )
]

valid_request-IsDownload :
    (parse_url : ParseUrl) (q : PortableRequest)
    → valid_request parse_url q ≡ true
    → IsDownload parse_url q
unfolding valid_request
valid_request-IsDownload parse_url q e =
    let (digest, size) = valid_artifact-IsDigest q.artifact (ground arith) in
    record {
      digest = digest;
      size_ok = size;
      some_source = ground arith;
      web = valid_sources-IsWeb parse_url q.sources (ground arith);
    }

-- The request that a result holds, and the outcome that says so.
abbrev pub Holds : ParseUrl → LookupOutcome → Option PortableRequest → Type 0
Holds parse_url outcome none = outcome ≢ resolved
Holds parse_url outcome (some q) = (outcome ≡ resolved) × IsDownload parse_url q

is_resolved_iff : (x : LookupOutcome) → (is_resolved x ≡ true) ↔ (x ≡ resolved)
is_resolved_iff resolved = ((λ e. refl), (λ e. refl))
is_resolved_iff invalid = ((λ e. absurd (ground arith)), (λ e. absurd (ground arith)))
is_resolved_iff unavailable = ((λ e. absurd (ground arith)), (λ e. absurd (ground arith)))
is_resolved_iff unsupported_mapping = ((λ e. absurd (ground arith)), (λ e. absurd (ground arith)))
is_resolved_iff forbidden = ((λ e. absurd (ground arith)), (λ e. absurd (ground arith)))

valid_result-Holds :
    (parse_url : ParseUrl) (outcome : LookupOutcome) (q : Option PortableRequest)
    → valid_result parse_url (record { outcome = outcome; request = q }) ≡ true
    → Holds parse_url outcome q
unfolding valid_result consistent
valid_result-Holds parse_url outcome none e = λ same. ground (arith, is_resolved_iff outcome)
valid_result-Holds parse_url outcome (some q) e = (
  (is_resolved_iff outcome).0 (ground arith),
  valid_request-IsDownload parse_url q (ground arith),
)

accepted-ok :
    (parse_url : ParseUrl) (x : LookupResult) {y : LookupResult}
    → accepted parse_url x ≡ ok y
    → (x ≡ y) × (valid_result parse_url x ≡ true)
unfolding accepted
accepted-ok parse_url x e = elim (Bool-cases (valid_result parse_url x)) [
  | inl h ↦ (ground arith, h)
  | inr h ↦ absurd (ground arith)
]

-- A result that ResolveContext hands on holds a request exactly if its outcome is resolved; that
-- request states a sha256 digest of 64 hexadecimal digits, no negative size, and at least one
-- source, and each source is a web address on a host, with no user's name in it.
pub resolve_context-Holds :
    (parse_url : ParseUrl) (call : Ref → Result CallError LookupResult) (done : Bool) (r : Ref)
    {x : LookupResult}
    → resolve_context parse_url call done r ≡ ok x
    → Holds parse_url x.outcome x.request
unfolding resolve_context
resolve_context-Holds parse_url call done r {x} e = elim (Bool-cases done) [
  | inl h ↦ absurd (ground arith)
  | inr h ↦
      let (y, called, e1) = >>=-eq-ok (call r) (accepted parse_url) (rw h at e) in
      let (same, valid) = accepted-ok parse_url y e1 in
      subst (λ (z : LookupResult). Holds parse_url z.outcome z.request) same
        (valid_result-Holds parse_url y.outcome y.request valid)
]

portable_spec-consistent :
    (o : Outside) (r : Ref) (spec : Spec) → consistent (portable_spec o r spec) ≡ true
unfolding portable_spec validated consistent
portable_spec-consistent o r spec =
    elim (Option-cases (portable_sources r.credential spec.sources)) [
      | inl k ↦ ground arith
      | inr (ss, k) ↦ ground arith
    ]

only-consistent : (x : LookupOutcome) → x ≢ resolved → consistent (only x) ≡ true
unfolding consistent
only-consistent x n = ground (arith, is_resolved_iff x)

-- Every answer of the service passes the client's test that a request is there exactly if the
-- outcome is resolved.
pub lookup-consistent :
    (o : Outside) (ctx : Context) (reg : Option Registry) (r : Ref)
    → consistent (lookup o ctx reg r) ≡ true
unfolding lookup consistent
lookup-consistent o ctx reg r = elim (Bool-cases (valid_ref o r)) [
  | inl h ↦ rw h (answered (resolve_ref ctx reg r))
  | inr h ↦ rw h refl
]
  where
    answered : (x : Result ModelError Spec) → consistent (mapped o r x) ≡ true
    answered (ok spec) = portable_spec-consistent o r spec
    answered (err missing_digest) = refl
    answered (err (refused e)) = ground arith
    answered (err no_registry) = refl
    answered (err (no_resolver s)) = refl
    answered (err (no_locator s)) = refl
    answered (err (not_parsed e)) = refl
    answered (err (other s)) = refl
