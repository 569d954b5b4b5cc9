-- ===== src/Service.antt =====
-- go/service/lookup.go and the receiver of go/service/service.go: one lookup, from the caller's
-- reference to the result on the wire.
mod Examples
pub mod Lookup
pub mod Lifecycle
pub mod Caller
pub mod Receiver
use abstraction_model.Base.{
  Bool, Bytes, List, Option, Result, [], codes, equal, err, false, if◌then◌else◌, is_negative,
  is_zero, leb, length, ltb, none, not, ok, some, true, ℕ, ℤ, ◌&&◌, ◌==◌, ◌||◌, ◌∷◌,
}
use abstraction_model.Strings.{has_any, trim, trim_space}
use abstraction_model.Download.{Artifact, CredentialError, Source, Spec, attr}
use abstraction_model.Credentials.{CredentialHeaders}
use abstraction_model.Ref.{Ref}
use abstraction_model.Registry.{Context, ModelError, Registry, missing_digest, refused, resolve_ref}
use abstraction_model.Hf.{credential_attr}
use abstraction_model.Wire.{
  LookupOutcome, LookupResult, PortableRequest, PortableSource, forbidden, invalid, resolved,
  unavailable, unsupported_mapping,
}

-- What lookup asks of other packages: utf8.ValidString, CredentialError.Retryable of package
-- download, and ValidateRequest of package downloadserve on the encoded request.
pub record Outside : Type 0 where
  pub valid_string : Bytes → Bool
  pub retryable : CredentialError → Bool
  pub portable : PortableRequest → Bool

-- The characters of a credential's name.
unfoldable pub credential_byte : ℕ → Bool
credential_byte c =
    (leb b'A' c && leb c b'Z')
    || (leb b'a' c && leb c b'z')
    || (leb b'0' c && leb c b'9')
    || c == b'_'
    || c == b'.'
    || c == b'-'

unfoldable pub bad_credential : Bytes → Bool
bad_credential name =
    not (equal name []) && (ltb 64 (length name) || not (equal (trim credential_byte name) []))

-- NUL, carriage return and line feed.
abbrev pub control_bytes : Bytes
control_bytes = 0 ∷ 13 ∷ 10 ∷ []

unfoldable pub bad_text : Outside → Bytes → Bool
bad_text o s = not (o.valid_string s) || has_any control_bytes s

unfoldable pub any_bad_text : Outside → List Bytes → Bool
any_bad_text o [] = false
any_bad_text o (s ∷ ss) = bad_text o s || any_bad_text o ss

abbrev pub texts : Ref → List Bytes
texts r = r.registry ∷ r.repo ∷ r.revision ∷ r.quant ∷ r.file ∷ []

unfoldable pub bad_ollama : Ref → Bool
bad_ollama r =
    equal r.registry (codes "ollama") && (not (equal r.quant []) || not (equal r.file []))

unfoldable pub bad_hf : Ref → Bool
bad_hf r =
    equal r.registry (codes "hf")
    && ((not (equal r.quant []) && not (equal r.file [])) || has_any (codes "/\\?#") r.revision)

unfoldable pub valid_ref : Outside → Ref → Bool
valid_ref o r =
    if equal (trim_space r.registry) [] || equal (trim_space r.repo) []
    then false
    else if bad_credential r.credential
    then false
    else if any_bad_text o (texts r)
    then false
    else if bad_ollama r
    then false
    else not (bad_hf r)

-- `result(outcome)`.
abbrev pub only : LookupOutcome → LookupResult
only outcome = record { outcome = outcome; request = none }

-- The outcome of a lookup that failed.
abbrev pub outcome_of : Outside → ModelError → LookupOutcome
outcome_of o missing_digest = unsupported_mapping
outcome_of o (refused e) = if o.retryable e then unavailable else unsupported_mapping
outcome_of o _ = unavailable

-- The attributes that a source may carry: none, or the reference's own credential name.
unfoldable pub foreign_attrs : Bytes → List (Bytes × Bytes) → Bool
foreign_attrs credential attrs =
    let named = attr credential_attr attrs in
    ltb 1 (length attrs) || (length attrs == 1 && (equal named [] || not (equal named credential)))

abbrev pub has_headers : List (Bytes × Bytes) → Bool
has_headers [] = false
has_headers (h ∷ hs) = true

unfoldable pub not_portable : Bytes → Source → Bool
not_portable credential s =
    foreign_attrs credential s.attrs || has_headers s.headers || not (is_zero s.priority)

abbrev pub portable_source : Source → PortableSource
portable_source s = record {
  scheme = s.scheme;
  locator = s.locator;
  credential = attr credential_attr s.attrs;
}

abbrev pub add_source : PortableSource → Option (List PortableSource) → Option (List PortableSource)
add_source s none = none
add_source s (some ss) = some (s ∷ ss)

-- The loop over the sources, which gives up at the first that does not fit.
unfoldable pub portable_sources : Bytes → List Source → Option (List PortableSource)
portable_sources credential [] = some []
portable_sources credential (s ∷ ss) =
    if not_portable credential s
    then none
    else add_source (portable_source s) (portable_sources credential ss)

unfoldable pub validated : Outside → PortableRequest → LookupResult
validated o q =
    if o.portable q
    then record { outcome = resolved; request = some q }
    else only unsupported_mapping

abbrev pub requested : Outside → Artifact → Option (List PortableSource) → LookupResult
requested o artifact none = only unsupported_mapping
requested o artifact (some sources) =
    validated o (record { artifact = artifact; sources = sources })

-- What a resolved spec is answered with.
unfoldable pub portable_spec : Outside → Ref → Spec → LookupResult
portable_spec o r spec =
    if not (equal spec.sink []) || not (equal spec.request []) || equal spec.artifact.digest []
    then only unsupported_mapping
    else requested o spec.artifact (portable_sources r.credential spec.sources)

abbrev pub mapped : Outside → Ref → Result ModelError Spec → LookupResult
mapped o r (ok spec) = portable_spec o r spec
mapped o r (err e) = only (outcome_of o e)

unfoldable pub lookup : Outside → Context → Option Registry → Ref → LookupResult
lookup o ctx reg r = if valid_ref o r then mapped o r (resolve_ref ctx reg r) else only invalid

-- What a policy decides; ErrPolicyUnavailable is one of its errors.
pub data Decision : Type 0 where
  allowed policy_unavailable denied : Decision

-- The receiving subject, as package listen proves it: the peer's user, if the call has one and it is
-- proved at Program level, and the subject's program behind the recheck.
pub data User : Type 0 where
  windows : Bytes → User
  posix : ℤ → User
  other_user : User

pub record Call : Type 0 where
  pub has_peer : Bool
  pub user : Option User
  pub rechecked : Bool
  pub program : Option Bytes
  pub expired : Bool

-- The host's configuration: its owner, its registry, and what EnablePolicy and EnableCredentials have
-- set; and strconv.Itoa, filepath.IsAbs and filepath.Clean.
pub record Host : Type 1 where
  pub owner : Bytes
  pub registry : Option Registry
  pub policy : Option (Bytes → Decision)
  pub apply : Option (Bytes → Bytes → CredentialHeaders)
  pub itoa : ℤ → Bytes
  pub is_abs : Bytes → Bool
  pub clean : Bytes → Bytes

abbrev pub principal : Host → User → Bytes
principal h (windows sid) = sid
principal h (posix uid) = h.itoa uid
principal h other_user = []

-- `subject` counts no negative user number.
abbrev pub account_of : Host → User → Bytes
account_of h (windows sid) = sid
account_of h (posix uid) = if is_negative uid then [] else h.itoa uid
account_of h other_user = []

unfoldable pub authorized : Host → Call → Bool
authorized h c =
    if c.has_peer
    then elim c.user [
      | none ↦ false
      | some u ↦ not (equal (principal h u) []) && equal (principal h u) h.owner
    ]
    else false

abbrev pub subject_of : Host → Option User → Option Bytes → Option (Bytes × Bytes)
subject_of h none p = none
subject_of h (some u) none = none
subject_of h (some u) (some p) =
    if equal (account_of h u) [] || not (equal (account_of h u) h.owner) || not (h.is_abs p)
    then none
    else some (account_of h u, h.clean p)

unfoldable pub subject : Host → Call → Option (Bytes × Bytes)
subject h c = if c.has_peer && c.rechecked then subject_of h c.user c.program else none

-- The outcome that the policy ends the call with, if it does.
abbrev pub decided : Bool → Decision → Option LookupOutcome
decided true d = some unavailable
decided false allowed = none
decided false policy_unavailable = some unavailable
decided false denied = some forbidden

unfoldable pub stopped : Host → Call → Bytes → Option LookupOutcome
stopped h c scheme = elim h.policy [
  | none ↦ none
  | some policy ↦ if c.has_peer then decided c.expired (policy scheme) else some forbidden
]

-- The context for the registry, or none where the subject is not proved.
abbrev pub bound :
    Option (Bytes → Bytes → CredentialHeaders) → Option (Bytes × Bytes) → Option Context
bound none who = some none
bound (some apply) none = none
bound (some apply) (some (account, program)) = some (some (apply account program))

unfoldable pub context_of : Host → Call → Ref → Option Context
context_of h c r = if equal r.credential [] then some none else bound h.apply (subject h c)

abbrev pub answer_in : Outside → Host → Ref → Option Context → LookupResult
answer_in o h r none = only forbidden
answer_in o h r (some ctx) = lookup o ctx h.registry r

abbrev pub after_policy : Outside → Host → Call → Ref → Option LookupOutcome → LookupResult
after_policy o h c r (some outcome) = only outcome
after_policy o h c r none = answer_in o h r (context_of h c r)

-- receiver.Resolve.
unfoldable pub receive : Outside → Host → Call → Ref → LookupResult
receive o h c r =
    if authorized h c then after_policy o h c r (stopped h c r.registry) else only forbidden
