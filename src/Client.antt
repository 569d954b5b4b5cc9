-- ===== src/Client.antt =====
-- go/client/client.go: a client's call of the lookup service, and its check of the result.
pub mod Accepted
use abstraction_model.Base.{
  Bool, Bytes, List, Option, Result, [], codes, equal, err, false, if◌then◌else◌, is_negative,
  is_some, leb, length, ltb, none, not, ok, some, suc, true, ℕ, ◌&&◌, ◌==◌, ◌>>=◌, ◌||◌, ◌∷◌,
}
use abstraction_model.Strings.{has_prefix, trim_prefix}
use abstraction_model.Download.{Artifact}
use abstraction_model.Ref.{Ref}
use abstraction_model.Wire.{LookupOutcome, LookupResult, PortableRequest, PortableSource, resolved}

-- What url.Parse answers: the fields that the check reads.
pub record Url : Type 0 where
  pub scheme : Bytes
  pub host : Bytes
  pub has_user : Bool

abbrev pub ParseUrl : Type 0
ParseUrl = Bytes → Option Url

unfoldable pub is_hex : ℕ → Bool
is_hex c = (leb b'0' c && leb c b'9') || (leb b'a' c && leb c b'f') || (leb b'A' c && leb c b'F')

-- The number of bytes that hex.DecodeString reads, if it reads the text.
unfoldable pub hex_bytes : Bytes → Option ℕ
hex_bytes [] = some 0
hex_bytes (a ∷ []) = none
hex_bytes (a ∷ (b ∷ s)) =
    if is_hex a && is_hex b
    then elim (hex_bytes s) [ none ↦ none | some n ↦ some (suc n) ]
    else none

abbrev pub digest_mark : Bytes
digest_mark = codes "sha256:"

-- `e == nil` and `len(digest) == 32`.
abbrev pub reads_32 : Option ℕ → Bool
reads_32 none = false
reads_32 (some n) = n == 32

unfoldable pub valid_artifact : Artifact → Bool
valid_artifact a =
    reads_32 (hex_bytes (trim_prefix digest_mark a.digest))
    && has_prefix digest_mark a.digest
    && not (is_negative a.size)

unfoldable pub valid_url : Bytes → Option Url → Bool
valid_url scheme none = false
valid_url scheme (some u) =
    not (equal u.host [])
    && not u.has_user
    && (equal u.scheme (codes "http") || equal u.scheme (codes "https"))
    && equal u.scheme scheme

unfoldable pub valid_sources : ParseUrl → List PortableSource → Bool
valid_sources parse_url [] = true
valid_sources parse_url (s ∷ ss) =
    valid_url s.scheme (parse_url s.locator) && valid_sources parse_url ss

unfoldable pub valid_request : ParseUrl → PortableRequest → Bool
valid_request parse_url q =
    valid_artifact q.artifact && ltb 0 (length q.sources) && valid_sources parse_url q.sources

abbrev pub is_resolved : LookupOutcome → Bool
is_resolved resolved = true
is_resolved _ = false

-- `(r.Outcome == wire.LookupOutcomeResolved) != (r.Request != nil)` is the refusal.
unfoldable pub consistent : LookupResult → Bool
consistent x = if is_resolved x.outcome then is_some x.request else not (is_some x.request)

unfoldable pub valid_result : ParseUrl → LookupResult → Bool
valid_result parse_url x =
    if consistent x
    then elim x.request [ none ↦ true | some q ↦ valid_request parse_url q ]
    else false

-- What a call ends with: the context's error, the transport's or the service's, or the refusal of an
-- inconsistent result.
pub data CallError : Type 0 where
  cancelled : CallError
  failed : Bytes → CallError
  inconsistent : CallError

unfoldable pub accepted : ParseUrl → LookupResult → Result CallError LookupResult
accepted parse_url x = if valid_result parse_url x then ok x else err inconsistent

-- ResolveContext, with the generated client's call as a parameter.
unfoldable pub resolve_context :
    ParseUrl → (Ref → Result CallError LookupResult) → Bool → Ref → Result CallError LookupResult
resolve_context parse_url call done r =
    if done then err cancelled else call r >>= accepted parse_url
