-- ===== src/Credentials.antt =====
-- go/credentials.go: a named credential, applied to one registry request.
use abstraction_model.Base.{Bool, Bytes, List, Option, Result, codes, err, false, none, ok, some}
use abstraction_model.Strings.{to_lower}
use abstraction_model.Download.{CredentialError}

-- What an applier answers besides headers: a *download.CredentialError, or any other error.
pub data ApplyError : Type 0 where
  typed : CredentialError → ApplyError
  untyped : ApplyError

-- CredentialHeaders: the headers for one request, from the credential's name and the host.
abbrev pub CredentialHeaders : Type 0
CredentialHeaders = Bytes → Bytes → Result ApplyError (List (Bytes × Bytes))

-- A request ready to send: its headers, and whether the client follows redirects.
pub record Prepared : Type 0 where
  pub headers : List (Bytes × Bytes)
  pub follows : Bool

-- `download.CredentialRefusal(name, reason)`.
abbrev pub refusal : Bytes → Bytes → CredentialError
refusal name reason = record { credential = name; reason = reason }

abbrev pub applied :
    Bytes → Result ApplyError (List (Bytes × Bytes)) → Result CredentialError Prepared
applied name (ok headers) = ok (record { headers = headers; follows = false })
applied name (err (typed e)) = err e
applied name (err untyped) = err (refusal name (codes "unavailable"))

-- applyCredential: the applier of the context, if it has one, for the request's host. The client
-- that sends the request follows no redirect.
unfoldable pub apply_credential :
    Option CredentialHeaders → Bytes → Bytes → Result CredentialError Prepared
apply_credential none host name = err (refusal name (codes "forbidden"))
apply_credential (some apply) host name = applied name (apply name (to_lower host))
