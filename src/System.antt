-- ===== src/System.antt =====
-- go/client/client.go over go/abstraction/model/api/rec.go and go/service/service.go: the client's call,
-- through the generated client and dispatcher, of the receiver.
mod Examples
use abstraction_model.Base.{
  >>=-ok, Bytes, Option, Result, ap, codes, err, false, if◌then◌else◌, none, ok, refl, some, ℕ,
  ◌==◌, ◌∙◌, ◌≡◌,
}
use abstraction_model.Ref.{Ref}
use abstraction_model.Wire.{
  LookupOutcome, LookupResult, PortableRequest, forbidden, invalid, resolved, unavailable,
  unsupported_mapping,
}
use abstraction_model.Message.RoundTrip.{IsText}
use abstraction_model.Message.Results.{Imported, WireLookup, enc_lookup_result}
use abstraction_model.Message.Results.RoundTrip.{IsInverse}
use abstraction_model.Endpoint.{Failure}
use abstraction_model.Endpoint.Exchange.{Handler, resolver_exchange, resolver_resolve, returned}
use abstraction_model.Endpoint.Exchange.Services.{resolver_resolve-resolver_exchange}
use abstraction_model.Service.{Call, Host, Outside, receive}
use abstraction_model.Client.{CallError, ParseUrl, accepted, failed, resolve_context}

-- The constants of LookupOutcome.
unfoldable pub number_of : LookupOutcome → ℕ
number_of resolved = 1
number_of invalid = 2
number_of unavailable = 3
number_of unsupported_mapping = 4
number_of forbidden = 5

unfoldable pub outcome_numbered : ℕ → Option LookupOutcome
outcome_numbered n =
    if n == 1
    then some resolved
    else if n == 2
    then some invalid
    else if n == 3
    then some unavailable
    else if n == 4
    then some unsupported_mapping
    else if n == 5
    then some forbidden
    else none

abbrev pub to_wire : LookupResult → WireLookup PortableRequest
to_wire x = record { outcome = number_of x.outcome; request = x.request }

-- receiver.Resolve as the dispatcher's handler: it returns, and has no Ready and no DescribeMetadata.
abbrev pub receiver_handler : Outside → Host → Call → Handler (WireLookup PortableRequest)
receiver_handler o h c = record {
  resolve = λ r. returned (to_wire (receive o h c r));
  says_ready = none;
  metadata = none;
}

module _ (codec : Imported PortableRequest) (error_text : Failure → Bytes) where
  -- What the generated client's answer is to package client; an outcome that is no member does not pass
  -- the reader.
  abbrev pub client_result :
      Result Failure (WireLookup PortableRequest) → Result CallError LookupResult
  client_result (err e) = err (failed (error_text e))
  client_result (ok w) = elim (outcome_numbered w.outcome) [
    | none ↦ err (failed (codes "bad_enum"))
    | some outcome ↦ ok (record { outcome = outcome; request = w.request })
  ]

  -- The generated client's call over a transport.
  unfoldable pub client_call : (Bytes → Result Failure Bytes) → Ref → Result CallError LookupResult
  client_call transport r = client_result (resolver_resolve codec transport r)

  client_result-to_wire : (x : LookupResult) → client_result (ok (to_wire x)) ≡ ok x
  unfolding number_of outcome_numbered
  client_result-to_wire x =
      elim x.outcome
        as (λ o.
          client_result (ok (record { outcome = number_of o; request = x.request }))
          ≡ ok (record { outcome = o; request = x.request })) [
            | resolved ↦ refl
            | invalid ↦ refl
            | unavailable ↦ refl
            | unsupported_mapping ↦ refl
            | forbidden ↦ refl
          ]

  -- The call from end to end: where the reference is of valid texts and the request in the receiver's
  -- answer can be written, ResolveContext over the dispatcher of the receiver returns what the receiver
  -- answers, once validResult has accepted it.
  pub resolve_context-receive :
      (parse_url : ParseUrl) (o : Outside) (h : Host) (c : Call) (r : Ref) {text : Bytes}
      → IsText r
      → IsInverse codec 61
      → enc_lookup_result codec (to_wire (receive o h c r)) 1 ≡ ok text
      → resolve_context parse_url
          (client_call (resolver_exchange codec (receiver_handler o h c)))
          false
          r
        ≡ accepted parse_url (receive o h c r)
  unfolding resolve_context client_call
  resolve_context-receive parse_url o h c r good inverse written =
      let answer = receive o h c r in
      >>=-ok _ (
        ap client_result (
          resolver_resolve-resolver_exchange codec (receiver_handler o h c) r (to_wire answer) good
            inverse refl written)
        ∙ client_result-to_wire answer)
