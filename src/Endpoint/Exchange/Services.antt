-- ===== src/Endpoint/Exchange/Services.antt =====
-- The two services, from the client's call to the result that it returns.
use abstraction_model.Base.{
  Bytes, Result, [], arith, codes, equal, err, ok, refl, true, ℕ, ◌≡◌, ◌≢◌,
}
use abstraction_model.Codec.{Refusal, lead, valid_loop, valid_utf8}
use abstraction_model.Ref.{Ref}
use abstraction_model.Message.RoundTrip.{IsText}
use abstraction_model.Message.Results.{
  Imported, WireLookup, WireManifest, decode_lookup_result, decode_manifest_result,
  enc_lookup_result, enc_manifest_result,
}
use abstraction_model.Message.Results.RoundTrip.{
  IsInverse, decode_lookup_result-enc_lookup_result, lookup_result-IsRaw,
}
use abstraction_model.Message.Results.Manifest.{
  decode_manifest_result-enc_manifest_result, manifest_result-IsRaw,
}
use abstraction_model.Endpoint.Replies.{Says, coded}
use abstraction_model.Endpoint.{Failure, service_error}
use abstraction_model.Endpoint.Exchange.{
  Handled, Handler, failed, invoke, manifest_contract, manifest_exchange, manifest_resolve,
  panicked, panicked_refusal, resolver_contract, resolver_exchange, resolver_resolve, returned,
}
use abstraction_model.Endpoint.Exchange.Calls.{call-failed, call-returned}

-- How a handler ends that returns no result, and what its caller is told: an error says its code and
-- its message; a refusal that it panics with is an invalid result, and any other panic tells nothing
-- but that the handler failed.
pub data EndsWith {R : Type 0} : Handled R → Bytes → Bytes → Type 0 where
  with_error :
      {e : Failure} {code message : Bytes} → Says e code message → EndsWith (failed e) code message
  with_refusal : (r : Refusal) → EndsWith (panicked_refusal r) (codes "invalid_result") []
  with_panic : EndsWith panicked (codes "handler_error") (codes "handler failed")

invoke-EndsWith :
    {R : Type 0} (contract : Bytes) (enc_result : R → ℕ → Result Refusal Bytes)
    (decode_result : ℕ → Bytes → Result Refusal (R × Bytes)) {handled : Handled R}
    {code message : Bytes}
    → EndsWith handled code message
    → (e : Failure) × (invoke contract enc_result decode_result handled ≡ err e)
      × Says e code message
unfolding invoke
invoke-EndsWith contract enc_result decode_result (with_error {e} says) = (e, refl, says)
invoke-EndsWith contract enc_result decode_result (with_refusal r) =
    (_, refl, coded (codes "invalid_result") [] (λ n. absurd (ground (arith, n))))
invoke-EndsWith contract enc_result decode_result with_panic = (
  _,
  refl,
  coded (codes "handler_error") (codes "handler failed") (λ n. absurd (ground (arith, n))),
)

module _ {Q : Type 0} (codec : Imported Q) where
  -- Resolve of the resolver's client over its dispatcher is Resolve of the handler: where the reference
  -- is of valid texts and the handler returns a result that can be written, the client returns that
  -- result, with the request that it carries.
  pub resolver_resolve-resolver_exchange :
      (h : Handler (WireLookup Q)) (ref : Ref) (v : WireLookup Q) {text : Bytes}
      → IsText ref
      → IsInverse codec 61
      → h.resolve ref ≡ returned v
      → enc_lookup_result codec v 1 ≡ ok text
      → resolver_resolve codec (resolver_exchange codec h) ref ≡ ok v
  unfolding resolver_resolve resolver_exchange valid_utf8 valid_loop lead equal
  resolver_resolve-resolver_exchange h ref v good inverse gives written =
      call-returned resolver_contract (enc_lookup_result codec) (decode_lookup_result codec) h ref v
        good refl refl gives written
        (decode_lookup_result-enc_lookup_result codec v 61 1 [] inverse written)
        (lookup_result-IsRaw codec v 61 1 inverse written)

  -- Resolve of the manifest service's client over its dispatcher, with no endpoint between them, returns
  -- the handler's result, with the manifest and the revision in it: where the reference and the revision
  -- are of valid texts, the manifest's codec reads back what it writes, and the handler returns a result
  -- that can be written.
  pub manifest_resolve-manifest_exchange :
      (h : Handler (WireManifest Q)) (ref : Ref) (v : WireManifest Q) {text : Bytes}
      → IsText ref
      → IsInverse codec 61
      → valid_utf8 v.resolved_revision ≡ true
      → h.resolve ref ≡ returned v
      → enc_manifest_result codec v 1 ≡ ok text
      → manifest_resolve codec (manifest_exchange codec h) ref ≡ ok v
  unfolding manifest_resolve manifest_exchange valid_utf8 valid_loop lead equal
  manifest_resolve-manifest_exchange h ref v good inverse revision gives written =
      call-returned manifest_contract (enc_manifest_result codec) (decode_manifest_result codec) h
        ref v good refl refl gives written
        (decode_manifest_result-enc_manifest_result codec v 61 1 [] inverse revision written)
        (manifest_result-IsRaw codec v 61 1 inverse revision written)

  -- A handler of the resolver that returns an error or panics: over its dispatcher the client returns a
  -- service error with the code and the message that the failure says, if the reference is of valid
  -- texts, the code is not empty, and both are valid texts. A service error says its own, with
  -- handler_error for an empty code, a dispatch error or a refusal says its word, a refusal that is
  -- panicked with says invalid_result, and any other error or panic only that the handler failed.
  pub resolver_resolve-failed :
      (h : Handler (WireLookup Q)) (ref : Ref) {code message : Bytes}
      → IsText ref
      → EndsWith (h.resolve ref) code message
      → code ≢ []
      → valid_utf8 code ≡ true
      → valid_utf8 message ≡ true
      → resolver_resolve codec (resolver_exchange codec h) ref ≡ err (service_error code message)
  unfolding resolver_resolve resolver_exchange valid_utf8 valid_loop lead equal
  resolver_resolve-failed h ref good ends some_code code message =
      let (e, fails, says) =
        invoke-EndsWith resolver_contract (enc_lookup_result codec) (decode_lookup_result codec)
          ends in
      call-failed resolver_contract (enc_lookup_result codec) (decode_lookup_result codec) h ref
        good refl refl fails says (some_code, code, message)
