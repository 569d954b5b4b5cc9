-- ===== src/Endpoint/Examples.antt =====
-- Calls through dispatchers and endpoints at concrete values.
use abstraction_model.Number.{less}
use mathlib.Core.List.{Perm, Permᴰ}
use abstraction_model.Endpoint.Sorted.{IsSorted, sorted_keys-IsSorted}
use abstraction_model.Base.{
  Bool, Bytes, List, [], arith, codes, equal, err, false, none, ok, refl, some, true, ◌++◌, ◌>>=◌,
  ◌∷◌, ◌≡◌,
}
use abstraction_model.Codec.{lead, valid_loop, valid_utf8}
use abstraction_model.Vocabulary.{lookup_name, manifest_name}
use abstraction_model.Message.Envelope.{ServiceFrame, enc_frame}
use abstraction_model.Message.Frames.{enc_arguments-IsRaw}
use abstraction_model.Message.Results.{
  WireLookup, WireManifest, enc_imported, enc_lookup, enc_lookup_result, enc_manifest,
  enc_manifest_result,
}
use abstraction_model.Message.Examples.{
  found_lookup, small_ref, small_ref-IsText, word_codec, word_codec-IsInverse,
}
use abstraction_model.Endpoint.Replies.{
  coded, failure, service_payload-enc_frame, service_response-service_reply,
}
use abstraction_model.Endpoint.{
  Failure, service_error, service_payload, service_reply, service_response,
}
use abstraction_model.Endpoint.Describe.{Served, exchanged, keys_of, serve_endpoint, sorted_keys}
use abstraction_model.Endpoint.Routing.{
  resolver_resolve-serve_endpoint, resolver_resolve-unhosted, serve_endpoint-first,
}
use abstraction_model.Endpoint.Exchange.{
  Handler, failed, manifest_exchange, manifest_resolve, request_frame, resolver_contract,
  resolver_describe, resolver_exchange, resolver_resolve, returned,
}
use abstraction_model.Endpoint.Exchange.Services.{
  manifest_resolve-manifest_exchange, resolver_resolve-failed, with_error,
}

abbrev finds : Handler (WireLookup Bool)
finds = record { resolve = λ ref. returned found_lookup; says_ready = none; metadata = none }

abbrev busy_error : Failure
busy_error = service_error (codes "busy") (codes "try again")

abbrev fails : Handler (WireLookup Bool)
fails = record { resolve = λ ref. failed busy_error; says_ready = none; metadata = none }

abbrev found_manifest : WireManifest Bool
found_manifest = record { outcome = 1; manifest = some true; resolved_revision = codes "r" }

abbrev lists : Handler (WireManifest Bool)
lists = record { resolve = λ ref. returned found_manifest; says_ready = none; metadata = none }

manifest_resolve-manifest_exchange_example :
    manifest_resolve word_codec (manifest_exchange word_codec lists) small_ref ≡ ok found_manifest
unfolding enc_manifest_result enc_manifest enc_imported manifest_name valid_utf8 valid_loop lead
manifest_resolve-manifest_exchange_example =
    manifest_resolve-manifest_exchange word_codec lists small_ref found_manifest small_ref-IsText
      word_codec-IsInverse refl refl refl

resolver_resolve-failed_example :
    resolver_resolve word_codec (resolver_exchange word_codec fails) small_ref
    ≡ err (service_error (codes "busy") (codes "try again"))
unfolding valid_utf8 valid_loop lead
resolver_resolve-failed_example =
    resolver_resolve-failed word_codec fails small_ref small_ref-IsText
      (with_error (coded (codes "busy") (codes "try again") (λ n. absurd (ground (arith, n)))))
      (λ n. absurd (ground (arith, n))) refl refl

abbrev other_service : Served
other_service = record {
  service_contract = codes "other";
  describes = record {
    contract = codes "other";
    ready = false;
    why = [];
    guarantees = [];
    capabilities = [];
  };
  exchange = none;
}

abbrev resolver_service : Served
resolver_service = record {
  service_contract = resolver_contract;
  describes = resolver_describe word_codec finds;
  exchange = some (resolver_exchange word_codec finds);
}

resolver_resolve-serve_endpoint_example :
    resolver_resolve word_codec
      (λ frame.
        serve_endpoint frame
          (codes "p")
          (codes "1")
          ((other_service ∷ []) ++ resolver_service ∷ []))
      small_ref
    ≡ ok found_lookup
unfolding enc_lookup_result enc_lookup enc_imported lookup_name equal
resolver_resolve-serve_endpoint_example =
    resolver_resolve-serve_endpoint word_codec finds small_ref found_lookup (codes "p") (codes "1")
      (other_service ∷ []) [] resolver_service small_ref-IsText word_codec-IsInverse refl refl
      (refl, tt) refl refl

resolver_resolve-unhosted_example :
    resolver_resolve word_codec
      (λ frame. serve_endpoint frame (codes "p") (codes "1") (other_service ∷ []))
      small_ref
    ≡ err (service_error (codes "unknown_service") [])
unfolding equal
resolver_resolve-unhosted_example =
    resolver_resolve-unhosted word_codec (codes "p") (codes "1") (other_service ∷ []) small_ref
      small_ref-IsText (refl, tt)

abbrev asked : ServiceFrame
asked = request_frame resolver_contract small_ref

asked_frame : service_payload (enc_frame asked 0) ≡ ok asked
unfolding less valid_utf8 valid_loop lead
asked_frame =
    service_payload-enc_frame asked
      ((omega arith, refl, refl), refl, refl, enc_arguments-IsRaw small_ref 61 1 small_ref-IsText)
      refl

serve_endpoint-first_example :
    serve_endpoint
      (enc_frame asked 0)
      (codes "p")
      (codes "1")
      ((other_service ∷ []) ++ resolver_service ∷ [])
    ≡ exchanged asked (enc_frame asked 0) resolver_service.exchange
unfolding equal
serve_endpoint-first_example =
    serve_endpoint-first (enc_frame asked 0) (codes "p") (codes "1") asked (other_service ∷ []) []
      resolver_service asked_frame refl (refl, tt) refl

service_response-service_reply_example :
    (service_reply asked (err busy_error)
      >>= (λ frame. service_response frame asked.service asked.method))
    ≡ err (service_error (codes "busy") (codes "try again"))
unfolding valid_utf8 valid_loop lead
service_response-service_reply_example =
    service_response-service_reply asked refl refl
      (failure (coded (codes "busy") (codes "try again") (λ n. absurd (ground (arith, n)))))
      ((λ n. absurd (ground (arith, n))), refl, refl)

abbrev capabilities : List (Bytes × Bytes)
capabilities = (codes "b", codes "1") ∷ (codes "a", codes "2") ∷ []

abbrev turned_capabilities : List (Bytes × Bytes)
turned_capabilities = (codes "a", codes "2") ∷ (codes "b", codes "1") ∷ []

sorted_keys-IsSorted_example :
    IsSorted (sorted_keys capabilities)
    × Perm (sorted_keys capabilities) (keys_of capabilities)
    × (sorted_keys capabilities ≡ sorted_keys turned_capabilities)
sorted_keys-IsSorted_example = sorted_keys-IsSorted (Permᴰ.swap refl refl)
