-- ===== src/Endpoint/Exchange.antt =====
-- go/abstraction/model/api/rec.go: the client and the dispatcher of the two services, ModelResolver
-- and ModelManifest.
pub mod Calls
pub mod Services
use abstraction_model.Base.{
  Bool, Bytes, List, Option, Result, [], codes, equal, err, false, if◌then◌else◌, none, not, ok,
  pos, some, true, ℕ, ◌-◌, ◌>>=◌, ◌∷◌,
}
use abstraction_model.Codec.{Refusal}
use abstraction_model.Ref.{Ref}
use abstraction_model.Message.Envelope.{ServiceFrame, enc_frame}
use abstraction_model.Message.{decode_arguments, enc_arguments}
use abstraction_model.Message.Results.{
  Imported, WireLookup, WireManifest, decode_lookup_result, decode_manifest_result,
  enc_lookup_result, enc_manifest_result,
}
use abstraction_model.Endpoint.{
  Failure, alone_in, depth_limit, dispatch_error, lift, service_error, service_payload,
  service_reply, service_response,
}
use abstraction_model.Endpoint.Describe.{Described, describe_endpoint, endpoint_contract}

-- What a handler does with a reference: it returns, or it panics, with a refusal or with another value.
pub data Handled (R : Type 0) : Type 0 where
  returned : R → Handled R
  failed : Failure → Handled R
  panicked_refusal : Refusal → Handled R
  panicked : Handled R

-- A handler, and what it says of itself where it implements Ready and DescribeMetadata.
pub record Handler (R : Type 0) : Type 0 where
  pub resolve : Ref → Handled R
  pub says_ready : Option (Bool × Bytes)
  pub metadata : Option (List Bytes × List (Bytes × Bytes))

abbrev pub ready_of : Option (Bool × Bytes) → Bool × Bytes
ready_of none = (true, [])
ready_of (some (true, why)) = (true, [])
ready_of (some (false, why)) = (false, why)

abbrev pub metadata_of :
    Option (List Bytes × List (Bytes × Bytes)) → List Bytes × List (Bytes × Bytes)
metadata_of none = ([], [])
metadata_of (some facts) = facts

abbrev pub invalid_result : Failure
invalid_result = service_error (codes "invalid_result") []

abbrev pub or_invalid : {A : Type 0} → Result Refusal A → Result Failure A
or_invalid (ok a) = ok a
or_invalid (err e) = err invalid_result

-- The service's name.
module _ (contract : Bytes) where
  -- DescribeService and DescribeServiceMetadata.
  unfoldable pub describe : {R : Type 0} → Handler R → Described
  describe h =
      let (ready, why) = ready_of h.says_ready in
      let (guarantees, capabilities) = metadata_of h.metadata in
      record {
        contract = contract;
        ready = ready;
        why = why;
        guarantees = guarantees;
        capabilities = capabilities;
      }

  -- WriteFrame: the one method of either service answers, so it takes no one-way frame.
  unfoldable pub refuse_frame : ServiceFrame → Result Failure (Unit {0})
  refuse_frame v =
      if not (equal v.service contract)
      then err (dispatch_error (codes "unknown_service"))
      else if equal v.method (codes "Resolve")
      then err (dispatch_error (codes "wrong_mode"))
      else err (dispatch_error (codes "unknown_method"))

  unfoldable pub write_frame : Bytes → Result Failure (Unit {0})
  write_frame frame = service_payload frame >>= refuse_frame

  abbrev pub request_frame : Ref → ServiceFrame
  request_frame ref = record {
    version = pos 1;
    service = contract;
    method = codes "Resolve";
    arguments = enc_arguments ref 1;
  }

-- The service's name, and the writer and the reader of its results.
module _ {R : Type 0} (contract : Bytes) (enc_result : R → ℕ → Result Refusal Bytes)
    (decode_result : ℕ → Bytes → Result Refusal (R × Bytes)) where
  -- The result as it goes on the wire, once its own reader has read it.
  unfoldable pub checked_result : R → Result Failure Bytes
  checked_result result = do
    payload ← or_invalid (enc_result result 1)
    read ← or_invalid (alone_in (decode_result (depth_limit - 1)) payload)
    ok payload

  -- invokeResolve.
  unfoldable pub invoke : Handled R → Result Failure Bytes
  invoke (returned result) = checked_result result
  invoke (failed e) = err e
  invoke (panicked_refusal r) = err invalid_result
  invoke panicked = err (service_error (codes "handler_error") (codes "handler failed"))

  -- The answer to Resolve: the arguments are read, and the handler is called.
  unfoldable pub resolved_with : Handler R → Bytes → Result Failure Bytes
  resolved_with h arguments = do
    ref ← lift (alone_in (decode_arguments (depth_limit - 1)) arguments)
    invoke (h.resolve ref)

  unfoldable pub dispatched : Handler R → Bytes → ServiceFrame → Result Failure Bytes
  dispatched h frame v =
      if equal v.service endpoint_contract
      then describe_endpoint frame [] [] (describe contract h ∷ [])
      else if not (equal v.service contract)
      then service_reply v (err (dispatch_error (codes "unknown_service")))
      else if equal v.method (codes "Resolve")
      then service_reply v (resolved_with h v.arguments)
      else service_reply v (err (dispatch_error (codes "unknown_method")))

  -- ExchangeFrame.
  unfoldable pub exchange_frame : Handler R → Bytes → Result Failure Bytes
  exchange_frame h frame = service_payload frame >>= dispatched h frame

  -- Resolve of a client, over a transport.
  unfoldable pub call : (Bytes → Result Failure Bytes) → Ref → Result Failure R
  call transport ref = do
    sent ← service_payload (enc_frame (request_frame contract ref) 0)
    response ← transport (enc_frame (request_frame contract ref) 0)
    payload ← service_response response contract (codes "Resolve")
    lift (alone_in (decode_result (depth_limit - 1)) payload)

abbrev pub resolver_contract : Bytes
resolver_contract = codes "abstraction.model/resolver@1"

abbrev pub manifest_contract : Bytes
manifest_contract = codes "abstraction.model/manifest@1"

unfoldable pub resolver_write : Bytes → Result Failure (Unit {0})
resolver_write = write_frame resolver_contract

unfoldable pub manifest_write : Bytes → Result Failure (Unit {0})
manifest_write = write_frame manifest_contract

module _ {Q : Type 0} (codec : Imported Q) where
  -- ModelResolverClient and ModelResolverDispatcher.
  unfoldable pub resolver_resolve :
      (Bytes → Result Failure Bytes) → Ref → Result Failure (WireLookup Q)
  resolver_resolve = call resolver_contract (enc_lookup_result codec) (decode_lookup_result codec)

  unfoldable pub resolver_describe : Handler (WireLookup Q) → Described
  resolver_describe = describe resolver_contract

  unfoldable pub resolver_exchange : Handler (WireLookup Q) → Bytes → Result Failure Bytes
  resolver_exchange =
      exchange_frame resolver_contract (enc_lookup_result codec) (decode_lookup_result codec)

  -- ModelManifestClient and ModelManifestDispatcher.
  unfoldable pub manifest_resolve :
      (Bytes → Result Failure Bytes) → Ref → Result Failure (WireManifest Q)
  manifest_resolve =
      call manifest_contract (enc_manifest_result codec) (decode_manifest_result codec)

  unfoldable pub manifest_describe : Handler (WireManifest Q) → Described
  manifest_describe = describe manifest_contract

  unfoldable pub manifest_exchange : Handler (WireManifest Q) → Bytes → Result Failure Bytes
  manifest_exchange =
      exchange_frame manifest_contract (enc_manifest_result codec) (decode_manifest_result codec)
