-- ===== src/Endpoint/Exchange/Calls.antt =====
-- A client's call through the dispatcher: what comes back is what the handler made of the reference.
use mathlib.Core.Path.{subst, sym, ap, ◌∙◌}
use abstraction_model.Base.{
  >>=-assoc, >>=-ok, Bytes, Result, [], ap, codes, equal, equal_self, err, false, ok, refl, sym,
  true, ℕ, ◌++◌, ◌-◌, ◌>>=◌, ◌∙◌, ◌≡◌,
}
use abstraction_model.Endpoint.Exchange.{
  Handler, call, checked_result, dispatched, exchange_frame, invoke, or_invalid, request_frame,
  resolved_with, returned,
}
use abstraction_model.Endpoint.Describe.{endpoint_contract}
use abstraction_model.Codec.{Refusal, lead, valid_loop, valid_utf8}
use abstraction_model.Ref.{Ref}
use abstraction_model.Message.Envelope.{enc_frame}
use abstraction_model.Message.{decode_arguments, enc_arguments}
use abstraction_model.Message.RoundTrip.{IsText, decode_arguments-enc_arguments}
use abstraction_model.Message.Frames.{IsFrame, IsRaw, enc_arguments-IsRaw}
use abstraction_model.Endpoint.Replies.{
  Hears, IsCarried, Says, alone_in-ok, arguments-solid, failure, one-IsInt32, payload,
  service_payload-enc_frame, service_response-carried,
}
use abstraction_model.Endpoint.{
  Failure, alone_in, depth_limit, lift, service_error, service_reply, service_response,
}

module _ {R : Type 0} (contract : Bytes) (enc_result : R → ℕ → Result Refusal Bytes)
    (decode_result : ℕ → Bytes → Result Refusal (R × Bytes)) where
  resolved_with-enc_arguments :
      (h : Handler R) (ref : Ref)
      → IsText ref
      → resolved_with contract enc_result decode_result h (enc_arguments ref 1)
        ≡ invoke contract enc_result decode_result (h.resolve ref)
  unfolding resolved_with
  resolved_with-enc_arguments h ref good =
      let read : lift (alone_in (decode_arguments (depth_limit - 1)) (enc_arguments ref 1))
          ≡ ok ref =
        ap lift (
          alone_in-ok (decode_arguments 63) (enc_arguments ref 1) (arguments-solid ref)
            (decode_arguments-enc_arguments ref 61 1 [] good)) in
      >>=-ok _ read

  pub request-IsFrame :
      (ref : Ref)
      → IsText ref
      → valid_utf8 contract ≡ true
      → IsFrame 63 (request_frame contract ref)
  unfolding valid_utf8 valid_loop lead
  request-IsFrame ref good named = (one-IsInt32, named, refl, enc_arguments-IsRaw ref 61 1 good)

  exchange_frame-request :
      (h : Handler R) (ref : Ref)
      → IsText ref
      → valid_utf8 contract ≡ true
      → equal contract endpoint_contract ≡ false
      → exchange_frame contract enc_result decode_result h
          (enc_frame (request_frame contract ref) 0)
        ≡ service_reply
            (request_frame contract ref)
            (invoke contract enc_result decode_result (h.resolve ref))
  unfolding exchange_frame dispatched equal
  exchange_frame-request h ref good named other =
      >>=-ok _ (
        service_payload-enc_frame (request_frame contract ref) (request-IsFrame ref good named)
          refl)
      ∙ rw (other, equal_self contract)
          (ap (service_reply (request_frame contract ref)) (resolved_with-enc_arguments h ref good))

  -- A call through the dispatcher: the client reads what the handler's answer says, and nothing of the
  -- frames in between is seen.
  pub call-exchange_frame :
      (h : Handler R) (ref : Ref) {seen : Result Failure Bytes}
      → IsText ref
      → valid_utf8 contract ≡ true
      → equal contract endpoint_contract ≡ false
      → Hears (invoke contract enc_result decode_result (h.resolve ref)) seen
      → IsCarried seen
      → call contract enc_result decode_result
          (exchange_frame contract enc_result decode_result h)
          ref
        ≡ (seen >>= (λ payload. lift (alone_in (decode_result 63) payload)))
  unfolding call valid_utf8 valid_loop lead
  call-exchange_frame h ref good named other hears carried =
      let v = request_frame contract ref in
      let answer = invoke contract enc_result decode_result (h.resolve ref) in
      let final = (λ (payload : Bytes). lift (alone_in (decode_result 63) payload)) in
      >>=-ok _ (service_payload-enc_frame v (request-IsFrame ref good named) refl)
      ∙ ap (λ t. t >>= (λ frame. service_response frame contract (codes "Resolve") >>= final))
          (exchange_frame-request h ref good named other)
      ∙ sym (
          >>=-assoc (service_reply v answer)
            (λ frame. service_response frame contract (codes "Resolve")) final)
      ∙ ap (λ t. t >>= final) (service_response-carried v named refl hears carried)

  -- A handler that returns a result which its writer and reader agree on.
  pub call-returned :
      (h : Handler R) (ref : Ref) (r : R) {text : Bytes}
      → IsText ref
      → valid_utf8 contract ≡ true
      → equal contract endpoint_contract ≡ false
      → h.resolve ref ≡ returned r
      → enc_result r 1 ≡ ok text
      → decode_result 63 (text ++ []) ≡ ok (r, [])
      → IsRaw 63 text
      → call contract enc_result decode_result
          (exchange_frame contract enc_result decode_result h)
          ref
        ≡ ok r
  unfolding invoke checked_result
  call-returned h ref r {text} good named other gives written read raw =
      let whole : alone_in (decode_result 63) text ≡ ok r =
        alone_in-ok (decode_result 63) text (raw []).1 read in
      let answer : invoke contract enc_result decode_result (h.resolve ref) ≡ ok text =
        ap (invoke contract enc_result decode_result) gives
        ∙ >>=-ok _ (ap or_invalid written)
        ∙ >>=-ok _ (ap or_invalid whole) in
      call-exchange_frame h ref good named other
        (subst (λ t. Hears t (ok text)) (sym answer) (payload text)) raw
      ∙ ap lift whole

  -- A handler that gives no result: what its failure says is what the client hears.
  pub call-failed :
      (h : Handler R) (ref : Ref) {e : Failure} {code message : Bytes}
      → IsText ref
      → valid_utf8 contract ≡ true
      → equal contract endpoint_contract ≡ false
      → invoke contract enc_result decode_result (h.resolve ref) ≡ err e
      → Says e code message
      → IsCarried (err (service_error code message))
      → call contract enc_result decode_result
          (exchange_frame contract enc_result decode_result h)
          ref
        ≡ err (service_error code message)
  call-failed h ref {e} {code} {message} good named other fails says carried =
      call-exchange_frame h ref good named other
        (subst (λ t. Hears t (err (service_error code message))) (sym fails) (failure says)) carried
