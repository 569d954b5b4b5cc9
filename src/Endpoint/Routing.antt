-- ===== src/Endpoint/Routing.antt =====
-- Which service of an endpoint answers a frame, and what a client hears of an endpoint that hosts its
-- service, or that does not.
use mathlib.Core.Path.{sym, ap, ◌∙◌}
use abstraction_model.Base.{
  >>=-assoc, >>=-ok, All, Bytes, List, Result, [], ap, arith, codes, equal, err, false, ok, refl,
  some, sym, true, ℕ, ◌++◌, ◌-◌, ◌>>=◌, ◌∙◌, ◌∷◌, ◌≡◌,
}
use abstraction_model.Codec.{Refusal, lead, valid_loop, valid_utf8}
use abstraction_model.Ref.{Ref}
use abstraction_model.Message.Envelope.{ServiceFrame, enc_frame}
use abstraction_model.Message.RoundTrip.{IsText}
use abstraction_model.Message.Results.{
  Imported, WireLookup, decode_lookup_result, enc_lookup_result,
}
use abstraction_model.Message.Results.RoundTrip.{IsInverse}
use abstraction_model.Endpoint.Replies.{
  failure, service_payload-enc_frame, service_response-carried, worded,
}
use abstraction_model.Endpoint.{
  Failure, alone_in, depth_limit, dispatch_error, lift, service_error, service_payload,
  service_reply, service_response,
}
use abstraction_model.Endpoint.Describe.{
  Served, answer_frame, endpoint_contract, exchanged, routed, serve_endpoint,
}
use abstraction_model.Endpoint.Exchange.{
  Handler, call, request_frame, resolver_contract, resolver_exchange, resolver_resolve, returned,
}
use abstraction_model.Endpoint.Exchange.Calls.{request-IsFrame}
use abstraction_model.Endpoint.Exchange.Services.{resolver_resolve-resolver_exchange}

-- None of the services has the name.
abbrev pub NoneNamed : Bytes → List Served → Type 0
NoneNamed name = All (λ s. equal s.service_contract name ≡ false)

routed-first :
    (v : ServiceFrame) (frame : Bytes) (before after : List Served) (s : Served)
    → NoneNamed v.service before
    → equal s.service_contract v.service ≡ true
    → routed v frame (before ++ s ∷ after) ≡ exchanged v frame s.exchange
unfolding routed
routed-first v frame [] after s others named = rw named refl
routed-first v frame (t ∷ before) after s (other, others) named =
    rw other (routed-first v frame before after s others named)

routed-none :
    (v : ServiceFrame) (frame : Bytes) (services : List Served)
    → NoneNamed v.service services
    → routed v frame services ≡ service_reply v (err (dispatch_error (codes "unknown_service")))
unfolding routed
routed-none v frame [] others = refl
routed-none v frame (t ∷ services) (other, others) = rw other (routed-none v frame services others)

-- A frame that is not for the endpoint itself goes to the first service that has the name in it; where
-- that service takes one-way frames only, the answer is wrong_mode.
pub serve_endpoint-first :
    (frame program version : Bytes) (v : ServiceFrame) (before after : List Served) (s : Served)
    → service_payload frame ≡ ok v
    → equal v.service endpoint_contract ≡ false
    → NoneNamed v.service before
    → equal s.service_contract v.service ≡ true
    → serve_endpoint frame program version (before ++ s ∷ after) ≡ exchanged v frame s.exchange
unfolding serve_endpoint answer_frame
serve_endpoint-first frame program version v before after s read other others named =
    >>=-ok _ read ∙ rw other (routed-first v frame before after s others named)

module _ {R : Type 0} (contract : Bytes) (enc_result : R → ℕ → Result Refusal Bytes)
    (decode_result : ℕ → Bytes → Result Refusal (R × Bytes)) where
  -- A call depends on what its transport does with the one frame that it sends.
  call-transport :
      (here there : Bytes → Result Failure Bytes) (ref : Ref)
      → here (enc_frame (request_frame contract ref) 0)
        ≡ there (enc_frame (request_frame contract ref) 0)
      → call contract enc_result decode_result here ref
        ≡ call contract enc_result decode_result there ref
  unfolding call
  call-transport here there ref same =
      ap
        (λ (answer : Result Failure Bytes).
          service_payload (enc_frame (request_frame contract ref) 0) >>= (λ sent.
            answer >>= (λ response.
              service_response response contract (codes "Resolve")
              >>= (λ payload. lift (alone_in (decode_result (depth_limit - 1)) payload)))))
        same

  -- A client whose service is not hosted hears unknown_service.
  call-unhosted :
      (program version : Bytes) (services : List Served) (ref : Ref)
      → IsText ref
      → valid_utf8 contract ≡ true
      → equal contract endpoint_contract ≡ false
      → NoneNamed contract services
      → call contract enc_result decode_result
          (λ frame. serve_endpoint frame program version services)
          ref
        ≡ err (service_error (codes "unknown_service") [])
  unfolding call serve_endpoint answer_frame valid_utf8 valid_loop lead
  call-unhosted program version services ref good named other others =
      let v = request_frame contract ref in
      let frame = enc_frame v 0 in
      let answer : Result Failure Bytes = err (dispatch_error (codes "unknown_service")) in
      let final = (λ (payload : Bytes). lift (alone_in (decode_result 63) payload)) in
      let read : service_payload frame ≡ ok v =
        service_payload-enc_frame v
          (request-IsFrame contract enc_result decode_result ref good named) refl in
      let served : serve_endpoint frame program version services ≡ service_reply v answer =
        >>=-ok _ read ∙ rw other (routed-none v frame services others) in
      >>=-ok _ read
      ∙ ap (λ t. t >>= (λ frame. service_response frame contract (codes "Resolve") >>= final))
          served
      ∙ sym (
          >>=-assoc (service_reply v answer)
            (λ frame. service_response frame contract (codes "Resolve")) final)
      ∙ ap (λ t. t >>= final)
          (service_response-carried v named refl (failure (worded (codes "unknown_service")))
            ((λ n. absurd (ground (arith, n))), refl, refl))

module _ {Q : Type 0} (codec : Imported Q) where
  -- Over an endpoint that hosts the resolver's dispatcher behind services of other names, the client
  -- returns what the handler returns, as it does over the dispatcher alone: where the reference is of
  -- valid texts, the request's codec reads back what it writes, and the result can be written.
  pub resolver_resolve-serve_endpoint :
      (h : Handler (WireLookup Q)) (ref : Ref) (r : WireLookup Q) {text : Bytes}
      (program version : Bytes) (before after : List Served) (s : Served)
      → IsText ref
      → IsInverse codec 61
      → h.resolve ref ≡ returned r
      → enc_lookup_result codec r 1 ≡ ok text
      → NoneNamed resolver_contract before
      → equal s.service_contract resolver_contract ≡ true
      → s.exchange ≡ some (resolver_exchange codec h)
      → resolver_resolve codec
          (λ frame. serve_endpoint frame program version (before ++ s ∷ after))
          ref
        ≡ ok r
  unfolding resolver_resolve valid_utf8 valid_loop lead equal
  resolver_resolve-serve_endpoint h ref r program version before after s good inverse gives written
        others named exchanges =
      let v = request_frame resolver_contract ref in
      let read : service_payload (enc_frame v 0) ≡ ok v =
        service_payload-enc_frame v
          (request-IsFrame resolver_contract (enc_lookup_result codec) (decode_lookup_result codec)
            ref good refl)
          refl in
      call-transport resolver_contract (enc_lookup_result codec) (decode_lookup_result codec)
        (λ frame. serve_endpoint frame program version (before ++ s ∷ after))
        (resolver_exchange codec h) ref
        (serve_endpoint-first (enc_frame v 0) program version v before after s read refl others
            named
          ∙ ap (exchanged v (enc_frame v 0)) exchanges)
      ∙ resolver_resolve-resolver_exchange codec h ref r good inverse gives written

  -- Over an endpoint that hosts no service of that name, the client's error for a reference of valid
  -- texts is unknown_service.
  pub resolver_resolve-unhosted :
      (program version : Bytes) (services : List Served) (ref : Ref)
      → IsText ref
      → NoneNamed resolver_contract services
      → resolver_resolve codec (λ frame. serve_endpoint frame program version services) ref
        ≡ err (service_error (codes "unknown_service") [])
  unfolding resolver_resolve valid_utf8 valid_loop lead equal
  resolver_resolve-unhosted program version services ref good others =
      call-unhosted resolver_contract (enc_lookup_result codec) (decode_lookup_result codec) program
        version services ref good refl refl others
