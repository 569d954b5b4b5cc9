-- ===== src/Endpoint.antt =====
-- go/abstraction/model/api/rec.go: the frames of the two services. A client sends one frame to a
-- transport, and a dispatcher answers it with its handler. The service's name and the codec of its
-- result are parameters, since the generated client and dispatcher of the two services are the same
-- code but for these.
pub mod Describe
pub mod Order
pub mod Sorted
mod Examples
pub mod Routing
pub mod Replies
pub mod Exchange
use abstraction_model.Base.{
  Bool, Bytes, Result, [], codes, equal, err, false, if◌then◌else◌, negsuc, not, ok, pos, true, ℕ,
  ℤ, ◌-◌, ◌==◌, ◌>>=◌, ◌||◌, ◌∷◌,
}
use abstraction_model.Codec.{Refusal, refuse, skip_white}
use abstraction_model.Ref.{Ref}
use abstraction_model.Message.Envelope.{
  ErrorBody, ServiceFrame, ServiceReply, decode_error, decode_frame, decode_reply, enc_error,
  enc_reply,
}
use abstraction_model.Message.{decode_ref}

-- An error, as serviceReply tells them apart.
pub data Failure : Type 0 where
  service_error : Bytes → Bytes → Failure
  dispatch_error : Bytes → Failure
  refusal : Refusal → Failure
  other_error : Failure

abbrev pub lift : {A : Type 0} → Result Refusal A → Result Failure A
lift (ok a) = ok a
lift (err e) = err (refusal e)

-- depthLimit.
abbrev pub depth_limit : ℕ
depth_limit = 64

abbrev pub nothing_left : {A : Type 0} → A → Bytes → Result Refusal A
nothing_left v [] = ok v
nothing_left v (c ∷ s) = refuse "trailing_bytes" (c ∷ s)

-- A value with white space around it at most.
abbrev pub alone_in : {A : Type 0} → (Bytes → Result Refusal (A × Bytes)) → Bytes → Result Refusal A
alone_in read s = do (v, rest) ← read (skip_white s); nothing_left v (skip_white rest)

-- Decode.
unfoldable pub decode : Bytes → Result Refusal Ref
decode s = alone_in (decode_ref depth_limit) s

abbrev pub is_one : ℤ → Bool
is_one (pos n) = n == 1
is_one (negsuc n) = false

unfoldable pub service_payload : Bytes → Result Failure ServiceFrame
service_payload frame = do
  v ← lift (alone_in (decode_frame depth_limit) frame)
  if is_one v.version then ok v else err (dispatch_error (codes "unknown_version"))

unfoldable pub service_name : Bytes → Result Failure Bytes
service_name frame = do v ← service_payload frame; ok v.service

-- The reply's error channel.
unfoldable pub error_of : ErrorBody → Result Failure Bytes
error_of e =
    if equal e.code []
    then err (dispatch_error (codes "invalid_error"))
    else err (service_error e.code e.message)

-- What serviceResponse makes of a reply that was read.
unfoldable pub payload_of : Bytes → Bytes → ServiceReply → Result Failure Bytes
payload_of service method v =
    if not (is_one v.version)
    then err (dispatch_error (codes "unknown_version"))
    else if not (equal v.service service) || not (equal v.method method)
    then err (dispatch_error (codes "mismatched_response"))
    else if not v.okay
    then lift (alone_in (decode_error (depth_limit - 1)) v.payload) >>= error_of
    else ok v.payload

unfoldable pub service_response : Bytes → Bytes → Bytes → Result Failure Bytes
service_response frame service method =
    lift (alone_in (decode_reply depth_limit) frame) >>= payload_of service method

-- What an error says on the wire.
unfoldable pub error_body : Failure → ErrorBody
error_body (service_error code message) = record {
  code = if equal code [] then codes "handler_error" else code;
  message = message;
}
error_body (dispatch_error word) = record { code = word; message = [] }
error_body (refusal r) = record { code = r.word; message = [] }
error_body other_error = record { code = codes "handler_error"; message = codes "handler failed" }

abbrev pub reply_of : ServiceFrame → Result Failure Bytes → ServiceReply
reply_of v (ok payload) = record {
  version = pos 1;
  service = v.service;
  method = v.method;
  okay = true;
  payload = payload;
}
reply_of v (err e) = record {
  version = pos 1;
  service = v.service;
  method = v.method;
  okay = false;
  payload = enc_error (error_body e) 1;
}

-- A reply that its own reader refuses is not sent.
unfoldable pub service_reply : ServiceFrame → Result Failure Bytes → Result Failure Bytes
service_reply v answer =
    let frame = enc_reply (reply_of v answer) 0 in
    lift (decode_reply depth_limit (skip_white frame)) >>= (λ found. ok frame)
