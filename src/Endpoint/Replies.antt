-- ===== src/Endpoint/Replies.antt =====
-- A frame and the reply to it: what serviceReply sends is what serviceResponse hears.
use mathlib.Core.Path.{sym, ap, subst, ◌∙◌}
use abstraction_model.Base.{
  >>=-ok, Bytes, Result, [], ap, append-nil, arith, codes, equal, equal_self, err, ok, pos, refl,
  sym, true, ◌++◌, ◌-◌, ◌>>=◌, ◌∙◌, ◌∷◌, ◌≡◌, ◌≢◌,
}
use abstraction_model.Codec.{Refusal, skip_white, valid_utf8}
use abstraction_model.Record.{object}
use abstraction_model.Number.{less}
use abstraction_model.Ref.{Ref}
use abstraction_model.Message.Envelope.{
  ErrorBody, ServiceFrame, ServiceReply, decode_error, decode_frame, decode_reply, enc_error,
  enc_frame, enc_reply,
}
use abstraction_model.Message.Json.{Json, Json-IsRaw}
use abstraction_model.Message.{enc_arguments}
use abstraction_model.Message.RoundTrip.{decode_error-enc_error}
use abstraction_model.Message.Frames.{
  IsFrame, IsInt32, IsRaw, IsReply, decode_frame-enc_frame, decode_reply-enc_reply, enc_error-IsRaw,
}
use abstraction_model.Endpoint.{
  Failure, alone_in, depth_limit, dispatch_error, error_body, error_of, is_one, lift, other_error,
  payload_of, refusal, reply_of, service_error, service_payload, service_reply, service_response,
}

pub alone_in-ok :
    {A : Type 0} (read : Bytes → Result Refusal (A × Bytes)) (text : Bytes) {v : A}
    → skip_white (text ++ []) ≡ text ++ []
    → read (text ++ []) ≡ ok (v, [])
    → alone_in read text ≡ ok v
unfolding skip_white
alone_in-ok read text {v} solid same =
    let whole : skip_white text ≡ text ++ [] = ap skip_white (sym (append-nil text)) ∙ solid in
    let found : read (skip_white text) ≡ ok (v, []) = ap read whole ∙ same in >>=-ok _ found

frame-solid : (v : ServiceFrame) → skip_white (enc_frame v 0 ++ []) ≡ enc_frame v 0 ++ []
unfolding enc_frame object skip_white
frame-solid v = refl

reply-solid : (v : ServiceReply) → skip_white (enc_reply v 0 ++ []) ≡ enc_reply v 0 ++ []
unfolding enc_reply object skip_white
reply-solid v = refl

error-solid : (v : ErrorBody) → skip_white (enc_error v 1 ++ []) ≡ enc_error v 1 ++ []
unfolding enc_error object skip_white
error-solid v = refl

pub arguments-solid : (v : Ref) → skip_white (enc_arguments v 1 ++ []) ≡ enc_arguments v 1 ++ []
unfolding enc_arguments object skip_white
arguments-solid v = refl

pub one-IsInt32 : IsInt32 (pos 1)
unfolding less
one-IsInt32 = (omega arith, refl, refl)

-- A frame that was written is read whole, and its version is checked.
pub service_payload-enc_frame :
    (v : ServiceFrame)
    → IsFrame 63 v
    → is_one v.version ≡ true
    → service_payload (enc_frame v 0) ≡ ok v
unfolding service_payload
service_payload-enc_frame v good version =
    let read : lift (alone_in (decode_frame depth_limit) (enc_frame v 0)) ≡ ok v = ap lift (
      alone_in-ok (decode_frame depth_limit) (enc_frame v 0) (frame-solid v)
        (decode_frame-enc_frame v 63 0 [] good)) in
    >>=-ok _ read ∙ rw version refl

service_reply-ok :
    (v : ServiceFrame) (answer : Result Failure Bytes)
    → IsReply 63 (reply_of v answer)
    → service_reply v answer ≡ ok (enc_reply (reply_of v answer) 0)
unfolding service_reply
service_reply-ok v answer good =
    let reply = reply_of v answer in
    let read : lift (decode_reply depth_limit (skip_white (enc_reply reply 0))) ≡ ok (reply, []) =
      ap lift (
        ap (λ t. decode_reply depth_limit (skip_white t)) (sym (append-nil (enc_reply reply 0)))
        ∙ ap (decode_reply depth_limit) (reply-solid reply)
        ∙ decode_reply-enc_reply reply 63 0 [] good) in
    >>=-ok _ read

read_reply :
    (v : ServiceReply)
    → IsReply 63 v
    → lift (alone_in (decode_reply depth_limit) (enc_reply v 0)) ≡ ok v
read_reply v good = ap lift (
    alone_in-ok (decode_reply depth_limit) (enc_reply v 0) (reply-solid v)
      (decode_reply-enc_reply v 63 0 [] good))

-- What an error says on the wire: the code and the message of a service error, `handler_error` for one
-- that has no code, the word of a dispatch error or of a refusal with no message, and of any other error
-- nothing but that the handler failed.
pub data Says : Failure → Bytes → Bytes → Type 0 where
  coded : (code message : Bytes) → code ≢ [] → Says (service_error code message) code message
  uncoded : (message : Bytes) → Says (service_error [] message) (codes "handler_error") message
  worded : (word : Bytes) → Says (dispatch_error word) word []
  refused : (r : Refusal) → Says (refusal r) r.word []
  hidden : Says other_error (codes "handler_error") (codes "handler failed")

pub error_body-Says :
    {e : Failure} {code message : Bytes}
    → Says e code message
    → error_body e ≡ record { code = code; message = message }
unfolding error_body equal
error_body-Says (coded [] message n) = absurd (n refl)
error_body-Says (coded (c ∷ code) message n) = refl
error_body-Says (uncoded message) = refl
error_body-Says (worded word) = refl
error_body-Says (refused r) = refl
error_body-Says hidden = refl

-- What a client is to read of the answer to its frame: the payload, or a service error that says what
-- the answer's error says.
pub data Hears : Result Failure Bytes → Result Failure Bytes → Type 0 where
  payload : (text : Bytes) → Hears (ok text) (ok text)
  failure :
      {e : Failure} {code message : Bytes}
      → Says e code message
      → Hears (err e) (err (service_error code message))

-- What a reply can carry: a payload that the reader takes for one opaque value, or an error that has a
-- code, of valid texts.
abbrev pub IsCarried : Result Failure Bytes → Type 0
IsCarried (ok text) = IsRaw 63 text
IsCarried (err (service_error code message)) =
    (code ≢ []) × (valid_utf8 code ≡ true) × (valid_utf8 message ≡ true)
IsCarried (err e) = ⊥

error_body-IsRaw :
    {e : Failure} {code message : Bytes}
    → Says e code message
    → valid_utf8 code ≡ true
    → valid_utf8 message ≡ true
    → IsRaw 63 (enc_error (error_body e) 1)
error_body-IsRaw {e} {code} {message} says good good' =
    subst (λ (b : ErrorBody). IsRaw 63 (enc_error b 1)) (sym (error_body-Says says))
      (enc_error-IsRaw (record { code = code; message = message }) 62 1 good good')

IsReply-reply_of :
    (v : ServiceFrame) {answer seen : Result Failure Bytes}
    → valid_utf8 v.service ≡ true
    → valid_utf8 v.method ≡ true
    → Hears answer seen
    → IsCarried seen
    → IsReply 63 (reply_of v answer)
IsReply-reply_of v service method (payload text) good = (one-IsInt32, service, method, good)
IsReply-reply_of v service method (failure says) (some_code, code, message) =
    (one-IsInt32, service, method, error_body-IsRaw says code message)

error_of-coded :
    (code message : Bytes)
    → code ≢ []
    → error_of (record { code = code; message = message }) ≡ err (service_error code message)
unfolding error_of equal
error_of-coded [] message n = absurd (n refl)
error_of-coded (c ∷ code) message n = refl

payload_of-reply_of :
    (v : ServiceFrame) {answer seen : Result Failure Bytes}
    → Hears answer seen
    → IsCarried seen
    → payload_of v.service v.method (reply_of v answer) ≡ seen
unfolding payload_of
payload_of-reply_of v (payload text) good = rw (equal_self v.service, equal_self v.method) refl
payload_of-reply_of v (failure {e} {code} {message} says) (some_code, good, good') =
    let body : ErrorBody = record { code = code; message = message } in
    let read : lift (alone_in (decode_error (depth_limit - 1)) (enc_error body 1)) ≡ ok body =
      ap lift (
        alone_in-ok (decode_error 63) (enc_error body 1) (error-solid body)
          (decode_error-enc_error body 62 1 [] good good')) in
    rw (equal_self v.service, equal_self v.method, error_body-Says says)
      (>>=-ok _ read ∙ error_of-coded code message some_code)

pub service_response-carried :
    (v : ServiceFrame) {answer seen : Result Failure Bytes}
    → valid_utf8 v.service ≡ true
    → valid_utf8 v.method ≡ true
    → Hears answer seen
    → IsCarried seen
    → (service_reply v answer >>= (λ frame. service_response frame v.service v.method)) ≡ seen
unfolding service_response
service_response-carried v {answer} service method hears good =
    let sent = IsReply-reply_of v service method hears good in
    >>=-ok _ (service_reply-ok v answer sent)
    ∙ >>=-ok _ (read_reply (reply_of v answer) sent)
    ∙ payload_of-reply_of v hears good

-- What a reply is sure to carry: a payload that is JSON, or an error that has a code, of valid texts.
abbrev pub IsSpoken : Result Failure Bytes → Type 0
IsSpoken (ok text) = Json 63 text
IsSpoken (err (service_error code message)) =
    (code ≢ []) × (valid_utf8 code ≡ true) × (valid_utf8 message ≡ true)
IsSpoken (err e) = ⊥

IsSpoken-IsCarried :
    {answer seen : Result Failure Bytes} → Hears answer seen → IsSpoken seen → IsCarried seen
IsSpoken-IsCarried (payload text) json = Json-IsRaw json
IsSpoken-IsCarried (failure says) good = good

-- The reply to a frame of valid names is heard by the client that sent it: a payload byte for byte, if it
-- is a string, a word or an object of these as the writers spell them, at most 63 deep, and an error as a
-- service error with the code and the message that it says, if they are valid texts and the code is not
-- empty. A service error says its own, with handler_error for an empty code, a dispatch error or a refusal
-- says its word, and any other error says only that the handler failed.
pub service_response-service_reply :
    (v : ServiceFrame) {answer seen : Result Failure Bytes}
    → valid_utf8 v.service ≡ true
    → valid_utf8 v.method ≡ true
    → Hears answer seen
    → IsSpoken seen
    → (service_reply v answer >>= (λ frame. service_response frame v.service v.method)) ≡ seen
service_response-service_reply v service method hears spoken =
    service_response-carried v service method hears (IsSpoken-IsCarried hears spoken)
