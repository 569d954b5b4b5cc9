-- ===== src/Message/Envelope.antt =====
-- go/abstraction/model/api/rec.go: the records that carry a call and its answer, and their codecs.
use abstraction_model.Base.{
  Bool, Bytes, Result, [], codes, equal, false, if◌then◌else◌, negsuc, ok, pos, ℕ, ℤ, ◌>>=◌, ◌∷◌,
}
use abstraction_model.Codec.{Refusal, esc, refuse}
use abstraction_model.Record.{Setter, object, read_object}
use abstraction_model.Number.{boolean, integer, num}
use abstraction_model.Message.{raw_field, text_field}

pub record ServiceFrame : Type 0 where
  pub version : ℤ
  pub service : Bytes
  pub method : Bytes
  pub arguments : Bytes

unfoldable pub enc_frame : ServiceFrame → ℕ → Bytes
enc_frame v depth = object depth (
    (codes "version", num v.version)
    ∷ (codes "service", esc v.service)
    ∷ (codes "method", esc v.method)
    ∷ (codes "arguments", v.arguments)
    ∷ [])

-- The bounds of an int32.
abbrev pub low_32 : ℤ
low_32 = negsuc 2147483647

abbrev pub high_32 : ℤ
high_32 = pos 2147483647

abbrev pub int_field : {V : Type 0} → (ℤ → V) → Bytes → Result Refusal (V × Bytes)
int_field store s = do (n, rest) ← integer low_32 high_32 s; ok (store n, rest)

unfoldable pub set_frame : ℕ → Setter ServiceFrame
set_frame room name v s =
    if equal name (codes "version")
    then int_field
        (λ x. record {
          version = x;
          service = v.service;
          method = v.method;
          arguments = v.arguments;
        })
        s
    else if equal name (codes "service")
    then text_field
        (λ x. record {
          version = v.version;
          service = x;
          method = v.method;
          arguments = v.arguments;
        })
        s
    else if equal name (codes "method")
    then text_field
        (λ x. record {
          version = v.version;
          service = v.service;
          method = x;
          arguments = v.arguments;
        })
        s
    else if equal name (codes "arguments")
    then raw_field
        (λ x. record { version = v.version; service = v.service; method = v.method; arguments = x })
        room s
    else refuse "unknown_field" s

unfoldable pub decode_frame : ℕ → Bytes → Result Refusal (ServiceFrame × Bytes)
decode_frame =
    read_object set_frame (record { version = pos 0; service = []; method = []; arguments = [] })
      (codes "version" ∷ codes "service" ∷ codes "method" ∷ codes "arguments" ∷ [])

pub record ServiceReply : Type 0 where
  pub version : ℤ
  pub service : Bytes
  pub method : Bytes
  pub okay : Bool
  pub payload : Bytes

unfoldable pub enc_reply : ServiceReply → ℕ → Bytes
enc_reply v depth = object depth (
    (codes "version", num v.version)
    ∷ (codes "service", esc v.service)
    ∷ (codes "method", esc v.method)
    ∷ (codes "ok", if v.okay then codes "true" else codes "false")
    ∷ (codes "payload", v.payload)
    ∷ [])

abbrev pub bool_field : {V : Type 0} → (Bool → V) → Bytes → Result Refusal (V × Bytes)
bool_field store s = do (b, rest) ← boolean s; ok (store b, rest)

unfoldable pub set_reply : ℕ → Setter ServiceReply
set_reply room name v s =
    if equal name (codes "version")
    then int_field
        (λ x. record {
          version = x;
          service = v.service;
          method = v.method;
          okay = v.okay;
          payload = v.payload;
        })
        s
    else if equal name (codes "service")
    then text_field
        (λ x. record {
          version = v.version;
          service = x;
          method = v.method;
          okay = v.okay;
          payload = v.payload;
        })
        s
    else if equal name (codes "method")
    then text_field
        (λ x. record {
          version = v.version;
          service = v.service;
          method = x;
          okay = v.okay;
          payload = v.payload;
        })
        s
    else if equal name (codes "ok")
    then bool_field
        (λ x. record {
          version = v.version;
          service = v.service;
          method = v.method;
          okay = x;
          payload = v.payload;
        })
        s
    else if equal name (codes "payload")
    then raw_field
        (λ x. record {
          version = v.version;
          service = v.service;
          method = v.method;
          okay = v.okay;
          payload = x;
        })
        room s
    else refuse "unknown_field" s

unfoldable pub decode_reply : ℕ → Bytes → Result Refusal (ServiceReply × Bytes)
decode_reply =
    read_object set_reply
      (record { version = pos 0; service = []; method = []; okay = false; payload = [] })
      (codes "version" ∷ codes "service" ∷ codes "method" ∷ codes "ok" ∷ codes "payload" ∷ [])

pub record ErrorBody : Type 0 where
  pub code : Bytes
  pub message : Bytes

unfoldable pub enc_error : ErrorBody → ℕ → Bytes
enc_error v depth =
    object depth ((codes "code", esc v.code) ∷ (codes "message", esc v.message) ∷ [])

unfoldable pub set_error : ℕ → Setter ErrorBody
set_error room name v s =
    if equal name (codes "code")
    then text_field (λ x. record { code = x; message = v.message }) s
    else if equal name (codes "message")
    then text_field (λ x. record { code = v.code; message = x }) s
    else refuse "unknown_field" s

unfoldable pub decode_error : ℕ → Bytes → Result Refusal (ErrorBody × Bytes)
decode_error =
    read_object set_error (record { code = []; message = [] }) (codes "code" ∷ codes "message" ∷ [])
