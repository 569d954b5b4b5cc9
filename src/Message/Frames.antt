-- ===== src/Message/Frames.antt =====
-- Frames and replies are read back from what their writers write, with the opaque value that they
-- carry.
use mathlib.Core.Path.{ap, ◌∙◌}
use abstraction_model.Base.{
  >>=-ok, Bool, Bytes, [], ap, arith, codes, contains, equal, false, if◌then◌else◌, ok, refl, suc,
  true, ℕ, ℤ, ◌++◌, ◌<◌, ◌==◌, ◌||◌, ◌∙◌, ◌∷◌, ◌≡◌,
}
use abstraction_model.Ref.{Ref}
use abstraction_model.Codec.{at, esc, lead, skip_white, valid_loop, valid_utf8}
use abstraction_model.Record.{all_seen, object}
use abstraction_model.Record.RoundTrip.{Stops, comma, last, member, newline, read_object-object}
use abstraction_model.Number.{boolean, goes_on, is_digit, less, literal, num}
use abstraction_model.Number.RoundTrip.{IsInt64, integer-num, num-at}
use abstraction_model.Raw.{skip_value}
use abstraction_model.Raw.Walk.{
  Walks, ended, item, raw_value-append, skip_value-esc, skip_value-object,
}
use abstraction_model.Message.Envelope.{
  ErrorBody, ServiceFrame, ServiceReply, bool_field, decode_frame, decode_reply, enc_error,
  enc_frame, enc_reply, high_32, int_field, low_32, set_frame, set_reply,
}
use abstraction_model.Message.{enc_arguments, enc_ref, optional, raw_field}
use abstraction_model.Message.RoundTrip.{IsText, text_field-esc}

-- A text that the reader takes for one opaque value, where `room` containers may still be opened.
abbrev pub IsRaw : ℕ → Bytes → Type 0
IsRaw room raw =
    (rest : Bytes)
    → (skip_value room (raw ++ rest) ≡ ok rest) × (skip_white (raw ++ rest) ≡ raw ++ rest)

-- The numbers of an int32.
abbrev pub IsInt32 : ℤ → Type 0
IsInt32 n = IsInt64 n × (less n low_32 ≡ false) × (less high_32 n ≡ false)

Stops-goes_on : {rest : Bytes} → Stops rest → goes_on (at rest) ≡ false
unfolding goes_on at is_digit
Stops-goes_on (comma s) = refl
Stops-goes_on (newline s) = refl

skip_white-solid : (s : Bytes) → b' ' < at s → skip_white s ≡ s
unfolding skip_white at
skip_white-solid [] h = refl
skip_white-solid (c ∷ s) h =
    let no : (c == b' ' || c == 9 || c == 10 || c == 13) ≡ false = ground arith in
    rw (skip_white, no) refl

int_field-num :
    {V : Type 0} (store : ℤ → V) (n : ℤ) (rest : Bytes)
    → IsInt32 n
    → Stops rest
    → int_field store (skip_white (32 ∷ (num n ++ rest))) ≡ ok (store n, rest)
unfolding skip_white
int_field-num store n rest (small, above, below) stop =
    ap (int_field store) (skip_white-solid (num n ++ rest) (num-at n rest small))
    ∙ >>=-ok _ (integer-num low_32 high_32 n rest small above below (Stops-goes_on stop))

raw_field-IsRaw :
    {V : Type 0} (store : Bytes → V) (room : ℕ) (raw rest : Bytes)
    → IsRaw room raw
    → raw_field store room (skip_white (32 ∷ (raw ++ rest))) ≡ ok (store raw, rest)
unfolding skip_white
raw_field-IsRaw store room raw rest good =
    ap (raw_field store room) (good rest).1
    ∙ >>=-ok _ (raw_value-append room raw rest (good rest).0)

bool_field-word :
    {V : Type 0} (store : Bool → V) (b : Bool) (rest : Bytes)
    → bool_field store (skip_white (32 ∷ ((if b then codes "true" else codes "false") ++ rest)))
      ≡ ok (store b, rest)
unfolding skip_white boolean literal at equal
bool_field-word store true rest = refl
bool_field-word store false rest = refl

abbrev pub IsFrame : ℕ → ServiceFrame → Type 0
IsFrame room v =
    IsInt32 v.version
    × (valid_utf8 v.service ≡ true)
    × (valid_utf8 v.method ≡ true)
    × IsRaw room v.arguments

-- A frame whose arguments the reader takes for one opaque value is read back whole.
pub decode_frame-enc_frame :
    (v : ServiceFrame) (room d : ℕ) (rest : Bytes)
    → IsFrame room v
    → decode_frame (suc room) (enc_frame v d ++ rest) ≡ ok (v, rest)
unfolding decode_frame enc_frame set_frame equal contains valid_utf8 valid_loop lead all_seen
decode_frame-enc_frame v room d rest (version, service, method, arguments) =
    read_object-object set_frame _ room d (codes "version") (num v.version) _ rest refl
      (member (codes "version") (num v.version) refl refl
        (λ rest stop. int_field-num _ v.version rest version stop)
        (member (codes "service") (esc v.service) refl refl
          (λ rest _. text_field-esc _ v.service rest service)
          (member (codes "method") (esc v.method) refl refl
            (λ rest _. text_field-esc _ v.method rest method)
            (member (codes "arguments") v.arguments refl refl
              (λ rest _. raw_field-IsRaw _ room v.arguments rest arguments) (last _ _)))))
      refl

abbrev pub IsReply : ℕ → ServiceReply → Type 0
IsReply room v =
    IsInt32 v.version
    × (valid_utf8 v.service ≡ true)
    × (valid_utf8 v.method ≡ true)
    × IsRaw room v.payload

-- A reply is read back whole.
pub decode_reply-enc_reply :
    (v : ServiceReply) (room d : ℕ) (rest : Bytes)
    → IsReply room v
    → decode_reply (suc room) (enc_reply v d ++ rest) ≡ ok (v, rest)
unfolding decode_reply enc_reply set_reply equal contains valid_utf8 valid_loop lead all_seen
decode_reply-enc_reply v room d rest (version, service, method, payload) =
    let word = if v.okay then codes "true" else codes "false" in
    read_object-object set_reply _ room d (codes "version") (num v.version) _ rest refl
      (member (codes "version") (num v.version) refl refl
        (λ rest stop. int_field-num _ v.version rest version stop)
        (member (codes "service") (esc v.service) refl refl
          (λ rest _. text_field-esc _ v.service rest service)
          (member (codes "method") (esc v.method) refl refl
            (λ rest _. text_field-esc _ v.method rest method)
            (member (codes "ok") word refl refl (λ rest _. bool_field-word _ v.okay rest)
              (member (codes "payload") v.payload refl refl
                (λ rest _. raw_field-IsRaw _ room v.payload rest payload) (last _ _))))))
      refl

-- What the other writers write is an opaque value of a frame.
pub enc_error-IsRaw :
    (v : ErrorBody) (room d : ℕ)
    → valid_utf8 v.code ≡ true
    → valid_utf8 v.message ≡ true
    → IsRaw (suc room) (enc_error v d)
unfolding enc_error contains equal valid_utf8 valid_loop lead skip_white esc object
enc_error-IsRaw v room d code message rest = (
  skip_value-object room d (codes "code") (esc v.code) _ rest (
      item (codes "code") (esc v.code) refl refl (λ rest _. skip_value-esc room v.code rest code)
        (item (codes "message") (esc v.message) refl refl
          (λ rest _. skip_value-esc room v.message rest message) (ended _))),
  refl,
)

walk_credential :
    (room : ℕ) (word : Bytes)
    → valid_utf8 word ≡ true
    → Walks
        (skip_value room)
        (codes "file" ∷ codes "quant" ∷ codes "revision" ∷ codes "repo" ∷ codes "registry" ∷ [])
        (optional (codes "credential") word)
unfolding contains equal valid_utf8 valid_loop lead skip_white esc
walk_credential room [] good = ended _
walk_credential room (c ∷ s) good =
    item (codes "credential") (esc (c ∷ s)) refl refl
      (λ rest _. skip_value-esc room (c ∷ s) rest good) (ended _)

pub enc_ref-IsRaw : (v : Ref) (room d : ℕ) → IsText v → IsRaw (suc room) (enc_ref v d)
unfolding enc_ref contains equal valid_utf8 valid_loop lead skip_white esc object
enc_ref-IsRaw v room d (g₁, g₂, g₃, g₄, g₅, g₆) rest = (
  skip_value-object room d (codes "registry") (esc v.registry) _ rest (
      item (codes "registry") (esc v.registry) refl refl
        (λ rest _. skip_value-esc room v.registry rest g₁)
        (item (codes "repo") (esc v.repo) refl refl (λ rest _. skip_value-esc room v.repo rest g₂)
          (item (codes "revision") (esc v.revision) refl refl
            (λ rest _. skip_value-esc room v.revision rest g₃)
            (item (codes "quant") (esc v.quant) refl refl
              (λ rest _. skip_value-esc room v.quant rest g₄)
              (item (codes "file") (esc v.file) refl refl
                (λ rest _. skip_value-esc room v.file rest g₅)
                (walk_credential room v.credential g₆)))))),
  refl,
)

pub enc_arguments-IsRaw :
    (v : Ref) (room d : ℕ) → IsText v → IsRaw (suc (suc room)) (enc_arguments v d)
unfolding enc_arguments contains equal valid_utf8 valid_loop lead skip_white object
enc_arguments-IsRaw v room d good rest = (
  skip_value-object (suc room) d (codes "ref") (enc_ref v (suc d)) [] rest (
      item (codes "ref") (enc_ref v (suc d)) refl refl
        (λ rest _.
          ap (skip_value (suc room)) (enc_ref-IsRaw v room (suc d) good rest).1
          ∙ (enc_ref-IsRaw v room (suc d) good rest).0)
        (ended _)),
  refl,
)
