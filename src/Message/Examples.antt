-- ===== src/Message/Examples.antt =====
-- Runs of the readers and writers of the wire at concrete values.
use mathlib.Core.Path.{subst}
use abstraction_model.Vocabulary.{lookup_name}
use abstraction_model.Base.{
  Bool, Bytes, [], arith, codes, contains, equal, err, false, if◌then◌else◌, length, negsuc, ok,
  pos, refl, some, true, ℕ, ◌++◌, ◌<◌, ◌>>=◌, ◌∷◌, ◌≡◌, ◌≤◌, ◌⊎◌,
}
use abstraction_model.Codec.{Refusal, at, esc, lead, skip_white, valid_loop, valid_utf8}
use abstraction_model.Codec.Bounds.{Within, refusal_rank}
use abstraction_model.Record.{object}
use abstraction_model.Record.Bounds.{all_of}
use abstraction_model.Number.{
  boolean, finish, goes_on, integer, is_digit, less, literal, magnitude, minus, more_digits, num,
  signed,
}
use abstraction_model.Number.RoundTrip.{IsInt64, integer-num}
use abstraction_model.Number.Bounds.{IsDigits, integer-value, value}
use abstraction_model.Raw.{skip_switch, skip_value, sort_of}
use abstraction_model.Raw.Bounds.{skip_value-Within}
use abstraction_model.Ref.{Ref}
use abstraction_model.Message.Envelope.{ServiceFrame, decode_frame, enc_frame}
use abstraction_model.Message.RoundTrip.{IsText}
use abstraction_model.Message.Json.{
  Json, a_member, a_string, a_true, an_object, decode_frame-Json, no_more,
}
use abstraction_model.Message.Bounds.{decode-ends}
use abstraction_model.Message.Whole.{decode_ref_whole, decode_ref_whole-encode_ref, encode_ref}
use abstraction_model.Message.Results.{
  Imported, WireLookup, decode_lookup_result, enc_imported, enc_lookup, enc_lookup_result,
}
use abstraction_model.Message.Results.RoundTrip.{IsInverse, decode_lookup_result-enc_lookup_result}
use abstraction_model.Endpoint.{decode}

abbrev pub small_ref : Ref
small_ref = record {
  registry = codes "hf";
  repo = codes "o/m";
  revision = [];
  quant = codes "Q4";
  file = [];
  credential = codes "c";
}

pub small_ref-IsText : IsText small_ref
unfolding valid_utf8 valid_loop lead
small_ref-IsText = (refl, refl, refl, refl, refl, refl)

-- A codec of a Boolean, in the place of the request's.
abbrev pub word_codec : Imported Bool
word_codec = record {
  encode = λ b depth. ok (if b then codes "true" else codes "false");
  decode = λ room. boolean;
}

pub word_codec-IsInverse : IsInverse word_codec 61
unfolding boolean literal at equal skip_value skip_switch sort_of skip_white
word_codec-IsInverse true depth text rest e =
    let same : codes "true" ≡ text = cc in
    subst
      (λ t.
        (boolean (t ++ rest) ≡ ok (true, rest))
        × (skip_value 61 (t ++ rest) ≡ ok rest)
        × (skip_white (t ++ rest) ≡ t ++ rest))
      same (refl, refl, refl)
word_codec-IsInverse false depth text rest e =
    let same : codes "false" ≡ text = cc in
    subst
      (λ t.
        (boolean (t ++ rest) ≡ ok (false, rest))
        × (skip_value 61 (t ++ rest) ≡ ok rest)
        × (skip_white (t ++ rest) ≡ t ++ rest))
      same (refl, refl, refl)

abbrev pub found_lookup : WireLookup Bool
found_lookup = record { outcome = 1; request = some true }

integer-num_example :
    integer (negsuc 99) (pos 99) (num (negsuc 41) ++ codes ",") ≡ ok (negsuc 41, codes ",")
unfolding less goes_on at is_digit
integer-num_example =
    integer-num (negsuc 99) (pos 99) (negsuc 41) (codes ",") (omega arith) refl refl refl

integer-value_example :
    IsInt64 (negsuc 41)
    × (less (negsuc 41) (negsuc 99) ≡ false)
    × (less (pos 99) (negsuc 41) ≡ false)
    × (run : Bytes) × IsDigits run
    × (((codes "-42]" ≡ run ++ codes "]") × (negsuc 41 ≡ pos (value 0 run)))
        ⊎ ((codes "-42]" ≡ b'-' ∷ (run ++ codes "]")) × (negsuc 41 ≡ minus (value 0 run))))
unfolding integer magnitude more_digits finish signed less goes_on at is_digit
integer-value_example =
    integer-value (negsuc 99) (pos 99) (negsuc 41) (codes "-42]") (codes "]") refl

skip_value-Within_example :
    Within all_of (length (codes "[1,{}]!")) (skip_value 2 (codes "[1,{}]!"))
skip_value-Within_example = skip_value-Within 2 (codes "[1,{}]!")

decode-ends_example :
    ((v : Ref) × (decode (codes "{1}") ≡ ok v))
    ⊎ ((e : Refusal) × (rank : ℕ) × (decode (codes "{1}") ≡ err e)
        × (refusal_rank e.word ≡ some rank)
        × (rank < 11)
        × (length e.left ≤ length (codes "{1}")))
decode-ends_example = decode-ends (codes "{1}")

decode_ref_whole-encode_ref_example : (encode_ref small_ref >>= decode_ref_whole) ≡ ok small_ref
decode_ref_whole-encode_ref_example = decode_ref_whole-encode_ref small_ref small_ref-IsText

abbrev small_frame : ServiceFrame
small_frame = record {
  version = pos 1;
  service = codes "s";
  method = codes "m";
  arguments = object 1 (
      (codes "ref", object 2 ((codes "repo", esc (codes "o/m")) ∷ []))
      ∷ (codes "fresh", codes "true")
      ∷ []);
}

small_frame-Json : Json 63 small_frame.arguments
unfolding valid_utf8 valid_loop lead contains equal
small_frame-Json = an_object 1 (
    a_member (codes "ref") refl refl
      (an_object 2 (a_member (codes "repo") refl refl (a_string (codes "o/m") refl) no_more))
      (a_member (codes "fresh") refl refl a_true no_more))

decode_frame-Json_example :
    decode_frame 64 (enc_frame small_frame 0 ++ codes "!") ≡ ok (small_frame, codes "!")
unfolding less valid_utf8 valid_loop lead
decode_frame-Json_example =
    decode_frame-Json small_frame 63 0 (codes "!") (omega arith, refl, refl) refl refl
      small_frame-Json

abbrev found_text : Bytes
found_text = object 1 (
    (
      codes "value",
      object 2 ((codes "outcome", esc (codes "resolved")) ∷ (codes "request", codes "true") ∷ []),
    )
    ∷ [])

decode_lookup_result-enc_lookup_result_example :
    decode_lookup_result word_codec 63 (found_text ++ []) ≡ ok (found_lookup, [])
unfolding enc_lookup_result enc_lookup enc_imported lookup_name
decode_lookup_result-enc_lookup_result_example =
    decode_lookup_result-enc_lookup_result word_codec found_lookup 61 1 [] word_codec-IsInverse refl
