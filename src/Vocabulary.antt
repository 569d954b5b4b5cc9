-- ===== src/Vocabulary.antt =====
-- The closed vocabularies of go/abstraction/model/api/rec.go, LookupOutcome and ManifestOutcome, as
-- the numbers that Go keeps them in: their words, and their text and JSON forms.
pub mod Json
use abstraction_model.Base.{
  Bytes, List, Option, Result, [], codes, equal, if◌then◌else◌, none, ok, some, ℕ, ◌==◌, ◌>>=◌, ◌∷◌,
}
use abstraction_model.Codec.{Refusal, esc, refuse, skip_white, str}

-- WireName of a value; none where it names no member.
unfoldable pub lookup_name : ℕ → Option Bytes
lookup_name v =
    if v == 1
    then some (codes "resolved")
    else if v == 2
    then some (codes "invalid")
    else if v == 3
    then some (codes "unavailable")
    else if v == 4
    then some (codes "unsupported_mapping")
    else if v == 5
    then some (codes "forbidden")
    else none

unfoldable pub parse_lookup : Bytes → Option ℕ
parse_lookup word =
    if equal word (codes "resolved")
    then some 1
    else if equal word (codes "invalid")
    then some 2
    else if equal word (codes "unavailable")
    then some 3
    else if equal word (codes "unsupported_mapping")
    then some 4
    else if equal word (codes "forbidden")
    then some 5
    else none

unfoldable pub manifest_name : ℕ → Option Bytes
manifest_name v =
    if v == 1
    then some (codes "resolved")
    else if v == 2
    then some (codes "not_found")
    else if v == 3
    then some (codes "invalid")
    else if v == 4
    then some (codes "unavailable")
    else if v == 5
    then some (codes "unsupported_mapping")
    else if v == 6
    then some (codes "forbidden")
    else none

unfoldable pub parse_manifest : Bytes → Option ℕ
parse_manifest word =
    if equal word (codes "resolved")
    then some 1
    else if equal word (codes "not_found")
    then some 2
    else if equal word (codes "invalid")
    then some 3
    else if equal word (codes "unavailable")
    then some 4
    else if equal word (codes "unsupported_mapping")
    then some 5
    else if equal word (codes "forbidden")
    then some 6
    else none

-- ManifestOutcomeValues, and the constants.
abbrev pub manifest_values : List ℕ
manifest_values = 1 ∷ 2 ∷ 3 ∷ 4 ∷ 5 ∷ 6 ∷ []

abbrev pub named : Option Bytes → Result Refusal Bytes
named none = refuse "bad_enum" []
named (some word) = ok word

abbrev pub member : Bytes → Option ℕ → Result Refusal ℕ
member left none = refuse "bad_enum" left
member left (some v) = ok v

abbrev pub quoted : Option Bytes → Result Refusal Bytes
quoted none = refuse "bad_enum" []
quoted (some word) = ok (esc word)

-- MarshalText and UnmarshalText.
unfoldable pub lookup_text : ℕ → Result Refusal Bytes
lookup_text v = named (lookup_name v)

unfoldable pub read_lookup_text : Bytes → Result Refusal ℕ
read_lookup_text text = member text (parse_lookup text)

unfoldable pub manifest_text : ℕ → Result Refusal Bytes
manifest_text v = named (manifest_name v)

unfoldable pub read_manifest_text : Bytes → Result Refusal ℕ
read_manifest_text text = member text (parse_manifest text)

-- MarshalJSON.
unfoldable pub lookup_json : ℕ → Result Refusal Bytes
lookup_json v = quoted (lookup_name v)

unfoldable pub manifest_json : ℕ → Result Refusal Bytes
manifest_json v = quoted (manifest_name v)

abbrev pub at_end : Bytes → Option ℕ → Result Refusal ℕ
at_end [] found = member [] found
at_end (c ∷ s) found = refuse "trailing_bytes" (c ∷ s)

-- UnmarshalJSON.
unfoldable pub read_lookup_json : Bytes → Result Refusal ℕ
read_lookup_json text = do
  (word, rest) ← str (skip_white text)
  at_end (skip_white rest) (parse_lookup word)

unfoldable pub read_manifest_json : Bytes → Result Refusal ℕ
read_manifest_json text = do
  (word, rest) ← str (skip_white text)
  at_end (skip_white rest) (parse_manifest word)
