-- ===== src/Wire.antt =====
-- go/abstraction/model/api/rec.go: the values that the lookup service and its client exchange. A Ref
-- of the wire has the fields of a Ref of package model, and is that record here.
pub mod Words
use abstraction_model.Base.{Bytes, List, Option, [], codes, equal, if◌then◌else◌, none, some, ◌∷◌}
use abstraction_model.Download.{Artifact}

pub data LookupOutcome : Type 0 where
  resolved invalid unavailable unsupported_mapping forbidden : LookupOutcome

-- WireName of a member.
unfoldable pub wire_name : LookupOutcome → Bytes
wire_name resolved = codes "resolved"
wire_name invalid = codes "invalid"
wire_name unavailable = codes "unavailable"
wire_name unsupported_mapping = codes "unsupported_mapping"
wire_name forbidden = codes "forbidden"

unfoldable pub parse_outcome : Bytes → Option LookupOutcome
parse_outcome word =
    if equal word (codes "resolved")
    then some resolved
    else if equal word (codes "invalid")
    then some invalid
    else if equal word (codes "unavailable")
    then some unavailable
    else if equal word (codes "unsupported_mapping")
    then some unsupported_mapping
    else if equal word (codes "forbidden")
    then some forbidden
    else none

-- LookupOutcomeValues.
abbrev pub outcome_values : List LookupOutcome
outcome_values = resolved ∷ invalid ∷ unavailable ∷ unsupported_mapping ∷ forbidden ∷ []

-- Source and Request of package request (abstraction-download/go): the fields that lookup sets.
pub record PortableSource : Type 0 where
  pub scheme : Bytes
  pub locator : Bytes
  pub credential : Bytes

pub record PortableRequest : Type 0 where
  pub artifact : Artifact
  pub sources : List PortableSource

pub record LookupResult : Type 0 where
  pub outcome : LookupOutcome
  pub request : Option PortableRequest
