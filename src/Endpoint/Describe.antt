-- ===== src/Endpoint/Describe.antt =====
-- go/abstraction/model/api/rec.go: what an endpoint says of the services that it hosts, and the routing
-- of a frame to the service that it names.
use abstraction_model.Base.{
  Bool, Bytes, List, Option, Result, [], codes, drop, equal, err, false, if◌then◌else◌, ltb, none,
  not, ok, some, true, ◌&&◌, ◌++◌, ◌==◌, ◌>>=◌, ◌∷◌,
}
use abstraction_model.Codec.{at, esc, skip_white}
use abstraction_model.Message.Envelope.{ServiceFrame}
use abstraction_model.Endpoint.{Failure, dispatch_error, refusal, service_payload, service_reply}

-- EndpointContract.
abbrev pub endpoint_contract : Bytes
endpoint_contract = codes "abstraction.facade/endpoint@1"

-- What DescribeService and DescribeServiceMetadata return; the capabilities are a Go map.
pub record Described : Type 0 where
  pub contract : Bytes
  pub ready : Bool
  pub why : Bytes
  pub guarantees : List Bytes
  pub capabilities : List (Bytes × Bytes)

unfoldable pub byte_less : Bytes → Bytes → Bool
byte_less a [] = false
byte_less [] (d ∷ t) = true
byte_less (c ∷ s) (d ∷ t) = if c == d then byte_less s t else ltb c d

-- One round of the insertion sort, on the keys sorted so far from the last to the first.
unfoldable pub sink : Bytes → List Bytes → List Bytes
sink x [] = x ∷ []
sink x (y ∷ ys) = let rest = sink x ys in if byte_less x y then y ∷ rest else x ∷ y ∷ ys

unfoldable pub sink_all : List Bytes → List Bytes → List Bytes
sink_all sorted [] = sorted
sink_all sorted (x ∷ xs) = sink_all (sink x sorted) xs

abbrev pub backwards : List Bytes → List Bytes → List Bytes
backwards out [] = out
backwards out (x ∷ xs) = backwards (x ∷ out) xs

abbrev pub keys_of : List (Bytes × Bytes) → List Bytes
keys_of [] = []
keys_of ((name, value) ∷ entries) = name ∷ keys_of entries

-- sortedKeys, of a map in the order that its range loop takes.
unfoldable pub sorted_keys : List (Bytes × Bytes) → List Bytes
sorted_keys entries = backwards [] (sink_all [] (keys_of entries))

-- `m[key]`.
unfoldable pub entry : List (Bytes × Bytes) → Bytes → Bytes
entry [] name = []
entry ((other, value) ∷ entries) name = if equal other name then value else entry entries name

-- The items of a loop that writes a comma before each but the first.
abbrev pub behind_commas : List Bytes → Bytes
behind_commas [] = []
behind_commas (s ∷ ss) = 44 ∷ (s ++ behind_commas ss)

abbrev pub commas : List Bytes → Bytes
commas [] = []
commas (s ∷ ss) = s ++ behind_commas ss

abbrev pub escaped : List Bytes → List Bytes
escaped [] = []
escaped (s ∷ ss) = esc s ∷ escaped ss

abbrev pub entry_texts : List (Bytes × Bytes) → List Bytes → List Bytes
entry_texts entries [] = []
entry_texts entries (name ∷ names) =
    (esc name ++ b':' ∷ esc (entry entries name)) ∷ entry_texts entries names

abbrev pub concat : List Bytes → Bytes
concat [] = []
concat (s ∷ ss) = s ++ concat ss

-- One service of the list.
unfoldable pub service_text : Described → Bytes
service_text d = concat (
    codes "{\"contract\":"
    ∷ esc d.contract
    ∷ codes ",\"readiness\":\""
    ∷ (if d.ready then codes "ready" else codes "not_ready")
    ∷ codes "\",\"why\":"
    ∷ esc (if d.ready then [] else d.why)
    ∷ codes ",\"guarantees\":["
    ∷ commas (escaped d.guarantees)
    ∷ codes "],\"capabilities\":{"
    ∷ commas (entry_texts d.capabilities (sorted_keys d.capabilities))
    ∷ codes "}}"
    ∷ [])

abbrev pub service_texts : List Described → List Bytes
service_texts [] = []
service_texts (d ∷ ds) = service_text d ∷ service_texts ds

unfoldable pub description : Bytes → Bytes → List Described → Bytes
description program version services = concat (
    codes "{\"value\":{\"outcome\":\"described\",\"program\":"
    ∷ esc program
    ∷ codes ",\"version\":"
    ∷ esc version
    ∷ codes ",\"services\":["
    ∷ commas (service_texts services)
    ∷ codes "]}}"
    ∷ [])

-- Describe takes an empty object.
unfoldable pub no_arguments : Bytes → Bool
no_arguments arguments =
    let s = skip_white arguments in
    let t = skip_white (drop 1 s) in
    at s == b'{' && at t == b'}' && equal (skip_white (drop 1 t)) []

abbrev pub unknown_field : Failure
unknown_field = refusal (record { word = codes "unknown_field"; left = [] })

-- What DescribeEndpoint answers a frame that was read.
unfoldable pub described : Bytes → Bytes → List Described → ServiceFrame → Result Failure Bytes
described program version services v =
    if not (equal v.service endpoint_contract)
    then err (dispatch_error (codes "unknown_service"))
    else if not (equal v.method (codes "Describe"))
    then err (dispatch_error (codes "unknown_method"))
    else if not (no_arguments v.arguments)
    then err unknown_field
    else ok (description program version services)

unfoldable pub describe_endpoint : Bytes → Bytes → Bytes → List Described → Result Failure Bytes
describe_endpoint frame program version services = do
  v ← service_payload frame
  service_reply v (described program version services v)

-- A service that an endpoint hosts; a service of one-way frames has no `exchange`.
pub record Served : Type 0 where
  pub service_contract : Bytes
  pub describes : Described
  pub exchange : Option (Bytes → Result Failure Bytes)

abbrev pub descriptions : List Served → List Described
descriptions [] = []
descriptions (s ∷ ss) = s.describes ∷ descriptions ss

abbrev pub exchanged :
    ServiceFrame → Bytes → Option (Bytes → Result Failure Bytes) → Result Failure Bytes
exchanged v frame none = service_reply v (err (dispatch_error (codes "wrong_mode")))
exchanged v frame (some exchange) = exchange frame

-- The loop over the services.
unfoldable pub routed : ServiceFrame → Bytes → List Served → Result Failure Bytes
routed v frame [] = service_reply v (err (dispatch_error (codes "unknown_service")))
routed v frame (s ∷ ss) =
    let rest = routed v frame ss in
    if equal s.service_contract v.service then exchanged v frame s.exchange else rest

unfoldable pub answer_frame :
    Bytes → Bytes → Bytes → List Served → ServiceFrame → Result Failure Bytes
answer_frame frame program version services v =
    if equal v.service endpoint_contract
    then describe_endpoint frame program version (descriptions services)
    else routed v frame services

unfoldable pub serve_endpoint : Bytes → Bytes → Bytes → List Served → Result Failure Bytes
serve_endpoint frame program version services =
    service_payload frame >>= answer_frame frame program version services
