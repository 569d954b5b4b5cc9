-- ===== src/Vocabulary/Json.antt =====
-- The JSON form of a vocabulary's member, written and read.
use Prim.Native.Nat.{zero, suc}
use mathlib.Core.Path.{subst, sym, ap, ◌∙◌}
use mathlib.Core.List.{append-nil}
use abstraction_model.Base.{
  Bytes, Option, [], ap, append-nil, arith, codes, equal, none, ok, refl, some, suc, sym, true,
  zero, ℕ, ◌∙◌, ◌≡◌,
}
use abstraction_model.Codec.{esc, lead, skip_white, str, valid_loop, valid_utf8}
use abstraction_model.Codec.RoundTrip.{str-esc}
use abstraction_model.Vocabulary.{
  lookup_json, lookup_name, manifest_json, manifest_name, parse_lookup, parse_manifest, quoted,
  read_lookup_json, read_manifest_json,
}

-- A word that can be quoted, and that is read as the member `v`.
abbrev pub Names : (Bytes → Option ℕ) → ℕ → Bytes → Type 0
Names parse v w = (parse w ≡ some v) × (valid_utf8 w ≡ true)

some-same : (a b : Bytes) → some a ≡ some b → a ≡ b
some-same a b e = ground arith

pub lookup_name-some : (v : ℕ) (w : Bytes) → lookup_name v ≡ some w → Names parse_lookup v w
unfolding lookup_name parse_lookup equal valid_utf8 valid_loop lead
lookup_name-some zero w e = absurd (ground arith)
lookup_name-some (suc zero) w e =
    subst (Names parse_lookup 1) (some-same (codes "resolved") w e) (refl, refl)
lookup_name-some (suc (suc zero)) w e =
    subst (Names parse_lookup 2) (some-same (codes "invalid") w e) (refl, refl)
lookup_name-some (suc (suc (suc zero))) w e =
    subst (Names parse_lookup 3) (some-same (codes "unavailable") w e) (refl, refl)
lookup_name-some (suc (suc (suc (suc zero)))) w e =
    subst (Names parse_lookup 4) (some-same (codes "unsupported_mapping") w e) (refl, refl)
lookup_name-some (suc (suc (suc (suc (suc zero))))) w e =
    subst (Names parse_lookup 5) (some-same (codes "forbidden") w e) (refl, refl)
lookup_name-some (suc (suc (suc (suc (suc (suc v)))))) w e = absurd (ground arith)

pub manifest_name-some : (v : ℕ) (w : Bytes) → manifest_name v ≡ some w → Names parse_manifest v w
unfolding manifest_name parse_manifest equal valid_utf8 valid_loop lead
manifest_name-some zero w e = absurd (ground arith)
manifest_name-some (suc zero) w e =
    subst (Names parse_manifest 1) (some-same (codes "resolved") w e) (refl, refl)
manifest_name-some (suc (suc zero)) w e =
    subst (Names parse_manifest 2) (some-same (codes "not_found") w e) (refl, refl)
manifest_name-some (suc (suc (suc zero))) w e =
    subst (Names parse_manifest 3) (some-same (codes "invalid") w e) (refl, refl)
manifest_name-some (suc (suc (suc (suc zero)))) w e =
    subst (Names parse_manifest 4) (some-same (codes "unavailable") w e) (refl, refl)
manifest_name-some (suc (suc (suc (suc (suc zero))))) w e =
    subst (Names parse_manifest 5) (some-same (codes "unsupported_mapping") w e) (refl, refl)
manifest_name-some (suc (suc (suc (suc (suc (suc zero)))))) w e =
    subst (Names parse_manifest 6) (some-same (codes "forbidden") w e) (refl, refl)
manifest_name-some (suc (suc (suc (suc (suc (suc (suc v))))))) w e = absurd (ground arith)

quoted-ok :
    (o : Option Bytes) {text : Bytes}
    → quoted o ≡ ok text
    → (w : Bytes) × (o ≡ some w) × (esc w ≡ text)
quoted-ok none e = absurd (ground arith)
quoted-ok (some w) e = (w, refl, ground arith)

str-esc_alone : (w : Bytes) → valid_utf8 w ≡ true → str (skip_white (esc w)) ≡ ok (w, [])
unfolding skip_white esc
str-esc_alone w h = ap str (sym (append-nil (esc w))) ∙ str-esc w [] h

-- UnmarshalJSON reads back every LookupOutcome that MarshalJSON writes.
pub read_lookup_json-lookup_json :
    (v : ℕ) {text : Bytes} → lookup_json v ≡ ok text → read_lookup_json text ≡ ok v
unfolding lookup_json read_lookup_json skip_white
read_lookup_json-lookup_json v {text} e =
    let (w, named_as, written) = quoted-ok (lookup_name v) e in
    let (parsed, valid) = lookup_name-some v w named_as in
    subst (λ (t : Bytes). read_lookup_json t ≡ ok v) written
      (rw (str-esc_alone w valid) (rw parsed refl))

-- UnmarshalJSON reads back every ManifestOutcome that MarshalJSON writes.
pub read_manifest_json-manifest_json :
    (v : ℕ) {text : Bytes} → manifest_json v ≡ ok text → read_manifest_json text ≡ ok v
unfolding manifest_json read_manifest_json skip_white
read_manifest_json-manifest_json v {text} e =
    let (w, named_as, written) = quoted-ok (manifest_name v) e in
    let (parsed, valid) = manifest_name-some v w named_as in
    subst (λ (t : Bytes). read_manifest_json t ≡ ok v) written
      (rw (str-esc_alone w valid) (rw parsed refl))
