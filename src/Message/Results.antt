-- ===== src/Message/Results.antt =====
-- go/abstraction/model/api/rec.go: the results of the two services on the wire. The request and the
-- manifest that a result may carry have codecs of their own, in packages request and content, which
-- are an argument here: the writer, given the depth, and the reader, given what may still be opened.
pub mod RoundTrip
pub mod Manifest
use abstraction_model.Base.{
  Bytes, List, Option, Result, [], codes, equal, if◌then◌else◌, none, ok, some, suc, ℕ, ◌++◌, ◌>>=◌,
  ◌∷◌,
}
use abstraction_model.Codec.{Refusal, esc, refuse, str}
use abstraction_model.Record.{Setter, object, read_object}
use abstraction_model.Vocabulary.{
  lookup_name, manifest_name, member, named, parse_lookup, parse_manifest,
}
use abstraction_model.Message.{text_field}

-- encOAImported0 and decodeOAImported0, and the same of the manifest: a panic is an error here.
pub record Imported (Q : Type 0) : Type 0 where
  pub encode : Q → ℕ → Result Refusal Bytes
  pub decode : ℕ → Bytes → Result Refusal (Q × Bytes)

pub record WireLookup (Q : Type 0) : Type 0 where
  pub outcome : ℕ
  pub request : Option Q

pub record WireManifest (Q : Type 0) : Type 0 where
  pub outcome : ℕ
  pub manifest : Option Q
  pub resolved_revision : Bytes

-- The word of an outcome, and what reads it back.
abbrev pub outcome_field :
    {V : Type 0} → (Bytes → Option ℕ) → (ℕ → V) → Bytes → Result Refusal (V × Bytes)
outcome_field parse store s = do
  (word, rest) ← str s
  outcome ← member rest (parse word)
  ok (store outcome, rest)

-- A value whose outcome is no member is refused once more at the end.
abbrev pub known : {V : Type 0} → Option Bytes → V × Bytes → Result Refusal (V × Bytes)
known none (v, rest) = refuse "bad_enum" rest
known (some word) found = ok found

module _ {Q : Type 0} (codec : Imported Q) where
  -- `if v.Request != nil { … }`.
  unfoldable pub enc_imported : Bytes → Option Q → ℕ → Result Refusal (List (Bytes × Bytes))
  enc_imported name none depth = ok []
  enc_imported name (some q) depth = do text ← codec.encode q depth; ok ((name, text) ∷ [])

  abbrev pub imported_field : {V : Type 0} → (Q → V) → ℕ → Bytes → Result Refusal (V × Bytes)
  imported_field store room s = do (q, rest) ← codec.decode room s; ok (store q, rest)

  unfoldable pub enc_lookup : WireLookup Q → ℕ → Result Refusal Bytes
  enc_lookup v depth = do
    word ← named (lookup_name v.outcome)
    request ← enc_imported (codes "request") v.request (suc depth)
    ok (object depth ((codes "outcome", esc word) ∷ request))

  unfoldable pub set_lookup : ℕ → Setter (WireLookup Q)
  set_lookup room name v s =
      if equal name (codes "outcome")
      then outcome_field parse_lookup (λ x. record { outcome = x; request = v.request }) s
      else if equal name (codes "request")
      then imported_field (λ x. record { outcome = v.outcome; request = some x }) room s
      else refuse "unknown_field" s

  unfoldable pub decode_lookup : ℕ → Bytes → Result Refusal (WireLookup Q × Bytes)
  decode_lookup room s = do
    (v, rest) ←
        read_object set_lookup (record { outcome = 0; request = none }) (codes "outcome" ∷ []) room
          s
    known (lookup_name v.outcome) (v, rest)

  unfoldable pub enc_manifest : WireManifest Q → ℕ → Result Refusal Bytes
  enc_manifest v depth = do
    word ← named (manifest_name v.outcome)
    manifest ← enc_imported (codes "manifest") v.manifest (suc depth)
    ok (
        object depth (
          (codes "outcome", esc word)
          ∷ (manifest ++ (codes "resolved_revision", esc v.resolved_revision) ∷ [])))

  unfoldable pub set_manifest : ℕ → Setter (WireManifest Q)
  set_manifest room name v s =
      if equal name (codes "outcome")
      then outcome_field parse_manifest
          (λ x. record {
            outcome = x;
            manifest = v.manifest;
            resolved_revision = v.resolved_revision;
          })
          s
      else if equal name (codes "manifest")
      then imported_field
          (λ x. record {
            outcome = v.outcome;
            manifest = some x;
            resolved_revision = v.resolved_revision;
          })
          room s
      else if equal name (codes "resolved_revision")
      then text_field
          (λ x. record { outcome = v.outcome; manifest = v.manifest; resolved_revision = x }) s
      else refuse "unknown_field" s

  unfoldable pub decode_manifest : ℕ → Bytes → Result Refusal (WireManifest Q × Bytes)
  decode_manifest room s = do
    (v, rest) ←
        read_object set_manifest (record { outcome = 0; manifest = none; resolved_revision = [] })
          (codes "outcome" ∷ codes "resolved_revision" ∷ []) room s
    known (manifest_name v.outcome) (v, rest)

  -- The results of Resolve: an object of the one value.
  unfoldable pub enc_lookup_result : WireLookup Q → ℕ → Result Refusal Bytes
  enc_lookup_result v depth = do
    text ← enc_lookup v (suc depth)
    ok (object depth ((codes "value", text) ∷ []))

  unfoldable pub set_lookup_result : ℕ → Setter (WireLookup Q)
  set_lookup_result room name v s =
      if equal name (codes "value") then decode_lookup room s else refuse "unknown_field" s

  unfoldable pub decode_lookup_result : ℕ → Bytes → Result Refusal (WireLookup Q × Bytes)
  decode_lookup_result =
      read_object set_lookup_result (record { outcome = 0; request = none }) (codes "value" ∷ [])

  unfoldable pub enc_manifest_result : WireManifest Q → ℕ → Result Refusal Bytes
  enc_manifest_result v depth = do
    text ← enc_manifest v (suc depth)
    ok (object depth ((codes "value", text) ∷ []))

  unfoldable pub set_manifest_result : ℕ → Setter (WireManifest Q)
  set_manifest_result room name v s =
      if equal name (codes "value") then decode_manifest room s else refuse "unknown_field" s

  unfoldable pub decode_manifest_result : ℕ → Bytes → Result Refusal (WireManifest Q × Bytes)
  decode_manifest_result =
      read_object set_manifest_result
        (record { outcome = 0; manifest = none; resolved_revision = [] }) (codes "value" ∷ [])
