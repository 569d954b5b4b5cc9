-- ===== src/Message.antt =====
-- go/abstraction/model/api/rec.go: the records of the wire, and the writer and the reader of each.
pub mod Results
pub mod Envelope
pub mod RoundTrip
pub mod Examples
pub mod Frames
pub mod Json
pub mod Whole
pub mod Bounds
use abstraction_model.Base.{
  Bytes, List, Result, [], codes, equal, if◌then◌else◌, ok, suc, ℕ, ◌>>=◌, ◌∷◌,
}
use abstraction_model.Codec.{Refusal, esc, refuse, str}
use abstraction_model.Record.{Setter, object, read_object}
use abstraction_model.Raw.{raw_value}
use abstraction_model.Ref.{Ref}

-- A string field, and what the record becomes with it.
abbrev pub text_field : {V : Type 0} → (Bytes → V) → Bytes → Result Refusal (V × Bytes)
text_field store s = do (word, rest) ← str s; ok (store word, rest)

abbrev pub raw_field : {V : Type 0} → (Bytes → V) → ℕ → Bytes → Result Refusal (V × Bytes)
raw_field store room s = do (raw, rest) ← raw_value room s; ok (store raw, rest)

abbrev pub no_ref : Ref
no_ref = record { registry = []; repo = []; revision = []; quant = []; file = []; credential = [] }

-- `if v.Credential != "" { … }`.
abbrev pub optional : Bytes → Bytes → List (Bytes × Bytes)
optional name [] = []
optional name (c ∷ s) = (name, esc (c ∷ s)) ∷ []

unfoldable pub enc_ref : Ref → ℕ → Bytes
enc_ref v depth = object depth (
    (codes "registry", esc v.registry)
    ∷ (codes "repo", esc v.repo)
    ∷ (codes "revision", esc v.revision)
    ∷ (codes "quant", esc v.quant)
    ∷ (codes "file", esc v.file)
    ∷ optional (codes "credential") v.credential)

-- The switch of decodeRef.
unfoldable pub set_ref : ℕ → Setter Ref
set_ref room name v s =
    if equal name (codes "registry")
    then text_field
        (λ x. record {
          registry = x;
          repo = v.repo;
          revision = v.revision;
          quant = v.quant;
          file = v.file;
          credential = v.credential;
        })
        s
    else if equal name (codes "repo")
    then text_field
        (λ x. record {
          registry = v.registry;
          repo = x;
          revision = v.revision;
          quant = v.quant;
          file = v.file;
          credential = v.credential;
        })
        s
    else if equal name (codes "revision")
    then text_field
        (λ x. record {
          registry = v.registry;
          repo = v.repo;
          revision = x;
          quant = v.quant;
          file = v.file;
          credential = v.credential;
        })
        s
    else if equal name (codes "quant")
    then text_field
        (λ x. record {
          registry = v.registry;
          repo = v.repo;
          revision = v.revision;
          quant = x;
          file = v.file;
          credential = v.credential;
        })
        s
    else if equal name (codes "file")
    then text_field
        (λ x. record {
          registry = v.registry;
          repo = v.repo;
          revision = v.revision;
          quant = v.quant;
          file = x;
          credential = v.credential;
        })
        s
    else if equal name (codes "credential")
    then text_field
        (λ x. record {
          registry = v.registry;
          repo = v.repo;
          revision = v.revision;
          quant = v.quant;
          file = v.file;
          credential = x;
        })
        s
    else refuse "unknown_field" s

unfoldable pub decode_ref : ℕ → Bytes → Result Refusal (Ref × Bytes)
decode_ref =
    read_object set_ref no_ref
      (codes "registry" ∷ codes "repo" ∷ codes "revision" ∷ codes "quant" ∷ codes "file" ∷ [])

-- The arguments of Resolve, of either service: the reference.
unfoldable pub enc_arguments : Ref → ℕ → Bytes
enc_arguments ref depth = object depth ((codes "ref", enc_ref ref (suc depth)) ∷ [])

unfoldable pub set_arguments : ℕ → Setter Ref
set_arguments room name v s =
    if equal name (codes "ref") then decode_ref room s else refuse "unknown_field" s

unfoldable pub decode_arguments : ℕ → Bytes → Result Refusal (Ref × Bytes)
decode_arguments = read_object set_arguments no_ref (codes "ref" ∷ [])
