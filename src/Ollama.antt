-- ===== src/Ollama.antt =====
-- go/ollama.go: the resolver of models that Ollama has pulled.
mod Examples
pub mod Stored
use abstraction_model.Base.{
  Bool, Bytes, List, Option, Result, [], codes, equal, err, if◌then◌else◌, length, none, ok, some,
  ℤ, ◌++◌, ◌==◌, ◌>>=◌, ◌∷◌,
}
use abstraction_model.Strings.{has, to_lower, trim_prefix}
use abstraction_model.Download.{Spec, one_source}
use abstraction_model.Ref.{Ref}

pub record OllamaLayer : Type 0 where
  pub media_type : Bytes
  pub digest : Bytes
  pub size : ℤ

pub record OllamaManifest : Type 0 where
  pub layers : List OllamaLayer

-- What Resolve reads: the value of OLLAMA_MODELS, the home directory if there is one, the files, the
-- JSON decoder, os.Stat, and filepath.Join and filepath.FromSlash.
pub record Disk : Type 0 where
  pub models_env : Bytes
  pub home : Option Bytes
  pub join_path : List Bytes → Bytes
  pub from_slash : Bytes → Bytes
  pub read_file : Bytes → Option Bytes
  pub decode : Bytes → Option OllamaManifest
  pub stat : Bytes → Bool

pub data OllamaError : Type 0 where
  no_root : OllamaError
  suspicious_name : Bytes → OllamaError
  not_pulled : Bytes → Bytes → Bytes → OllamaError
  unreadable : Bytes → OllamaError
  no_model_layer : Bytes → Bytes → OllamaError
  not_sha256 : Bytes → OllamaError
  no_blob : Bytes → OllamaError

abbrev pub home_models : Disk → Option Bytes → Bytes
home_models d none = []
home_models d (some home) = d.join_path (home ∷ codes ".ollama" ∷ codes "models" ∷ [])

-- root, for the field Root.
unfoldable pub models_root : Disk → Bytes → Bytes
models_root d root =
    if equal root []
    then (if equal d.models_env [] then home_models d d.home else d.models_env)
    else root

unfoldable pub tag_of : Ref → Bytes
tag_of r = if equal r.revision [] then codes "latest" else r.revision

unfoldable pub full_name : Bytes → Bytes
full_name name = if has (codes "/") name then name else codes "library/" ++ name

unfoldable pub manifest_path : Disk → Bytes → Bytes → Bytes → Bytes
manifest_path d root name tag =
    d.join_path
      (root ∷ codes "manifests" ∷ codes "registry.ollama.ai" ∷ d.from_slash name ∷ tag ∷ [])

abbrev pub model_mark : Bytes
model_mark = codes ".image.model"

-- The first layer with the model's media type.
unfoldable pub weights_of : List OllamaLayer → Option OllamaLayer
weights_of [] = none
weights_of (l ∷ ls) = if has model_mark l.media_type then some l else weights_of ls

unfoldable pub root_or : Disk → Bytes → Result OllamaError Bytes
root_or d root = if equal (models_root d root) [] then err no_root else ok (models_root d root)

unfoldable pub safe_name : Ref → Result OllamaError Bytes
safe_name r =
    if has (codes "..") (full_name r.repo)
    then err (suspicious_name r.repo)
    else ok (full_name r.repo)

unfoldable pub read_manifest : Disk → Ref → Bytes → Result OllamaError Bytes
read_manifest d r path = elim (d.read_file path) [
  | none ↦ err (not_pulled r.repo (tag_of r) path)
  | some text ↦ ok text
]

unfoldable pub decoded : Disk → Bytes → Bytes → Result OllamaError OllamaManifest
decoded d path text = elim (d.decode text) [ none ↦ err (unreadable path) | some m ↦ ok m ]

unfoldable pub model_layer : Ref → OllamaManifest → Result OllamaError OllamaLayer
model_layer r m = elim (weights_of m.layers) [
  | none ↦ err (no_model_layer r.repo (tag_of r))
  | some l ↦ ok l
]

abbrev pub bare_digest : OllamaLayer → Bytes
bare_digest l = to_lower (trim_prefix (codes "sha256:") l.digest)

unfoldable pub hex_digest : OllamaLayer → Result OllamaError Bytes
hex_digest l =
    if length (bare_digest l) == 64 then ok (bare_digest l) else err (not_sha256 l.digest)

unfoldable pub blob_path : Disk → Bytes → Bytes → Bytes
blob_path d root digest = d.join_path (root ∷ codes "blobs" ∷ (codes "sha256-" ++ digest) ∷ [])

unfoldable pub present : Disk → Bytes → Result OllamaError Bytes
present d path = if d.stat path then ok path else err (no_blob path)

abbrev pub stored_spec : Bytes → ℤ → Bytes → Spec
stored_spec digest size blob =
    one_source (codes "sha256:" ++ digest) size (codes "file") blob
      ((codes "store", codes "ollama") ∷ [])

-- Resolve.
unfoldable pub resolve_stored : Disk → Bytes → Ref → Result OllamaError Spec
resolve_stored d o r = do
  root ← root_or d o
  name ← safe_name r
  text ← read_manifest d r (manifest_path d root name (tag_of r))
  m ← decoded d (manifest_path d root name (tag_of r)) text
  l ← model_layer r m
  digest ← hex_digest l
  blob ← present d (blob_path d root digest)
  ok (stored_spec digest l.size blob)
