-- ===== src/Ollama/Stored.antt =====
-- What Ollama.Resolve answers: a blob that is there, named by the digest that it is answered with.
use mathlib.Core.Path.{sym, ap, ◌∙◌}
use mathlib.Core.List.{Memᴰ}
use abstraction_model.Base.{
  >>=-eq-ok, Bool-cases, Bytes, List, Option-cases, [], ap, arith, codes, equal, equal_iff, false,
  inl, inr, length, ok, some, sym, true, ◌==◌, ◌∙◌, ◌∷◌, ◌≡◌, ◌≢◌,
}
use abstraction_model.Strings.{has}
use abstraction_model.Download.{Spec}
use abstraction_model.Ref.{Ref}
use abstraction_model.Ollama.{
  Disk, OllamaLayer, OllamaManifest, bare_digest, blob_path, decoded, full_name, hex_digest,
  manifest_path, model_layer, model_mark, models_root, present, read_manifest, resolve_stored,
  root_or, safe_name, stored_spec, tag_of, weights_of,
}

-- A resolved reference to a pulled model.
pub record IsStored (d : Disk) (o : Bytes) (r : Ref) (spec : Spec) : Type 0 where
  pub digest : Bytes
  pub manifest : OllamaManifest
  pub layer : OllamaLayer
  pub root_ne_nil : models_root d o ≢ []
  pub no_parent : has (codes "..") (full_name r.repo) ≡ false
  pub text : Bytes
  pub read :
      d.read_file (manifest_path d (models_root d o) (full_name r.repo) (tag_of r)) ≡ some text
  pub decoded_as : d.decode text ≡ some manifest
  pub first : weights_of manifest.layers ≡ some layer
  pub listed : Memᴰ layer manifest.layers
  pub is_model : has model_mark layer.media_type ≡ true
  pub digest_is : digest ≡ bare_digest layer
  pub digest_length : length digest ≡ 64
  pub blob_there : d.stat (blob_path d (models_root d o) digest) ≡ true
  pub spec_is : spec ≡ stored_spec digest layer.size (blob_path d (models_root d o) digest)

root_or-ok :
    (d : Disk) (o : Bytes) {root : Bytes}
    → root_or d o ≡ ok root
    → (models_root d o ≢ []) × (root ≡ models_root d o)
unfolding root_or
root_or-ok d o e = elim (Bool-cases (equal (models_root d o) [])) [
  | inl h ↦ absurd (ground arith)
  | inr h ↦ (ground (arith, equal_iff (models_root d o) []), ground arith)
]

safe_name-ok :
    (r : Ref) {name : Bytes}
    → safe_name r ≡ ok name
    → (has (codes "..") (full_name r.repo) ≡ false) × (name ≡ full_name r.repo)
unfolding safe_name
safe_name-ok r e = elim (Bool-cases (has (codes "..") (full_name r.repo))) [
  | inl h ↦ absurd (ground arith)
  | inr h ↦ (h, ground arith)
]

read_manifest-ok :
    (d : Disk) (r : Ref) (path : Bytes) {text : Bytes}
    → read_manifest d r path ≡ ok text
    → d.read_file path ≡ some text
unfolding read_manifest
read_manifest-ok d r path e = elim (Option-cases (d.read_file path)) [
  | inl h ↦ absurd (ground arith)
  | inr (x, h) ↦ ground arith
]

decoded-ok :
    (d : Disk) (path text : Bytes) {m : OllamaManifest}
    → decoded d path text ≡ ok m
    → d.decode text ≡ some m
unfolding decoded
decoded-ok d path text e = elim (Option-cases (d.decode text)) [
  | inl h ↦ absurd (ground arith)
  | inr (x, h) ↦ ground arith
]

weights_of-some :
    (ls : List OllamaLayer) {l : OllamaLayer}
    → weights_of ls ≡ some l
    → Memᴰ l ls × (has model_mark l.media_type ≡ true)
unfolding weights_of
weights_of-some [] e = absurd (ground arith)
weights_of-some (x ∷ ls) {l} e = elim (Bool-cases (has model_mark x.media_type)) [
  | inl h ↦
      let same : l ≡ x = ground arith in
      (Memᴰ.head same, ap (λ (y : OllamaLayer). has model_mark y.media_type) same ∙ h)
  | inr h ↦ let (m, k) = weights_of-some ls (rw h at e) in (Memᴰ.tail m, k)
]

model_layer-ok :
    (r : Ref) (m : OllamaManifest) {l : OllamaLayer}
    → model_layer r m ≡ ok l
    → weights_of m.layers ≡ some l
unfolding model_layer
model_layer-ok r m e = elim (Option-cases (weights_of m.layers)) [
  | inl h ↦ absurd (ground arith)
  | inr (x, h) ↦ ground arith
]

hex_digest-ok :
    (l : OllamaLayer) {digest : Bytes}
    → hex_digest l ≡ ok digest
    → (digest ≡ bare_digest l) × (length (bare_digest l) ≡ 64)
unfolding hex_digest
hex_digest-ok l e = elim (Bool-cases (length (bare_digest l) == 64)) [
  | inl h ↦ (ground arith, ground arith)
  | inr h ↦ absurd (ground arith)
]

present-ok :
    (d : Disk) (path : Bytes) {blob : Bytes}
    → present d path ≡ ok blob
    → (d.stat path ≡ true) × (blob ≡ path)
unfolding present
present-ok d path e = elim (Bool-cases (d.stat path)) [
  | inl h ↦ (h, ground arith)
  | inr h ↦ absurd (ground arith)
]

-- A successful Resolve answers with one file source, a blob that is there, which is named by the
-- digest that the spec states: 64 characters, in lower case, of the first model layer that the
-- manifest of the tag lists; the name holds no two dots.
pub resolve_stored-IsStored :
    (d : Disk) (o : Bytes) (r : Ref) {spec : Spec}
    → resolve_stored d o r ≡ ok spec
    → IsStored d o r spec
unfolding resolve_stored
resolve_stored-IsStored d o r {spec} e =
    let (root, rooted, e1) = >>=-eq-ok (root_or d o) _ e in
    let (name, named, e2) = >>=-eq-ok (safe_name r) _ e1 in
    let path = manifest_path d root name (tag_of r) in
    let (text, read, e3) = >>=-eq-ok (read_manifest d r path) _ e2 in
    let (m, parsed, e4) = >>=-eq-ok (decoded d path text) _ e3 in
    let (l, layered, e5) = >>=-eq-ok (model_layer r m) _ e4 in
    let (digest, hex, e6) = >>=-eq-ok (hex_digest l) _ e5 in
    let (blob, there, e7) = >>=-eq-ok (present d (blob_path d root digest)) _ e6 in
    let (root_ne, root_is) = root_or-ok d o rooted in
    let (no_dots, name_is) = safe_name-ok r named in
    let (mem, mark) = weights_of-some m.layers (model_layer-ok r m layered) in
    let (digest_same, size) = hex_digest-ok l hex in
    let (stat, blob_is) = present-ok d (blob_path d root digest) there in
    record {
      digest = digest;
      manifest = m;
      layer = l;
      root_ne_nil = root_ne;
      no_parent = no_dots;
      text = text;
      read =
          ap (λ (x : Bytes). d.read_file (manifest_path d x (full_name r.repo) (tag_of r)))
            (sym root_is)
          ∙ ap (λ (x : Bytes). d.read_file (manifest_path d root x (tag_of r))) (sym name_is)
          ∙ read_manifest-ok d r path read;
      decoded_as = decoded-ok d path text parsed;
      first = model_layer-ok r m layered;
      listed = mem;
      is_model = mark;
      digest_is = digest_same;
      digest_length = ap length digest_same ∙ size;
      blob_there = ap (λ (x : Bytes). d.stat (blob_path d x digest)) (sym root_is) ∙ stat;
      spec_is =
          let made : stored_spec digest l.size blob ≡ spec = ground arith in
          sym made
          ∙ ap (stored_spec digest l.size)
              (blob_is ∙ ap (λ (x : Bytes). blob_path d x digest) root_is);
    }
