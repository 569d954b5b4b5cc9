-- ===== src/Ollama/Examples.antt =====
-- The theorem on Ollama.Resolve, applied to a model of two layers.
use abstraction_model.Base.{Bytes, [], codes, equal, pos, refl, some, true, ◌++◌, ◌∷◌}
use abstraction_model.Strings.{cut, cut_prefix, has, join, lower_byte, to_lower, trim_prefix}
use abstraction_model.Ref.Examples.{qwen}
use abstraction_model.Ollama.{
  Disk, OllamaManifest, blob_path, decoded, full_name, hex_digest, model_layer, models_root,
  present, read_manifest, resolve_stored, root_or, safe_name, stored_spec, weights_of,
}
use abstraction_model.Ollama.Stored.{IsStored, resolve_stored-IsStored}

abbrev blob_digest : Bytes
blob_digest = codes "0123456789abcdef0123456789abcdef0123456789abcdef0123456789abcdef"

abbrev pulled : OllamaManifest
pulled = record {
  layers =
      record { media_type = codes "x.image.license"; digest = []; size = pos 1 }
      ∷ record {
        media_type = codes "x.image.model";
        digest = codes "sha256:" ++ blob_digest;
        size = pos 9;
      }
      ∷ [];
}

abbrev store : Disk
store = record {
  models_env = [];
  home = some (codes "/home");
  join_path = join (codes "/");
  from_slash = (λ p. p);
  read_file = (λ p. some []);
  decode = (λ t. some pulled);
  stat = (λ p. true);
}

resolve_stored-IsStored_example :
    IsStored store
      (codes "/m")
      qwen
      (stored_spec blob_digest (pos 9) (codes "/m/blobs/sha256-" ++ blob_digest))
unfolding resolve_stored root_or models_root safe_name full_name read_manifest decoded model_layer
    weights_of hex_digest present blob_path has cut cut_prefix trim_prefix to_lower lower_byte join
    equal
resolve_stored-IsStored_example = resolve_stored-IsStored store (codes "/m") qwen refl
