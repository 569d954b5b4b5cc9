-- ===== src/Local/Examples.antt =====
-- The theorems on Augment, applied to a registry's source and two copies, of which it names one.
use abstraction_model.Base.{All, Bytes, [], codes, contains, equal, none, pos, refl, ◌∷◌, ◌≡◌}
use abstraction_model.Download.{Spec, one_source}
use abstraction_model.Local.{
  Local, augment, file_keys, find, hits_of, local_source, offer, place_key,
}
use abstraction_model.Local.Sources.{
  Covered, IsAugmented, augment-Covered, augment-IsAugmented, augment-augment,
}

abbrev copies : Local
copies = record {
  Blob = Bytes;
  store_of = (λ b. codes "ollama");
  size_of = (λ b. pos 7);
  find_all = (λ digest. codes "/a" ∷ codes "/b" ∷ codes "/b" ∷ []);
  path_of_blob = (λ b. b);
  final_path = (λ p. none);
  clean = (λ p. p);
}

abbrev wanted_spec : Spec
wanted_spec = one_source (codes "sha256:ab") (pos 7) (codes "file") (codes "/a") []

augment-IsAugmented_example : IsAugmented copies wanted_spec (augment copies wanted_spec)
augment-IsAugmented_example = augment-IsAugmented copies wanted_spec

augment-Covered_example :
    All
      (Covered copies (file_keys copies (augment copies wanted_spec).sources))
      (find copies (codes "sha256:ab"))
augment-Covered_example = augment-Covered copies wanted_spec

augment-augment_example : augment copies (augment copies wanted_spec) ≡ augment copies wanted_spec
augment-augment_example = augment-augment copies wanted_spec

-- One new source, ahead of the registry's.
augment_run :
    (augment copies wanted_spec).sources
    ≡ local_source 0 (record { store = codes "ollama"; path = codes "/b"; size = pos 7 })
      ∷ wanted_spec.sources
unfolding augment find hits_of offer file_keys place_key contains equal
augment_run = refl
