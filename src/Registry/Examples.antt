-- ===== src/Registry/Examples.antt =====
-- The theorems on the choice of a resolver, applied to a registry of two.
use abstraction_model.Base.{Bytes, [], codes, equal, none, ok, pos, refl, some, ◌∷◌, ◌≡◌}
use abstraction_model.Strings.{trim_space}
use abstraction_model.Download.{Spec, one_source}
use abstraction_model.Ref.{Ref, selector, tagged, to_string}
use abstraction_model.Ref.Examples.{sample_ref, sample_ref-IsPrintable}
use abstraction_model.Registry.{
  Registry, Resolver, checked, choose_resolver, new_service_registry, opaque_ref, resolve_ref,
  resolve_text,
}
use abstraction_model.Registry.Choice.{IsChosen, resolve_ref-IsChosen}
use abstraction_model.Registry.Text.{resolve_text-to_string}

abbrev mapped_spec : Spec
mapped_spec = one_source (codes "sha256:ab") (pos 7) (codes "https") (codes "https://h/f") []

abbrev answering : Bytes → Resolver
answering scheme = record { registry = scheme; resolve = (λ ctx r. ok mapped_spec) }

abbrev two : Registry
two = new_service_registry (answering (codes "a") ∷ answering (codes "b") ∷ [])

abbrev opaque : Ref
opaque = opaque_ref (codes "b") (codes "x/y")

resolve_ref-IsChosen_example : IsChosen none two opaque mapped_spec
unfolding resolve_ref choose_resolver checked equal
resolve_ref-IsChosen_example = resolve_ref-IsChosen none two opaque refl

resolve_text-to_string_example :
    resolve_text none (some two) (to_string sample_ref) ≡ resolve_ref none (some two) sample_ref
unfolding to_string selector tagged trim_space equal
resolve_text-to_string_example = resolve_text-to_string none (some two) sample_ref-IsPrintable refl
