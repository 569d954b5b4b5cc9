-- ===== src/Registry.antt =====
-- go/model.go: the resolvers that a program has, and the choice between them.
mod Examples
pub mod Choice
pub mod Text
use abstraction_model.Base.{
  Bytes, List, Option, Result, [], codes, equal, err, false, if◌then◌else◌, none, ok, some, true,
  ◌++◌, ◌>>=◌, ◌||◌, ◌∷◌,
}
use abstraction_model.Strings.{cut, trim_space}
use abstraction_model.Download.{CredentialError, Spec}
use abstraction_model.Credentials.{CredentialHeaders}
use abstraction_model.Ref.{Ref, RefError, parse_ref}
use abstraction_model.Local.{Local, augment}

-- What a lookup fails with: ErrMissingDigest, ErrNoResolver, a *download.CredentialError, the two
-- refusals of a text, or any other error of a resolver.
pub data ModelError : Type 0 where
  missing_digest : ModelError
  no_registry : ModelError
  no_resolver : Bytes → ModelError
  refused : CredentialError → ModelError
  no_locator : Bytes → ModelError
  not_parsed : RefError → ModelError
  other : Bytes → ModelError

-- What a resolver reads of its context: the applier that WithCredentials has put into it.
abbrev pub Context : Type 0
Context = Option CredentialHeaders

-- Resolver: one registry's scheme, and its Resolve.
pub record Resolver : Type 0 where
  pub registry : Bytes
  pub resolve : Context → Ref → Result ModelError Spec

pub record Registry : Type 1 where
  pub resolvers : List Resolver
  pub local : Option Local

-- NewRegistry, with the local stores that NewLocal finds.
abbrev pub new_registry : Local → List Resolver → Registry
new_registry l rs = record { resolvers = rs; local = some l }

abbrev pub new_service_registry : List Resolver → Registry
new_service_registry rs = record { resolvers = rs; local = none }

abbrev pub add : Registry → Resolver → Registry
add reg x = record { resolvers = reg.resolvers ++ x ∷ []; local = reg.local }

abbrev pub set_local : Registry → Local → Registry
set_local reg l = record { resolvers = reg.resolvers; local = some l }

abbrev pub augmented : Option Local → Spec → Spec
augmented none spec = spec
augmented (some l) spec = augment l spec

-- What stands behind the resolver's answer.
unfoldable pub checked : Option Local → Spec → Result ModelError Spec
checked local spec =
    if equal spec.artifact.digest [] then err missing_digest else ok (augmented local spec)

-- The loop over the resolvers.
unfoldable pub choose_resolver :
    Context → Option Local → List Resolver → Ref → Result ModelError Spec
choose_resolver ctx local [] r = err (no_resolver r.registry)
choose_resolver ctx local (x ∷ xs) r = elim (equal x.registry r.registry) [
  | true ↦ x.resolve ctx r >>= checked local
  | false ↦ choose_resolver ctx local xs r
]

-- ResolveRef, on a registry that may be nil.
unfoldable pub resolve_ref : Context → Option Registry → Ref → Result ModelError Spec
resolve_ref ctx none r = err no_registry
resolve_ref ctx (some reg) r = choose_resolver ctx reg.local reg.resolvers r

-- A reference in a scheme of a provider's own.
abbrev pub opaque_ref : Bytes → Bytes → Ref
opaque_ref scheme locator = record {
  registry = scheme;
  repo = locator;
  revision = [];
  quant = [];
  file = [];
  credential = [];
}

unfoldable pub parse_built_in : Bytes → Result ModelError Ref
parse_built_in text = elim (parse_ref text) [ ok r ↦ ok r | err e ↦ err (not_parsed e) ]

-- The reference that a trimmed text names, from its two halves around `://`.
unfoldable pub ref_of : Bytes → Option (Bytes × Bytes) → Result ModelError Ref
ref_of text none = err (no_locator text)
ref_of text (some (scheme, locator)) =
    if equal scheme [] || equal locator []
    then err (no_locator text)
    else if equal scheme (codes "hf") || equal scheme (codes "ollama")
    then parse_built_in text
    else ok (opaque_ref scheme locator)

-- Registry.Resolve.
unfoldable pub resolve_text : Context → Option Registry → Bytes → Result ModelError Spec
resolve_text ctx reg text = do
  r ← ref_of (trim_space text) (cut (codes "://") (trim_space text))
  resolve_ref ctx reg r

-- Submit, with job.Store as a parameter: `submit` is download.Submit on the store at hand.
unfoldable pub submit :
    Context
    → (Spec → Result ModelError Bytes)
    → Option Registry
    → Bytes
    → Bytes
    → Result ModelError (Bytes × Spec)
submit ctx send reg text dest = do
  spec ← resolve_text ctx reg text
  id ← send (record spec { sink = dest })
  ok (id, record spec { sink = dest })
