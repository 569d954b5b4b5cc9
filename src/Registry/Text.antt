-- ===== src/Registry/Text.antt =====
-- From a text to the resolver that it is meant for.
use mathlib.Core.List.{append-nil}
use mathlib.Core.Path.{sym, ap, ◌∙◌}
use abstraction_model.Base.{
  Bytes, Option, Result, [], ap, append-nil, arith, codes, equal_iff, equal_self, ok, refl, some,
  sym, ◌++◌, ◌==◌, ◌>>=◌, ◌∙◌, ◌≡◌, ◌≢◌,
}
use abstraction_model.Strings.{cut, cut_at, cut_byte, cut_prefix, split, trim_space}
use abstraction_model.Strings.Fields.{Lacks}
use abstraction_model.Strings.Trim.{cut-append, put_all}
use abstraction_model.Ref.{Ref, hf_repo, parse_hf, parse_ref, to_string}
use abstraction_model.Ref.RoundTrip.{
  IsPrintable, hf_body, parse_hf-hf_body, parse_ref-to_string, to_string_hf,
}
use abstraction_model.Registry.{
  Context, ModelError, Registry, opaque_ref, parse_built_in, ref_of, resolve_ref, resolve_text,
}

-- The scheme holds no colon.
abbrev pub IsScheme : Bytes → Type 0
IsScheme = Lacks (λ c. b':' == c)

cut_mark : (t : Bytes) → cut (codes "://") (codes "://" ++ t) ≡ some ([], t)
unfolding cut cut_prefix
cut_mark t = refl

cut-scheme :
    (scheme t : Bytes)
    → IsScheme scheme
    → cut (codes "://") (scheme ++ (codes "://" ++ t)) ≡ some (scheme, t)
cut-scheme scheme t h =
    cut-append b':' (codes "//") scheme (codes "://" ++ t) h
    ∙ ap (put_all scheme) (cut_mark t)
    ∙ ap (λ (s : Bytes). some (s, t)) (append-nil scheme)

-- Resolve on a text with no white space at its ends, which begins with a scheme.
resolve_text-cut :
    (ctx : Context) (reg : Option Registry) (text scheme t : Bytes)
    → trim_space text ≡ text
    → text ≡ scheme ++ (codes "://" ++ t)
    → IsScheme scheme
    → resolve_text ctx reg text ≡ (ref_of text (some (scheme, t)) >>= resolve_ref ctx reg)
unfolding resolve_text
resolve_text-cut ctx reg text scheme t trimmed is h =
    let e : cut (codes "://") text ≡ some (scheme, t) =
      ap (cut (codes "://")) is ∙ cut-scheme scheme t h in
    ap (λ (s : Bytes). ref_of s (cut (codes "://") s) >>= resolve_ref ctx reg) trimmed
    ∙ ap (λ (o : Option (Bytes × Bytes)). ref_of text o >>= resolve_ref ctx reg) e

to_string-opaque :
    (scheme locator : Bytes)
    → scheme ≢ []
    → scheme ≢ codes "hf"
    → scheme ≢ codes "ollama"
    → to_string (opaque_ref scheme locator) ≡ scheme ++ (codes "://" ++ locator)
unfolding to_string
to_string-opaque scheme locator n h o =
    ground
      (arith, equal_iff scheme [], equal_iff scheme (codes "hf"), equal_iff scheme (codes "ollama"))

ref_of-opaque :
    (text scheme locator : Bytes)
    → scheme ≢ []
    → locator ≢ []
    → scheme ≢ codes "hf"
    → scheme ≢ codes "ollama"
    → ref_of text (some (scheme, locator)) ≡ ok (opaque_ref scheme locator)
unfolding ref_of
ref_of-opaque text scheme locator n l h o = ground (
  arith,
  equal_iff scheme [],
  equal_iff locator [],
  equal_iff scheme (codes "hf"),
  equal_iff scheme (codes "ollama"),
)

-- The text that String prints for a reference in a scheme of a provider's own reaches ResolveRef as
-- that reference, its locator as it stands, if neither is empty, the scheme holds no colon, and the
-- text has no white space at its ends.
pub resolve_text-opaque :
    (ctx : Context) (reg : Option Registry) (scheme locator : Bytes)
    → IsScheme scheme
    → scheme ≢ []
    → locator ≢ []
    → scheme ≢ codes "hf"
    → scheme ≢ codes "ollama"
    → trim_space (to_string (opaque_ref scheme locator)) ≡ to_string (opaque_ref scheme locator)
    → resolve_text ctx reg (to_string (opaque_ref scheme locator))
      ≡ resolve_ref ctx reg (opaque_ref scheme locator)
resolve_text-opaque ctx reg scheme locator plain n l h o trimmed =
    let text = to_string (opaque_ref scheme locator) in
    resolve_text-cut ctx reg text scheme locator trimmed (to_string-opaque scheme locator n h o)
      plain
    ∙ ap (λ (r : Result ModelError Ref). r >>= resolve_ref ctx reg)
        (ref_of-opaque text scheme locator n l h o)

hf_body-ne-nil : {r : Ref} → IsPrintable r → hf_body r ≢ []
unfolding parse_hf hf_repo cut_at cut_byte split
hf_body-ne-nil {r} h e =
    let e1 : parse_hf [] ≡ ok r = ap parse_hf (sym e) ∙ parse_hf-hf_body h in absurd (ground arith)

parse_built_in-ok : (text : Bytes) {r : Ref} → parse_ref text ≡ ok r → parse_built_in text ≡ ok r
unfolding parse_built_in
parse_built_in-ok text e = rw (parse_built_in, e)

ref_of-hf :
    (text body : Bytes) → body ≢ [] → ref_of text (some (codes "hf", body)) ≡ parse_built_in text
unfolding ref_of
ref_of-hf text body n =
    ground (arith, equal_iff body [], equal_self (codes "hf"), equal_iff (codes "hf") [])

-- The text that String prints for an hf reference reaches ResolveRef as that reference, under the
-- conditions of the round trip through ParseRef.
pub resolve_text-to_string :
    (ctx : Context) (reg : Option Registry) {r : Ref}
    → IsPrintable r
    → trim_space (to_string r) ≡ to_string r
    → resolve_text ctx reg (to_string r) ≡ resolve_ref ctx reg r
resolve_text-to_string ctx reg {r} h trimmed =
    resolve_text-cut ctx reg (to_string r) (codes "hf") (hf_body r) trimmed
      (to_string_hf r h.shape.registry_is) (refl, (refl, tt))
    ∙ ap (λ (x : Result ModelError Ref). x >>= resolve_ref ctx reg)
        (ref_of-hf (to_string r) (hf_body r) (hf_body-ne-nil h)
          ∙ parse_built_in-ok (to_string r) (parse_ref-to_string h trimmed))
