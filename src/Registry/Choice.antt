-- ===== src/Registry/Choice.antt =====
-- Which resolver answers, and what its answer must state.
use mathlib.Core.Path.{sym, ap, ◌∙◌}
use mathlib.Core.List.{Memᴰ}
use abstraction_model.Base.{
  >>=-eq-ok, All, Bool-cases, Bytes, List, Option, [], ap, arith, equal, equal_iff, false, inl, inr,
  none, ok, refl, some, sym, true, ◌++◌, ◌>>=◌, ◌∙◌, ◌∷◌, ◌≡◌, ◌≢◌, ◌⊎◌,
}
use abstraction_model.Download.{Artifact, Source, Spec}
use abstraction_model.Ref.{Ref}
use abstraction_model.Local.{Local}
use abstraction_model.Local.Sources.{augment-IsAugmented}
use abstraction_model.Registry.{
  Context, Registry, Resolver, add, augmented, checked, choose_resolver, resolve_ref,
}

-- No resolver of the list serves the scheme.
abbrev pub NoneServes : Bytes → List Resolver → Type 0
NoneServes scheme = All (λ x. equal x.registry scheme ≡ false)

choose_resolver-skip :
    (ctx : Context) (local : Option Local) (x : Resolver) (xs : List Resolver) (r : Ref)
    → equal x.registry r.registry ≡ false
    → choose_resolver ctx local (x ∷ xs) r ≡ choose_resolver ctx local xs r
unfolding choose_resolver
choose_resolver-skip ctx local x xs r e = rw (choose_resolver, e)

choose_resolver-take :
    (ctx : Context) (local : Option Local) (x : Resolver) (xs : List Resolver) (r : Ref)
    → equal x.registry r.registry ≡ true
    → choose_resolver ctx local (x ∷ xs) r ≡ (x.resolve ctx r >>= checked local)
unfolding choose_resolver
choose_resolver-take ctx local x xs r e = rw (choose_resolver, e)

choose_resolver-append :
    (ctx : Context) (local : Option Local) (xs ys : List Resolver) (r : Ref)
    → NoneServes r.registry xs
    → choose_resolver ctx local (xs ++ ys) r ≡ choose_resolver ctx local ys r
choose_resolver-append ctx local [] ys r h = refl
choose_resolver-append ctx local (x ∷ xs) ys r (h, hs) =
    choose_resolver-skip ctx local x (xs ++ ys) r h ∙ choose_resolver-append ctx local xs ys r hs

-- ResolveRef asks the first resolver of the reference's scheme and no other, whatever resolvers
-- stand behind it, and checks and augments what that resolver answers.
pub resolve_ref-first :
    (ctx : Context) (local : Option Local) (xs ys : List Resolver) (x : Resolver) (r : Ref)
    → NoneServes r.registry xs
    → x.registry ≡ r.registry
    → resolve_ref ctx (some (record { resolvers = xs ++ x ∷ ys; local = local })) r
      ≡ (x.resolve ctx r >>= checked local)
unfolding resolve_ref
resolve_ref-first ctx local xs ys x r none_serves same =
    choose_resolver-append ctx local xs (x ∷ ys) r none_serves
    ∙ choose_resolver-take ctx local x ys r ((equal_iff x.registry r.registry).1 same)

choose_resolver-cases :
    (ctx : Context) (local : Option Local) (xs : List Resolver) (r : Ref) {spec : Spec}
    → choose_resolver ctx local xs r ≡ ok spec
    → (x : Resolver) × Memᴰ x xs
      × (x.registry ≡ r.registry)
      × ((x.resolve ctx r >>= checked local) ≡ ok spec)
choose_resolver-cases ctx local [] r e = unfold choose_resolver in absurd (ground arith)
choose_resolver-cases ctx local (x ∷ xs) r e = elim (Bool-cases (equal x.registry r.registry)) [
  | inl h ↦ (
    x,
    Memᴰ.head refl,
    (equal_iff x.registry r.registry).0 h,
    sym (choose_resolver-take ctx local x xs r h) ∙ e,
  )
  | inr h ↦
      let (y, m, s, a) =
        choose_resolver-cases ctx local xs r (sym (choose_resolver-skip ctx local x xs r h) ∙ e) in
      (y, Memᴰ.tail m, s, a)
]

-- What ResolveRef answers on success: a resolver of the reference's scheme answered with a digest
-- that is not empty, and the result has that resolver's artifact, and all its sources behind those
-- that the local stores add.
pub record IsChosen (ctx : Context) (reg : Registry) (r : Ref) (spec : Spec) : Type 0 where
  pub resolver : Resolver
  pub answer : Spec
  pub listed : Memᴰ resolver reg.resolvers
  pub serves : resolver.registry ≡ r.registry
  pub answered : resolver.resolve ctx r ≡ ok answer
  pub artifact_is : spec.artifact ≡ answer.artifact
  pub digest_ne_nil : spec.artifact.digest ≢ []
  pub front : List Source
  pub sources_are : spec.sources ≡ front ++ answer.sources

augmented-keeps :
    (local : Option Local) (spec : Spec)
    → ((augmented local spec).artifact ≡ spec.artifact)
      × ((front : List Source) × ((augmented local spec).sources ≡ front ++ spec.sources))
augmented-keeps none spec = (refl, ([], refl))
augmented-keeps (some l) spec =
    let a = augment-IsAugmented l spec in (a.artifact_is, (a.added, a.sources_are))

checked-ok :
    (local : Option Local) (answer : Spec) {spec : Spec}
    → checked local answer ≡ ok spec
    → (answer.artifact.digest ≢ []) × (augmented local answer ≡ spec)
unfolding checked
checked-ok local answer {spec} e = elim (Bool-cases (equal answer.artifact.digest [])) [
  | inl h ↦ absurd (ground arith)
  | inr h ↦ (ground (arith, equal_iff answer.artifact.digest []), ground arith)
]

-- ResolveRef never answers a spec without a digest: it answers with the artifact of a resolver of
-- the reference's scheme, and with that resolver's sources behind the local ones.
pub resolve_ref-IsChosen :
    (ctx : Context) (reg : Registry) (r : Ref) {spec : Spec}
    → resolve_ref ctx (some reg) r ≡ ok spec
    → IsChosen ctx reg r spec
unfolding resolve_ref
resolve_ref-IsChosen ctx reg r {spec} e =
    let (x, m, serves, a) = choose_resolver-cases ctx reg.local reg.resolvers r e in
    let (answer, found, c) = >>=-eq-ok (x.resolve ctx r) _ a in
    let (n, same) = checked-ok reg.local answer c in
    let (artifact, (front, sources)) = augmented-keeps reg.local answer in
    let kept : spec.artifact ≡ answer.artifact =
      ap (λ (s : Spec). s.artifact) (sym same) ∙ artifact in
    record {
      resolver = x;
      answer = answer;
      listed = m;
      serves = serves;
      answered = found;
      artifact_is = kept;
      digest_ne_nil = (λ d. n (ap (λ (a : Artifact). a.digest) (sym kept) ∙ d));
      front = front;
      sources_are = ap (λ (s : Spec). s.sources) (sym same) ∙ sources;
    }

choose_resolver-add :
    (ctx : Context) (local : Option Local) (xs : List Resolver) (x : Resolver) (r : Ref)
    → (NoneServes r.registry xs)
      ⊎ (choose_resolver ctx local (xs ++ x ∷ []) r ≡ choose_resolver ctx local xs r)
choose_resolver-add ctx local [] x r = inl tt
choose_resolver-add ctx local (y ∷ xs) x r = elim (Bool-cases (equal y.registry r.registry)) [
  | inl h ↦ inr (
      choose_resolver-take ctx local y (xs ++ x ∷ []) r h
      ∙ sym (choose_resolver-take ctx local y xs r h))
  | inr h ↦ elim (choose_resolver-add ctx local xs x r) [
    | inl n ↦ inl (h, n)
    | inr e ↦ inr (
        choose_resolver-skip ctx local y (xs ++ x ∷ []) r h
        ∙ e
        ∙ sym (choose_resolver-skip ctx local y xs r h))
  ]
]

-- Add never changes what a registry answers for a scheme that it already serves.
pub add-resolve_ref :
    (ctx : Context) (reg : Registry) (x : Resolver) (r : Ref)
    → (NoneServes r.registry reg.resolvers)
      ⊎ (resolve_ref ctx (some (add reg x)) r ≡ resolve_ref ctx (some reg) r)
unfolding resolve_ref
add-resolve_ref ctx reg x r = choose_resolver-add ctx reg.local reg.resolvers x r
