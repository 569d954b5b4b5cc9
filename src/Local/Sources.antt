-- ===== src/Local/Sources.antt =====
-- What Augment adds: each place once, none that the registry already named, all that Find answers.
use mathlib.Core.List.{Memᴰ}
use mathlib.Core.Path.{subst, sym, ap, ◌∙◌}
use abstraction_model.Base.{
  All, Bool-cases, Bytes, List, [], ap, arith, codes, contains, contains-append, equal, equal_self,
  false, inl, inr, negsuc, pos, refl, suc, sym, true, ℕ, ℤ, ◌++◌, ◌+◌, ◌∙◌, ◌∷◌, ◌≡◌,
}
use abstraction_model.Download.{Source, Spec}
use abstraction_model.Local.{
  Hit, Local, augment, augment_with, file_keys, file_scheme, find, local_priority, local_source,
  offer, place_key,
}

-- The number is -100 + n.
abbrev pub CountsFrom : ℕ → ℤ → Type 0
CountsFrom n (negsuc m) = suc m + n ≡ 100
CountsFrom n (pos m) = 100 + m ≡ n

local_priority-CountsFrom : (n : ℕ) → CountsFrom n (local_priority n)
unfolding local_priority
local_priority-CountsFrom n = ground arith

-- A file source for the hit, at the place of its file.
pub record IsLocalSource (n : ℕ) (h : Hit) (s : Source) : Type 0 where
  pub scheme_is : s.scheme ≡ codes "file"
  pub locator_is : s.locator ≡ h.path
  pub store_is : s.attrs ≡ (codes "store", h.store) ∷ []
  pub headers_are : s.headers ≡ []
  pub priority_is : CountsFrom n s.priority

local_source-IsLocalSource : (n : ℕ) (h : Hit) → IsLocalSource n h (local_source n h)
local_source-IsLocalSource n h = record {
  scheme_is = refl;
  locator_is = refl;
  store_is = refl;
  headers_are = refl;
  priority_is = local_priority-CountsFrom n;
}

-- Sources for hits among `hits`, at new places: none of the known keys, no key twice, and priorities
-- counted from `n`.
pub data Fresh (l : Local) (hits : List Hit) : List Bytes → ℕ → List Source → Type 0 where
  done : {known : List Bytes} {n : ℕ} → Fresh l hits known n []
  next :
      {known : List Bytes} {n : ℕ} {s : Source} {ss : List Source} (h : Hit)
      → Memᴰ h hits
      → IsLocalSource n h s
      → contains (place_key l h.path) known ≡ false
      → Fresh l hits (place_key l h.path ∷ known) (suc n) ss
      → Fresh l hits known n (s ∷ ss)

offer-Fresh :
    (l : Local) (hits : List Hit) (known : List Bytes) (n : ℕ) (hs : List Hit)
    → ((h : Hit) → Memᴰ h hs → Memᴰ h hits)
    → Fresh l hits known n (offer l known n hs)
unfolding offer
offer-Fresh l hits known n [] among = done
offer-Fresh l hits known n (h ∷ hs) among =
    let among_later = λ (x : Hit) (m : Memᴰ x hs). among x (Memᴰ.tail m) in
    elim (Bool-cases (contains (place_key l h.path) known)) [
      | inl e ↦ rw (offer, e) (offer-Fresh l hits known n hs among_later)
      | inr e ↦
          rw (offer, e)
            (next h (among h (Memᴰ.head refl)) (local_source-IsLocalSource n h) e
              (offer-Fresh l hits (place_key l h.path ∷ known) (suc n) hs among_later))
    ]

-- The spec that Augment answers: the same artifact, and new local sources in front of the old ones.
pub record IsAugmented (l : Local) (spec out : Spec) : Type 0 where
  pub added : List Source
  pub fresh : Fresh l (find l spec.artifact.digest) (file_keys l spec.sources) 0 added
  pub sources_are : out.sources ≡ added ++ spec.sources
  pub artifact_is : out.artifact ≡ spec.artifact
  pub sink_is : out.sink ≡ spec.sink
  pub request_is : out.request ≡ spec.request

augment_with-IsAugmented :
    (l : Local) (spec : Spec) (hs : List Hit)
    → find l spec.artifact.digest ≡ hs
    → IsAugmented l spec (augment_with l spec hs)
augment_with-IsAugmented l spec [] finds = record {
  added = [];
  fresh = done;
  sources_are = refl;
  artifact_is = refl;
  sink_is = refl;
  request_is = refl;
}
augment_with-IsAugmented l spec (h ∷ hs) finds = record {
  added = offer l (file_keys l spec.sources) 0 (h ∷ hs);
  fresh =
      offer-Fresh l (find l spec.artifact.digest) (file_keys l spec.sources) 0 (h ∷ hs)
        (λ x m. subst (Memᴰ x) (sym finds) m);
  sources_are = refl;
  artifact_is = refl;
  sink_is = refl;
  request_is = refl;
}

-- Augment keeps the artifact, the sink and the registry's sources in their order, and puts in front
-- of them file sources of hits that Find answers, at places that neither the registry's file sources nor each other name, each
-- with the name of its store, with no headers, and with priorities that count up from -100.
pub augment-IsAugmented : (l : Local) (spec : Spec) → IsAugmented l spec (augment l spec)
unfolding augment
augment-IsAugmented l spec = augment_with-IsAugmented l spec (find l spec.artifact.digest) refl

-- A hit whose place is among the keys.
abbrev pub Covered : Local → List Bytes → Hit → Type 0
Covered l keys h = contains (place_key l h.path) keys ≡ true

file_keys-append :
    (l : Local) (xs ys : List Source) → file_keys l (xs ++ ys) ≡ file_keys l xs ++ file_keys l ys
unfolding file_keys
file_keys-append l [] ys = refl
file_keys-append l (x ∷ xs) ys = elim (Bool-cases (equal x.scheme file_scheme)) [
  | inl e ↦ rw (e, file_keys-append l xs ys)
  | inr e ↦ rw (e, file_keys-append l xs ys)
]

offer-Covered_key :
    (l : Local) (known : List Bytes) (n : ℕ) (hs : List Hit) (key : Bytes)
    → contains key known ≡ true
    → contains key (file_keys l (offer l known n hs) ++ known) ≡ true
offer-Covered_key l known n hs key h =
    ground (arith, contains-append key (file_keys l (offer l known n hs)) known)

contains_middle :
    (a k : Bytes) (xs ys : List Bytes) → contains a (xs ++ k ∷ ys) ≡ contains a (k ∷ (xs ++ ys))
unfolding contains
contains_middle a k [] ys = refl
contains_middle a k (x ∷ xs) ys = ground (arith, contains_middle a k xs ys)

All-map_contains :
    (l : Local) (xs ys : List Bytes)
    → ((a : Bytes) → contains a xs ≡ contains a ys)
    → (hs : List Hit) → All (Covered l xs) hs
    → All (Covered l ys) hs
All-map_contains l xs ys same [] h = tt
All-map_contains l xs ys same (x ∷ hs) (h, rest) =
    (sym (same (place_key l x.path)) ∙ h, All-map_contains l xs ys same hs rest)

file_keys-local_source :
    (l : Local) (n : ℕ) (h : Hit) (ss : List Source)
    → file_keys l (local_source n h ∷ ss) ≡ place_key l h.path ∷ file_keys l ss
unfolding file_keys equal
file_keys-local_source l n h ss = refl

offer-known :
    (l : Local) (known : List Bytes) (n : ℕ) (h : Hit) (hs : List Hit)
    → Covered l known h
    → offer l known n (h ∷ hs) ≡ offer l known n hs
unfolding offer
offer-known l known n h hs e = rw (offer, e)

offer-new :
    (l : Local) (known : List Bytes) (n : ℕ) (h : Hit) (hs : List Hit)
    → contains (place_key l h.path) known ≡ false
    → offer l known n (h ∷ hs) ≡ local_source n h ∷ offer l (place_key l h.path ∷ known) (suc n) hs
unfolding offer
offer-new l known n h hs e = rw (offer, e)

-- The places that the sources `ss` name, or that are known, cover the hits.
abbrev CoveredBy : Local → List Bytes → List Hit → List Source → Type 0
CoveredBy l known hs ss = All (Covered l (file_keys l ss ++ known)) hs

contains_head : (a : Bytes) (xs : List Bytes) → contains a (a ∷ xs) ≡ true
unfolding contains
contains_head a xs = ground (arith, equal_self a)

offer-Covered :
    (l : Local) (known : List Bytes) (n : ℕ) (hs : List Hit)
    → CoveredBy l known hs (offer l known n hs)
offer-Covered l known n [] = tt
offer-Covered l known n (h ∷ hs) =
    let key = place_key l h.path in
    let later = offer l (key ∷ known) (suc n) hs in
    elim (Bool-cases (contains key known)) [
      | inl e ↦
          subst (CoveredBy l known (h ∷ hs)) (sym (offer-known l known n h hs e))
            (offer-Covered_key l known n hs key e, offer-Covered l known n hs)
      | inr e ↦ subst (CoveredBy l known (h ∷ hs)) (sym (offer-new l known n h hs e)) (
          subst (λ (ks : List Bytes). All (Covered l (ks ++ known)) (h ∷ hs))
            (sym (file_keys-local_source l n h later))
            (
              contains_head key (file_keys l later ++ known),
              All-map_contains l (file_keys l later ++ key ∷ known)
                  (key ∷ (file_keys l later ++ known))
                  (λ a. contains_middle a key (file_keys l later) known) hs
                  (offer-Covered l (key ∷ known) (suc n) hs),
            ))
    ]

-- Every local copy that Find answers is offered: its place is that of a file source of the spec that
-- Augment answers.
pub augment-Covered :
    (l : Local) (spec : Spec)
    → All (Covered l (file_keys l (augment l spec).sources)) (find l spec.artifact.digest)
unfolding augment
augment-Covered l spec = cover (find l spec.artifact.digest)
  where
    cover : (hs : List Hit) → All (Covered l (file_keys l (augment_with l spec hs).sources)) hs
    cover [] = tt
    cover (h ∷ hs) =
        subst (λ (ks : List Bytes). All (Covered l ks) (h ∷ hs))
          (sym (file_keys-append l (offer l (file_keys l spec.sources) 0 (h ∷ hs)) spec.sources))
          (offer-Covered l (file_keys l spec.sources) 0 (h ∷ hs))

offer_nothing :
    (l : Local) (known : List Bytes) (n : ℕ) (hs : List Hit)
    → All (Covered l known) hs
    → offer l known n hs ≡ []
unfolding offer
offer_nothing l known n [] h = refl
offer_nothing l known n (x ∷ hs) (h, rest) = rw (offer, h) (offer_nothing l known n hs rest)

augment_with-Covered :
    (l : Local) (spec : Spec) (hs : List Hit)
    → All (Covered l (file_keys l spec.sources)) hs
    → augment_with l spec hs ≡ spec
augment_with-Covered l spec [] c = refl
augment_with-Covered l spec (h ∷ hs) c =
    ap (λ (ss : List Source). record spec { sources = ss ++ spec.sources })
      (offer_nothing l (file_keys l spec.sources) 0 (h ∷ hs) c)

-- Augment adds nothing to what it has answered.
pub augment-augment : (l : Local) (spec : Spec) → augment l (augment l spec) ≡ augment l spec
unfolding augment
augment-augment l spec =
    augment_with-Covered l (augment l spec) (find l (augment l spec).artifact.digest)
      (rw (augment-IsAugmented l spec).artifact_is (augment-Covered l spec))
