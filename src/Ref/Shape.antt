-- ===== src/Ref/Shape.antt =====
-- What ParseRef makes of an hf reference: which text is refused, and the shape of a result.
use mathlib.Core.Path.{subst}
use abstraction_model.Base.{
  All, Bool-cases, Bytes, List, Result, [], arith, codes, equal, equal_iff, err, false, inl, inr,
  ok, refl, sym, ℕ, ◌++◌, ◌==◌, ◌||◌, ◌∙◌, ◌∷◌, ◌≡◌, ◌≢◌,
}
use abstraction_model.Strings.{cut_at, cut_prefix, has_prefix, has_suffix, split}
use abstraction_model.Strings.Cut.{
  Misses, cut_at-All, cut_at-Misses, join-All, split-All, split-Misses,
}
use abstraction_model.Ref.{Ref, RefError, bad_repo, hf_repo, needs_org_repo, or_path, parse_hf}

abbrev pub slash : Bytes
slash = codes "/"

has_prefix-append :
    (org t : Bytes) → Misses b'/' org → has_prefix slash (org ++ b'/' ∷ t) ≡ equal org []
unfolding has_prefix cut_prefix equal
has_prefix-append [] t h = refl
has_prefix-append (c ∷ org) t (h, hs) = ground arith

has_suffix-Misses : (s : Bytes) → Misses b'/' s → has_suffix slash s ≡ false
unfolding has_suffix equal
has_suffix-Misses [] h = refl
has_suffix-Misses (c ∷ s) (h, hs) = ground (arith, has_suffix-Misses s hs)

has_suffix-append :
    (p : Bytes) (d : ℕ) (q : Bytes) → has_suffix slash (p ++ d ∷ q) ≡ has_suffix slash (d ∷ q)
unfolding has_suffix equal
has_suffix-append [] d q = refl
has_suffix-append (c ∷ []) d q = ground arith
has_suffix-append (c ∷ (e ∷ p)) d q = ground (arith, has_suffix-append (e ∷ p) d q)

has_suffix-slash :
    (name : Bytes) → Misses b'/' name → has_suffix slash (b'/' ∷ name) ≡ equal name []
unfolding has_suffix equal
has_suffix-slash [] h = refl
has_suffix-slash (c ∷ name) h = ground (arith, has_suffix-Misses (c ∷ name) h)

-- The three tests on the joined repository find exactly an empty organisation or name.
pub bad_repo-join :
    (org name : Bytes)
    → Misses b'/' org
    → Misses b'/' name
    → bad_repo (org ++ (codes "/" ++ name)) ≡ (equal org [] || equal name [])
unfolding bad_repo equal
bad_repo-join [] [] h k = refl
bad_repo-join [] (c ∷ name) h k = ground (arith, has_prefix-append [] (c ∷ name) h)
bad_repo-join (c ∷ org) name h k = ground (
  arith,
  has_prefix-append (c ∷ org) name h,
  has_suffix-append (c ∷ org) b'/' name,
  has_suffix-slash name k,
)

-- The part of an hf reference's text in front of # and @.
abbrev pub path_of : Bytes → Bytes
path_of rest = (cut_at b'@' (cut_at b'#' rest).0).0

-- The segments that an hf reference needs.
abbrev pub Names : List Bytes → Type 0
Names (org ∷ (name ∷ more)) = (org ≢ []) × (name ≢ [])
Names _ = ⊥

abbrev pub Ends : List Bytes → Bytes → Result RefError Ref → Type 0
Ends segs path (ok r) = Names segs
Ends segs path (err e) = ¬ Names segs × (e ≡ needs_org_repo path)

hf_repo-Ends :
    (path : Bytes) (segs : List Bytes) (revision file quant : Bytes)
    → All (Misses b'/') segs
    → Ends segs path (hf_repo path segs revision file quant)
unfolding hf_repo
hf_repo-Ends path [] revision file quant h = ((λ n. n), refl)
hf_repo-Ends path (org ∷ []) revision file quant h = ((λ n. n), refl)
hf_repo-Ends path (org ∷ (name ∷ more)) revision file quant (ho, (hn, hs)) =
    let e = bad_repo-join org name ho hn in
    elim (Bool-cases (equal org [] || equal name [])) [
      | inl b ↦
          rw (e, b) ((λ n. ground (arith, equal_iff org [], equal_iff name [], n.0, n.1)), refl)
      | inr b ↦
          rw (e, b)
            (
              (λ (x : org ≡ []). ground (arith, equal_iff org [])),
              (λ (x : name ≡ []). ground (arith, equal_iff name [])),
            )
    ]

-- An hf reference is accepted exactly if the part in front of # and @ has an organisation and a
-- name, neither of them empty; a refusal quotes that part.
pub parse_hf-Ends : (rest : Bytes) → Ends (split b'/' (path_of rest)) (path_of rest) (parse_hf rest)
unfolding parse_hf
parse_hf-Ends rest =
    hf_repo-Ends (path_of rest) (split b'/' (path_of rest)) _ _ _ (split-Misses b'/' (path_of rest))

-- The references that ParseRef makes of an hf text.
pub record IsHfRef (r : Ref) : Type 0 where
  pub org : Bytes
  pub name : Bytes
  pub repo_is : r.repo ≡ org ++ b'/' ∷ name
  pub org_ne_nil : org ≢ []
  pub name_ne_nil : name ≢ []
  pub org_plain : Misses b'/' org × Misses b'@' org × Misses b'#' org
  pub name_plain : Misses b'/' name × Misses b'@' name × Misses b'#' name
  pub revision_plain : Misses b'/' r.revision × Misses b'#' r.revision
  pub file_plain : Misses b'#' r.file
  pub registry_is : r.registry ≡ codes "hf"
  pub credential_is : r.credential ≡ []

or_path-Misses :
    (file : Bytes) (more : List Bytes)
    → Misses b'#' file
    → All (Misses b'#') more
    → Misses b'#' (or_path file more)
unfolding or_path
or_path-Misses [] more h k = join-All (λ c. (c == b'#') ≡ false) (codes "/") more (refl, tt) k
or_path-Misses (c ∷ file) more h k = h

-- What every segment misses.
abbrev Plain : Bytes → Type 0
Plain s = Misses b'/' s × Misses b'@' s × Misses b'#' s

hf_repo-IsHfRef :
    (path : Bytes) (segs : List Bytes) (revision file quant : Bytes) {r : Ref}
    → All (Misses b'/') segs
    → All (Misses b'@') segs
    → All (Misses b'#') segs
    → Misses b'/' revision × Misses b'#' revision
    → Misses b'#' file
    → hf_repo path segs revision file quant ≡ ok r
    → IsHfRef r
unfolding hf_repo
hf_repo-IsHfRef path [] revision file quant a b c d f e = absurd (ground arith)
hf_repo-IsHfRef path (org ∷ []) revision file quant a b c d f e = absurd (ground arith)
hf_repo-IsHfRef path (org ∷ (name ∷ more)) revision file quant {r} (a, (a', as')) (b, (b', bs))
      (c, (c', cs)) d f e =
    elim (Bool-cases (bad_repo (org ++ (codes "/" ++ name)))) [
      | inl bad ↦ absurd (ground arith)
      | inr good ↦
          let made : Ref = record {
            registry = codes "hf";
            repo = org ++ (codes "/" ++ name);
            revision = revision;
            quant = quant;
            file = or_path file more;
            credential = [];
          } in
          let same : made ≡ r = ground arith in
          let parts : (equal org [] || equal name []) ≡ false =
            sym (bad_repo-join org name a a') ∙ good in
          subst IsHfRef same (record {
            org = org;
            name = name;
            repo_is = refl;
            org_ne_nil = λ x. ground (arith, equal_iff org []);
            name_ne_nil = λ x. ground (arith, equal_iff name []);
            org_plain = (a, b, c);
            name_plain = (a', b', c');
            revision_plain = d;
            file_plain = or_path-Misses file more f cs;
            registry_is = refl;
            credential_is = refl;
          })
    ]

-- Every accepted hf reference names an organisation and a model, neither empty nor holding /, @ or
-- #; its revision holds no / and no #, its file no #, and it names no credential.
pub parse_hf-IsHfRef : (rest : Bytes) {r : Ref} → parse_hf rest ≡ ok r → IsHfRef r
unfolding parse_hf
parse_hf-IsHfRef rest e =
    let address = (cut_at b'#' rest).0 in
    let path = (cut_at b'@' address).0 in
    let after = (cut_at b'@' address).1 in
    let no_hash = cut_at-Misses b'#' rest in
    let halves = cut_at-All (λ c. (c == b'#') ≡ false) b'@' address no_hash in
    let tail = cut_at-All (λ c. (c == b'#') ≡ false) b'/' after halves.1 in
    hf_repo-IsHfRef path (split b'/' path) (cut_at b'/' after).0 (cut_at b'/' after).1
      (cut_at b'#' rest).1 (split-Misses b'/' path)
      (split-All (λ c. (c == b'@') ≡ false) b'/' path (cut_at-Misses b'@' address))
      (split-All (λ c. (c == b'#') ≡ false) b'/' path halves.0) (cut_at-Misses b'/' after, tail.0)
      tail.1 e
