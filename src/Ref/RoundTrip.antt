-- ===== src/Ref/RoundTrip.antt =====
-- ParseRef reads back what String prints.
use abstraction_model.Base.{
  All-append, Bytes, List, Result, [], ap, append-nil, append_assoc, arith, codes, equal, equal_iff,
  false, ok, refl, sym, ℕ, ◌++◌, ◌==◌, ◌∙◌, ◌∷◌, ◌≡◌, ◌≢◌, ◌⊎◌,
}
use abstraction_model.Strings.{cut, cut_at, cut_prefix, split, trim_space}
use abstraction_model.Strings.Cut.{Misses, cut_at-append, cut_at_none, join-split}
use abstraction_model.Strings.Fields.{join-nil, split_by-append, split_by_one}
use abstraction_model.Ref.{
  Ref, RefError, bad_repo, hf_repo, or_path, parse_hf, parse_ref, selector, tagged, to_string,
}
use abstraction_model.Ref.Shape.{IsHfRef, bad_repo-join, slash}

-- The text of an hf reference behind its scheme.
unfoldable pub hf_body : Ref → Bytes
hf_body r = r.repo ++ (tagged (codes "@") r.revision ++ selector r.file r.quant)

-- The references that an hf text can name: a file or a quantisation, and no @ in a file with no
-- revision in front of it.
pub record IsPrintable (r : Ref) : Type 0 where
  pub shape : IsHfRef r
  pub one_selector : (r.file ≡ []) ⊎ (r.quant ≡ [])
  pub file_no_at : r.revision ≡ [] → Misses b'@' r.file

module _ (org name : Bytes) (ho : Misses b'/' org × Misses b'@' org × Misses b'#' org)
    (hn : Misses b'/' name × Misses b'@' name × Misses b'#' name) where
  append-Misses :
      (b : ℕ) → (b'/' == b) ≡ false → Misses b org → Misses b name → Misses b (org ++ b'/' ∷ name)
  append-Misses b h k l = All-append (λ c. (c == b) ≡ false) org (b'/' ∷ name) k (h, l)

  split-repo : (s : Bytes) → split b'/' (org ++ b'/' ∷ s) ≡ org ∷ split b'/' s
  unfolding split
  split-repo s = split_by-append (λ c. c == b'/') org b'/' s ho.0 refl

  split-name : split b'/' name ≡ name ∷ []
  unfolding split
  split-name = split_by_one (λ c. c == b'/') name hn.0

  split-name-append : (s : Bytes) → split b'/' (name ++ b'/' ∷ s) ≡ name ∷ split b'/' s
  unfolding split
  split-name-append s = split_by-append (λ c. c == b'/') name b'/' s hn.0 refl

-- The text of the address in front of #.
abbrev address_of : Bytes → Bytes → Bytes → Bytes
address_of repo revision file = repo ++ (tagged (codes "@") revision ++ tagged slash file)

selector-cut :
    (address file quant : Bytes)
    → (file ≡ []) ⊎ (quant ≡ [])
    → Misses b'#' (address ++ tagged slash file)
    → cut_at b'#' (address ++ selector file quant) ≡ (address ++ tagged slash file, quant)
unfolding selector tagged
selector-cut address [] [] o h = cut_at_none b'#' (address ++ []) h
selector-cut address [] (q ∷ quant) o h =
    cut_at-append b'#' address (q ∷ quant) (rw append-nil at h)
    ∙ ap (λ (x : Bytes). (x, q ∷ quant)) (sym (append-nil address))
selector-cut address (c ∷ file) [] o h = cut_at_none b'#' (address ++ b'/' ∷ c ∷ file) h
selector-cut address (c ∷ file) (q ∷ quant) o h = absurd (ground arith)

abbrev hf_ref : Bytes → Bytes → Bytes → Bytes → Bytes → Ref
hf_ref org name revision file quant = record {
  registry = codes "hf";
  repo = org ++ b'/' ∷ name;
  revision = revision;
  quant = quant;
  file = file;
  credential = [];
}

tagged-Misses : (b : ℕ) (mark s : Bytes) → Misses b mark → Misses b s → Misses b (tagged mark s)
unfolding tagged
tagged-Misses b mark [] h k = tt
tagged-Misses b mark (c ∷ s) h k = All-append (λ d. (d == b) ≡ false) mark (c ∷ s) h k

or_path-nil : (file : Bytes) → or_path file [] ≡ file
unfolding or_path
or_path-nil [] = join-nil slash
or_path-nil (c ∷ file) = refl

module _ (org name : Bytes) (no : org ≢ []) (nn : name ≢ [])
    (ho : Misses b'/' org × Misses b'@' org × Misses b'#' org)
    (hn : Misses b'/' name × Misses b'@' name × Misses b'#' name) where
  hf_repo_lem :
      (path : Bytes) (more : List Bytes) (revision file quant : Bytes)
      → hf_repo path (org ∷ name ∷ more) revision file quant
        ≡ ok (hf_ref org name revision (or_path file more) quant)
  unfolding hf_repo
  hf_repo_lem path more revision file quant =
      let good : bad_repo (org ++ (codes "/" ++ name)) ≡ false =
        bad_repo-join org name ho.0 hn.0
        ∙ ground (arith, equal_iff org [], equal_iff name [], no, nn) in
      rw good

  -- What follows the address's cut at @, for each form of the address.
  read_address : Bytes → Bytes → Result RefError Ref
  read_address address quant =
      let (path, after) = cut_at b'@' address in
      let (revision, file) = cut_at b'/' after in hf_repo path (split b'/' path) revision file quant

  read_address-eq :
      (address path after revision file quant : Bytes) (more : List Bytes)
      → cut_at b'@' address ≡ (path, after)
      → cut_at b'/' after ≡ (revision, file)
      → split b'/' path ≡ org ∷ name ∷ more
      → read_address address quant ≡ ok (hf_ref org name revision (or_path file more) quant)
  unfolding read_address
  read_address-eq address path after revision file quant more a b c =
      rw a (rw (b, c) (hf_repo_lem path more revision file quant))

  repo : Bytes
  repo = org ++ b'/' ∷ name

  cut-revision :
      (revision file : Bytes)
      → Misses b'/' revision
      → cut_at b'/' (revision ++ tagged slash file) ≡ (revision, file)
  unfolding tagged
  cut-revision revision [] h = rw append-nil (cut_at_none b'/' revision h)
  cut-revision revision (c ∷ file) h = cut_at-append b'/' revision (c ∷ file) h

  split-path :
      (file : Bytes)
      → (more : List Bytes) × (split b'/' (repo ++ tagged slash file) ≡ org ∷ name ∷ more)
        × (or_path [] more ≡ file)
  unfolding repo tagged or_path
  split-path [] = (
    [],
    rw append-nil (split-repo org name ho hn name ∙ ap (◌∷◌ org) (split-name org name ho hn)),
    join-nil slash,
  )
  split-path (c ∷ file) = (
    split b'/' (c ∷ file),
    rw append_assoc (
        split-repo org name ho hn (name ++ b'/' ∷ c ∷ file)
        ∙ ap (◌∷◌ org) (split-name-append org name ho hn (c ∷ file))),
    join-split b'/' (c ∷ file),
  )

  split_repo : split b'/' repo ≡ org ∷ name ∷ []
  unfolding repo
  split_repo = split-repo org name ho hn name ∙ ap (◌∷◌ org) (split-name org name ho hn)

  repo-Misses : (b : ℕ) → (b'/' == b) ≡ false → Misses b org → Misses b name → Misses b repo
  unfolding repo
  repo-Misses = append-Misses org name ho hn

  read_address_print :
      (revision file quant : Bytes)
      → Misses b'/' revision
      → (revision ≡ [] → Misses b'@' file)
      → read_address ((repo ++ tagged (codes "@") revision) ++ tagged slash file) quant
        ≡ ok (hf_ref org name revision file quant)
  unfolding tagged
  read_address_print [] file quant h k =
      let (more, cut, path) = split-path file in
      let whole = repo ++ tagged slash file in
      let misses : Misses b'@' whole =
        All-append (λ c. (c == b'@') ≡ false) repo _ (repo-Misses b'@' refl ho.1 hn.1)
          (tagged-Misses b'@' (codes "/") file (refl, tt) (k refl)) in
      rw (append-nil repo) (
        read_address-eq whole whole [] [] [] quant more (cut_at_none b'@' whole misses)
          (cut_at_none b'/' [] tt) cut
        ∙ ap (λ (f : Bytes). ok (hf_ref org name [] f quant)) path)
  read_address_print (v ∷ revision) file quant h k =
      rw (append_assoc repo (b'@' ∷ v ∷ revision) (tagged slash file)) (
        read_address-eq _ repo ((v ∷ revision) ++ tagged slash file) (v ∷ revision) file quant []
          (cut_at-append b'@' repo _ (repo-Misses b'@' refl ho.1 hn.1))
          (cut-revision (v ∷ revision) file h) split_repo
        ∙ ap (λ (f : Bytes). ok (hf_ref org name (v ∷ revision) f quant)) (or_path-nil file))

  parse_hf-read_address :
      (rest address quant : Bytes)
      → cut_at b'#' rest ≡ (address, quant)
      → parse_hf rest ≡ read_address address quant
  unfolding parse_hf read_address
  parse_hf-read_address rest address quant e = rw e

  parse_hf_print :
      (revision file quant : Bytes)
      → Misses b'/' revision × Misses b'#' revision
      → Misses b'#' file
      → (file ≡ []) ⊎ (quant ≡ [])
      → (revision ≡ [] → Misses b'@' file)
      → parse_hf (hf_body (hf_ref org name revision file quant))
        ≡ ok (hf_ref org name revision file quant)
  unfolding hf_body repo
  parse_hf_print revision file quant hr hf one at =
      let front = repo ++ tagged (codes "@") revision in
      let hash = λ (s : Bytes) (t : Bytes). All-append (λ c. (c == b'#') ≡ false) s t in
      let misses : Misses b'#' (front ++ tagged slash file) =
        hash front (tagged slash file)
          (hash repo (tagged (codes "@") revision) (repo-Misses b'#' refl ho.2 hn.2)
            (tagged-Misses b'#' (codes "@") revision (refl, tt) hr.1))
          (tagged-Misses b'#' slash file (refl, tt) hf) in
      ap parse_hf (sym (append_assoc repo (tagged (codes "@") revision) (selector file quant)))
      ∙ parse_hf-read_address _ _ quant (selector-cut front file quant one misses)
      ∙ read_address_print revision file quant hr.0 at

-- A printable hf reference.
hf_ref-eq : {r : Ref} (s : IsHfRef r) → r ≡ hf_ref s.org s.name r.revision r.file r.quant
hf_ref-eq {r} s = λ i. record {
  registry = s.registry_is i;
  repo = s.repo_is i;
  revision = r.revision;
  quant = r.quant;
  file = r.file;
  credential = s.credential_is i;
}

pub parse_hf-hf_body : {r : Ref} → IsPrintable r → parse_hf (hf_body r) ≡ ok r
parse_hf-hf_body {r} h =
    let s = h.shape in
    let e = hf_ref-eq s in
    ap (λ (x : Ref). parse_hf (hf_body x)) e
    ∙ parse_hf_print s.org s.name s.org_ne_nil s.name_ne_nil s.org_plain s.name_plain r.revision
        r.file r.quant s.revision_plain s.file_plain h.one_selector h.file_no_at
    ∙ sym (ap ok e)

pub to_string_hf : (r : Ref) → r.registry ≡ codes "hf" → to_string r ≡ codes "hf://" ++ hf_body r
unfolding to_string hf_body equal
to_string_hf r e = rw e

parse_ref_hf :
    (body : Bytes)
    → trim_space (codes "hf://" ++ body) ≡ codes "hf://" ++ body
    → parse_ref (codes "hf://" ++ body) ≡ parse_hf body
unfolding parse_ref cut cut_prefix equal
parse_ref_hf body e = rw e

pub parse_ref-to_string :
    {r : Ref}
    → IsPrintable r
    → trim_space (to_string r) ≡ to_string r
    → parse_ref (to_string r) ≡ ok r
parse_ref-to_string {r} h e =
    let p = to_string_hf r h.shape.registry_is in
    ap parse_ref p ∙ parse_ref_hf (hf_body r) (rw p at e) ∙ parse_hf-hf_body h
