-- ===== src/Ref.antt =====
-- go/ref.go: a reference to a model, its text, and the two syntaxes that ParseRef reads.
pub mod Shape
pub mod RoundTrip
pub mod Ollama
pub mod Examples
mod Tests
use abstraction_model.Base.{
  Bool, Bytes, List, Option, Result, [], codes, equal, err, if◌then◌else◌, none, ok, some, ◌++◌,
  ◌||◌, ◌∷◌,
}
use abstraction_model.Strings.{
  cut, cut_at, cut_last, has_prefix, has_suffix, join, split, trim_space,
}

pub record Ref : Type 0 where
  pub registry : Bytes
  pub repo : Bytes
  pub revision : Bytes
  pub quant : Bytes
  pub file : Bytes
  pub credential : Bytes

-- The errors of ParseRef, with the text that each message quotes.
pub data RefError : Type 0 where
  no_scheme : Bytes → RefError
  unsupported_scheme : Bytes → RefError
  needs_org_repo : Bytes → RefError
  needs_name : RefError

-- `if r.Revision != "" { s += … }` and the like.
unfoldable pub tagged : Bytes → Bytes → Bytes
tagged mark [] = []
tagged mark (c ∷ s) = mark ++ c ∷ s

-- A file hides the quantisation.
unfoldable pub selector : Bytes → Bytes → Bytes
selector [] quant = tagged (codes "#") quant
selector (c ∷ file) quant = codes "/" ++ c ∷ file

-- String.
unfoldable pub to_string : Ref → Bytes
to_string r =
    if equal r.registry (codes "hf")
    then codes "hf://" ++ (r.repo ++ (tagged (codes "@") r.revision ++ selector r.file r.quant))
    else if equal r.registry (codes "ollama")
    then codes "ollama://" ++ (r.repo ++ tagged (codes ":") r.revision)
    else if equal r.registry []
    then r.repo
    else r.registry ++ (codes "://" ++ r.repo)

-- `if r.File == "" { r.File = … }`.
unfoldable pub or_path : Bytes → List Bytes → Bytes
or_path [] more = join (codes "/") more
or_path (c ∷ file) more = c ∷ file

unfoldable pub bad_repo : Bytes → Bool
bad_repo repo = equal repo (codes "/") || has_prefix (codes "/") repo || has_suffix (codes "/") repo

-- The switch on the segments in front of # and @, and the test behind it.
unfoldable pub hf_repo : Bytes → List Bytes → Bytes → Bytes → Bytes → Result RefError Ref
hf_repo rest (org ∷ (name ∷ more)) revision file quant =
    let repo = org ++ (codes "/" ++ name) in
    if bad_repo repo
    then err (needs_org_repo rest)
    else ok (record {
      registry = codes "hf";
      repo = repo;
      revision = revision;
      quant = quant;
      file = or_path file more;
      credential = [];
    })
hf_repo rest _ revision file quant = err (needs_org_repo rest)

unfoldable pub parse_hf : Bytes → Result RefError Ref
parse_hf rest =
    let (address, quant) = cut_at b'#' rest in
    let (path, after) = cut_at b'@' address in
    let (revision, file) = cut_at b'/' after in hf_repo path (split b'/' path) revision file quant

unfoldable pub ollama_ref : Bytes → Bytes → Result RefError Ref
ollama_ref [] revision = err needs_name
ollama_ref (c ∷ repo) revision = ok (record {
  registry = codes "ollama";
  repo = c ∷ repo;
  revision = revision;
  quant = [];
  file = [];
  credential = [];
})

abbrev pub or_latest : Bytes → Option (Bytes × Bytes) → Bytes × Bytes
or_latest s none = (s, codes "latest")
or_latest s (some p) = p

unfoldable pub parse_ollama : Bytes → Result RefError Ref
parse_ollama rest =
    if equal rest []
    then err needs_name
    else (let (repo, revision) = or_latest rest (cut_last b':' rest) in ollama_ref repo revision)

abbrev pub parse_scheme : Bytes → Option (Bytes × Bytes) → Result RefError Ref
parse_scheme s none = err (no_scheme s)
parse_scheme s (some (scheme, rest)) =
    if equal scheme (codes "hf")
    then parse_hf rest
    else if equal scheme (codes "ollama")
    then parse_ollama rest
    else err (unsupported_scheme scheme)

unfoldable pub parse_ref : Bytes → Result RefError Ref
parse_ref s = parse_scheme (trim_space s) (cut (codes "://") (trim_space s))
