-- ===== src/Hf.antt =====
-- go/hf.go: the resolver of Hugging Face references.
pub mod Pick
pub mod Resolve
mod Examples
use abstraction_model.Base.{
  Bool, Bytes, List, Option, Result, [], codes, equal, err, false, if◌then◌else◌, is_positive,
  is_zero, length, ltb, none, ok, some, take, true, ℕ, ℤ, ◌&&◌, ◌++◌, ◌==◌, ◌>>=◌, ◌||◌, ◌∷◌,
}
use abstraction_model.Strings.{count, cut_last, equal_fold, has, has_prefix, to_lower, to_upper}
use abstraction_model.Download.{CredentialError, Spec, one_source}
use abstraction_model.Credentials.{CredentialHeaders, Prepared, apply_credential}
use abstraction_model.Ref.{Ref}

pub record Lfs : Type 0 where
  pub sha256 : Bytes
  pub size : ℤ

pub record HfFile : Type 0 where
  pub rfilename : Bytes
  pub size : ℤ
  pub lfs : Option Lfs

pub record HfModel : Type 0 where
  pub sha : Bytes
  pub siblings : List HfFile

-- The configuration of HF: its BaseURL and its Token.
pub record Hf : Type 0 where
  pub base_url : Bytes
  pub token : Bytes

pub data PickError : Type 0 where
  no_file : Bytes → PickError
  no_gguf : PickError
  no_quant : Bytes → PickError
  ambiguous : ℕ → List Bytes → PickError

pub data HfError : Type 0 where
  empty_repo suspicious_repo not_org_name : HfError
  empty_filename suspicious_filename : HfError
  bad_request send_failed not_json : HfError
  status : ℕ → HfError
  refused : CredentialError → HfError
  not_picked : PickError → Bytes → Bytes → HfError
  no_digest : Bytes → Bytes → Bytes → HfError

unfoldable pub base : Hf → Bytes
base h = if equal h.base_url [] then codes "https://huggingface.co" else h.base_url

unfoldable pub valid_repo : Bytes → Result HfError (Unit {0})
valid_repo repo =
    if equal repo []
    then err empty_repo
    else if has (codes "..") repo || has_prefix (codes "/") repo
    then err suspicious_repo
    else if count b'/' repo == 1
    then ok tt
    else err not_org_name

unfoldable pub valid_filename : Bytes → Result HfError (Unit {0})
valid_filename name =
    if equal name []
    then err empty_filename
    else if has (codes "..") name || has_prefix (codes "/") name || has (codes "\\") name
    then err suspicious_filename
    else ok tt

-- `path.Ext`: the suffix from the last dot on, in the last path segment.
unfoldable pub last_segment : Bytes → Bytes
last_segment s = elim (cut_last b'/' s) [ none ↦ s | some (before, after) ↦ after ]

unfoldable pub path_ext : Bytes → Bytes
path_ext s = elim (cut_last b'.' (last_segment s)) [
  | none ↦ []
  | some (before, after) ↦ b'.' ∷ after
]

unfoldable pub is_gguf : HfFile → Bool
is_gguf f = equal_fold (path_ext f.rfilename) (codes ".gguf")

unfoldable pub has_quant : Bytes → HfFile → Bool
has_quant quant f = has (to_upper quant) (to_upper f.rfilename)

-- The loop that collects the files of which a test holds.
unfoldable pub select : (HfFile → Bool) → List HfFile → List HfFile
select test [] = []
select test (f ∷ fs) = let rest = select test fs in if test f then f ∷ rest else rest

unfoldable pub find_named : Bytes → List HfFile → Result PickError HfFile
find_named name [] = err (no_file name)
find_named name (f ∷ fs) = if equal f.rfilename name then ok f else find_named name fs

-- `a < b` on Go strings.
unfoldable pub byte_less : Bytes → Bytes → Bool
byte_less a [] = false
byte_less [] (y ∷ b) = true
byte_less (x ∷ a) (y ∷ b) = if x == y then byte_less a b else ltb x y

unfoldable pub insert_name : Bytes → List Bytes → List Bytes
insert_name n [] = n ∷ []
insert_name n (m ∷ ms) =
    let rest = insert_name n ms in if byte_less m n then m ∷ rest else n ∷ m ∷ ms

-- The files' names in order, as `sort.Slice` leaves them.
unfoldable pub sorted_names : List HfFile → List Bytes
sorted_names [] = []
sorted_names (f ∷ fs) = insert_name f.rfilename (sorted_names fs)

-- The last step of pick: one file is left, or the error names up to eight of them.
unfoldable pub only_one : List HfFile → Result PickError HfFile
only_one [] = err no_gguf
only_one (f ∷ []) = ok f
only_one (f ∷ (g ∷ fs)) = err (ambiguous (length (f ∷ g ∷ fs)) (take 8 (sorted_names (f ∷ g ∷ fs))))

-- The files that match the quantisation, or an error where there is none.
abbrev pub matched : Bytes → List HfFile → Result PickError HfFile
matched quant [] = err (no_quant quant)
matched quant (f ∷ fs) = only_one (f ∷ fs)

unfoldable pub pick_quant : Bytes → List HfFile → Result PickError HfFile
pick_quant quant ggufs =
    if equal quant [] then only_one ggufs else matched quant (select (has_quant quant) ggufs)

abbrev pub pick_gguf : Bytes → List HfFile → Result PickError HfFile
pick_gguf quant [] = err no_gguf
pick_gguf quant (f ∷ fs) = pick_quant quant (f ∷ fs)

unfoldable pub pick : List HfFile → Ref → Result PickError HfFile
pick files r =
    if equal r.file [] then pick_gguf r.quant (select is_gguf files) else find_named r.file files

abbrev pub credential_attr : Bytes
credential_attr = codes "credential"

-- hfAttrs: the name of the credential that the source needs, never its value.
unfoldable pub hf_attrs : Bytes → Bytes → List (Bytes × Bytes)
hf_attrs [] [] = []
hf_attrs (c ∷ token) [] = (credential_attr, codes "hf") ∷ []
hf_attrs token (c ∷ credential) = (credential_attr, c ∷ credential) ∷ []

-- The origin that answers a request: its status, and the decoded body if that is a model's JSON.
pub record Response : Type 0 where
  pub code : ℕ
  pub body : Option HfModel

-- What Resolve takes from its surroundings: the host of a request's URL, if net/http makes a request
-- of it; the context's applier; and the exchange with the origin.
pub record Web : Type 0 where
  pub host_of : Bytes → Option Bytes
  pub applier : Option CredentialHeaders
  pub send : Prepared → Bytes → Option Response

-- The headers of a request, and the client that sends it.
unfoldable pub prepare : Hf → Web → Bytes → Ref → Result HfError Prepared
prepare h web host r =
    if equal r.credential []
    then ok (record {
      headers =
          if equal h.token [] then [] else (codes "Authorization", codes "Bearer " ++ h.token) ∷ [];
      follows = true;
    })
    else elim (apply_credential web.applier host r.credential) [
      | ok p ↦ ok p
      | err e ↦ err (refused e)
    ]

abbrev pub answered : Option Response → Result HfError HfModel
answered none = err send_failed
answered (some answer) =
    if answer.code == 200
    then elim answer.body [ none ↦ err not_json | some m ↦ ok m ]
    else err (status answer.code)

unfoldable pub exchange : Web → Prepared → Bytes → Result HfError HfModel
exchange web p url = answered (web.send p url)

unfoldable pub revision_of : Ref → Bytes
revision_of r = if equal r.revision [] then codes "main" else r.revision

unfoldable pub api_url : Hf → Ref → Bytes
api_url h r =
    base h
    ++ (codes "/api/models/"
        ++ (r.repo ++ (codes "/revision/" ++ (revision_of r ++ codes "?blobs=true"))))

unfoldable pub request_for : Web → Bytes → Result HfError Bytes
request_for web url = elim (web.host_of url) [ none ↦ err bad_request | some host ↦ ok host ]

unfoldable pub picked : Ref → HfModel → Result HfError HfFile
picked r m = elim (pick m.siblings r) [
  | ok f ↦ ok f
  | err e ↦ err (not_picked e r.repo (revision_of r))
]

-- The digest that the listing publishes for the file.
unfoldable pub published : Ref → HfFile → Result HfError Lfs
published r f = elim f.lfs [
  | none ↦ err (no_digest f.rfilename r.repo (revision_of r))
  | some l ↦ if equal l.sha256 [] then err (no_digest f.rfilename r.repo (revision_of r)) else ok l
]

unfoldable pub spec_of : Hf → Ref → HfModel → HfFile → Lfs → Spec
spec_of h r m f l =
    let pinned = if equal m.sha [] then revision_of r else m.sha in
    one_source (codes "sha256:" ++ to_lower l.sha256)
      (if is_zero f.size && is_positive l.size then l.size else f.size) (codes "https")
      (base h
        ++ (codes "/" ++ (r.repo ++ (codes "/resolve/" ++ (pinned ++ (codes "/" ++ f.rfilename))))))
      (hf_attrs h.token r.credential)

-- The steps behind the exchange.
unfoldable pub spec_from : Hf → Ref → HfModel → Result HfError Spec
spec_from h r m = do
  f ← picked r m
  safe ← valid_filename f.rfilename
  l ← published r f
  ok (spec_of h r m f l)

-- The steps up to the exchange.
unfoldable pub listing_of : Hf → Web → Ref → Result HfError HfModel
listing_of h web r = do
  valid ← valid_repo r.repo
  host ← request_for web (api_url h r)
  p ← prepare h web host r
  exchange web p (api_url h r)

unfoldable pub resolve : Hf → Web → Ref → Result HfError Spec
resolve h web r = do m ← listing_of h web r; spec_from h r m
