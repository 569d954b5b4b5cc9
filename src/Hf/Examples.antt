-- ===== src/Hf/Examples.antt =====
-- The theorems on the Hugging Face resolver, applied to a listing of three files.
use mathlib.Core.List.{Permᴰ}
use abstraction_model.Base.{
  Bytes, [], arith, codes, equal, false, none, ok, pos, refl, some, ◌↔◌, ◌∷◌, ◌≡◌,
}
use abstraction_model.Strings.{count, cut_last, equal_fold, has, has_prefix, to_lower, to_upper}
use abstraction_model.Download.{Spec, one_source}
use abstraction_model.Credentials.{Prepared}
use abstraction_model.Ref.{Ref}
use abstraction_model.Hf.{
  Hf, HfFile, HfModel, Web, api_url, base, exchange, has_quant, hf_attrs, is_gguf, last_segment,
  listing_of, only_one, path_ext, pick, pick_quant, picked, prepare, published, request_for,
  resolve, revision_of, select, spec_from, spec_of, valid_filename, valid_repo,
}
use abstraction_model.Hf.Pick.{candidates, pick_iff, pick_perm}
use abstraction_model.Hf.Resolve.{IsResolved, resolve-IsResolved, resolve-token, with_token}

abbrev weights : HfFile
weights = record {
  rfilename = codes "m-Q4_K_M.gguf";
  size = pos 12;
  lfs = some (record { sha256 = codes "AB12"; size = pos 12 });
}

abbrev other : HfFile
other = record { rfilename = codes "m-Q8_0.gguf"; size = pos 20; lfs = none }

abbrev readme : HfFile
readme = record { rfilename = codes "README.md"; size = pos 3; lfs = none }

abbrev listing : HfModel
listing = record { sha = codes "c0ffee"; siblings = other ∷ readme ∷ weights ∷ [] }

abbrev asked : Ref
asked = record {
  registry = codes "hf";
  repo = codes "org/repo";
  revision = [];
  quant = codes "q4_k_m";
  file = [];
  credential = [];
}

abbrev origin : Web
origin = record {
  host_of = (λ url. some (codes "huggingface.co"));
  applier = some (λ name host. ok ((codes "X-Key", host) ∷ []));
  send = (λ p url. some (record { code = 200; body = some listing }));
}

abbrev hub : Bytes → Hf
hub token = record { base_url = []; token = token }

abbrev answer : Spec
answer =
    one_source (codes "sha256:ab12") (pos 12) (codes "https")
      (codes "https://huggingface.co/org/repo/resolve/c0ffee/m-Q4_K_M.gguf") []

resolve-IsResolved_example : IsResolved (hub []) origin asked answer
unfolding resolve listing_of spec_from spec_of exchange request_for picked published valid_repo
    valid_filename prepare api_url base revision_of hf_attrs pick pick_quant only_one select is_gguf
    has_quant equal has has_prefix count to_lower equal_fold path_ext cut_last last_segment to_upper
resolve-IsResolved_example = resolve-IsResolved (hub []) origin asked refl

resolve-token_example :
    resolve (with_token (hub []) (codes "t")) origin asked
    ≡ resolve (with_token (hub []) (codes "u")) origin asked
resolve-token_example =
    resolve-token (hub []) origin asked (codes "t") (codes "u") (λ e. absurd (ground arith))
      (λ e. absurd (ground arith)) refl

abbrev keyed : Ref
keyed = record {
  registry = codes "hf";
  repo = codes "org/repo";
  revision = [];
  quant = [];
  file = [];
  credential = codes "team";
}

abbrev keyed_request : Prepared
keyed_request = record { headers = (codes "X-Key", codes "hf.co") ∷ []; follows = false }

pick_iff_example :
    (pick listing.siblings asked ≡ ok weights)
    ↔ (candidates (codes "q4_k_m") listing.siblings ≡ weights ∷ [])
pick_iff_example = pick_iff listing.siblings asked weights refl

shuffled : Permᴰ listing.siblings (readme ∷ other ∷ weights ∷ [])
shuffled = Permᴰ.swap refl refl

pick_perm_example : pick (readme ∷ other ∷ weights ∷ []) asked ≡ ok weights
unfolding pick pick_quant only_one select is_gguf has_quant equal has to_lower equal_fold path_ext
    cut_last last_segment to_upper
pick_perm_example = pick_perm asked weights refl shuffled refl
