-- ===== src/Identity/Examples.antt =====
-- The theorems on identifiers, applied to names of testdata/identifiers.tsv.
use abstraction_model.Base.{
  Bytes, List, [], arith, codes, contains, equal, inl, inr, refl, sym, true, ◌++◌, ◌↔◌, ◌∙◌, ◌∷◌,
  ◌≡◌, ◌≢◌, ◌⊎◌,
}
use abstraction_model.Strings.{cut_prefix, is_space, to_lower, trim_left}
use abstraction_model.Identity.Words.{is_extension, packaging, quant_tail, quant_word, role}
use abstraction_model.Identity.Token.{is_block_format, is_params, is_quant_level, is_version}
use abstraction_model.Identity.Tokens.{token_loop}
use abstraction_model.Identity.Tokens.Runs.{Scan, token_loop-Scan_all}
use abstraction_model.Identity.Assemble.{assemble, split_parts}
use abstraction_model.Identity.Assemble.Roles.{assemble-packaging, split_parts-role}
use abstraction_model.Identity.Assemble.Keep.{Joined, split_parts-keeps}
use abstraction_model.Identity.Parse.{component, family, parse, same}
use abstraction_model.Identity.Parse.Same.{same_iff, stated}
use abstraction_model.Identity.Parse.Hosts.{parse-publisher}

abbrev gemma : List Bytes
gemma = codes "gemma" ∷ codes "4" ∷ codes "26b" ∷ []

abbrev projector : Bytes
projector = codes "mmproj"

assemble-packaging_example :
    (assemble (gemma ++ codes "it" ∷ (codes "a4b" ∷ [])) (codes "q4_k_m")).family
    ≡ (assemble (gemma ++ codes "a4b" ∷ []) []).family
unfolding equal packaging
assemble-packaging_example =
    assemble-packaging gemma (codes "a4b" ∷ []) (codes "it") (codes "q4_k_m") [] refl

split_parts-role_example :
    split_parts (gemma ++ projector ∷ (codes "bf16" ∷ []))
    ≡ ((split_parts (gemma ++ codes "bf16" ∷ [])).0, projector ∷ [])
unfolding equal packaging role
split_parts-role_example =
    split_parts-role gemma (codes "bf16" ∷ []) projector refl refl
      (inr (inl refl), (inr (inl refl), (inr (inl refl), tt))) (inr (inl refl), tt)

split_parts-keeps_example :
    (contains (codes "26b") (split_parts gemma).1 ≡ true)
    ⊎ (contains (codes "26b") (split_parts gemma).0 ≡ true)
    ⊎ Joined (codes "26b") (split_parts gemma).0
unfolding equal packaging contains
split_parts-keeps_example = split_parts-keeps (codes "26b") gemma refl refl

abbrev run : List Bytes
run = codes "ud" ∷ codes "q4" ∷ codes "k" ∷ codes "xl" ∷ codes "gemma" ∷ []

abbrev split_file : List Bytes
split_file =
    codes "qwen"
    ∷ codes "q4"
    ∷ codes "k"
    ∷ codes "m"
    ∷ codes "00002"
    ∷ codes "of"
    ∷ codes "00003"
    ∷ []

token_loop-Scan_all_example :
    Scan split_file (token_loop 0 split_file).0 (token_loop 0 split_file).1
token_loop-Scan_all_example = token_loop-Scan_all split_file

same_iff_example : (same (codes "gemma3:27b") (codes "google/gemma-3-27b-it") ≡ true) ↔ (
    (stated (codes "gemma3:27b") ≢ [])
    × (stated (codes "gemma3:27b") ≡ stated (codes "google/gemma-3-27b-it")))
same_iff_example = same_iff (codes "gemma3:27b") (codes "google/gemma-3-27b-it")

abbrev gemma3 : Bytes
gemma3 = codes "gemma3:27b"

parse-publisher_example :
    parse (codes "google" ++ b'/' ∷ codes "gemma-3-27b-it")
    ≡ parse (codes "unsloth" ++ b'/' ∷ codes "gemma-3-27b-it")
unfolding to_lower trim_left cut_prefix is_space
parse-publisher_example =
    parse-publisher (codes "google") (codes "unsloth") (codes "gemma-3-27b-it")
      (record { one_segment = (refl, (refl, (refl, (refl, (refl, (refl, tt)))))); no_cache = refl })
      (record {
        one_segment = (refl, (refl, (refl, (refl, (refl, (refl, (refl, tt)))))));
        no_cache = refl;
      })

abbrev projector_file : Bytes
projector_file = codes "mmproj-Qwen3.6-35B-A3B-BF16.gguf"

component-projector : (component projector_file).1 ≡ projector
unfolding component family parse is_extension quant_word quant_tail packaging role is_version
    is_params is_quant_level is_block_format equal
component-projector = refl

component-projector-ne-nil : (component projector_file).1 ≢ []
component-projector-ne-nil e =
    let stated : projector ≡ [] = sym component-projector ∙ e in absurd (ground arith)
