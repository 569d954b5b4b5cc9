-- ===== src/Ref/Tests.antt =====
-- The cases of TestParseRef in go/model_test.go.
use Prim.Native.String.{String}
use abstraction_model.Strings.{
  cut, cut_at, cut_byte, cut_last, has_prefix, has_suffix, join, split, trim_space,
}
use abstraction_model.Base.{[], codes, equal, err, ok, refl, ◌≡◌}
use abstraction_model.Ref.{
  Ref, bad_repo, hf_repo, needs_name, needs_org_repo, no_scheme, ollama_ref, or_path, parse_hf,
  parse_ollama, parse_ref, unsupported_scheme,
}

abbrev reference : String → String → String → String → String → Ref
reference registry repo revision quant file = record {
  registry = codes registry;
  repo = codes repo;
  revision = codes revision;
  quant = codes quant;
  file = codes file;
  credential = [];
}

accepted :
    (parse_ref (codes "hf://org/repo") ≡ ok (reference "hf" "org/repo" "" "" ""))
    × (parse_ref (codes "hf://org/repo#Q4_K_M") ≡ ok (reference "hf" "org/repo" "" "Q4_K_M" ""))
    × (parse_ref (codes "hf://org/repo@abc123") ≡ ok (reference "hf" "org/repo" "abc123" "" ""))
    × (parse_ref (codes "hf://org/repo@abc123/sub/model.gguf")
        ≡ ok (reference "hf" "org/repo" "abc123" "" "sub/model.gguf"))
    × (parse_ref (codes "hf://org/repo/model.gguf")
        ≡ ok (reference "hf" "org/repo" "" "" "model.gguf"))
    × (parse_ref (codes "ollama://qwen2.5:0.5b") ≡ ok (reference "ollama" "qwen2.5" "0.5b" "" ""))
    × (parse_ref (codes "ollama://qwen2.5") ≡ ok (reference "ollama" "qwen2.5" "latest" "" ""))
unfolding parse_ref parse_hf hf_repo bad_repo or_path parse_ollama ollama_ref trim_space cut cut_at
    cut_byte cut_last split join has_prefix has_suffix equal
accepted = (refl, refl, refl, refl, refl, refl, refl)

refused :
    (parse_ref (codes "org/repo") ≡ err (no_scheme (codes "org/repo")))
    × (parse_ref (codes "hf://justone") ≡ err (needs_org_repo (codes "justone")))
    × (parse_ref (codes "hf://") ≡ err (needs_org_repo []))
    × (parse_ref (codes "ollama://") ≡ err needs_name)
    × (parse_ref (codes "ftp://x/y") ≡ err (unsupported_scheme (codes "ftp")))
unfolding parse_ref parse_hf hf_repo bad_repo or_path parse_ollama ollama_ref trim_space cut cut_at
    cut_byte cut_last split join has_prefix has_suffix equal
refused = (refl, refl, refl, refl, refl)
