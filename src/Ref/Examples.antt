-- ===== src/Ref/Examples.antt =====
-- The theorems on references, applied to references of go/model_test.go.
use abstraction_model.Base.{Bytes, [], arith, codes, inr, refl}
use abstraction_model.Ref.{Ref}
use abstraction_model.Ref.Shape.{IsHfRef}
use abstraction_model.Ref.RoundTrip.{IsPrintable}
use abstraction_model.Ref.Ollama.{IsOllamaRef}

abbrev sample : Bytes
sample = codes "org/repo@abc123/model.gguf"

abbrev pub sample_ref : Ref
sample_ref = record {
  registry = codes "hf";
  repo = codes "o/r";
  revision = codes "ab";
  quant = [];
  file = codes "m.gguf";
  credential = [];
}

sample_ref-IsHfRef : IsHfRef sample_ref
sample_ref-IsHfRef = record {
  org = codes "o";
  name = codes "r";
  repo_is = refl;
  org_ne_nil = (λ e. absurd (ground arith));
  name_ne_nil = (λ e. absurd (ground arith));
  org_plain = ((refl, tt), (refl, tt), (refl, tt));
  name_plain = ((refl, tt), (refl, tt), (refl, tt));
  revision_plain = ((refl, (refl, tt)), (refl, (refl, tt)));
  file_plain = (refl, (refl, (refl, (refl, (refl, (refl, tt))))));
  registry_is = refl;
  credential_is = refl;
}

pub sample_ref-IsPrintable : IsPrintable sample_ref
sample_ref-IsPrintable = record {
  shape = sample_ref-IsHfRef;
  one_selector = inr refl;
  file_no_at = (λ e. absurd (ground arith));
}

abbrev pub qwen : Ref
qwen = record {
  registry = codes "ollama";
  repo = codes "qwen2.5";
  revision = codes "1b";
  quant = [];
  file = [];
  credential = [];
}

qwen-IsOllamaRef : IsOllamaRef qwen
qwen-IsOllamaRef = record {
  repo_ne_nil = (λ e. absurd (ground arith));
  tag_ne_nil = (λ e. absurd (ground arith));
  tag_plain = (refl, (refl, tt));
  registry_is = refl;
  no_quant = refl;
  no_file = refl;
  no_credential = refl;
}
