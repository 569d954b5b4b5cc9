-- ===== src/Identity/Tests.antt =====
-- The 42 identifiers of testdata/identifiers.tsv, as identity/identity_test.go runs them.
use abstraction_model.Base.{Bool, true, ◌&&◌, List, [], ◌∷◌, ◌≡◌, refl, Bytes, codes, equal}
use abstraction_model.Identity.Parse.{parse}
use abstraction_model.Identity.Token.{is_version, is_params, is_quant_level, is_block_format}
use abstraction_model.Identity.Words.{is_extension, quant_word, quant_tail, packaging, role}
use Prim.Native.String.{String}

record Row : Type 0 where
  identifier : Bytes
  family : Bytes
  quant : Bytes

abbrev row : String → String → String → Row
row i f q = record { identifier = codes i; family = codes f; quant = codes q }

row_passes : Row → Bool
unfolding equal
row_passes r =
    equal (parse r.identifier).family r.family && equal (parse r.identifier).quant r.quant

fixture_passes : List Row → Bool
unfolding row_passes
fixture_passes [] = true
fixture_passes (r ∷ rs) = row_passes r && fixture_passes rs

abbrev fixture : List Row
fixture =
    row "Gemma-4-26B-A4B-it-GGUF" "gemma4-26b-a4b" ""
    ∷ row "Gemma-4-26B-A4B-it-MTP-GGUF" "gemma4-26b-a4b" ""
    ∷ row "Qwen3-0.6B-GGUF" "qwen3-0.6b" ""
    ∷ row "Qwen3.5-122B-A10B-MTP-GGUF" "qwen3.5-122b-a10b" ""
    ∷ row "Qwen3.6-35B-A3B-GGUF" "qwen3.6-35b-a3b" ""
    ∷ row "Qwen3.6-35B-A3B-MTP-GGUF" "qwen3.6-35b-a3b" ""
    ∷ row "qwen3.6-moe-35b-a3b-FLM" "qwen3.6-35b-a3b" ""
    ∷ row "unsloth/gemma-4-26B-A4B-it-GGUF:UD-Q4_K_M" "gemma4-26b-a4b" "ud_q4_k_m"
    ∷ row "unsloth/Qwen3-0.6B-GGUF:Q4_0" "qwen3-0.6b" "q4_0"
    ∷ row "unsloth/Qwen3.5-122B-A10B-MTP-GGUF:UD-Q4_K_XL" "qwen3.5-122b-a10b" "ud_q4_k_xl"
    ∷ row "unsloth/Qwen3.6-35B-A3B-GGUF:Qwen3.6-35B-A3B-UD-Q4_K_XL.gguf" "qwen3.6-35b-a3b"
        "ud_q4_k_xl"
    ∷ row "unsloth/Qwen3.6-35B-A3B-MTP-GGUF:Qwen3.6-35B-A3B-UD-Q4_K_XL.gguf" "qwen3.6-35b-a3b"
        "ud_q4_k_xl"
    ∷ row "qwen3.6-moe:35b-a3b" "qwen3.6-35b-a3b" ""
    ∷ row "gemma-4-26b-a4b-it-ultra-uncensored-heretic" "gemma4-26b-a4b-ultra-uncensored-heretic" ""
    ∷ row "cygnal/qwen3.8-27b-heretic-ara-q4_k_m-mtp-gguf/qwen3.8-27b-heretic-ara-q4_k_m-mtp.gguf"
        "qwen3.8-27b-heretic-ara" "q4_k_m"
    ∷ row "cygnal/qwen3.8-27b-heretic-ara-q4_k_m-mtp-gguf/qwen3.8-27b-heretic-ara-rocmfp4-fast.gguf"
        "qwen3.8-27b-heretic-ara" "rocmfp4"
    ∷ row "qwen/qwen3.6-35b-a3b" "qwen3.6-35b-a3b" ""
    ∷ row "qwen/qwen3.8-27b" "qwen3.8-27b" ""
    ∷ row "text-embedding-nomic-embed-text-v1.5" "text-embedding-nomic-embed-v1.5" ""
    ∷ row "lmstudio-community/Qwen3.6-35B-A3B-GGUF/Qwen3.6-35B-A3B-Q4_K_M.gguf" "qwen3.6-35b-a3b"
        "q4_k_m"
    ∷ row "lmstudio-community/Qwen3.8-27B-GGUF/Qwen3.8-27B-Q6_K.gguf" "qwen3.8-27b" "q6_k"
    ∷ row
        "llmfan46/gemma-4-26B-A4B-it-ultra-uncensored-heretic-GGUF/gemma-4-26B-A4B-it-ultra-uncensored-heretic-Q4_K_S.gguf"
        "gemma4-26b-a4b-ultra-uncensored-heretic" "q4_k_s"
    ∷ row "qwen2.5:32b" "qwen2.5-32b" ""
    ∷ row "llama3.2:1b" "llama3.2-1b" ""
    ∷ row "qwen2.5:1.5b" "qwen2.5-1.5b" ""
    ∷ row "qwen2.5:0.5b" "qwen2.5-0.5b" ""
    ∷ row "ollama://library/qwen2.5:32b" "qwen2.5-32b" ""
    ∷ row "wan2.2_ti2v_5B_fp16.safetensors" "wan2.2-5b-ti2v" "fp16"
    ∷ row "umt5_xxl_fp16.safetensors" "umt5-xxl" "fp16"
    ∷ row "umt5_xxl_fp8_e4m3fn_scaled.safetensors" "umt5-xxl" "fp8_e4m3fn"
    ∷ row "wan2.2_vae.safetensors" "wan2.2-vae" ""
    ∷ row "hf://bartowski/Qwen2.5-0.5B-Instruct-GGUF#IQ2_M" "qwen2.5-0.5b" "iq2_m"
    ∷ row
        "hf://unsloth/Qwen3.6-35B-A3B-MTP-GGUF@5bc3e238d916f48a861bac2f8a1990a0e9b7e98d/Qwen3.6-35B-A3B-UD-Q4_K_XL.gguf"
        "qwen3.6-35b-a3b" "ud_q4_k_xl"
    ∷ row "models--unsloth--Qwen3.6-35B-A3B-MTP-GGUF" "qwen3.6-35b-a3b" ""
    ∷ row "google/gemma-3-27b-it" "gemma3-27b" ""
    ∷ row "gemma3:27b" "gemma3-27b" ""
    ∷ row "meta-llama/Llama-3.2-1B-Instruct" "llama3.2-1b" ""
    ∷ row "mmproj-Qwen3.6-35B-A3B-BF16.gguf" "qwen3.6-35b-a3b-mmproj" "bf16"
    ∷ row "gemma-4-26B-A4B-it-mmproj-BF16.gguf" "gemma4-26b-a4b-mmproj" "bf16"
    ∷ row "unsloth/Qwen3.6-35B-A3B-MTP-GGUF:mmproj-F16.gguf" "qwen3.6-35b-a3b-mmproj" "f16"
    ∷ row
        "unsloth/Qwen3.5-122B-A10B-MTP-GGUF/UD-Q4_K_XL/Qwen3.5-122B-A10B-UD-Q4_K_XL-00002-of-00003.gguf"
        "qwen3.5-122b-a10b" "ud_q4_k_xl"
    ∷ row
        "unsloth/Qwen3.5-122B-A10B-MTP-GGUF/UD-Q4_K_XL/Qwen3.5-122B-A10B-UD-Q4_K_XL-00003-of-00003.gguf"
        "qwen3.5-122b-a10b" "ud_q4_k_xl"
    ∷ []

fixture_holds : fixture_passes fixture ≡ true
unfolding fixture_passes parse is_extension quant_word quant_tail packaging role is_version
    is_params is_quant_level is_block_format
fixture_holds = refl
