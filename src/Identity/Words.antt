-- ===== src/Identity/Words.antt =====
-- The five word lists of identity/identity.go, each a map from a word to true: its keys, in the
-- order of the source.
use abstraction_model.Base.{Bool, List, [], ◌∷◌, Bytes, codes, contains}

abbrev pub extensions : List Bytes
extensions =
    codes ".gguf"
    ∷ codes ".safetensors"
    ∷ codes ".sft"
    ∷ codes ".bin"
    ∷ codes ".pt"
    ∷ codes ".pt2"
    ∷ codes ".pth"
    ∷ codes ".ckpt"
    ∷ codes ".onnx"
    ∷ codes ".npz"
    ∷ codes ".pkl"
    ∷ []

unfoldable pub is_extension : Bytes → Bool
unfolding contains
is_extension t = contains t extensions

abbrev pub quant_words : List Bytes
quant_words =
    codes "bf16"
    ∷ codes "f16"
    ∷ codes "fp16"
    ∷ codes "f32"
    ∷ codes "fp32"
    ∷ codes "bf32"
    ∷ codes "f8"
    ∷ codes "fp8"
    ∷ codes "fp6"
    ∷ codes "fp4"
    ∷ codes "mxfp4"
    ∷ codes "nvfp4"
    ∷ codes "rocmfp4"
    ∷ codes "int2"
    ∷ codes "int4"
    ∷ codes "int8"
    ∷ codes "awq"
    ∷ codes "gptq"
    ∷ codes "2bit"
    ∷ codes "3bit"
    ∷ codes "4bit"
    ∷ codes "6bit"
    ∷ codes "8bit"
    ∷ []

unfoldable pub quant_word : Bytes → Bool
unfolding contains
quant_word t = contains t quant_words

abbrev pub quant_tails : List Bytes
quant_tails =
    codes "0"
    ∷ codes "1"
    ∷ codes "k"
    ∷ codes "s"
    ∷ codes "m"
    ∷ codes "l"
    ∷ codes "xs"
    ∷ codes "xl"
    ∷ codes "xxs"
    ∷ codes "xxl"
    ∷ codes "nl"
    ∷ []

unfoldable pub quant_tail : Bytes → Bool
unfolding contains
quant_tail t = contains t quant_tails

abbrev pub packaging_words : List Bytes
packaging_words =
    codes "gguf"
    ∷ codes "ggml"
    ∷ codes "safetensors"
    ∷ codes "safetensor"
    ∷ codes "onnx"
    ∷ codes "mlx"
    ∷ codes "pytorch"
    ∷ codes "hf"
    ∷ codes "model"
    ∷ codes "models"
    ∷ codes "weights"
    ∷ codes "snapshot"
    ∷ codes "snapshots"
    ∷ codes "blobs"
    ∷ codes "main"
    ∷ codes "latest"
    ∷ codes "mtp"
    ∷ codes "scaled"
    ∷ codes "fast"
    ∷ codes "ud"
    ∷ codes "moe"
    ∷ codes "flm"
    ∷ codes "oga"
    ∷ codes "ort"
    ∷ codes "npu"
    ∷ codes "cpu"
    ∷ codes "gpu"
    ∷ codes "cuda"
    ∷ codes "rocm"
    ∷ codes "hip"
    ∷ codes "vulkan"
    ∷ codes "dml"
    ∷ codes "hybrid"
    ∷ codes "llamacpp"
    ∷ codes "ryzenai"
    ∷ codes "it"
    ∷ codes "instruct"
    ∷ codes "chat"
    ∷ []

unfoldable pub packaging : Bytes → Bool
unfolding contains
packaging t = contains t packaging_words

abbrev pub role_words : List Bytes
role_words =
    codes "mmproj"
    ∷ codes "vae"
    ∷ codes "lora"
    ∷ codes "adapter"
    ∷ codes "projector"
    ∷ codes "clip"
    ∷ codes "draft"
    ∷ []

unfoldable pub role : Bytes → Bool
unfolding contains
role t = contains t role_words
