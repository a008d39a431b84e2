-- ===== src/Io/Format.antt =====
-- The wire tags and element types: include/minillm/io/gguf_format.h, src/io/gguf_format.cpp.
use llmengine.Base.{Option, [], get_elem?, if◌then◌else◌, ℕ, ◌==◌, ◌∷◌}
use llmengine.Core.Status.{unsupported, Result, ok, err}
use llmengine.Core.DType.{DType}

pub data GgufValueType : Type 0 where
  uint8_t int8_t uint16_t int16_t uint32_t int32_t float32_t : GgufValueType
  bool_t string_t array_t uint64_t int64_t float64_t : GgufValueType

-- The cast of a tag to the enumeration; `none` is a tag that names no type.
abbrev pub value_type : ℕ → Option GgufValueType
value_type tag =
    get_elem?
      (uint8_t ∷ int8_t ∷ uint16_t ∷ int16_t ∷ uint32_t ∷ int32_t ∷ float32_t ∷ bool_t ∷ string_t
        ∷ array_t ∷ uint64_t ∷ int64_t ∷ float64_t ∷ [])
      tag

-- `GgmlDataType`; `other` holds the tags that the enumeration does not name.
pub data GgmlDataType : Type 0 where
  f32 f16 q4_0 q4_1 q8_0 bf16 : GgmlDataType
  other : ℕ → GgmlDataType

-- The cast of a tag to the enumeration.
abbrev pub ggml_type : ℕ → GgmlDataType
ggml_type tag =
    if tag == 0
    then f32
    else if tag == 1
    then f16
    else if tag == 2
    then q4_0
    else if tag == 3
    then q4_1
    else if tag == 8
    then q8_0
    else if tag == 30
    then bf16
    else other tag

abbrev pub ggml_dtype_size : GgmlDataType → ℕ
ggml_dtype_size f32 = 4
ggml_dtype_size f16 = 2
ggml_dtype_size bf16 = 2
ggml_dtype_size q8_0 = 34
ggml_dtype_size q4_0 = 0
ggml_dtype_size q4_1 = 0
ggml_dtype_size (other tag) = 0

abbrev pub ggml_blck_size : GgmlDataType → ℕ
ggml_blck_size f32 = 1
ggml_blck_size f16 = 1
ggml_blck_size bf16 = 1
ggml_blck_size q8_0 = 32
ggml_blck_size q4_0 = 0
ggml_blck_size q4_1 = 0
ggml_blck_size (other tag) = 0

abbrev pub map_ggml_dtype : GgmlDataType → Result DType
map_ggml_dtype f32 = ok DType.float32
map_ggml_dtype f16 = ok DType.float16
map_ggml_dtype bf16 = ok DType.bfloat16
map_ggml_dtype q8_0 = ok DType.q8_0
map_ggml_dtype q4_0 = err unsupported
map_ggml_dtype q4_1 = err unsupported
map_ggml_dtype (other tag) = err unsupported
