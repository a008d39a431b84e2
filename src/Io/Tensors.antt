-- ===== src/Io/Tensors.antt =====
-- Tensor infos and the bytes of a tensor, in src/io/gguf_parser.cpp.
use mathlib.Core.List.{reverse}
use llmengine.Base.{
  List, [], drop, if◌then◌else◌, length, ltb, nonpositive, pos, pos_part, take, ℕ, ℤ, ◌%◌, ◌*◌, ◌+◌,
  ◌-◌, ◌/◌, ◌==◌, ◌^◌, ◌||◌, ◌∷◌,
}
use llmengine.Core.Shape.{size_max}
use llmengine.Io.Format.{GgmlDataType, ggml_type, ggml_dtype_size, ggml_blck_size}
use llmengine.Io.Reader.{Reader, ◌>>=◌, pure, fail, read_u32_le, read_u64_le, read_string, repeat}
use llmengine.Core.Status.{invalid_argument, out_of_range, unsupported, Result, ok, err}

pub record GgufTensorInfo : Type 0 where
  pub name : List ℕ
  pub dtype : GgmlDataType
  pub dimensions : List ℤ
  pub offset : ℕ

-- The loop of `num_elements`.
unfoldable pub elements_loop : ℕ → List ℤ → Result ℕ
elements_loop n [] = ok n
elements_loop n (d ∷ ds) =
    let rest = elements_loop (n * pos_part d) ds in
    if nonpositive d
    then err invalid_argument
    else if ltb (size_max / pos_part d) n
    then err invalid_argument
    else rest

abbrev pub num_elements : GgufTensorInfo → Result ℕ
num_elements ti = elements_loop 1 ti.dimensions

-- The part of `bytes` behind `num_elements`.
abbrev pub bytes_of : GgmlDataType → ℕ → Result ℕ
bytes_of dtype ne =
    let blck = ggml_blck_size dtype in
    let dtype_sz = ggml_dtype_size dtype in
    let num_blocks = ((ne + blck - 1) % 2 ^ 64) / blck in
    if blck == 0 || dtype_sz == 0
    then err unsupported
    else if ltb (size_max / dtype_sz) num_blocks
    then err invalid_argument
    else ok (num_blocks * dtype_sz)

unfoldable pub bytes : GgufTensorInfo → Result ℕ
bytes ti = elim (num_elements ti) [ err e ↦ err e | ok ne ↦ bytes_of ti.dtype ne ]

abbrev pub int64_max : ℕ
int64_max = 2 ^ 63 - 1

abbrev pub read_dim : Reader ℤ
read_dim = do
  d ← read_u64_le
  if d == 0 || ltb int64_max d then fail invalid_argument else pure (pos d)

abbrev pub tensor_info : List ℕ → ℕ → List ℤ → ℕ → GgufTensorInfo
tensor_info name tag stored offset = record {
  name = name;
  dtype = ggml_type tag;
  dimensions = reverse stored;
  offset = offset;
}

abbrev pub read_offset : List ℕ → List ℤ → ℕ → Reader GgufTensorInfo
read_offset name stored tag = do offset ← read_u64_le; pure (tensor_info name tag stored offset)

abbrev pub read_tag : List ℕ → List ℤ → Reader GgufTensorInfo
read_tag name stored = do tag ← read_u32_le; read_offset name stored tag

-- What follows the name and the number of dimensions. The dimensions are stored from the last.
abbrev pub read_rest : List ℕ → ℕ → Reader GgufTensorInfo
read_rest name dims = do stored ← repeat dims read_dim; read_tag name stored

-- One round of the loop of `parse_tensor_infos`.
unfoldable pub read_tensor_info : Reader GgufTensorInfo
read_tensor_info = do
  name ← read_string
  dims ← read_u32_le
  if dims == 0 || ltb 8 dims then fail invalid_argument else read_rest name dims

abbrev pub max_tensor_count : ℕ
max_tensor_count = 1024 * 1024

unfoldable pub parse_tensor_infos : ℕ → Reader (List GgufTensorInfo)
parse_tensor_infos tensor_count =
    if ltb max_tensor_count tensor_count
    then fail invalid_argument
    else repeat tensor_count read_tensor_info

-- `copy_tensor_bytes_from_view`: the bytes that it copies.
unfoldable pub copy_tensor_bytes_from_view : List ℕ → ℕ → ℕ → ℕ → Result (List ℕ)
copy_tensor_bytes_from_view view data_offset tensor_offset byte_count =
    let abs_offset = (data_offset + tensor_offset) % 2 ^ 64 in
    let view_size = length view in
    if ltb (2 ^ 64 - 1 - tensor_offset) data_offset
    then err out_of_range
    else if ltb view_size abs_offset || ltb (view_size - abs_offset) byte_count
    then err out_of_range
    else ok (take byte_count (drop abs_offset view))
