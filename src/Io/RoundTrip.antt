-- ===== src/Io/RoundTrip.antt =====
-- The tensor infos of src/io/gguf_parser.cpp: what a writer of the format emits is parsed back.
use mathlib.Core.List.{reverse, reverse-reverse}
use llmengine.Base.{
  List, arith, false, if◌then◌else◌, length, le→ltb-false, ltb, negsuc, pos, pos_part, refl, ℕ, ℤ,
  ◌++◌, ◌<◌, ◌==◌, ◌^◌, ◌||◌, ◌∙◌, ◌≡◌, ◌≤◌,
}
use llmengine.Io.Format.{GgmlDataType, f32, f16, q4_0, q4_1, q8_0, bf16, other, ggml_type}
use llmengine.Io.Reader.{
  Stream, ◌>>=◌, pure, fail, read_u32_le, read_u64_le, max_string_len, read_string, repeat,
  le_bytes,
}
use llmengine.Io.Tensors.{
  GgufTensorInfo, int64_max, read_dim, tensor_info, read_offset, read_tag, read_rest,
  read_tensor_info, max_tensor_count, parse_tensor_infos,
}
use llmengine.Io.Codec.{
  bind-ok, read_le-le_bytes, write_string, read_string-write_string, write_all, All,
  repeat-write_all,
}
use llmengine.Core.Status.{invalid_argument, ok}

-- The tag of an element type.
abbrev pub ggml_tag : GgmlDataType → ℕ
ggml_tag f32 = 0
ggml_tag f16 = 1
ggml_tag q4_0 = 2
ggml_tag q4_1 = 3
ggml_tag q8_0 = 8
ggml_tag bf16 = 30
ggml_tag (other tag) = tag

abbrev pub write_dim : ℤ → Stream → Stream
write_dim d rest = le_bytes 8 (pos_part d) ++ rest

-- What a writer of the format emits for a tensor: the dimensions from the last to the first.
abbrev pub write_tensor_info : GgufTensorInfo → Stream → Stream
write_tensor_info ti rest = write_string ti.name (
    le_bytes 4 (length (reverse ti.dimensions))
    ++ write_all write_dim (reverse ti.dimensions)
        (le_bytes 4 (ggml_tag ti.dtype) ++ (le_bytes 8 ti.offset ++ rest)))

-- A dimension is a positive `int64_t`.
abbrev pub DimFits : ℤ → Type 0
DimFits (pos n) = (0 < n) × (n ≤ int64_max)
DimFits (negsuc n) = ⊥

-- A tensor info that the format can hold.
pub record Fits (ti : GgufTensorInfo) : Type 0 where
  pub name : length ti.name ≤ max_string_len
  pub rank : (0 < length (reverse ti.dimensions)) × (length (reverse ti.dimensions) ≤ 8)
  pub dims : All DimFits (reverse ti.dimensions)
  pub tag : (ggml_tag ti.dtype < 2 ^ 32) × (ggml_type (ggml_tag ti.dtype) ≡ ti.dtype)
  pub offset : ti.offset < 2 ^ 64

read_dim-write_dim : (d : ℤ) → DimFits d → (s : Stream) → read_dim (write_dim d s) ≡ ok (d, s)
read_dim-write_dim (negsuc n) h s = absurd h
read_dim-write_dim (pos n) h s =
    let valid : (n == 0 || ltb int64_max n) ≡ false = ground arith in
    bind-ok {s = write_dim (pos n) s} read_u64_le
      (λ d. if d == 0 || ltb int64_max d then fail invalid_argument else pure (pos d))
      (read_le-le_bytes 8 n s (omega arith))
    ∙ rw valid refl

-- The part of a tensor info behind its name and its rank.
tail_lem :
    (ti : GgufTensorInfo)
    → Fits ti
    → (rest : Stream)
    → read_rest ti.name (length (reverse ti.dimensions)) (
        write_all write_dim
          (reverse ti.dimensions)
          (le_bytes 4 (ggml_tag ti.dtype) ++ (le_bytes 8 ti.offset ++ rest)))
      ≡ ok (ti, rest)
tail_lem ti h rest =
    let stored = reverse ti.dimensions in
    bind-ok (repeat (length stored) read_dim) (read_tag ti.name) (
      repeat-write_all read_dim write_dim DimFits read_dim-write_dim stored h.dims
        (le_bytes 4 (ggml_tag ti.dtype) ++ (le_bytes 8 ti.offset ++ rest)))
    ∙ (bind-ok {s = le_bytes 4 (ggml_tag ti.dtype) ++ (le_bytes 8 ti.offset ++ rest)} read_u32_le
          (read_offset ti.name stored)
          (read_le-le_bytes 4 (ggml_tag ti.dtype) (le_bytes 8 ti.offset ++ rest) h.tag.0)
        ∙ (bind-ok {s = le_bytes 8 ti.offset ++ rest} read_u64_le
              (λ offset. pure (tensor_info ti.name (ggml_tag ti.dtype) stored offset))
              (read_le-le_bytes 8 ti.offset rest h.offset)
            ∙ rw (h.tag.1, reverse-reverse ti.dimensions) refl))

read_tensor_info-write :
    (ti : GgufTensorInfo)
    → Fits ti
    → (rest : Stream) → read_tensor_info (write_tensor_info ti rest) ≡ ok (ti, rest)
unfolding read_tensor_info
read_tensor_info-write ti h rest =
    let stored = reverse ti.dimensions in
    let body =
      write_all write_dim stored
        (le_bytes 4 (ggml_tag ti.dtype) ++ (le_bytes 8 ti.offset ++ rest)) in
    let valid : (length stored == 0 || ltb 8 (length stored)) ≡ false =
      ground (arith, h.rank.0, h.rank.1) in
    bind-ok {s = write_tensor_info ti rest} read_string
      (λ name. read_u32_le >>= λ dims.
        if dims == 0 || ltb 8 dims then fail invalid_argument else read_rest name dims)
      (read_string-write_string ti.name (le_bytes 4 (length stored) ++ body) h.name)
    ∙ (bind-ok {s = le_bytes 4 (length stored) ++ body} read_u32_le
          (λ dims.
            if dims == 0 || ltb 8 dims then fail invalid_argument else read_rest ti.name dims)
          (read_le-le_bytes 4 (length stored) body (omega (arith, h.rank.1)))
        ∙ rw valid (tail_lem ti h rest))

-- The tensor infos that a writer of the format emits, at most `max_tensor_count` of them, are parsed
-- back: names, row-major dimensions, element types and offsets.
pub parse_tensor_infos-write :
    (infos : List GgufTensorInfo) (rest : Stream)
    → All Fits infos
    → length infos ≤ max_tensor_count
    → parse_tensor_infos (length infos) (write_all write_tensor_info infos rest) ≡ ok (infos, rest)
unfolding parse_tensor_infos
parse_tensor_infos-write infos rest h few =
    rw (le→ltb-false max_tensor_count (length infos) few)
      (repeat-write_all read_tensor_info write_tensor_info Fits read_tensor_info-write infos h rest)
