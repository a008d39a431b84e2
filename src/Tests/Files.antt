-- ===== src/Tests/Files.antt =====
-- A small GGUF file, and the theorems on its parts.
use llmengine.Base.{
  [], arith, if◌then◌else◌, leb, none, pos, refl, replicate, some, ◌++◌, ◌+◌, ◌∷◌, ◌≡◌,
}
use llmengine.Core.Status.{out_of_range, ok, err, ◌>>=◌}
use llmengine.Io.Format.{value_type, f32}
use llmengine.Io.Reader.{read_bytes, read_string, repeat, le_bytes}
use llmengine.Io.Metadata.{uint8, array, nil, cons, value_with, read_metadata_value}
use llmengine.Io.Tensors.{GgufTensorInfo, bytes, parse_tensor_infos, copy_tensor_bytes_from_view}
use llmengine.Io.File.{GgufFile, tensor_view}
use llmengine.Io.Codec.{write_string, read_string-write_string, write_all}
use llmengine.Io.RoundTrip.{write_tensor_info, Fits, parse_tensor_infos-write}
use llmengine.Io.Bounds.{copy_tensor_bytes_from_view-in_bounds, tensor_view-copy}

abbrev weight : GgufTensorInfo
weight = record { name = 119 ∷ []; dtype = f32; dimensions = pos 2 ∷ pos 3 ∷ []; offset = 4 }

weight-Fits : Fits weight
weight-Fits = record {
  name = omega arith;
  rank = (omega arith, omega arith);
  dims = ((omega arith, omega arith), ((omega arith, omega arith), tt));
  tag = (omega arith, refl);
  offset = omega arith;
}

parse_tensor_infos-write_example :
    parse_tensor_infos 1 (write_all write_tensor_info (weight ∷ []) (1 ∷ 2 ∷ []))
    ≡ ok (weight ∷ [], 1 ∷ 2 ∷ [])
parse_tensor_infos-write_example =
    parse_tensor_infos-write (weight ∷ []) (1 ∷ 2 ∷ []) (weight-Fits, tt) (omega arith)

read_string-write_string_example :
    read_string (write_string (104 ∷ 105 ∷ []) (7 ∷ [])) ≡ ok (104 ∷ 105 ∷ [], 7 ∷ [])
read_string-write_string_example = read_string-write_string (104 ∷ 105 ∷ []) (7 ∷ []) (omega arith)

-- An entry of four bytes, "ab" and an array of one `uint8_t`.
read_array :
    read_metadata_value 20 (value_type 9) (le_bytes 4 0 ++ (le_bytes 8 1 ++ 5 ∷ []))
    ≡ ok (array (cons (uint8 5) nil), [])
unfolding read_metadata_value value_with repeat read_bytes
read_array = refl

copy_in_bounds_example :
    copy_tensor_bytes_from_view (1 ∷ 2 ∷ 3 ∷ 4 ∷ []) 1 1 2
    ≡ (if leb (1 + 1 + 2) 4 then ok (3 ∷ 4 ∷ []) else err out_of_range)
copy_in_bounds_example =
    copy_tensor_bytes_from_view-in_bounds (1 ∷ 2 ∷ 3 ∷ 4 ∷ []) 1 1 2 (omega arith) (omega arith)
      (omega arith)

abbrev file : GgufFile
file = record {
  version = 3;
  tensor_count = 1;
  metadata_kv_count = 0;
  data_offset = 32;
  memory_view = none;
  metadata = [];
  tensor_infos = weight ∷ [];
}

tensor_view-copy_example :
    tensor_view (record file { memory_view = some (replicate 64 0) }) weight
    ≡ bytes weight >>= λ n. copy_tensor_bytes_from_view (replicate 64 0) 32 4 n
tensor_view-copy_example = tensor_view-copy file weight (replicate 64 0)
