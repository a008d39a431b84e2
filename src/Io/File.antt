-- ===== src/Io/File.antt =====
-- Whole files, in src/io/gguf_parser.cpp. What the system gives for a name is a parameter: the bytes
-- that an input stream opens on, and the memory view.
use llmengine.Base.{
  List, Option, [], drop, if◌then◌else◌, length, ltb, none, not, some, take, ℕ, ◌%◌, ◌+◌, ◌-◌, ◌==◌,
  ◌^◌, ◌||◌, ◌∷◌,
}
use llmengine.Io.Reader.{Reader, ◌>>=◌, ◌>>◌, pure, fail, read_bytes, read_u32_le, read_u64_le}
use llmengine.Io.Metadata.{uint32, Metadata, same_string, find, parse_metadata}
use llmengine.Io.Tensors.{GgufTensorInfo, bytes, parse_tensor_infos, copy_tensor_bytes_from_view}
use llmengine.Core.Status.{invalid_argument, out_of_range, unsupported, io_error, Result, ok, err}

pub record GgufFile : Type 0 where
  pub version : ℕ
  pub tensor_count : ℕ
  pub metadata_kv_count : ℕ
  pub data_offset : ℕ
  pub memory_view : Option (List ℕ)
  pub metadata : Metadata
  pub tensor_infos : List GgufTensorInfo

-- `GGUFFile::tensor_view`
unfoldable pub tensor_view : GgufFile → GgufTensorInfo → Result (List ℕ)
tensor_view file ti = elim file.memory_view [
  | none ↦ err unsupported
  | some raw ↦ elim (bytes ti) [
    | err e ↦ err e
    | ok byte_count ↦
        let abs_offset = (file.data_offset + ti.offset) % 2 ^ 64 in
        if ltb (2 ^ 64 - 1 - ti.offset) file.data_offset
        then err out_of_range
        else if ltb (length raw) abs_offset || ltb (length raw - abs_offset) byte_count
        then err out_of_range
        else ok (take byte_count (drop abs_offset raw))
  ]
]

-- "GGUF"
abbrev pub magic : List ℕ
magic = 71 ∷ 71 ∷ 85 ∷ 70 ∷ []

-- "general.alignment"
abbrev pub alignment_key : List ℕ
alignment_key =
    103 ∷ 101 ∷ 110 ∷ 101 ∷ 114 ∷ 97 ∷ 108 ∷ 46 ∷ 97 ∷ 108 ∷ 105 ∷ 103 ∷ 110 ∷ 109 ∷ 101 ∷ 110 ∷ 116
    ∷ []

abbrev pub alignment_of : Metadata → ℕ
alignment_of meta = elim (find meta alignment_key) [ some (uint32 v) ↦ v | some _ ↦ 32 | none ↦ 32 ]

-- The next multiple of the alignment; `none` is the division by zero.
unfoldable pub align_offset : ℕ → ℕ → Option ℕ
align_offset raw_offset alignment =
    if alignment == 0
    then none
    else some ((raw_offset + (alignment - raw_offset % alignment) % alignment) % 2 ^ 64)

abbrev pub read_magic : Reader (List ℕ)
read_magic s = elim (read_bytes 4 s) [
  | err e ↦ err invalid_argument
  | ok (m, rest) ↦ if same_string m magic then ok (m, rest) else err invalid_argument
]

-- What `parse` reads from the stream, with the offset and the memory view not yet set.
unfoldable pub parse_header : Reader GgufFile
parse_header = do
  read_magic
  version ← read_u32_le
  if not (version == 3) then fail unsupported else (do
    tensor_count ← read_u64_le
    kv_count ← read_u64_le
    metadata ← parse_metadata kv_count
    infos ← parse_tensor_infos tensor_count
    pure (record {
      version = version;
      tensor_count = tensor_count;
      metadata_kv_count = kv_count;
      data_offset = 0;
      memory_view = none;
      metadata = metadata;
      tensor_infos = infos;
    }))

-- `GGUFParser::parse`, of a file with the content that the stream gives and the view that the system
-- gives for its name. `none` is the division by an alignment of zero.
unfoldable pub parse : Option (List ℕ) → Option (List ℕ) → Option (Result GgufFile)
parse none view = some (err io_error)
parse (some content) view = elim (parse_header content) [
  | err e ↦ some (err e)
  | ok (file, rest) ↦
      elim (align_offset (length content - length rest) (alignment_of file.metadata)) [
        | none ↦ none
        | some offset ↦ some (ok (record file { data_offset = offset; memory_view = view }))
      ]
]

-- `GGUFParser::read_tensor_data`: the bytes that it stores.
unfoldable pub read_tensor_data : Option (List ℕ) → Option (List ℕ) → ℕ → ℕ → ℕ → Result (List ℕ)
read_tensor_data content (some view) data_offset tensor_offset byte_count =
    copy_tensor_bytes_from_view view data_offset tensor_offset byte_count
read_tensor_data none none data_offset tensor_offset byte_count = err io_error
read_tensor_data (some content) none data_offset tensor_offset byte_count =
    let abs_offset = (data_offset + tensor_offset) % 2 ^ 64 in
    if ltb (2 ^ 64 - 1 - tensor_offset) data_offset
    then err out_of_range
    else if ltb (2 ^ 63 - 1) abs_offset
    then err out_of_range
    else if ltb (length (drop abs_offset content)) byte_count
    then err io_error
    else ok (take byte_count (drop abs_offset content))
