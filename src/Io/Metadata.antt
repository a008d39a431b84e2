-- ===== src/Io/Metadata.antt =====
-- Metadata values of src/io/gguf_parser.cpp. A float is kept as its bits, a string as its bytes, a
-- map as the list of its entries in the order of insertion.
use llmengine.Base.{
  Bool, List, Option, [], false, if◌then◌else◌, length, ltb, none, not, pos, some, sub_ℕ, suc, true,
  zero, ℕ, ℤ, ◌&&◌, ◌*◌, ◌++◌, ◌-◌, ◌==◌, ◌^◌, ◌∷◌,
}
use llmengine.Io.Format.{
  GgufValueType, uint8_t, int8_t, uint16_t, int16_t, uint32_t, int32_t, float32_t, bool_t, string_t,
  array_t, uint64_t, int64_t, float64_t, value_type,
}
use llmengine.Io.Reader.{
  Reader, ◌>>=◌, pure, fail, read_u8, read_u16_le, read_u32_le, read_u64_le, read_string, repeat,
}
use llmengine.Core.Status.{
  invalid_argument, unsupported, io_error, not_found, type_error, Result, ok, err,
}

mutual
  pub data MetadataValue : Type 0 where
    uint8 uint16 uint32 uint64 float32 float64 : ℕ → MetadataValue
    int8 int16 int32 int64 : ℤ → MetadataValue
    boolean : Bool → MetadataValue
    string : List ℕ → MetadataValue
    array : MetadataArray → MetadataValue

  -- `MetadataArray`
  pub data MetadataArray : Type 0 where
    nil : MetadataArray
    cons : MetadataValue → MetadataArray → MetadataArray

abbrev pub to_array : List MetadataValue → MetadataArray
to_array [] = nil
to_array (v ∷ vs) = cons v (to_array vs)

abbrev pub array_size : MetadataArray → ℕ
array_size nil = 0
array_size (cons v vs) = suc (array_size vs)

-- The cast to a signed type of `w` bits.
abbrev pub to_signed : ℕ → ℕ → ℤ
to_signed w v = if ltb v (2 ^ (w - 1)) then pos v else sub_ℕ v (2 ^ w)

abbrev pub max_array_len : ℕ
max_array_len = 16 * 1024 * 1024

-- `read_metadata_value`, with the elements of an array read by `elem`.
unfoldable pub value_with :
    (Option GgufValueType → Reader MetadataValue) → Option GgufValueType → Reader MetadataValue
value_with elem none = fail unsupported
value_with elem (some uint8_t) = do v ← read_u8; pure (uint8 v)
value_with elem (some int8_t) = do v ← read_u8; pure (int8 (to_signed 8 v))
value_with elem (some uint16_t) = do v ← read_u16_le; pure (uint16 v)
value_with elem (some int16_t) = do v ← read_u16_le; pure (int16 (to_signed 16 v))
value_with elem (some uint32_t) = do v ← read_u32_le; pure (uint32 v)
value_with elem (some int32_t) = do v ← read_u32_le; pure (int32 (to_signed 32 v))
value_with elem (some float32_t) = do v ← read_u32_le; pure (float32 v)
value_with elem (some bool_t) = do v ← read_u8; pure (boolean (not (v == 0)))
value_with elem (some string_t) = do v ← read_string; pure (string v)
value_with elem (some array_t) = do
  tag ← read_u32_le
  len ← read_u64_le
  if ltb max_array_len len
      then fail invalid_argument
      else (do elements ← repeat len (elem (value_type tag)); pure (array (to_array elements)))
value_with elem (some uint64_t) = do v ← read_u64_le; pure (uint64 v)
value_with elem (some int64_t) = do v ← read_u64_le; pure (int64 (to_signed 64 v))
value_with elem (some float64_t) = do v ← read_u64_le; pure (float64 v)

-- `read_metadata_value`. An array takes twelve bytes, so the length of the stream bounds how deep
-- arrays nest; the error at fuel 0 is never met when the fuel exceeds that length.
unfoldable pub read_metadata_value : ℕ → Option GgufValueType → Reader MetadataValue
read_metadata_value zero type = fail io_error
read_metadata_value (suc fuel) type = value_with (read_metadata_value fuel) type

abbrev pub Metadata : Type 0
Metadata = List (List ℕ × MetadataValue)

abbrev pub same_string : List ℕ → List ℕ → Bool
same_string [] [] = true
same_string [] (b ∷ t) = false
same_string (a ∷ s) [] = false
same_string (a ∷ s) (b ∷ t) = a == b && same_string s t

unfoldable pub find : Metadata → List ℕ → Option MetadataValue
find [] key = none
find ((k, v) ∷ meta) key = if same_string k key then some v else find meta key

-- `meta.emplace`: the first entry of a key stays.
unfoldable pub emplace : List ℕ → MetadataValue → Metadata → Metadata
emplace key v meta = elim (find meta key) [ none ↦ meta ++ (key, v) ∷ [] | some old ↦ meta ]

-- The loop, with `n` entries left.
unfoldable pub metadata_loop : ℕ → Metadata → Reader Metadata
metadata_loop zero meta = pure meta
metadata_loop (suc n) meta = do
  key ← read_string
  tag ← read_u32_le
  v ← (λ s. read_metadata_value (suc (length s)) (value_type tag) s)
  metadata_loop n (emplace key v meta)

abbrev pub parse_metadata : ℕ → Reader Metadata
parse_metadata kv_count = metadata_loop kv_count []

unfoldable pub get_metadata : Metadata → List ℕ → Result MetadataValue
get_metadata meta key = elim (find meta key) [ none ↦ err not_found | some v ↦ ok v ]

unfoldable pub get_metadata_array_size : Metadata → List ℕ → Result ℕ
get_metadata_array_size meta key = elim (find meta key) [
  | none ↦ err not_found
  | some (array elements) ↦ ok (array_size elements)
  | some _ ↦ err type_error
]
