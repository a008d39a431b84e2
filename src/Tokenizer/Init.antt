-- ===== src/Tokenizer/Init.antt =====
-- `init` of src/io/bpe_tokenizer.cpp, which fills the tokenizer from the metadata of a file. The maps
-- are not cleared first, so that it takes the tokenizer as it was. After an error the members that are
-- set by then are not kept here.
pub mod Vocab
use Prim.Native.Char.{code}
use Prim.Native.String.{String}
use llmengine.Base.{
  Bool, List, Option, [], false, if◌then◌else◌, length, ltb, negsuc, none, pos, some, true, ℕ, ℤ,
  ◌%◌, ◌++◌, ◌+◌, ◌-◌, ◌==◌, ◌^◌, ◌∷◌,
}
use llmengine.Tokenizer.Bytes.{Bytes, ◌>>=◌}
use llmengine.Core.Status.{not_found, type_error, Result, ok, err, ◌>>◌}
use llmengine.Io.Metadata.{
  MetadataValue, uint32, uint64, int32, int64, boolean, string, array, MetadataArray, nil, cons,
  Metadata, same_string, find,
}
use llmengine.Tokenizer.PreTokenize.{pre_tokenize}
use llmengine.Tokenizer.Bpe.{Ids, Ranks}
use llmengine.Tokenizer.Encode.{BpeTokenizer}
use llmengine.Tokenizer.Decode.{to_int32}

-- The bytes of a name.
abbrev pub name_bytes : String → Bytes
name_bytes String.[] = []
name_bytes (String.◌∷◌ c s) = code c ∷ name_bytes s

-- `static_cast<int32_t>` of a signed integer
abbrev pub narrow : ℤ → ℤ
narrow (pos n) = to_int32 n
narrow (negsuc n) = to_int32 (2 ^ 32 - 1 - n % 2 ^ 32)

-- `get_i64`
unfoldable pub get_i64 : Metadata → Bytes → ℤ
get_i64 meta key = elim (find meta key) [
  | some (int32 v) ↦ v
  | some (uint32 v) ↦ to_int32 v
  | some (int64 v) ↦ narrow v
  | some (uint64 v) ↦ to_int32 v
  | some (boolean true) ↦ pos 1
  | some (boolean false) ↦ pos 0
  | some _ ↦ negsuc 0
  | none ↦ negsuc 0
]

-- The loop over the tokens, from number `i` on, with the vocabulary and its map so far.
unfoldable pub vocab_loop : ℕ → MetadataArray → List Bytes → Ids → Result (List Bytes × Ids)
vocab_loop i nil vocab ids = ok (vocab, ids)
vocab_loop i (cons (string s) rest) vocab ids =
    vocab_loop (i + 1) rest (vocab ++ s ∷ []) ((s, to_int32 i) ∷ ids)
vocab_loop i (cons _ rest) vocab ids = err type_error

-- `merge.find(' ')` and the two `substr`
unfoldable pub split_merge : Bytes → Option (Bytes × Bytes)
split_merge [] = none
split_merge (c ∷ s) =
    if c == b' ' then some ([], s) else split_merge s >>= (λ parts. some (c ∷ parts.0, parts.1))

abbrev pub put_rank : Option (Bytes × Bytes) → ℤ → Ranks → Ranks
put_rank none rank ranks = ranks
put_rank (some parts) rank ranks = (parts, rank) ∷ ranks

unfoldable pub merges_loop : ℕ → MetadataArray → Ranks → Ranks
merges_loop i nil ranks = ranks
merges_loop i (cons (string s) rest) ranks =
    merges_loop (i + 1) rest (put_rank (split_merge s) (to_int32 i) ranks)
merges_loop i (cons _ rest) ranks = merges_loop (i + 1) rest ranks

unfoldable pub read_merges : Option MetadataValue → Ranks → Ranks
unfolding split_merge merges_loop
read_merges (some (array merges)) ranks = merges_loop 0 merges ranks
read_merges _ ranks = ranks

-- `added_tokens_map_[text] = id`
unfoldable pub put_id : Bytes → ℤ → Ids → Ids
put_id text id [] = (text, id) ∷ []
put_id text id ((t, old) ∷ ids) =
    if same_string t text then (t, id) ∷ ids else (t, old) ∷ put_id text id ids

-- `pieces.size() > 1`
abbrev pub is_cut : List Bytes → Bool
is_cut pieces = ltb 1 (length pieces)

-- `BPETokenizer()`
abbrev pub no_tokenizer : BpeTokenizer
no_tokenizer = record {
  vocab = [];
  vocab_map = [];
  bpe_ranks = [];
  eos_id = negsuc 0;
  bos_id = negsuc 0;
  pad_id = negsuc 0;
  added_tokens_map = [];
  added_tokens = [];
}

-- What is done with the unordered map: `assign` and `std::sort` by the length.
abbrev pub Arrange : Type 0
Arrange = Ids → List (Bytes × ℤ)

module _ (isalpha isdigit : ℕ → Bool) (arrange : Arrange) where
  -- The loop over the vocabulary, from number `i` on.
  unfoldable pub added_loop : ℕ → List Bytes → Ids → Option Ids
  added_loop i [] added = some added
  added_loop i ([] ∷ vocab) added = added_loop (i + 1) vocab added
  added_loop i ((c ∷ t) ∷ vocab) added = pre_tokenize isalpha isdigit (c ∷ t) >>= λ pieces.
      added_loop (i + 1) vocab (if is_cut pieces then put_id (c ∷ t) (to_int32 i) added else added)

  unfoldable pub init_from : Metadata → BpeTokenizer → List Bytes × Ids → Option BpeTokenizer
  init_from meta old filled = do
    added ← added_loop 0 filled.0 old.added_tokens_map
    some (record {
      vocab = filled.0;
      vocab_map = filled.1;
      bpe_ranks = read_merges (find meta (name_bytes "tokenizer.ggml.merges")) old.bpe_ranks;
      eos_id = get_i64 meta (name_bytes "tokenizer.ggml.eos_token_id");
      bos_id = get_i64 meta (name_bytes "tokenizer.ggml.bos_token_id");
      pad_id = get_i64 meta (name_bytes "tokenizer.ggml.padding_token_id");
      added_tokens_map = added;
      added_tokens = arrange added;
    })

  -- `none` is a read behind the end of a token.
  unfoldable pub init_tokens :
      Metadata → BpeTokenizer → Option MetadataValue → Option (Result BpeTokenizer)
  init_tokens meta old none = some (err not_found)
  init_tokens meta old (some (array tokens)) = elim (vocab_loop 0 tokens [] old.vocab_map) [
    | err e ↦ some (err e)
    | ok filled ↦ init_from meta old filled >>= λ tk. some (ok tk)
  ]
  init_tokens meta old (some _) = some (err type_error)

  unfoldable pub init : Metadata → BpeTokenizer → Option (Result BpeTokenizer)
  init meta old = init_tokens meta old (find meta (name_bytes "tokenizer.ggml.tokens"))
