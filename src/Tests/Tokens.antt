-- ===== src/Tests/Tokens.antt =====
-- The theorems on the tokenizer at concrete inputs.
use llmengine.Base.{
  Bool, List, Returns, [], arith, false, leb, map, negsuc, pos, refl, some, true, ℕ, ◌&&◌, ◌++◌,
  ◌+◌, ◌||◌, ◌∷◌, ◌≡◌,
}
use llmengine.Tokenizer.Bytes.{
  Bytes, slice, utf8_char_len, utf8_decode, unicode_is_space, unicode_is_newline,
}
use llmengine.Core.Status.{ok}
use llmengine.Io.Metadata.{string, array, nil, cons, Metadata, find}
use llmengine.Tokenizer.ByteMap.{
  counting, utf8_encode, char_of, bytes_to_unicode, unmap, unmap_loop, unicode_to_bytes,
}
use llmengine.Tokenizer.ByteMap.RoundTrip.{
  every_byte, every_byte_lem, without_255, unicode_to_bytes-bytes_to_unicode,
}
use llmengine.Tokenizer.PreTokenize.{
  third_is, match_contraction, decode_at, skip_while, skip, skip_digits, next_is, is_symbol,
  symbol_end, other_end, piece_end, emit, pieces_loop, pre_tokenize,
}
use llmengine.Tokenizer.PreTokenize.Whole.{is_shortest, is_whole, WholeChars}
use llmengine.Tokenizer.PreTokenize.Spelling.{Spells, pre_tokenize-Spells}
use llmengine.Tokenizer.Bpe.{Ids, find_id, characters, bpe}
use llmengine.Tokenizer.Bpe.Words.{Encodes, bpe-Encodes}
use llmengine.Tokenizer.Encode.{BpeTokenizer, encode}
use llmengine.Tokenizer.Decode.{is_unknown, named_byte, text_of, decode}
use llmengine.Tokenizer.RoundTrip.Known.{is_known}
use llmengine.Tokenizer.RoundTrip.Merged.{Closed}
use llmengine.Tokenizer.RoundTrip.Added.{AllAdded}
use llmengine.Tokenizer.RoundTrip.Whole.{decode-encode}
use llmengine.Tokenizer.Init.{
  name_bytes, get_i64, vocab_loop, read_merges, put_id, no_tokenizer, added_loop, init_from,
  init_tokens, init,
}
use llmengine.Tokenizer.Init.Vocab.{Maps, init-Maps}

-- The letters and digits of ASCII.
abbrev alpha : ℕ → Bool
alpha c = (leb b'a' c && leb c b'z') || (leb b'A' c && leb c b'Z')

abbrev digit : ℕ → Bool
digit c = leb b'0' c && leb c b'9'

-- The characters of all bytes, a merge and an added token.
abbrev vocabulary : List Bytes
vocabulary =
    map utf8_encode (counting 94 33 ++ (counting 12 161 ++ (counting 82 174 ++ counting 68 256)))
    ++ name_bytes "ab" ∷ name_bytes "<|e|>" ∷ []

number_from : ℕ → List Bytes → Ids
number_from i [] = []
number_from i (t ∷ ts) = (t, pos i) ∷ number_from (i + 1) ts

abbrev small_tokenizer : BpeTokenizer
small_tokenizer = record {
  vocab = vocabulary;
  vocab_map = number_from 0 vocabulary;
  bpe_ranks = ((name_bytes "a", name_bytes "b"), pos 0) ∷ [];
  eos_id = negsuc 0;
  bos_id = negsuc 0;
  pad_id = negsuc 0;
  added_tokens_map = (name_bytes "<|e|>", pos 257) ∷ [];
  added_tokens = (name_bytes "<|e|>", pos 257) ∷ [];
}

bytes_table : every_byte (λ b. is_known small_tokenizer (char_of b)) ≡ true
unfolding every_byte is_known char_of counting utf8_encode number_from find_id named_byte is_unknown
bytes_table = refl

small_tokenizer-Closed : Closed small_tokenizer
unfolding is_known char_of counting utf8_encode number_from find_id named_byte is_unknown
small_tokenizer-Closed = record {
  bytes_known = λ b h. every_byte_lem (λ c. is_known small_tokenizer (char_of c)) b bytes_table h;
  merges_known = (refl, tt);
}

small_tokenizer-AllAdded : AllAdded small_tokenizer small_tokenizer.added_tokens
unfolding counting utf8_encode is_unknown text_of named_byte unicode_to_bytes unmap_loop utf8_decode
    unmap
small_tokenizer-AllAdded = ((omega arith, omega arith, refl, refl), tt)

-- "ab 1<|e|>" and an accented letter.
abbrev sample_text : Bytes
sample_text = name_bytes "ab 1<|e|>" ++ 195 ∷ 169 ∷ []

sample_text-WholeChars : WholeChars sample_text
unfolding is_whole is_shortest utf8_decode
sample_text-WholeChars = refl

decode-encode_example :
    Returns
      (λ ids. decode small_tokenizer ids ≡ some (ok (without_255 sample_text)))
      (encode alpha digit small_tokenizer sample_text false false)
unfolding counting utf8_encode
decode-encode_example =
    decode-encode alpha digit small_tokenizer sample_text small_tokenizer-Closed
      small_tokenizer-AllAdded refl (omega arith) sample_text-WholeChars

pre_tokenize-Spells_example : Returns (Spells sample_text) (pre_tokenize alpha digit sample_text)
pre_tokenize-Spells_example = pre_tokenize-Spells alpha digit sample_text sample_text-WholeChars

unicode_to_bytes-bytes_to_unicode_example :
    unicode_to_bytes (bytes_to_unicode (104 ∷ 0 ∷ 255 ∷ 32 ∷ []))
    ≡ some (without_255 (104 ∷ 0 ∷ 255 ∷ 32 ∷ []))
unicode_to_bytes-bytes_to_unicode_example =
    unicode_to_bytes-bytes_to_unicode (104 ∷ 0 ∷ 255 ∷ 32 ∷ []) (omega arith)

three_letters :
    characters (name_bytes "abb") ≡ some (name_bytes "a" ∷ name_bytes "b" ∷ name_bytes "b" ∷ [])
unfolding characters utf8_char_len slice
three_letters = refl

bpe-Encodes_example :
    Returns
      (Encodes
        (number_from 0 vocabulary)
        (((name_bytes "a", name_bytes "b"), pos 0) ∷ [])
        (name_bytes "a" ∷ name_bytes "b" ∷ name_bytes "b" ∷ []))
      (bpe
        (number_from 0 vocabulary)
        (((name_bytes "a", name_bytes "b"), pos 0) ∷ [])
        (name_bytes "abb"))
bpe-Encodes_example =
    bpe-Encodes (number_from 0 vocabulary) (((name_bytes "a", name_bytes "b"), pos 0) ∷ [])
      (name_bytes "abb") (name_bytes "a" ∷ name_bytes "b" ∷ name_bytes "b" ∷ []) three_letters

-- The metadata of a file with two tokens, one of them added.
abbrev two_tokens : Metadata
two_tokens =
    (
      name_bytes "tokenizer.ggml.tokens",
      array (cons (string (name_bytes "a")) (cons (string (name_bytes "<x>")) nil)),
    )
    ∷ []

abbrev two_tokens_made : BpeTokenizer
two_tokens_made = record {
  vocab = name_bytes "a" ∷ name_bytes "<x>" ∷ [];
  vocab_map = (name_bytes "<x>", pos 1) ∷ (name_bytes "a", pos 0) ∷ [];
  bpe_ranks = [];
  eos_id = negsuc 0;
  bos_id = negsuc 0;
  pad_id = negsuc 0;
  added_tokens_map = (name_bytes "<x>", pos 1) ∷ [];
  added_tokens = (name_bytes "<x>", pos 1) ∷ [];
}

two_tokens-init :
    init alpha digit (λ added. added) two_tokens no_tokenizer ≡ some (ok two_tokens_made)
unfolding init init_tokens init_from added_loop vocab_loop read_merges get_i64 find put_id
    pre_tokenize pieces_loop piece_end other_end symbol_end emit slice decode_at utf8_decode skip
    skip_while skip_digits next_is is_symbol unicode_is_space unicode_is_newline match_contraction
    third_is
two_tokens-init = refl

init-Maps_example : Maps [] two_tokens_made.vocab two_tokens_made.vocab_map
init-Maps_example =
    init-Maps alpha digit (λ added. added) two_tokens no_tokenizer two_tokens_made two_tokens-init
