-- ===== src/Tokenizer/Decode.antt =====
-- `decode` of src/io/bpe_tokenizer.cpp.
use Prim.Native.Nat.{bit_or}
use llmengine.Base.{
  Bool, List, Option, [], false, get_or, if◌then◌else◌, is_empty, is_neg, leb, length, ltb_ℤ,
  negsuc, none, not, pos, pos_part, some, ℕ, ℤ, ◌%◌, ◌&&◌, ◌++◌, ◌+◌, ◌-◌, ◌==◌, ◌^◌, ◌||◌, ◌∷◌,
}
use llmengine.Tokenizer.Bytes.{Bytes, ◌>>=◌, shl}
use llmengine.Core.Status.{not_found, Result, ok, err}
use llmengine.Tokenizer.ByteMap.{unicode_to_bytes}
use llmengine.Tokenizer.Encode.{BpeTokenizer}
use llmengine.Io.Metadata.{to_signed}

-- `static_cast<int32_t>` of a size
abbrev pub to_int32 : ℕ → ℤ
to_int32 n = to_signed 32 (n % 2 ^ 32)

unfoldable pub vocab_size : BpeTokenizer → ℤ
vocab_size tk = to_int32 (length tk.vocab)

-- `id < 0 || id >= vocab_.size()`
unfoldable pub is_unknown : BpeTokenizer → ℤ → Bool
unfolding vocab_size
is_unknown tk id = is_neg id || not (ltb_ℤ id (vocab_size tk))

-- A hexadecimal digit, 0 for any other character.
abbrev pub nibble : ℕ → ℕ
nibble c =
    if leb b'0' c && leb c b'9'
    then c - b'0'
    else if leb b'a' c && leb c b'f'
    then c - b'a' + 10
    else if leb b'A' c && leb c b'F'
    then c - b'A' + 10
    else 0

-- `byte <<= 4` and `byte |= …`, in eight bits.
abbrev pub push_nibble : ℕ → ℕ → ℕ
push_nibble byte c = bit_or (shl byte 4 % 256) (nibble c)

-- The byte that a text `<0xHH>` names.
unfoldable pub named_byte : Bytes → Option ℕ
named_byte (a ∷ b ∷ c ∷ d ∷ e ∷ f ∷ []) =
    if a == b'<' && b == b'0' && c == b'x' && f == b'>'
    then some (push_nibble (push_nibble 0 d) e)
    else none
named_byte tok = none

unfoldable pub text_of : Bytes → Option Bytes
text_of tok = elim (named_byte tok) [ none ↦ unicode_to_bytes tok | some byte ↦ some (byte ∷ []) ]

-- `none` is a read behind the end of a text of the vocabulary.
unfoldable pub token_to_text : BpeTokenizer → ℤ → Option Bytes
unfolding is_unknown text_of
token_to_text tk id =
    if is_unknown tk id then some [] else text_of (get_or tk.vocab (pos_part id) [])

abbrev pub same_id : ℤ → ℤ → Bool
same_id (pos m) (pos n) = m == n
same_id (pos m) (negsuc n) = false
same_id (negsuc m) (pos n) = false
same_id (negsuc m) (negsuc n) = m == n

-- The text of one token in front of what follows.
abbrev pub prepend : Bytes → Option (Result Bytes) → Option (Result Bytes)
prepend out none = none
prepend out (some (ok rest)) = some (ok (out ++ rest))
prepend out (some (err e)) = some (err e)

unfoldable pub decode_loop : BpeTokenizer → List ℤ → Option (Result Bytes)
unfolding is_unknown token_to_text
decode_loop tk [] = some (ok [])
decode_loop tk (id ∷ ids) =
    let round = token_to_text tk id >>= λ out. prepend out (decode_loop tk ids) in
    if is_unknown tk id
    then some (err not_found)
    else if same_id id tk.eos_id
    then some (ok [])
    else round

unfoldable pub decode : BpeTokenizer → List ℤ → Option (Result Bytes)
unfolding decode_loop
decode tk ids =
    if is_empty tk.vocab && not (is_empty ids) then some (err not_found) else decode_loop tk ids
