-- ===== src/Tokenizer/Encode.antt =====
-- `encode` of src/io/bpe_tokenizer.cpp, and the members of the class.
use llmengine.Base.{
  Bool, List, Option, [], drop, false, if◌then◌else◌, is_neg, length, ltb, none, not, some, suc,
  take, true, zero, ℕ, ℤ, ◌&&◌, ◌++◌, ◌+◌, ◌==◌, ◌∷◌,
}
use llmengine.Tokenizer.Bytes.{Bytes, ◌>>=◌}
use llmengine.Tokenizer.ByteMap.{bytes_to_unicode}
use llmengine.Tokenizer.PreTokenize.{pre_tokenize}
use llmengine.Tokenizer.Bpe.{Ids, Ranks, bpe}

pub record BpeTokenizer : Type 0 where
  pub vocab : List Bytes
  pub vocab_map : Ids
  pub bpe_ranks : Ranks
  pub eos_id : ℤ
  pub bos_id : ℤ
  pub pad_id : ℤ
  pub added_tokens_map : Ids
  pub added_tokens : List (Bytes × ℤ)

unfoldable pub starts_with : Bytes → Bytes → Bool
starts_with [] s = true
starts_with (c ∷ t) [] = false
starts_with (c ∷ t) (d ∷ s) = c == d && starts_with t s

-- `text.find(tok, pos)`, of the text from `pos` on: how far behind `pos`.
unfoldable pub find_in : Bytes → Bytes → Option ℕ
find_in t [] = if starts_with t [] then some 0 else none
find_in t (c ∷ s) =
    if starts_with t (c ∷ s) then some 0 else find_in t s >>= (λ offset. some (suc offset))

-- `earliest`, `matched_id` and `matched_len`; `none` where `earliest` is `npos`.
pub record Match : Type 0 where
  pub offset : ℕ
  pub id : ℤ
  pub len : ℕ

-- `found < earliest`
abbrev pub is_earlier : ℕ → Option Match → Bool
is_earlier found none = true
is_earlier found (some m) = ltb found m.offset

unfoldable pub take_match : Bytes → ℤ → Option ℕ → Option Match → Option Match
take_match t id none best = best
take_match t id (some found) best =
    if is_earlier found best
    then some (record { offset = found; id = id; len = length t })
    else best

-- The loop over the added tokens.
unfoldable pub match_loop : List (Bytes × ℤ) → Bytes → Option Match → Option Match
match_loop [] rest best = best
match_loop ((t, id) ∷ ts) rest best = match_loop ts rest (take_match t id (find_in t rest) best)

module _ (isalpha isdigit : ℕ → Bool) (tk : BpeTokenizer) where
  unfoldable pub encode_each : List Bytes → Option (List ℤ)
  encode_each [] = some []
  encode_each (piece ∷ pieces) = do
    ids ← bpe tk.vocab_map tk.bpe_ranks (bytes_to_unicode piece)
    rest ← encode_each pieces
    some (ids ++ rest)

  -- The ids of a text without added tokens.
  unfoldable pub encode_pieces : Bytes → Option (List ℤ)
  encode_pieces s = pre_tokenize isalpha isdigit s >>= encode_each

  -- `if (earliest > pos)`
  unfoldable pub encode_before : ℕ → Bytes → Option (List ℤ)
  encode_before offset rest = if ltb 0 offset then encode_pieces (take offset rest) else some []

  -- The loop, over the text from `pos` on. An added token is not empty, so that the length of the
  -- text is enough fuel.
  unfoldable pub encode_loop : ℕ → Bytes → Option (List ℤ)
  encode_loop fuel [] = some []
  encode_loop zero (c ∷ s) = none
  encode_loop (suc fuel) (c ∷ s) = elim (match_loop tk.added_tokens (c ∷ s) none) [
    | none ↦ encode_pieces (c ∷ s)
    | some m ↦ do
      before ← encode_before m.offset (c ∷ s)
      after ← encode_loop fuel (drop (m.offset + m.len) (c ∷ s))
      some (before ++ m.id ∷ after)
  ]

  abbrev pub special : Bool → ℤ → List ℤ
  special add id = if add && not (is_neg id) then id ∷ [] else []

  unfoldable pub encode : Bytes → Bool → Bool → Option (List ℤ)
  encode text add_bos add_eos = do
    ids ← encode_loop (length text) text
    some (special add_bos tk.bos_id ++ ids ++ special add_eos tk.eos_id)
