-- ===== src/Tokenizer/RoundTrip/Plain.antt =====
-- What `decode` of src/io/bpe_tokenizer.cpp makes of the ids of a text without added tokens.
use llmengine.Base.{
  AllBelow, AllBelow-split, Bool, List, Option, Returns, [], subst, sym, ℕ, ℤ, ◌++◌, ◌∷◌,
}
use llmengine.Tokenizer.Bytes.{Bytes, Returns-bind, flatten}
use llmengine.Tokenizer.ByteMap.{bytes_to_unicode}
use llmengine.Tokenizer.ByteMap.RoundTrip.{without_255}
use llmengine.Tokenizer.PreTokenize.{pre_tokenize}
use llmengine.Tokenizer.PreTokenize.Whole.{WholeChars}
use llmengine.Tokenizer.PreTokenize.Spelling.{Spells, pre_tokenize-Spells}
use llmengine.Tokenizer.Bpe.{bpe}
use llmengine.Tokenizer.Encode.{BpeTokenizer, encode_each, encode_pieces}
use llmengine.Tokenizer.RoundTrip.Known.{Decodes, nil-Decodes, append-Decodes}
use llmengine.Tokenizer.RoundTrip.Merged.{Closed, without_255-append, bpe-Decodes}

-- The ids decode to the text, without its bytes 255.
abbrev pub Recovers : BpeTokenizer → Bytes → Option (List ℤ) → Type 0
Recovers tk s = Returns (λ ids. Decodes tk ids (without_255 s))

module _ (isalpha isdigit : ℕ → Bool) (tk : BpeTokenizer) (closed : Closed tk) where
  encode_each-Recovers :
      (pieces : List Bytes)
      → AllBelow 256 (flatten pieces)
      → Recovers tk (flatten pieces) (encode_each isalpha isdigit tk pieces)
  unfolding encode_each
  encode_each-Recovers [] small = nil-Decodes tk
  encode_each-Recovers (piece ∷ pieces) small =
      let (here, behind) = AllBelow-split 256 piece (flatten pieces) small in
      Returns-bind (λ ids. Decodes tk ids (without_255 piece))
        (λ ids. Decodes tk ids (without_255 (piece ++ flatten pieces)))
        (bpe tk.vocab_map tk.bpe_ranks (bytes_to_unicode piece)) _
        (bpe-Decodes tk piece closed here)
        (λ ids d.
          Returns-bind (λ ids. Decodes tk ids (without_255 (flatten pieces)))
            (λ ids. Decodes tk ids (without_255 (piece ++ flatten pieces)))
            (encode_each isalpha isdigit tk pieces) _ (encode_each-Recovers pieces behind)
            (λ rest e.
              subst (Decodes tk (ids ++ rest)) (sym (without_255-append piece (flatten pieces))) (
                append-Decodes tk ids rest (without_255 piece) (without_255 (flatten pieces)) d e)))

  pub encode_pieces-Recovers :
      (s : Bytes)
      → AllBelow 256 s
      → WholeChars s
      → Recovers tk s (encode_pieces isalpha isdigit tk s)
  unfolding encode_pieces
  encode_pieces-Recovers s small whole =
      Returns-bind (Spells s) (λ ids. Decodes tk ids (without_255 s))
        (pre_tokenize isalpha isdigit s) (encode_each isalpha isdigit tk)
        (pre_tokenize-Spells isalpha isdigit s whole)
        (λ pieces spelt.
          subst (λ t. Recovers tk t (encode_each isalpha isdigit tk pieces)) spelt.0
            (encode_each-Recovers pieces (subst (AllBelow 256) (sym spelt.0) small)))
