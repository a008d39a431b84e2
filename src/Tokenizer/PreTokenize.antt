-- ===== src/Tokenizer/PreTokenize.antt =====
-- `pre_tokenize` of src/io/bpe_tokenizer.cpp, which cuts a text into pieces. A pointer into the text is
-- an index; `isalpha` and `isdigit` of the C library are parameters.
pub mod Whole
pub mod Pieces
pub mod Ends
pub mod Rounds
pub mod Spelling
use llmengine.Base.{
  Bool, List, Option, [], contains, drop, false, get_or, if◌then◌else◌, leb, length, ltb, none, not,
  some, suc, zero, ℕ, ◌&&◌, ◌++◌, ◌+◌, ◌==◌, ◌∷◌,
}
use llmengine.Tokenizer.Bytes.{
  Bytes, ◌>>=◌, slice, utf8_decode, unicode_is_space, unicode_is_newline,
}

-- The second character of a contraction, and the third after it.
abbrev is_one_of : ℕ → List ℕ → Bool
is_one_of c cs = contains c cs

module _ (text : Bytes) where
  -- `p[2]` is one of two letters.
  unfoldable pub third_is : ℕ → List ℕ → ℕ
  third_is p cs = if ltb (p + 2) (length text) && is_one_of (get_or text (p + 2) 0) cs then 3 else 0

  unfoldable pub match_contraction : ℕ → ℕ
  unfolding third_is
  match_contraction p =
      let next = get_or text (p + 1) 0 in
      if leb (length text) (p + 1)
      then 0
      else if is_one_of next (b's' ∷ b't' ∷ b'd' ∷ b'm' ∷ b'S' ∷ b'T' ∷ b'D' ∷ b'M' ∷ [])
      then 2
      else if is_one_of next (b'l' ∷ b'L' ∷ [])
      then third_is p (b'l' ∷ b'L' ∷ [])
      else if is_one_of next (b'v' ∷ b'V' ∷ b'r' ∷ b'R' ∷ [])
      then third_is p (b'e' ∷ b'E' ∷ [])
      else 0

  -- `utf8_decode(p, len)`
  unfoldable pub decode_at : ℕ → Option (ℕ × ℕ)
  decode_at p = utf8_decode (drop p text)

  -- `while (p < end)`: over the characters that pass the test. A round takes a byte at least.
  unfoldable pub skip_while : (ℕ → Bool) → ℕ → ℕ → Option ℕ
  skip_while test zero p = if ltb p (length text) then none else some p
  skip_while test (suc fuel) p =
      let round = decode_at p >>= λ char.
      let next = skip_while test fuel (p + char.1) in if test char.0 then next else some p in
      if ltb p (length text) then round else some p

  unfoldable pub skip : (ℕ → Bool) → ℕ → Option ℕ
  skip test p = skip_while test (suc (length text)) p

  -- The digits of a number, `n` at most.
  unfoldable pub skip_digits : (ℕ → Bool) → ℕ → ℕ → Option ℕ
  skip_digits isdigit zero p = some p
  skip_digits isdigit (suc n) p =
      let round = decode_at p >>= λ char.
      let next = skip_digits isdigit n (p + char.1) in if isdigit char.0 then next else some p in
      if ltb p (length text) then round else some p

  -- `p < end`, and the character there passes the test.
  unfoldable pub next_is : (ℕ → Bool) → ℕ → Option Bool
  next_is test p =
      if ltb p (length text) then decode_at p >>= (λ char. some (test char.0)) else some false

module _ (isalpha isdigit : ℕ → Bool) where
  -- Neither white space nor a letter nor a digit.
  unfoldable pub is_symbol : ℕ → Bool
  is_symbol cp = not (unicode_is_space cp) && (not (isalpha cp) && not (isdigit cp))

  module _ (text : Bytes) where
    abbrev pub skip_symbols : ℕ → Option ℕ
    skip_symbols p = skip text is_symbol p >>= λ q. skip text unicode_is_newline q

    abbrev pub skip_blank : ℕ → Option ℕ
    skip_blank p = do
      q ← skip text (λ cp. unicode_is_space cp && not (unicode_is_newline cp)) p
      newline ← next_is text unicode_is_newline q
      if newline then skip text unicode_is_newline q else some (length text)

    -- The branches of a round for a symbol, a digit or white space.
    unfoldable pub symbol_end : ℕ → ℕ × ℕ → Option ℕ
    symbol_end p char = do
      symbol_next ← (if char.0 == b' ' then next_is text is_symbol (p + 1) else some false)
      if symbol_next
          then skip_symbols (p + 1)
          else if unicode_is_space char.0
          then skip_blank p
          else some (p + char.1)

    unfoldable pub other_end : ℕ → ℕ × ℕ → Option ℕ
    other_end p char = do
      letter_next ← (if is_symbol char.0 then next_is text isalpha (p + char.1) else some false)
      if letter_next
          then skip text isalpha (p + char.1)
          else if isdigit char.0
          then skip_digits text isdigit 3 p
          else if is_symbol char.0
          then skip_symbols p
          else symbol_end p char

    -- One round of the loop: where the piece that starts at `p` ends. A newline is white space, so
    -- `is_space || is_newline` is `is_space`.
    unfoldable pub piece_end : ℕ → Option ℕ
    piece_end p = decode_at text p >>= λ char.
        if char.0 == 39 && ltb 0 (match_contraction text p)
        then some (p + match_contraction text p)
        else if isalpha char.0
        then skip text isalpha (p + char.1)
        else other_end p char

    unfoldable pub emit : ℕ → ℕ → Option (List Bytes)
    emit from to =
        if ltb from to then slice text from to >>= (λ piece. some (piece ∷ [])) else some []

    -- The loop; every round moves the pointer.
    unfoldable pub pieces_loop : ℕ → ℕ → Option (List Bytes)
    pieces_loop zero p = if ltb p (length text) then none else some []
    pieces_loop (suc fuel) p =
        let round = piece_end p >>= λ q.
        emit p q >>= λ piece. pieces_loop fuel q >>= λ rest. some (piece ++ rest) in
        if ltb p (length text) then round else some []

    unfoldable pub pre_tokenize : Option (List Bytes)
    pre_tokenize = pieces_loop (length text) 0
