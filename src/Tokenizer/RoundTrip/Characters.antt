-- ===== src/Tokenizer/RoundTrip/Characters.antt =====
-- The characters that `bpe` of src/io/bpe_tokenizer.cpp cuts a mapped text into.
use llmengine.Base.{
  ==→eq, AllBelow, Bool, [], ap, arith, drop, drop-drop, false, get_or, get_or-drop_head, length,
  length-append, length-drop, le→ltb-false, lt→ltb, map, refl, some, suc, sym, take, true, zero, ℕ,
  ◌++◌, ◌+◌, ◌-◌, ◌<◌, ◌==◌, ◌∙◌, ◌∷◌, ◌≡◌, ◌≤◌,
}
use llmengine.Tokenizer.Bytes.{Bytes, ◌>>=◌, slice, utf8_char_len, flatten}
use llmengine.Tokenizer.ByteMap.{char_of, bytes_to_unicode}
use llmengine.Tokenizer.ByteMap.RoundTrip.{every_byte, every_byte_lem}
use llmengine.Tokenizer.PreTokenize.Spelling.{slice-inside}
use llmengine.Tokenizer.Bpe.{split_loop, characters}

-- The first byte of a character tells its length.
abbrev announces : Bytes → Bool
announces [] = false
announces (c ∷ s) = utf8_char_len c == suc (length s)

announces_table : every_byte (λ b. announces (char_of b)) ≡ true
unfolding every_byte char_of utf8_char_len
announces_table = refl

announces_length :
    (s : Bytes) (d : ℕ)
    → announces s ≡ true
    → (0 < length s) × (utf8_char_len (get_or s 0 d) ≡ length s)
announces_length [] d h = absurd (cc)
announces_length (c ∷ s) d h = (omega arith, ==→eq (utf8_char_len c) (suc (length s)) h)

drop_left : (s t : Bytes) → drop (length s) (s ++ t) ≡ t
drop_left [] t = refl
drop_left (c ∷ s) t = drop_left s t

take_left : (s t : Bytes) → take (length s) (s ++ t) ≡ s
take_left [] t = refl
take_left (c ∷ s) t = ap (λ r. c ∷ r) (take_left s t)

-- The text from `p` on is a character and the rest.
slice-char :
    (word char rest : Bytes) (p : ℕ)
    → drop p word ≡ char ++ rest
    → 0 < length char
    → (p < length word) × (slice word p (p + length char) ≡ some char)
slice-char word char rest p e h =
    let size : length word - p ≡ length char + length rest =
      (sym (length-drop p word) ∙ ap length e) ∙ length-append char rest in
    let width : p + length char - p ≡ length char = omega arith in
    (
      omega (arith, size),
      slice-inside word p (p + length char) (omega arith) (omega (arith, size))
          ∙ ap some (
              (ap (λ n. take n (drop p word)) width ∙ ap (take (length char)) e)
              ∙ take_left char rest),
    )

split_char :
    (word char rest : Bytes) (fuel p : ℕ)
    → announces char ≡ true
    → drop p word ≡ char ++ rest
    → split_loop word (suc fuel) p
      ≡ (split_loop word fuel (p + length char) >>= λ more. some (char ∷ more))
unfolding split_loop
split_char word [] rest fuel p h e = absurd (cc)
split_char word (c ∷ s) rest fuel p h e =
    let (lt, sliced) = slice-char word (c ∷ s) rest p e (omega arith) in
    rw
      (
        get_or-drop_head word (s ++ rest) p c 0 e,
        ==→eq (utf8_char_len c) (suc (length s)) h,
        lt→ltb p (length word) lt,
        sliced,
        ◌>>=◌,
      )
      refl

split_loop_end : (word : Bytes) (fuel p : ℕ) → length word ≤ p → split_loop word fuel p ≡ some []
unfolding split_loop
split_loop_end word zero p h = rw (le→ltb-false p (length word) h)
split_loop_end word (suc fuel) p h = rw (le→ltb-false p (length word) h)

told_length :
    (b : ℕ)
    → b < 256
    → (0 < length (char_of b)) × (utf8_char_len (get_or (char_of b) 0 0) ≡ length (char_of b))
told_length b small =
    announces_length (char_of b) 0
      (every_byte_lem (λ c. announces (char_of c)) b announces_table small)

split_loop-char_of :
    (word raw : Bytes) (fuel p : ℕ)
    → AllBelow 256 raw
    → drop p word ≡ bytes_to_unicode raw
    → length (bytes_to_unicode raw) ≤ fuel
    → split_loop word fuel p ≡ some (map char_of raw)
unfolding bytes_to_unicode
split_loop-char_of word [] fuel p small e enough =
    split_loop_end word fuel p (omega (arith, length-drop p word, ap length e))
split_loop-char_of word (b ∷ raw) zero p small e enough =
    absurd
      (omega (arith, length-append (char_of b) (bytes_to_unicode raw), (told_length b small.0).0))
split_loop-char_of word (b ∷ raw) (suc fuel) p small e enough =
    let told = every_byte_lem (λ c. announces (char_of c)) b announces_table small.0 in
    let next : drop (p + length (char_of b)) word ≡ bytes_to_unicode raw =
      (sym (drop-drop p (length (char_of b)) word) ∙ ap (drop (length (char_of b))) e)
      ∙ drop_left (char_of b) (bytes_to_unicode raw) in
    split_char word (char_of b) (bytes_to_unicode raw) fuel p told e
    ∙ ap (λ o. o >>= λ more. some (char_of b ∷ more))
        (split_loop-char_of word raw fuel (p + length (char_of b)) small.1 next (
          omega
            (arith, length-append (char_of b) (bytes_to_unicode raw), (told_length b small.0).0)))

-- The characters of a mapped text.
pub characters-char_of :
    (raw : Bytes) → AllBelow 256 raw → characters (bytes_to_unicode raw) ≡ some (map char_of raw)
unfolding characters
characters-char_of raw small =
    split_loop-char_of (bytes_to_unicode raw) raw (length (bytes_to_unicode raw)) 0 small refl
      (omega arith)

pub flatten-char_of : (raw : Bytes) → flatten (map char_of raw) ≡ bytes_to_unicode raw
unfolding bytes_to_unicode
flatten-char_of [] = refl
flatten-char_of (b ∷ raw) = ap (λ r. char_of b ++ r) (flatten-char_of raw)
