-- ===== src/Tokenizer/ByteMap/RoundTrip.antt =====
-- The table of src/io/bpe_tokenizer.cpp read forth and back.
use Prim.Native.Nat.{bit_and, bit_or}
use mathlib.Core.Bool.{false≢true}
use llmengine.Base.{
  ==-false→ne, ==→eq, AllBelow, Bool, Bool-cases, Option, [], ap, arith, count, false,
  if◌then◌else◌, inl, inr, length, length-append, ltb, not, refl, some, subst, suc, true, zero, ℕ,
  ◌&&◌, ◌++◌, ◌+◌, ◌<◌, ◌==◌, ◌∙◌, ◌∷◌, ◌≡◌, ◌≢◌, ◌≤◌,
}
use llmengine.Tokenizer.PreTokenize.Whole.{and_true}
use llmengine.Tokenizer.Bytes.{Bytes, ◌>>=◌, shl, utf8_decode}
use llmengine.Tokenizer.ByteMap.{char_of, bytes_to_unicode, unmap, unmap_loop, unicode_to_bytes}

-- The test passes on the next `count` numbers from `first` on.
passes_from : ℕ → ℕ → (ℕ → Bool) → Bool
passes_from zero first test = true
passes_from (suc count) first test =
    let others = passes_from count (suc first) test in if test first then others else false

passes_from_lem :
    (count first : ℕ) (test : ℕ → Bool) (b : ℕ)
    → passes_from count first test ≡ true
    → first ≤ b
    → b < first + count
    → test b ≡ true
unfolding passes_from
passes_from_lem zero first test b passed low high = absurd (omega arith)
passes_from_lem (suc count) first test b passed low high = elim (Bool-cases (test first)) [
  | inr fails ↦ absurd (false≢true (rw fails at passed))
  | inl good ↦ elim (Bool-cases (first == b)) [
    | inl this ↦ subst (λ c. test c ≡ true) (==→eq first b this) good
    | inr other ↦
        passes_from_lem count (suc first) test b (rw good at passed)
          (later first b low (==-false→ne first b other)) (omega arith)
  ]
]
  where
    later : (m n : ℕ) → m ≤ n → m ≢ n → suc m ≤ n
    later m n le ne = ground arith

-- What is tested by evaluation holds for every byte.
unfoldable pub every_byte : (ℕ → Bool) → Bool
unfolding passes_from
every_byte test = passes_from 256 0 test

pub every_byte_lem : (test : ℕ → Bool) (b : ℕ) → every_byte test ≡ true → b < 256 → test b ≡ true
unfolding every_byte
every_byte_lem test b passed small = passes_from_lem 256 0 test b passed (omega arith) (omega arith)

-- The byte `b`, or nothing for 255.
abbrev pub kept : ℕ → Bytes
kept b = if b == 255 then [] else b ∷ []

abbrev is_kept : Bytes → ℕ → Bool
is_kept [] b = b == 255
is_kept (x ∷ []) b = not (b == 255) && x == b
is_kept (x ∷ y ∷ s) b = false

is_kept_lem : (s : Bytes) (b : ℕ) → is_kept s b ≡ true → s ≡ kept b
is_kept_lem [] b h = ground arith
is_kept_lem (x ∷ []) b h = ground arith
is_kept_lem (x ∷ y ∷ s) b h = cc

-- A text of one byte or two, which is one character that stands for `b`.
abbrev is_char : Bytes → ℕ → Bool
is_char [] b = false
is_char (x ∷ []) b = ltb x 0x80 && is_kept (unmap x) b
is_char (x ∷ y ∷ []) b =
    not (ltb x 0x80)
    && (bit_and x 0xE0 == 0xC0
        && is_kept (unmap (bit_or (shl (bit_and x 0x1F) 6) (bit_and y 0x3F))) b)
is_char (x ∷ y ∷ z ∷ s) b = false

is_char_table : every_byte (λ b. is_char (char_of b) b) ≡ true
unfolding every_byte char_of unmap
is_char_table = refl

-- The rest of the loop, after the character of `b`.
abbrev after : ℕ → Option Bytes → Option Bytes
after b rest = rest >>= λ r. some (kept b ++ r)

pub utf8_decode_ascii :
    (x : ℕ) (rest : Bytes) → ltb x 0x80 ≡ true → utf8_decode (x ∷ rest) ≡ some (x, 1)
unfolding utf8_decode
utf8_decode_ascii x rest h = rw (h, ◌>>=◌)

utf8_decode_two :
    (x y : ℕ) (rest : Bytes)
    → ltb x 0x80 ≡ false
    → (bit_and x 0xE0 == 0xC0) ≡ true
    → utf8_decode (x ∷ y ∷ rest) ≡ some (bit_or (shl (bit_and x 0x1F) 6) (bit_and y 0x3F), 2)
unfolding utf8_decode
utf8_decode_two x y rest h k = rw (h, k, ◌>>=◌)

pub not-true : (a : Bool) → not a ≡ true → a ≡ false
not-true true h = absurd (cc)
not-true false h = refl

unmap_loop-char :
    (s : Bytes) (b f : ℕ) (rest : Bytes)
    → is_char s b ≡ true
    → unmap_loop (suc f) (s ++ rest) ≡ after b (unmap_loop f rest)
unfolding unmap_loop
unmap_loop-char [] b f rest h = absurd (cc)
unmap_loop-char (x ∷ []) b f rest h =
    let (small, right) = and_true _ _ h in
    rw (utf8_decode_ascii x rest small, is_kept_lem (unmap x) b right) refl
unmap_loop-char (x ∷ y ∷ []) b f rest h =
    let cp : ℕ = bit_or (shl (bit_and x 0x1F) 6) (bit_and y 0x3F) in
    let (large, more) = and_true _ _ h in
    let (lead, right) = and_true _ _ more in
    rw (utf8_decode_two x y rest (not-true _ large) lead, is_kept_lem (unmap cp) b right) refl
unmap_loop-char (x ∷ y ∷ z ∷ s) b f rest h = absurd (cc)

-- The bytes that the table keeps.
abbrev pub without_255 : Bytes → Bytes
without_255 [] = []
without_255 (b ∷ raw) = kept b ++ without_255 raw

length-char_of : (s : Bytes) (b : ℕ) → is_char s b ≡ true → 0 < length s
length-char_of [] b h = absurd (cc)
length-char_of (x ∷ s) b h = omega arith

unmap_loop-bytes_to_unicode :
    (f : ℕ) (raw : Bytes)
    → AllBelow 256 raw
    → length (bytes_to_unicode raw) ≤ f
    → unmap_loop f (bytes_to_unicode raw) ≡ some (without_255 raw)
unfolding bytes_to_unicode
unmap_loop-bytes_to_unicode f [] small enough = unfold unmap_loop in refl
unmap_loop-bytes_to_unicode zero (b ∷ raw) small enough = absurd (
    omega (
      arith,
      length-append {0} (char_of b) (bytes_to_unicode raw),
      length-char_of (char_of b) b (every_byte_lem _ b is_char_table small.0),
    ))
unmap_loop-bytes_to_unicode (suc f) (b ∷ raw) small enough =
    let one = every_byte_lem (λ c. is_char (char_of c) c) b is_char_table small.0 in
    unmap_loop-char (char_of b) b f (bytes_to_unicode raw) one
    ∙ ap (after b) (
        unmap_loop-bytes_to_unicode f raw small.1 (
          omega (
            arith,
            length-append {0} (char_of b) (bytes_to_unicode raw),
            length-char_of (char_of b) b one,
          )))

-- Reading the mapped text of any bytes back gives the bytes, without those that are 255.
pub unicode_to_bytes-bytes_to_unicode :
    (raw : Bytes)
    → AllBelow 256 raw
    → unicode_to_bytes (bytes_to_unicode raw) ≡ some (without_255 raw)
unfolding unicode_to_bytes
unicode_to_bytes-bytes_to_unicode raw small =
    unmap_loop-bytes_to_unicode (length (bytes_to_unicode raw)) raw small (omega arith)
