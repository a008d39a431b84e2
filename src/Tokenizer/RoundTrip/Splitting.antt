-- ===== src/Tokenizer/RoundTrip/Splitting.antt =====
-- A text of whole characters of src/io/bpe_tokenizer.cpp, split in front of an ASCII character.
use Prim.Native.Nat.{bit_and}
use llmengine.Base.{
  AllBelow, Bool, Bool-cases, Option, [], ap, arith, false, inl, inr, leb, length, ltb, none, refl,
  some, suc, sym, true, zero, ℕ, ◌&&◌, ◌++◌, ◌-◌, ◌<◌, ◌==◌, ◌||◌, ◌∙◌, ◌∷◌, ◌≡◌, ◌≤◌,
}
use llmengine.Tokenizer.Bytes.{Bytes, byte_at, utf8_decode}
use llmengine.Tokenizer.ByteMap.RoundTrip.{utf8_decode_ascii}
use llmengine.Tokenizer.PreTokenize.Whole.{
  lead_length, is_shortest, is_whole, WholeChars, and_true, WholeChars-ascii,
}

-- The bytes of a character that is announced stand before the ASCII character.
before_ascii :
    (k : ℕ) (s : Bytes) (c : ℕ) (r : Bytes)
    → c < 128
    → is_whole k (s ++ c ∷ r) ≡ true
    → k ≤ length s
unfolding is_whole
before_ascii zero s c r small h = omega arith
before_ascii (suc k) [] c r small h = absurd (ground (arith, h))
before_ascii (suc k) (d ∷ s) c r small h =
    omega (arith, before_ascii k s c r small (and_true (leb 128 d) (is_whole k (s ++ c ∷ r)) h).1)

byte_at-append : (s r : Bytes) (i : ℕ) → i < length s → byte_at (s ++ r) i ≡ byte_at s i
byte_at-append [] r i h = absurd (omega arith)
byte_at-append (c ∷ s) r zero h = refl
byte_at-append (c ∷ s) r (suc i) h = byte_at-append s r i (omega arith)

both : {a b : Bool} → a ≡ true → b ≡ true → (a && b) ≡ true
both p q = rw (p, q)

is_shortest_same : (s t : Bytes) → utf8_decode s ≡ utf8_decode t → is_shortest s ≡ is_shortest t
unfolding is_shortest
is_shortest_same s t e = ap shortest_char e
  where
    shortest_char : Option (ℕ × ℕ) → Bool
    shortest_char char = elim char [ none ↦ false | some (cp, n) ↦ leb 128 cp || n == 1 ]

-- What follows a character is not read with it.
module _ (c : ℕ) (s r : Bytes) where
  abbrev SameRead : Type 0
  SameRead = utf8_decode (c ∷ (s ++ r)) ≡ utf8_decode (c ∷ s)

  same_two :
      ltb c 0x80 ≡ false
      → (bit_and c 0xE0 == 0xC0) ≡ true
      → byte_at (s ++ r) 0 ≡ byte_at s 0
      → SameRead
  unfolding utf8_decode
  same_two more two e0 = rw (more, two, e0)

  same_three :
      ltb c 0x80 ≡ false
      → (bit_and c 0xE0 == 0xC0) ≡ false
      → (bit_and c 0xF0 == 0xE0) ≡ true
      → byte_at (s ++ r) 0 ≡ byte_at s 0
      → byte_at (s ++ r) 1 ≡ byte_at s 1
      → SameRead
  unfolding utf8_decode
  same_three more not_two three e0 e1 = rw (more, not_two, three, e0, second)
    where
      second : byte_at (c ∷ (s ++ r)) 2 ≡ byte_at (c ∷ s) 2
      second = e1

  same_four :
      ltb c 0x80 ≡ false
      → (bit_and c 0xE0 == 0xC0) ≡ false
      → (bit_and c 0xF0 == 0xE0) ≡ false
      → byte_at (s ++ r) 0 ≡ byte_at s 0
      → byte_at (s ++ r) 1 ≡ byte_at s 1
      → byte_at (s ++ r) 2 ≡ byte_at s 2
      → SameRead
  unfolding utf8_decode
  same_four more not_two four e0 e1 e2 = rw (more, not_two, four, e0, second, third)
    where
      second : byte_at (c ∷ (s ++ r)) 2 ≡ byte_at (c ∷ s) 2
      second = e1

      third : byte_at (c ∷ (s ++ r)) 3 ≡ byte_at (c ∷ s) 3
      third = e2

  utf8_decode-append : lead_length c ≤ suc (length s) → SameRead
  utf8_decode-append h = elim (Bool-cases (ltb c 0x80)) [
    | inl one ↦ utf8_decode_ascii c (s ++ r) one ∙ sym (utf8_decode_ascii c s one)
    | inr more ↦ elim (Bool-cases (bit_and c 0xE0 == 0xC0)) [
      | inl two ↦
          let within : 2 ≤ suc (length s) = (rw (more, two) at h) in
          same_two more two (byte_at-append s r 0 (omega arith))
      | inr not_two ↦ elim (Bool-cases (bit_and c 0xF0 == 0xE0)) [
        | inl three ↦
            let within : 3 ≤ suc (length s) = (rw (more, not_two, three) at h) in
            same_three more not_two three (byte_at-append s r 0 (omega arith))
              (byte_at-append s r 1 (omega arith))
        | inr four ↦
            let within : 4 ≤ suc (length s) = (rw (more, not_two, four) at h) in
            same_four more not_two four (byte_at-append s r 0 (omega arith))
              (byte_at-append s r 1 (omega arith)) (byte_at-append s r 2 (omega arith))
      ]
    ]
  ]

-- Both parts of the text are whole.
pub is_whole-split :
    (k : ℕ) (s : Bytes) (c : ℕ) (r : Bytes)
    → c < 128
    → is_whole k (s ++ c ∷ r) ≡ true
    → (is_whole k s ≡ true) × WholeChars (c ∷ r)
unfolding is_whole
is_whole-split zero [] c r small h = (refl, h)
is_whole-split (suc k) [] c r small h = absurd (ground (arith, h))
is_whole-split zero (d ∷ s) c r small h =
    let (shortest, rest) =
      and_true (is_shortest (d ∷ (s ++ c ∷ r))) (is_whole (lead_length d - 1) (s ++ c ∷ r)) h in
    let (whole, behind) = is_whole-split (lead_length d - 1) s c r small rest in
    let within = before_ascii (lead_length d - 1) s c r small rest in
    let same : is_shortest (d ∷ (s ++ c ∷ r)) ≡ is_shortest (d ∷ s) =
      is_shortest_same (d ∷ (s ++ c ∷ r)) (d ∷ s)
        (utf8_decode-append d s (c ∷ r) (omega (arith, within))) in
    (both (sym same ∙ shortest) whole, behind)
is_whole-split (suc k) (d ∷ s) c r small h =
    let (high, rest) = and_true (leb 128 d) (is_whole k (s ++ c ∷ r)) h in
    let (whole, behind) = is_whole-split k s c r small rest in (both high whole, behind)

-- Behind ASCII characters the next character starts.
pub WholeChars-behind_ascii : (t s : Bytes) → AllBelow 128 t → WholeChars (t ++ s) → WholeChars s
WholeChars-behind_ascii [] s small h = h
WholeChars-behind_ascii (c ∷ t) s small h =
    WholeChars-behind_ascii t s small.1 (WholeChars-ascii c (t ++ s) small.0 h)
