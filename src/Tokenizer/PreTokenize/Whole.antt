-- ===== src/Tokenizer/PreTokenize/Whole.antt =====
-- Texts of whole characters, for `pre_tokenize` of src/io/bpe_tokenizer.cpp: reading one
-- there stays inside.
use Prim.Native.Nat.{bit_and, bit_or}
use llmengine.Base.{
  Bool, Bool-cases, List, [], arith, drop, false, get_elem?, if◌then◌else◌, inl, inr, leb, length,
  length-append, ltb, lt→ltb, none, refl, some, subst, suc, sym, true, zero, ℕ, ◌&&◌, ◌++◌, ◌-◌,
  ◌<◌, ◌==◌, ◌||◌, ◌∷◌, ◌≡◌, ◌≤◌,
}
use llmengine.Tokenizer.Bytes.{Bytes, ◌>>=◌, shl, byte_at, utf8_decode}

-- The length that `utf8_decode` takes from the first byte.
abbrev pub lead_length : ℕ → ℕ
lead_length c =
    if ltb c 0x80
    then 1
    else if bit_and c 0xE0 == 0xC0
    then 2
    else if bit_and c 0xF0 == 0xE0
    then 3
    else 4

-- A character below 128 takes one byte.
unfoldable pub is_shortest : Bytes → Bool
is_shortest s = elim (utf8_decode s) [ none ↦ false | some (cp, n) ↦ leb 128 cp || n == 1 ]

-- `k` bytes of a character, from 128 on, and then whole characters, in which no two bytes or more
-- encode a character below 128. UTF-8 is such a text.
unfoldable pub is_whole : ℕ → Bytes → Bool
is_whole k [] = k == 0
is_whole zero (c ∷ s) = is_shortest (c ∷ s) && is_whole (lead_length c - 1) s
is_whole (suc k) (c ∷ s) = leb 128 c && is_whole k s

abbrev pub WholeChars : Bytes → Type 0
WholeChars s = is_whole 0 s ≡ true

pub and_true : (a b : Bool) → (a && b) ≡ true → (a ≡ true) × (b ≡ true)
and_true true b h = (refl, h)
and_true false b h = absurd (cc)

is_whole-le-length : (k : ℕ) (s : Bytes) → is_whole k s ≡ true → k ≤ length s
unfolding is_whole
is_whole-le-length k [] h = ground arith
is_whole-le-length zero (c ∷ s) h = omega arith
is_whole-le-length (suc k) (c ∷ s) h =
    omega (arith, is_whole-le-length k s (and_true (leb 128 c) (is_whole k s) h).1)

is_whole-drop : (k : ℕ) (s : Bytes) → is_whole k s ≡ true → WholeChars (drop k s)
unfolding is_whole
is_whole-drop zero s h = h
is_whole-drop (suc k) [] h = refl
is_whole-drop (suc k) (c ∷ s) h = is_whole-drop k s (and_true (leb 128 c) (is_whole k s) h).1

-- What `utf8_decode` gives at the start of a text.
abbrev pub Decoded : Bytes → ℕ × ℕ → Type 0
Decoded s char =
    (0 < char.1)
    × (char.1 ≤ length s)
    × WholeChars (drop char.1 s)
    × ((leb 128 char.0 || char.1 == 1) ≡ true)

lead_length_pos : (c : ℕ) → lead_length c ≡ suc (lead_length c - 1)
lead_length_pos c = ground arith

-- The bytes of the character are there.
lead_length-within : (c : ℕ) (s : Bytes) → WholeChars (c ∷ s) → lead_length c ≤ suc (length s)
unfolding is_whole
lead_length-within c s h =
    omega (arith, lead_length_pos c, is_whole-le-length (lead_length c - 1) s (and_true _ _ h).1)

Decoded-lead :
    (c : ℕ) (s : Bytes) (cp : ℕ)
    → WholeChars (c ∷ s)
    → utf8_decode (c ∷ s) ≡ some (cp, lead_length c)
    → Decoded (c ∷ s) (cp, lead_length c)
unfolding is_whole is_shortest
Decoded-lead c s cp h e =
    let (shortest, whole) = and_true (is_shortest (c ∷ s)) (is_whole (lead_length c - 1) s) h in
    (
      omega (arith, lead_length_pos c),
      lead_length-within c s h,
      subst (λ n. WholeChars (drop n (c ∷ s))) (sym (lead_length_pos c))
          (is_whole-drop (lead_length c - 1) s whole),
      rw (e, is_shortest) at shortest,
    )

pub get_elem?-succeeds :
    {A : Type 0} (s : List A) (i : ℕ) → i < length s → (b : A) × (get_elem? s i ≡ some b)
get_elem?-succeeds [] i h = absurd (omega arith)
get_elem?-succeeds (b ∷ s) zero h = (b, refl)
get_elem?-succeeds (b ∷ s) (suc i) h = get_elem?-succeeds s i (omega arith)

byte_at-succeeds : (s : Bytes) (i : ℕ) → i ≤ length s → (b : ℕ) × (byte_at s i ≡ some b)
byte_at-succeeds s i h =
    get_elem?-succeeds (s ++ 0 ∷ []) i (omega (arith, length-append {0} s (0 ∷ [])))

-- `utf8_decode` takes what the first byte announces.
abbrev Reads : ℕ → Bytes → Type 0
Reads c s = (cp : ℕ) × (utf8_decode (c ∷ s) ≡ some (cp, lead_length c))

module _ (c : ℕ) (s : Bytes) (more : ltb c 0x80 ≡ false) where
  Reads-two : (bit_and c 0xE0 == 0xC0) ≡ true → (s1 : ℕ) → byte_at s 0 ≡ some s1 → Reads c s
  unfolding utf8_decode
  Reads-two two s1 e1 =
      (bit_or (shl (bit_and c 0x1F) 6) (bit_and s1 0x3F), rw (more, two, e1, ◌>>=◌))

  module _ (not_two : (bit_and c 0xE0 == 0xC0) ≡ false) where
    Reads-three :
        (bit_and c 0xF0 == 0xE0) ≡ true
        → (s1 s2 : ℕ) → byte_at s 0 ≡ some s1
        → byte_at s 1 ≡ some s2
        → Reads c s
    unfolding utf8_decode
    Reads-three three s1 s2 e1 e2 = (
      bit_or (bit_or (shl (bit_and c 0x0F) 12) (shl (bit_and s1 0x3F) 6)) (bit_and s2 0x3F),
      rw (more, not_two, three, e1, e2, ◌>>=◌),
    )

    Reads-four :
        (bit_and c 0xF0 == 0xE0) ≡ false
        → (s1 s2 s3 : ℕ) → byte_at s 0 ≡ some s1
        → byte_at s 1 ≡ some s2
        → byte_at s 2 ≡ some s3
        → Reads c s
    unfolding utf8_decode
    Reads-four four s1 s2 s3 e1 e2 e3 = (
      bit_or
          (bit_or (bit_or (shl (bit_and c 0x07) 18) (shl (bit_and s1 0x3F) 12))
            (shl (bit_and s2 0x3F) 6))
          (bit_and s3 0x3F),
      rw (more, not_two, four, e1, e2, e3, ◌>>=◌),
    )

-- At a whole character, `utf8_decode` reads it and no more.
utf8_decode-lead_length : (c : ℕ) (s : Bytes) → lead_length c ≤ suc (length s) → Reads c s
unfolding utf8_decode
utf8_decode-lead_length c s h = elim (Bool-cases (ltb c 0x80)) [
  | inl one ↦ (c, rw (one, ◌>>=◌))
  | inr more ↦ elim (Bool-cases (bit_and c 0xE0 == 0xC0)) [
    | inl two ↦
        let within : 2 ≤ suc (length s) = (rw (more, two) at h) in
        let (s1, e1) = byte_at-succeeds s 0 (omega arith) in Reads-two c s more two s1 e1
    | inr not_two ↦ elim (Bool-cases (bit_and c 0xF0 == 0xE0)) [
      | inl three ↦
          let within : 3 ≤ suc (length s) = (rw (more, not_two, three) at h) in
          let (s1, e1) = byte_at-succeeds s 0 (omega arith) in
          let (s2, e2) = byte_at-succeeds s 1 (omega arith) in
          Reads-three c s more not_two three s1 s2 e1 e2
      | inr four ↦
          let within : 4 ≤ suc (length s) = (rw (more, not_two, four) at h) in
          let (s1, e1) = byte_at-succeeds s 0 (omega arith) in
          let (s2, e2) = byte_at-succeeds s 1 (omega arith) in
          let (s3, e3) = byte_at-succeeds s 2 (omega arith) in
          Reads-four c s more not_two four s1 s2 s3 e1 e2 e3
    ]
  ]
]

-- Where whole characters are left, one of them is read.
pub utf8_decode-Decoded :
    (s : Bytes)
    → WholeChars s
    → 0 < length s
    → (char : ℕ × ℕ) × (utf8_decode s ≡ some char) × Decoded s char
utf8_decode-Decoded [] h some_left = absurd (omega arith)
utf8_decode-Decoded (c ∷ s) h some_left =
    let (cp, e) = utf8_decode-lead_length c s (lead_length-within c s h) in
    ((cp, lead_length c), e, Decoded-lead c s cp h e)

-- Behind a byte below 128 the next character starts.
pub WholeChars-ascii : (c : ℕ) (s : Bytes) → c < 128 → WholeChars (c ∷ s) → WholeChars s
unfolding is_whole
WholeChars-ascii c s small h =
    subst (λ n. is_whole (n - 1) s ≡ true) (one c small) (and_true _ _ h).1
  where
    one : (c : ℕ) → c < 128 → lead_length c ≡ 1
    one c small = rw (lt→ltb c 0x80 small)
