-- ===== src/Tokenizer/Bytes.antt =====
-- UTF-8 in src/io/bpe_tokenizer.cpp. A string is the list of its bytes. Its buffer ends with one more
-- byte, a zero; to read behind that is a fault, `none`.
use Prim.Native.Nat.{bit_and, bit_or}
use llmengine.Base.{
  Bool, List, Option, Returns, [], drop, false, get_elem?, if◌then◌else◌, length, ltb, none, refl,
  some, take, true, ℕ, ◌*◌, ◌++◌, ◌+◌, ◌-◌, ◌/◌, ◌==◌, ◌^◌, ◌||◌, ◌∷◌, ◌≡◌,
}

abbrev pub Bytes : Type 0
Bytes = List ℕ

infixl 5 ◌>>=◌
abbrev pub ◌>>=◌ {ℓ κ} : {A : Type ℓ} {B : Type κ} → Option A → (A → Option B) → Option B
none >>= f = none
some a >>= f = f a

abbrev pub shl : ℕ → ℕ → ℕ
shl x k = x * 2 ^ k

abbrev pub shr : ℕ → ℕ → ℕ
shr x k = x / 2 ^ k

-- `s[i]`
abbrev pub byte_at : Bytes → ℕ → Option ℕ
byte_at s i = get_elem? (s ++ 0 ∷ []) i

-- `std::string(s + from, to - from)`, for `from <= to`
unfoldable pub slice : Bytes → ℕ → ℕ → Option Bytes
slice s from to =
    if ltb (length s + 1) to then none else some (take (to - from) (drop from (s ++ 0 ∷ [])))

unfoldable pub utf8_char_len : ℕ → ℕ
utf8_char_len c =
    if ltb c 0x80
    then 1
    else if bit_and c 0xE0 == 0xC0
    then 2
    else if bit_and c 0xF0 == 0xE0
    then 3
    else if bit_and c 0xF8 == 0xF0
    then 4
    else 1

-- The code point at the start of a text, and its length in bytes.
unfoldable pub utf8_decode : Bytes → Option (ℕ × ℕ)
utf8_decode s = do
  c ← byte_at s 0
  if ltb c 0x80
      then some (c, 1)
      else if bit_and c 0xE0 == 0xC0
      then (do s1 ← byte_at s 1; some (bit_or (shl (bit_and c 0x1F) 6) (bit_and s1 0x3F), 2))
      else if bit_and c 0xF0 == 0xE0
      then (do
        s1 ← byte_at s 1
        s2 ← byte_at s 2
        some (
          bit_or (bit_or (shl (bit_and c 0x0F) 12) (shl (bit_and s1 0x3F) 6)) (bit_and s2 0x3F),
          3,
        ))
      else (do
        s1 ← byte_at s 1
        s2 ← byte_at s 2
        s3 ← byte_at s 3
        some (
          bit_or
              (bit_or (bit_or (shl (bit_and c 0x07) 18) (shl (bit_and s1 0x3F) 12))
                (shl (bit_and s2 0x3F) 6))
              (bit_and s3 0x3F),
          4,
        ))

unfoldable pub unicode_is_space : ℕ → Bool
unicode_is_space cp = cp == b' ' || cp == 9 || cp == 10 || cp == 13 || cp == 12 || cp == 11

unfoldable pub unicode_is_newline : ℕ → Bool
unicode_is_newline cp = cp == 10 || cp == 13

pub Returns-bind :
    {A B : Type 0} (P : A → Type 0) (Q : B → Type 0) (o : Option A) (f : A → Option B)
    → Returns P o
    → ((a : A) → P a → Returns Q (f a))
    → Returns Q (o >>= f)
Returns-bind P Q none f r next = r
Returns-bind P Q (some a) f r next = next a r

pub Returns-if :
    {A : Type 0} (P : A → Type 0) (b : Bool) (x y : Option A)
    → (b ≡ true → Returns P x)
    → (b ≡ false → Returns P y)
    → Returns P (if b then x else y)
Returns-if P true x y h k = h refl
Returns-if P false x y h k = k refl

-- The texts one behind the other.
abbrev pub flatten : List Bytes → Bytes
flatten [] = []
flatten (s ∷ ss) = s ++ flatten ss
