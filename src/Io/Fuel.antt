-- ===== src/Io/Fuel.antt =====
-- The fuel of `read_metadata_value` of src/io/gguf_parser.cpp is enough.
use llmengine.Base.{
  Bool-cases, List, Option, ap, arith, if◌then◌else◌, inl, inr, length, ltb, none, not, refl, some,
  suc, zero, ℕ, ◌+◌, ◌<◌, ◌==◌, ◌∙◌, ◌∷◌, ◌≡◌, ◌≤◌,
}
use llmengine.Io.Format.{
  GgufValueType, uint8_t, int8_t, uint16_t, int16_t, uint32_t, int32_t, float32_t, bool_t, string_t,
  array_t, uint64_t, int64_t, float64_t, value_type,
}
use llmengine.Io.Reader.{
  Stream, Reader, ◌>>=◌, pure, fail, read_u32_le, read_u64_le, read_string, repeat,
}
use llmengine.Io.Metadata.{
  MetadataValue, uint8, uint16, uint32, uint64, float32, float64, int8, int16, int32, int64,
  boolean, string, array, to_array, to_signed, max_array_len, value_with, read_metadata_value,
}
use llmengine.Io.Consumption.{
  Leaves, Takes, weaken, pure-Takes, bind-Takes_0, read_le-Takes, number-Takes, read_string-Takes,
  repeat-Takes,
}
use llmengine.Core.Status.{invalid_argument, Result, ok, err}

-- Readers that agree on short streams agree when they are repeated on them.
repeat-agree :
    {A : Type 0} (b n : ℕ) (r r' : Reader A)
    → Takes 0 r
    → ((s : Stream) → length s ≤ b → r s ≡ r' s)
    → (s : Stream) → length s ≤ b
    → repeat n r s ≡ repeat n r' s
unfolding repeat
repeat-agree b zero r r' t e s h = refl
repeat-agree {A = A} b (suc n) r r' t e s h =
    go (r s) (t s) (λ rest l. repeat-agree b n r r' t e rest l)
    ∙ ap (λ (x : Result (A × Stream)). elim x [ ok p ↦ more r' p.0 p.1 | err c ↦ err c ]) (e s h)
  where
    more : Reader A → A → Reader (List A)
    more q a = repeat n q >>= λ rest. pure (a ∷ rest)

    go :
        (x : Result (A × Stream))
        → Leaves 0 (length s) x
        → ((rest : Stream) → length rest ≤ b → repeat n r rest ≡ repeat n r' rest)
        → elim x [ ok p ↦ more r p.0 p.1 | err c ↦ err c ]
          ≡ elim x [ ok p ↦ more r' p.0 p.1 | err c ↦ err c ]
    go (err c) l ih = refl
    go (ok (a, rest)) l ih =
        ap (λ (y : Result (List A × Stream)). elim y [ ok q ↦ ok (a ∷ q.0, q.1) | err c ↦ err c ])
          (ih rest (omega (arith, l, h)))

abbrev Elements : Type 0
Elements = Option GgufValueType → Reader MetadataValue

-- The elements of an array.
abbrev array_of : Elements → ℕ → ℕ → Reader MetadataValue
array_of elem tag len =
    if ltb max_array_len len
    then fail invalid_argument
    else (repeat len (elem (value_type tag)) >>= λ vs. pure (array (to_array vs)))

array_of-Takes :
    (elem : Elements)
    → ((t : Option GgufValueType) → Takes 0 (elem t))
    → (tag len : ℕ) → Takes 0 (array_of elem tag len)
array_of-Takes elem h tag len s = elim (Bool-cases (ltb max_array_len len)) [
  | inl e ↦ rw e tt
  | inr e ↦ rw e (
      bind-Takes_0 (repeat len (elem (value_type tag))) (λ vs. pure (array (to_array vs)))
        (repeat-Takes len (elem (value_type tag)) (h (value_type tag)))
        (λ vs. pure-Takes (array (to_array vs))) s)
]

value_with-Takes :
    (elem : Elements)
    → ((t : Option GgufValueType) → Takes 0 (elem t))
    → (type : Option GgufValueType) → Takes 0 (value_with elem type)
unfolding value_with
value_with-Takes elem h none = λ s. tt
value_with-Takes elem h (some uint8_t) = number-Takes 1 uint8
value_with-Takes elem h (some int8_t) = number-Takes 1 (λ v. int8 (to_signed 8 v))
value_with-Takes elem h (some uint16_t) = number-Takes 2 uint16
value_with-Takes elem h (some int16_t) = number-Takes 2 (λ v. int16 (to_signed 16 v))
value_with-Takes elem h (some uint32_t) = number-Takes 4 uint32
value_with-Takes elem h (some int32_t) = number-Takes 4 (λ v. int32 (to_signed 32 v))
value_with-Takes elem h (some float32_t) = number-Takes 4 float32
value_with-Takes elem h (some bool_t) = number-Takes 1 (λ v. boolean (not (v == 0)))
value_with-Takes elem h (some string_t) =
    bind-Takes_0 read_string (λ v. pure (string v)) read_string-Takes (λ v. pure-Takes (string v))
value_with-Takes elem h (some array_t) =
    bind-Takes_0 read_u32_le (λ tag. read_u64_le >>= array_of elem tag)
      (weaken 4 read_u32_le (read_le-Takes 4))
      (λ tag.
        bind-Takes_0 read_u64_le (array_of elem tag) (weaken 8 read_u64_le (read_le-Takes 8))
          (array_of-Takes elem h tag))
value_with-Takes elem h (some uint64_t) = number-Takes 8 uint64
value_with-Takes elem h (some int64_t) = number-Takes 8 (λ v. int64 (to_signed 64 v))
value_with-Takes elem h (some float64_t) = number-Takes 8 float64

read_metadata_value-Takes :
    (fuel : ℕ) (type : Option GgufValueType) → Takes 0 (read_metadata_value fuel type)
unfolding read_metadata_value
read_metadata_value-Takes zero type = λ s. tt
read_metadata_value-Takes (suc fuel) type =
    value_with-Takes (read_metadata_value fuel) (read_metadata_value-Takes fuel) type

-- Two readers that follow a read of k bytes agree if they agree on what it leaves.
bind-agree :
    {A B : Type 0} (k b : ℕ) (r : Reader A) (f g : A → Reader B)
    → Takes k r
    → ((a : A) (rest : Stream) → length rest + k ≤ b → f a rest ≡ g a rest)
    → (s : Stream) → length s ≤ b
    → (r >>= f) s ≡ (r >>= g) s
bind-agree {A = A} {B = B} k b r f g t e s h = go (r s) (t s)
  where
    go :
        (x : Result (A × Stream))
        → Leaves k (length s) x
        → ◌≡◌ {A = Result (B × Stream)}
            (elim x [ ok p ↦ f p.0 p.1 | err c ↦ err c ])
            (elim x [ ok p ↦ g p.0 p.1 | err c ↦ err c ])
    go (ok (a, rest)) l = e a rest (omega (arith, l, h))
    go (err c) l = refl

array_of-agree :
    (b : ℕ) (p q : Elements)
    → ((t : Option GgufValueType) → Takes 0 (p t))
    → ((t : Option GgufValueType) (s : Stream) → length s ≤ b → p t s ≡ q t s)
    → (tag len : ℕ) (s : Stream) → length s ≤ b
    → array_of p tag len s ≡ array_of q tag len s
array_of-agree b p q h e tag len s le = elim (Bool-cases (ltb max_array_len len)) [
  | inl x ↦ rw x refl
  | inr x ↦ rw x (
      ap
        (λ (y : Result (List MetadataValue × Stream)). elim y [
          | ok v ↦ ok (array (to_array v.0), v.1)
          | err c ↦ err c
        ])
        (repeat-agree b len (p (value_type tag)) (q (value_type tag)) (h (value_type tag))
          (e (value_type tag)) s le))
]

value_with-agree :
    (n : ℕ) (p q : Elements)
    → ((t : Option GgufValueType) → Takes 0 (p t))
    → ((t : Option GgufValueType) (s : Stream) → length s + 12 ≤ n → p t s ≡ q t s)
    → (type : Option GgufValueType) (s : Stream) → length s ≤ n
    → value_with p type s ≡ value_with q type s
unfolding value_with
value_with-agree n p q h e none s le = refl
value_with-agree n p q h e (some array_t) s le =
    bind-agree 4 n read_u32_le (λ tag. read_u64_le >>= array_of p tag)
      (λ tag. read_u64_le >>= array_of q tag) (read_le-Takes 4)
      (λ tag rest l.
        bind-agree 8 (length rest) read_u64_le (array_of p tag) (array_of q tag) (read_le-Takes 8)
          (λ len more m.
            array_of-agree (length more) p q h (λ t s' k. e t s' (omega (arith, k, l, m))) tag len
              more (omega arith))
          rest (omega arith))
      s le
value_with-agree n p q h e (some uint8_t) s le = refl
value_with-agree n p q h e (some int8_t) s le = refl
value_with-agree n p q h e (some uint16_t) s le = refl
value_with-agree n p q h e (some int16_t) s le = refl
value_with-agree n p q h e (some uint32_t) s le = refl
value_with-agree n p q h e (some int32_t) s le = refl
value_with-agree n p q h e (some float32_t) s le = refl
value_with-agree n p q h e (some bool_t) s le = refl
value_with-agree n p q h e (some string_t) s le = refl
value_with-agree n p q h e (some uint64_t) s le = refl
value_with-agree n p q h e (some int64_t) s le = refl
value_with-agree n p q h e (some float64_t) s le = refl

-- Two fuels above the length of the stream give the same value, rest or error, so that the fuel that
-- `parse_metadata` gives is enough.
pub read_metadata_value-fuel :
    (f g : ℕ) (type : Option GgufValueType) (s : Stream)
    → length s < f
    → length s < g
    → read_metadata_value f type s ≡ read_metadata_value g type s
unfolding read_metadata_value
read_metadata_value-fuel zero g type s h k = absurd (omega (arith, h))
read_metadata_value-fuel (suc f) zero type s h k = absurd (omega (arith, k))
read_metadata_value-fuel (suc f) (suc g) type s h k =
    value_with-agree (length s) (read_metadata_value f) (read_metadata_value g)
      (read_metadata_value-Takes f)
      (λ t s' l. read_metadata_value-fuel f g t s' (omega (arith, l, h)) (omega (arith, l, k))) type
      s (omega arith)
