-- ===== src/Io/Codec.antt =====
-- The readers of src/io/gguf_parser.cpp give back what a writer of the format has put before the
-- rest of the stream.
use native.Mathlib.Nat.{pow-suc, div-add-mod}
use llmengine.Base.{
  List, [], ap, arith, div-lt_of_lt-mul, drop, if◌then◌else◌, leb, length, length-append,
  le→ltb-false, ltb, refl, subst, suc, take, true, zero, ℕ, ◌*◌, ◌++◌, ◌/◌, ◌<◌, ◌^◌, ◌∙◌, ◌∷◌, ◌≡◌,
  ◌≤◌,
}
use llmengine.Io.Reader.{
  Stream, Reader, ◌>>=◌, pure, fail, read_bytes, le_value, read_le, read_u64_le, max_string_len,
  read_string, repeat, le_bytes,
}
use llmengine.Core.Status.{invalid_argument, ok, err}

pub take-length-append : {A : Type 0} (xs ys : List A) → take (length xs) (xs ++ ys) ≡ xs
take-length-append [] ys = refl
take-length-append (x ∷ xs) ys = ap (λ r. x ∷ r) (take-length-append xs ys)

pub drop-length-append : {A : Type 0} (xs ys : List A) → drop (length xs) (xs ++ ys) ≡ ys
drop-length-append [] ys = refl
drop-length-append (x ∷ xs) ys = drop-length-append xs ys

-- A reader that succeeds hands on what it read.
pub bind-ok :
    {A B : Type 0} {s s' : Stream} {a : A} (r : Reader A) (f : A → Reader B)
    → r s ≡ ok (a, s')
    → (r >>= f) s ≡ f a s'
bind-ok r f e = ap (λ x. elim x [ ok p ↦ f p.0 p.1 | err c ↦ err c ]) e

pub length-le_bytes : (k n : ℕ) → length (le_bytes k n) ≡ k
length-le_bytes zero n = refl
length-le_bytes (suc k) n = ap suc (length-le_bytes k (n / 256))

pub le_value-le_bytes : (k n : ℕ) → n < 256 ^ k → le_value (le_bytes k n) ≡ n
le_value-le_bytes zero n h = omega (arith, h)
le_value-le_bytes (suc k) n h =
    let less : n < 256 ^ k * 256 = subst (λ m. n < m) (pow-suc 256 k) h in
    omega (
      arith,
      le_value-le_bytes k (n / 256) (div-lt_of_lt-mul n (256 ^ k) 256 (omega arith) less),
      div-add-mod n 256,
    )

pub read_bytes-append : (xs rest : List ℕ) → read_bytes (length xs) (xs ++ rest) ≡ ok (xs, rest)
unfolding read_bytes
read_bytes-append xs rest =
    let enough : leb (length xs) (length (xs ++ rest)) ≡ true =
      ground (arith, length-append xs rest) in
    rw (enough, take-length-append xs rest, drop-length-append xs rest) refl

-- A number that fits k bytes is read back from its k bytes.
pub read_le-le_bytes :
    (k n : ℕ) (rest : Stream) → n < 256 ^ k → read_le k (le_bytes k n ++ rest) ≡ ok (n, rest)
unfolding read_bytes
read_le-le_bytes k n rest h =
    let bytes : read_bytes k (le_bytes k n ++ rest) ≡ ok (le_bytes k n, rest) =
      subst (λ m. read_bytes m (le_bytes k n ++ rest) ≡ ok (le_bytes k n, rest))
        (length-le_bytes k n) (read_bytes-append (le_bytes k n) rest) in
    bind-ok (read_bytes k) (λ bs. pure (le_value bs)) bytes
    ∙ ap (λ v. ok (v, rest)) (le_value-le_bytes k n h)

abbrev pub write_string : List ℕ → Stream → Stream
write_string xs rest = le_bytes 8 (length xs) ++ (xs ++ rest)

-- A string of at most 64 MiB is read back.
pub read_string-write_string :
    (xs rest : List ℕ)
    → length xs ≤ max_string_len
    → read_string (write_string xs rest) ≡ ok (xs, rest)
unfolding read_string
read_string-write_string xs rest h =
    let len : read_u64_le (write_string xs rest) ≡ ok (length xs, xs ++ rest) =
      read_le-le_bytes 8 (length xs) (xs ++ rest) (omega arith) in
    bind-ok {s = write_string xs rest} read_u64_le
      (λ n. if ltb max_string_len n then fail invalid_argument else read_bytes n) len
    ∙ rw (le→ltb-false max_string_len (length xs) h) (read_bytes-append xs rest)

abbrev pub write_all : {A : Type 0} → (A → Stream → Stream) → List A → Stream → Stream
write_all w [] rest = rest
write_all w (a ∷ as') rest = w a (write_all w as' rest)

abbrev pub All : {A : Type 0} → (A → Type 0) → List A → Type 0
All P [] = Unit {0}
All P (a ∷ as') = P a × All P as'

-- A loop of reads gives back a list whose entries are each read back.
pub repeat-write_all :
    {A : Type 0} (r : Reader A) (w : A → Stream → Stream) (P : A → Type 0)
    → ((a : A) → P a → (s : Stream) → r (w a s) ≡ ok (a, s))
    → (xs : List A) → All P xs
    → (s : Stream) → repeat (length xs) r (write_all w xs s) ≡ ok (xs, s)
unfolding repeat
repeat-write_all r w P read [] h s = refl
repeat-write_all r w P read (x ∷ xs) h s =
    bind-ok r (λ a. repeat (length xs) r >>= λ as'. pure (a ∷ as')) (read x h.0 (write_all w xs s))
    ∙ bind-ok (repeat (length xs) r) (λ as'. pure (x ∷ as')) (repeat-write_all r w P read xs h.1 s)
