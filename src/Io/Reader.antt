-- ===== src/Io/Reader.antt =====
-- The binary readers of src/io/gguf_parser.cpp. A stream is the list of the bytes that are left; a
-- reader returns what it read with the rest, or the code of its error.
use llmengine.Base.{
  List, [], drop, if◌then◌else◌, leb, length, ltb, suc, take, zero, ℕ, ◌%◌, ◌*◌, ◌+◌, ◌/◌, ◌∷◌,
}
use llmengine.Core.Status.{ErrorCode, invalid_argument, io_error, Result, ok, err}

abbrev pub Stream : Type 0
Stream = List ℕ

abbrev pub Reader : Type 0 → Type 0
Reader A = Stream → Result (A × Stream)

-- `if (!x) return std::unexpected(x.error())`
infixl 5 ◌>>=◌ ◌>>◌
abbrev pub ◌>>=◌ : {A B : Type 0} → Reader A → (A → Reader B) → Reader B
(r >>= f) s = elim (r s) [ ok (a, rest) ↦ f a rest | err e ↦ err e ]

abbrev pub ◌>>◌ : {A B : Type 0} → Reader A → Reader B → Reader B
r >> k = r >>= λ _. k

abbrev pub pure : {A : Type 0} → A → Reader A
pure a s = ok (a, s)

abbrev pub fail : {A : Type 0} → ErrorCode → Reader A
fail e s = err e

-- `f.read(b, n)`: n bytes, or a failure.
unfoldable pub read_bytes : ℕ → Reader (List ℕ)
read_bytes n s = if leb n (length s) then ok (take n s, drop n s) else err io_error

-- The number whose little-endian bytes these are. The shifted bytes do not overlap, so `|` adds.
abbrev pub le_value : List ℕ → ℕ
le_value [] = 0
le_value (b ∷ bs) = b + 256 * le_value bs

abbrev pub read_le : ℕ → Reader ℕ
read_le n = read_bytes n >>= λ bs. pure (le_value bs)

abbrev pub read_u8 : Reader ℕ
read_u8 = read_le 1

abbrev pub read_u16_le : Reader ℕ
read_u16_le = read_le 2

abbrev pub read_u32_le : Reader ℕ
read_u32_le = read_le 4

abbrev pub read_u64_le : Reader ℕ
read_u64_le = read_le 8

-- 64 MiB. It lies below the largest `std::streamsize`, which the code tests next.
abbrev pub max_string_len : ℕ
max_string_len = 64 * 1024 * 1024

unfoldable pub read_string : Reader (List ℕ)
read_string = do
  len ← read_u64_le
  if ltb max_string_len len then fail invalid_argument else read_bytes len

-- A loop of n rounds that push what they read onto a vector.
unfoldable pub repeat : {A : Type 0} → ℕ → Reader A → Reader (List A)
repeat zero r = pure []
repeat (suc n) r = do a ← r; rest ← repeat n r; pure (a ∷ rest)

-- The bytes that a writer of the format emits for a number.
abbrev pub le_bytes : ℕ → ℕ → List ℕ
le_bytes zero n = []
le_bytes (suc k) n = n % 256 ∷ le_bytes k (n / 256)
