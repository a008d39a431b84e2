-- ===== src/Tokenizer/ByteMap.antt =====
-- The table between bytes and code points in src/io/bpe_tokenizer.cpp.
pub mod RoundTrip
use Prim.Native.Nat.{bit_and, bit_or}
use llmengine.Base.{
  List, Option, [], contains, drop, get_or, if◌then◌else◌, length, ltb, none, not, replicate, set,
  some, suc, zero, ℕ, ◌%◌, ◌&&◌, ◌++◌, ◌+◌, ◌==◌, ◌∷◌,
}
use llmengine.Tokenizer.Bytes.{Bytes, ◌>>=◌, shr, utf8_decode}

-- `g_byte_to_unicode`, and the writes to `g_unicode_to_byte`, the last one first.
pub record Tables : Type 0 where
  pub byte_to_unicode : List ℕ
  pub unicode_to_byte : List (ℕ × ℕ)

-- Where nothing is written stands the 0xFF of `std::fill`.
unfoldable pub read_table : List (ℕ × ℕ) → ℕ → ℕ
read_table [] cp = 0xFF
read_table ((k, b) ∷ writes) cp = if k == cp then b else read_table writes cp

abbrev pub map_byte : ℕ → ℕ → Tables → Tables
map_byte b cp t = record {
  byte_to_unicode = set t.byte_to_unicode b cp;
  unicode_to_byte = (cp, b) ∷ t.unicode_to_byte;
}

-- `n` numbers from `b` on.
unfoldable pub counting : ℕ → ℕ → List ℕ
counting zero b = []
counting (suc n) b = b ∷ counting n (b + 1)

direct : List ℕ
unfolding counting
direct = counting 94 33 ++ (counting 12 161 ++ counting 82 174)

direct_loop : List ℕ → Tables → Tables
direct_loop [] t = t
direct_loop (b ∷ bs) t = direct_loop bs (map_byte b b t)

-- The second loop, with the bytes that are left; `n` counts the bytes that are not direct.
other_loop : List ℕ → ℕ → Tables → Tables
unfolding direct
other_loop [] n t = t
other_loop (b ∷ bs) n t =
    let rest = other_loop bs n t in
    let next = other_loop bs (n + 1) (map_byte b (256 + n) t) in
    if contains b direct then rest else next

-- `init_byte_unicode_table`
unfoldable pub tables : Tables
unfolding counting direct_loop other_loop
tables =
    other_loop (counting 256 0) 0
      (direct_loop direct (record { byte_to_unicode = replicate 256 0; unicode_to_byte = [] }))

-- The body of the loop in `bytes_to_unicode`: the UTF-8 bytes of a code point. A cast to `char` keeps
-- the lowest eight bits.
unfoldable pub utf8_encode : ℕ → Bytes
utf8_encode cp =
    if ltb cp 0x80
    then cp ∷ []
    else if ltb cp 0x800
    then bit_or 0xC0 (shr cp 6) % 256 ∷ bit_or 0x80 (bit_and cp 0x3F) % 256 ∷ []
    else if ltb cp 0x10000
    then bit_or 0xE0 (shr cp 12) % 256
      ∷ bit_or 0x80 (bit_and (shr cp 6) 0x3F) % 256
      ∷ bit_or 0x80 (bit_and cp 0x3F) % 256
      ∷ []
    else bit_or 0xF0 (shr cp 18) % 256
      ∷ bit_or 0x80 (bit_and (shr cp 12) 0x3F) % 256
      ∷ bit_or 0x80 (bit_and (shr cp 6) 0x3F) % 256
      ∷ bit_or 0x80 (bit_and cp 0x3F) % 256
      ∷ []

unfoldable pub char_of : ℕ → Bytes
unfolding tables utf8_encode
char_of b = utf8_encode (get_or tables.byte_to_unicode b 0)

unfoldable pub bytes_to_unicode : Bytes → Bytes
bytes_to_unicode [] = []
bytes_to_unicode (b ∷ raw) = char_of b ++ bytes_to_unicode raw

-- What one code point adds to the text.
unfoldable pub unmap : ℕ → Bytes
unfolding tables read_table
unmap cp =
    if ltb cp 65536 && not (read_table tables.unicode_to_byte cp == 0xFF)
    then read_table tables.unicode_to_byte cp ∷ []
    else []

-- The loop of `unicode_to_bytes` over the text that is left. A round takes a byte at least, so that
-- the length of the text is enough fuel.
unfoldable pub unmap_loop : ℕ → Bytes → Option Bytes
unmap_loop fuel [] = some []
unmap_loop zero (c ∷ s) = none
unmap_loop (suc fuel) (c ∷ s) = do
  char ← utf8_decode (c ∷ s)
  rest ← unmap_loop fuel (drop char.1 (c ∷ s))
  some (unmap char.0 ++ rest)

unfoldable pub unicode_to_bytes : Bytes → Option Bytes
unfolding unmap_loop
unicode_to_bytes mapped = unmap_loop (length mapped) mapped
