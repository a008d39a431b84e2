-- ===== src/Tokenizer.antt =====
-- The tokenizer of src/io/bpe_tokenizer.cpp: the bytes that texts are made of, the table between
-- bytes and code points, the cutting of a text into pieces, the merging of a piece, and the whole.
pub mod Bytes
pub mod ByteMap
pub mod PreTokenize
pub mod Bpe
pub mod Encode
pub mod Decode
pub mod RoundTrip
pub mod Init
