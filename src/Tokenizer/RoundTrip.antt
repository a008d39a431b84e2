-- ===== src/Tokenizer/RoundTrip.antt =====
-- `encode` and `decode` of src/io/bpe_tokenizer.cpp together.
pub mod Known
pub mod Characters
pub mod Merged
pub mod Plain
pub mod Added
pub mod Splitting
pub mod Whole
