-- ===== src/Io.antt =====
-- GGUF files: src/io/gguf_format.cpp and src/io/gguf_parser.cpp.
pub mod Format
pub mod Reader
pub mod Metadata
pub mod Tensors
pub mod File
pub mod Codec
pub mod RoundTrip
pub mod Consumption
pub mod Fuel
pub mod Bounds
