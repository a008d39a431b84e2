-- ===== src/Cache.antt =====
-- src/runtime/cache.
pub mod Paged
pub mod Contiguous
