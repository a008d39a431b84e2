-- ===== src/Batch.antt =====
-- The schedulers above the paged cache: src/runtime/continuous_batch_scheduler.cpp and
-- src/runtime/cache/paged_attention_scheduler.cpp.
pub mod Continuous
pub mod Attention
