-- ===== src/Core.antt =====
-- include/minillm/core and src/core.
pub mod Status
pub mod DType
pub mod Shape
