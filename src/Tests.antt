-- ===== src/Tests.antt =====
-- Runs of the theorems at concrete inputs.
mod Paged
mod PagedHistory
mod Batches
mod Files
mod Plans
mod InsertionSort
mod Graphs
mod Runs
mod Tokens
mod Building
