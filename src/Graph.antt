-- ===== src/Graph.antt =====
-- The computation graph: include/minillm/graph and src/graph.
pub mod Data
pub mod ShapeInfer
pub mod Sort
pub mod Builder
