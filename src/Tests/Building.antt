-- ===== src/Tests/Building.antt =====
-- The theorem on the builder of graphs at a concrete input.
use llmengine.Base.{List, [], pos, ℕ, ℤ, ◌∷◌}
use llmengine.Core.DType.{DType, cpu}
use llmengine.Graph.Data.{ValueKind, Value, Graph}

-- Two matrices.
abbrev matrix : ℕ → List ℤ → Value
matrix i shape = record {
  id = i;
  name = "m";
  shape = shape;
  dtype = DType.float32;
  device = record { type = cpu; index = pos 0 };
  kind = ValueKind.input;
}

abbrev two_matrices : Graph
two_matrices = record {
  values = matrix 0 (pos 2 ∷ pos 3 ∷ []) ∷ matrix 1 (pos 3 ∷ pos 4 ∷ []) ∷ [];
  nodes = [];
}
