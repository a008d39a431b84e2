-- ===== src/Graph/Builder.antt =====
-- The builder of graphs: src/graph/graph_builder.cpp. An operation returns a result and the graph;
-- `none` is the exception of the constructor of `Shape` or of `dim`. The attributes of nodes are left out.
pub mod Valid
pub mod Calls
use Prim.Native.String.{String}
use llmengine.Base.{
  Bool, List, Option, [], false, if◌then◌else◌, ltb_ℤ, none, not, set, some, true, ℕ, ℤ, ◌&&◌, ◌++◌,
  ◌==◌, ◌∷◌,
}
use llmengine.Core.Status.{shape_mismatch, Result, ok, err}
use llmengine.Core.DType.{DType, Device}
use llmengine.Core.Shape.{rank, dim}
use llmengine.Graph.ShapeInfer.{
  Shape, Inferred, infer_matmul_shape, infer_linear_shape, infer_elementwise_shape, infer_add_shape,
  infer_same_shape_unary, infer_embedding_shape, infer_reshape_shape, infer_transpose_shape,
}
use llmengine.Graph.Data.{OpType, ValueKind, intermediate, Value, Graph, add_value, add_node, value}

abbrev pub Built : Type 0
Built = Option (Result ℕ × Graph)

-- `name + ".out"`
out_name : String → String
out_name String.[] = ".out"
out_name (String.◌∷◌ c s) = String.◌∷◌ c (out_name s)

-- `if (!v) return v.error()`
unfoldable pub load : ℕ → Graph → (Value → Built) → Built
load i g next = elim (value i g) [ err e ↦ some (err e, g) | ok v ↦ next v ]

-- `if (!out_shape) return out_shape.error()`
unfoldable pub with_shape : Inferred → Graph → (Shape → Result ℕ × Graph) → Built
with_shape none g next = none
with_shape (some (err e)) g next = some (err e, g)
with_shape (some (ok shape)) g next = some (next shape)

unfoldable pub make_intermediate : String → Shape → Value → Graph → Result ℕ × Graph
unfolding out_name
make_intermediate name shape like g =
    add_value (out_name name) shape like.dtype like.device ValueKind.intermediate g

unfoldable pub return_out : ℕ → Result ℕ × Graph → Result ℕ × Graph
return_out out (err e, g) = (err e, g)
return_out out (ok id, g) = (ok out, g)

unfoldable pub node_for : OpType → String → List ℕ → Result ℕ × Graph → Result ℕ × Graph
node_for op name inputs (err e, g) = (err e, g)
node_for op name inputs (ok out, g) = return_out out (add_node op name inputs (out ∷ []) g)

-- The end of an operation: an intermediate value of the type and device of `like`, and its node.
unfoldable pub emit : OpType → String → List ℕ → Value → Graph → Shape → Result ℕ × Graph
unfolding make_intermediate node_for return_out
emit op name inputs like g shape = node_for op name inputs (make_intermediate name shape like g)

unfoldable pub input : String → Shape → DType → Device → Graph → Built
input name shape dtype device g = some (add_value name shape dtype device ValueKind.input g)

unfoldable pub constant : String → Shape → DType → Device → Graph → Built
constant name shape dtype device g = some (add_value name shape dtype device ValueKind.constant g)

unfoldable pub embedding : ℕ → ℕ → String → Graph → Built
embedding input_ids weight name g = load input_ids g λ iv. load weight g λ wv.
    with_shape (infer_embedding_shape iv.shape wv.shape) g
      (emit OpType.embedding name (input_ids ∷ weight ∷ []) wv g)

unfoldable pub matmul : ℕ → ℕ → String → Graph → Built
matmul a b name g = load a g λ av. load b g λ bv.
    with_shape (infer_matmul_shape av.shape bv.shape) g (emit OpType.matmul name (a ∷ b ∷ []) av g)

-- The bias has one dimension, that of the rows of the weight.
-- `none` is the exception of `dim`.
unfoldable pub is_bias : Shape → Shape → Option Bool
is_bias bias weight = if not (rank bias == 1) then some false else elim (dim bias 0) [
  | none ↦ none
  | some b ↦ elim (dim weight 0) [
    | none ↦ none
    | some w ↦ some (not (ltb_ℤ b w) && not (ltb_ℤ w b))
  ]
]

unfoldable pub linear_with : ℕ → Option ℕ → Shape → List ℕ → Value → String → Graph → Built
unfolding is_bias
linear_with weight none shape inputs wv name g = some (emit OpType.linear name inputs wv g shape)
linear_with weight (some bias) shape inputs wv name g = load bias g λ bv.
    elim (is_bias bv.shape wv.shape) [
      | none ↦ none
      | some true ↦ some (emit OpType.linear name (inputs ++ bias ∷ []) wv g shape)
      | some false ↦ some (err shape_mismatch, g)
    ]

unfoldable pub linear_shape : Inferred → Graph → (Shape → Built) → Built
linear_shape none g next = none
linear_shape (some (err e)) g next = some (err e, g)
linear_shape (some (ok shape)) g next = next shape

unfoldable pub linear : ℕ → ℕ → Option ℕ → String → Graph → Built
linear x weight bias name g = load x g λ xv. load weight g λ wv.
    linear_shape (infer_linear_shape xv.shape wv.shape) g
      λ shape. linear_with weight bias shape (x ∷ weight ∷ []) wv name g

unfoldable pub add : ℕ → ℕ → String → Graph → Built
add a b name g = load a g λ av.
    load b g λ bv.
      with_shape (infer_add_shape av.shape bv.shape) g (emit OpType.add name (a ∷ b ∷ []) av g)

unfoldable pub mul : ℕ → ℕ → String → Graph → Built
mul a b name g = load a g λ av. load b g λ bv.
    with_shape (infer_elementwise_shape av.shape bv.shape) g
      (emit OpType.mul name (a ∷ b ∷ []) av g)

-- The weight is not looked up.
unfoldable pub rms_norm : ℕ → ℕ → String → Graph → Built
rms_norm x weight name g = load x g λ xv.
    with_shape (infer_same_shape_unary xv.shape) g
      (emit OpType.rms_norm name (x ∷ weight ∷ []) xv g)

-- `silu`, `rope` and `softmax`, which differ in the attributes.
unfoldable pub unary : OpType → ℕ → String → Graph → Built
unary op x name g =
    load x g λ xv. with_shape (infer_same_shape_unary xv.shape) g (emit op name (x ∷ []) xv g)

abbrev pub silu : ℕ → String → Graph → Built
silu = unary OpType.silu

abbrev pub rope : ℕ → String → Graph → Built
rope = unary OpType.rope

abbrev pub softmax : ℕ → String → Graph → Built
softmax = unary OpType.softmax

unfoldable pub swiglu : ℕ → ℕ → String → Graph → Built
swiglu gate up name g = load gate g λ gv. load up g λ uv.
    with_shape (infer_elementwise_shape gv.shape uv.shape) g
      (emit OpType.swiglu name (gate ∷ up ∷ []) gv g)

unfoldable pub attention : ℕ → ℕ → ℕ → String → Graph → Built
attention q k v name g = load q g λ qv.
    load k g λ kv. load v g λ vv. some (emit OpType.attention name (q ∷ k ∷ v ∷ []) qv g qv.shape)

unfoldable pub qk_norm : ℕ → ℕ → String → Graph → Built
qk_norm x weight name g = load x g λ xv. load weight g λ wv.
    with_shape (infer_same_shape_unary xv.shape) g (emit OpType.qk_norm name (x ∷ weight ∷ []) xv g)

unfoldable pub reshape : ℕ → Shape → String → Graph → Built
reshape x target name g = load x g λ xv.
    with_shape (infer_reshape_shape xv.shape target) g (emit OpType.reshape name (x ∷ []) xv g)

unfoldable pub transpose : ℕ → ℤ → ℤ → String → Graph → Built
transpose x axis0 axis1 name g = load x g λ xv.
    with_shape (infer_transpose_shape xv.shape axis0 axis1) g
      (emit OpType.transpose name (x ∷ []) xv g)

-- The kind of the value becomes `Output`.
unfoldable pub output : ℕ → Graph → Built
output x g =
    load x g λ xv.
      some (ok x, record g { values = set g.values x (record xv { kind = ValueKind.output }) })
