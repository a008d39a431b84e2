-- ===== src/Graph/Builder/Calls.antt =====
-- Every call of the builder of src/graph/graph_builder.cpp on a graph that `validate` accepts.
use Prim.Native.String.{String}
use llmengine.Base.{Option, length, ℕ, ℤ, ◌<◌}
use llmengine.Graph.ShapeInfer.{Shape}
use llmengine.Graph.Data.{Graph}
use llmengine.Core.DType.{DType, Device}
use llmengine.Graph.ShapeInfer.Valid.{IsShape}
use llmengine.Graph.Builder
use llmengine.Graph.Builder.{Built}

-- A call of the builder.
pub data Call : Type 0 where
  embedding matmul add mul rms_norm swiglu qk_norm : ℕ → ℕ → String → Call
  silu rope softmax : ℕ → String → Call
  linear : ℕ → ℕ → Option ℕ → String → Call
  attention : ℕ → ℕ → ℕ → String → Call
  reshape : ℕ → Shape → String → Call
  transpose : ℕ → ℤ → ℤ → String → Call
  input constant : String → Shape → DType → Device → Call
  output : ℕ → Call

abbrev pub call : Call → Graph → Built
call (embedding a b name) = Builder.embedding a b name
call (matmul a b name) = Builder.matmul a b name
call (add a b name) = Builder.add a b name
call (mul a b name) = Builder.mul a b name
call (rms_norm a b name) = Builder.rms_norm a b name
call (swiglu a b name) = Builder.swiglu a b name
call (qk_norm a b name) = Builder.qk_norm a b name
call (silu a name) = Builder.silu a name
call (rope a name) = Builder.rope a name
call (softmax a name) = Builder.softmax a name
call (linear a b bias name) = Builder.linear a b bias name
call (attention a b c name) = Builder.attention a b c name
call (reshape a s name) = Builder.reshape a s name
call (transpose a i j name) = Builder.transpose a i j name
call (input name s dtype device) = Builder.input name s dtype device
call (constant name s dtype device) = Builder.constant name s dtype device
call (output a) = Builder.output a

-- A shape that is given is one that the constructor made, and the weight of `rms_norm`, which is not
-- looked up, is a value.
abbrev pub Given : Graph → Call → Type 0
Given g (rms_norm a b name) = b < length g.values
Given g (reshape a s name) = IsShape s
Given g (input name s dtype device) = IsShape s
Given g (constant name s dtype device) = IsShape s
Given g _ = Unit {0}
