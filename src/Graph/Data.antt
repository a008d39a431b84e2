-- ===== src/Graph/Data.antt =====
-- Values, nodes and the graph that holds them: include/minillm/graph/value.h, node.h, op_type.h and
-- graph.h, src/graph/graph.cpp. Identifiers are numbers. The attributes of nodes, which the graph
-- only carries for the kernels, and the printing are left out.
use Prim.Native.String.{String}
use llmengine.Base.{
  Bool, List, Option, [], count, false, get_elem?, if◌then◌else◌, is_empty, leb, length, none, not,
  some, true, ℕ, ℤ, ◌&&◌, ◌++◌, ◌∷◌,
}
use llmengine.Core.Status.{invalid_argument, out_of_range, Result, ok, err, Status, make_ok}
use llmengine.Core.DType.{DType, Device}

pub data OpType : Type 0 where
  input constant embedding matmul linear add mul rms_norm layer_norm silu swiglu : OpType
  rope attention qk_norm softmax reshape transpose view contiguous output custom : OpType

pub data ValueKind : Type 0 where
  input constant intermediate output : ValueKind

pub record Value : Type 0 where
  pub id : ℕ
  pub name : String
  pub shape : List ℤ
  pub dtype : DType
  pub device : Device
  pub kind : ValueKind

pub record Node : Type 0 where
  pub id : ℕ
  pub op_type : OpType
  pub name : String
  pub inputs : List ℕ
  pub outputs : List ℕ

pub record Graph : Type 0 where
  pub values : List Value
  pub nodes : List Node

abbrev pub empty : Graph
empty = record { values = []; nodes = [] }

unfoldable pub add_value : String → List ℤ → DType → Device → ValueKind → Graph → Result ℕ × Graph
add_value name shape dtype device kind g =
    let i = length g.values in
    (
      ok i,
      record g {
        values =
            g.values
            ++ record {
              id = i;
              name = name;
              shape = shape;
              dtype = dtype;
              device = device;
              kind = kind;
            }
              ∷ [];
      },
    )

unfoldable pub add_node : OpType → String → List ℕ → List ℕ → Graph → Result ℕ × Graph
add_node op name inputs outputs g =
    let i = length g.nodes in
    (
      ok i,
      record g {
        nodes =
            g.nodes
            ++ record { id = i; op_type = op; name = name; inputs = inputs; outputs = outputs }
              ∷ [];
      },
    )

abbrev from_option {ℓ} : {A : Type ℓ} → Option A → Result A
from_option none = err out_of_range
from_option (some a) = ok a

unfoldable pub value : ℕ → Graph → Result Value
value i g = from_option (get_elem? g.values i)

unfoldable pub node : ℕ → Graph → Result Node
node i g = from_option (get_elem? g.nodes i)

abbrev pub is_output : OpType → Bool
is_output OpType.output = true
is_output _ = false

-- Every identifier of a list is below `n`.
abbrev pub all_below : ℕ → List ℕ → Bool
all_below n [] = true
all_below n (v ∷ vs) = if leb n v then false else all_below n vs

-- The checks of `validate` on one node.
unfoldable pub validate_node : ℕ → Node → Status
validate_node count n =
    if not (all_below count n.inputs)
    then err invalid_argument
    else if not (all_below count n.outputs)
    then err invalid_argument
    else if is_output n.op_type && is_empty n.inputs
    then err invalid_argument
    else make_ok

unfoldable pub validate_nodes : ℕ → List Node → Status
unfolding validate_node
validate_nodes count [] = make_ok
validate_nodes count (n ∷ ns) =
    let rest = validate_nodes count ns in
    elim (validate_node count n) [ err e ↦ err e | ok _ ↦ rest ]

unfoldable pub validate : Graph → Status
unfolding validate_nodes
validate g = validate_nodes (length g.values) g.nodes
