-- ===== src/Graph/Builder/Valid.antt =====
-- The operations of src/graph/graph_builder.cpp on graphs that `validate` accepts.
use Prim.Native.String.{String}
use llmengine.Base.{
  List, Option-cases, [], arith, false, get_elem?, get_elem?-lt, inl, inr, length, length-append,
  le→leb-false, none, refl, set, some, subst, suc, sym, true, zero, ℕ, ◌++◌, ◌+◌, ◌<◌, ◌∷◌, ◌≡◌,
  ◌≤◌,
}
use llmengine.Core.Status.{ErrorCode, out_of_range, Result, ok, err, Status, make_ok, Status-cases}
use llmengine.Core.DType.{DType, Device}
use llmengine.Graph.ShapeInfer.{Shape, Inferred}
use llmengine.Graph.Data.{
  OpType, ValueKind, Value, Node, Graph, add_value, add_node, value, is_output, all_below,
  validate_node, validate_nodes, validate,
}
use llmengine.Graph.ShapeInfer.Valid.{IsShape, GivesShape}
use llmengine.Graph.Builder.{Built, load, with_shape, emit}

-- Every value has a shape that the constructor lets pass.
abbrev pub AllShapes : List Value → Type 0
AllShapes [] = Unit {0}
AllShapes (v ∷ vs) = IsShape v.shape × AllShapes vs

-- `validate` accepts the graph, and its values have shapes.
abbrev pub IsValid : Graph → Type 0
IsValid g = (validate g ≡ make_ok) × AllShapes g.values

-- Nothing is thrown; after a success the graph is valid and holds the value; after an error it is as
-- it was.
abbrev pub Keeps : Graph → Built → Type 0
Keeps g none = ⊥
Keeps g (some (ok id, after)) = IsValid after × (id < length after.values)
Keeps g (some (err e, after)) = after ≡ g

all_below_mono : (m n : ℕ) (vs : List ℕ) → m ≤ n → all_below m vs ≡ true → all_below n vs ≡ true
all_below_mono m n [] le h = refl
all_below_mono m n (v ∷ vs) le h = ground (arith, h, all_below_mono m n vs le)

validate_node_mono :
    (m n : ℕ) (nd : Node) → m ≤ n → validate_node m nd ≡ make_ok → validate_node n nd ≡ make_ok
unfolding validate_node
validate_node_mono m n nd le h =
    ground (arith, h, all_below_mono m n nd.inputs le, all_below_mono m n nd.outputs le)

validate_nodes-cons :
    (n : ℕ) (nd : Node) (ns : List Node)
    → validate_nodes n (nd ∷ ns) ≡ make_ok
    → (validate_node n nd ≡ make_ok) × (validate_nodes n ns ≡ make_ok)
unfolding validate_nodes
validate_nodes-cons n nd ns h = elim (Status-cases (validate_node n nd)) [
  | inl good ↦ (good, rw (good, validate_nodes) at h)
  | inr (e, bad) ↦ absurd (failed e (rw (bad, validate_nodes) at h))
]
  where
    failed : (e : ErrorCode) → ◌≡◌ {A = Status} (err e) make_ok → ⊥
    failed e p = cc

cons-validate_nodes :
    (n : ℕ) (nd : Node) (ns : List Node)
    → validate_node n nd ≡ make_ok
    → validate_nodes n ns ≡ make_ok
    → validate_nodes n (nd ∷ ns) ≡ make_ok
unfolding validate_nodes
cons-validate_nodes n nd ns good rest = rw (good, validate_nodes) rest

validate_nodes-append :
    (m n : ℕ) (ns : List Node) (nd : Node)
    → m ≤ n
    → validate_nodes m ns ≡ make_ok
    → validate_node n nd ≡ make_ok
    → validate_nodes n (ns ++ nd ∷ []) ≡ make_ok
validate_nodes-append m n [] nd le h good =
    cons-validate_nodes n nd [] good (unfold validate_nodes in refl)
validate_nodes-append m n (x ∷ ns) nd le h good =
    let (head, tail) = validate_nodes-cons m x ns h in
    cons-validate_nodes n x (ns ++ nd ∷ []) (validate_node_mono m n x le head)
      (validate_nodes-append m n ns nd le tail good)

validate_nodes_mono :
    (m n : ℕ) (ns : List Node)
    → m ≤ n
    → validate_nodes m ns ≡ make_ok
    → validate_nodes n ns ≡ make_ok
unfolding validate_nodes
validate_nodes_mono m n [] le h = refl
validate_nodes_mono m n (x ∷ ns) le h =
    let (head, tail) = validate_nodes-cons m x ns h in
    cons-validate_nodes n x ns (validate_node_mono m n x le head)
      (validate_nodes_mono m n ns le tail)

AllShapes-append :
    (vs : List Value) (v : Value) → AllShapes vs → IsShape v.shape → AllShapes (vs ++ v ∷ [])
AllShapes-append [] v a h = (h, tt)
AllShapes-append (x ∷ vs) v a h = (a.0, AllShapes-append vs v a.1 h)

AllShapes-get :
    (vs : List Value) (i : ℕ) (v : Value) → AllShapes vs → get_elem? vs i ≡ some v → IsShape v.shape
AllShapes-get [] i v a e = absurd (cc)
AllShapes-get (x ∷ vs) zero v a e = subst (λ y. IsShape y.shape) (some_value x v e) a.0
  where
    some_value : (x v : Value) → some x ≡ some v → x ≡ v
    some_value x v e = cc
AllShapes-get (x ∷ vs) (suc i) v a e = AllShapes-get vs i v a.1 e

pub AllShapes-set :
    (vs : List Value) (i : ℕ) (v : Value) → AllShapes vs → IsShape v.shape → AllShapes (set vs i v)
AllShapes-set [] i v a h = tt
AllShapes-set (x ∷ vs) zero v a h = (h, a.1)
AllShapes-set (x ∷ vs) (suc i) v a h = (a.0, AllShapes-set vs i v a.1 h)

grows : (vs : List Value) (v : Value) → length (vs ++ v ∷ []) ≡ length vs + 1
grows vs v = length-append vs (v ∷ [])

pub add_value-Keeps :
    (name : String) (shape : Shape) (dtype : DType) (device : Device) (kind : ValueKind) (g : Graph)
    → IsShape shape
    → IsValid g
    → Keeps g (some (add_value name shape dtype device kind g))
unfolding add_value validate
add_value-Keeps name shape dtype device kind g ok_shape valid = (
  (
    validate_nodes_mono (length g.values) (length (g.values ++ _ ∷ [])) g.nodes
        (omega (arith, grows g.values _)) valid.0,
    AllShapes-append g.values _ valid.1 ok_shape,
  ),
  omega (arith, grows g.values _),
)

new_node :
    (m n id : ℕ) (op : OpType) (name : String) (inputs : List ℕ)
    → m < n
    → is_output op ≡ false
    → all_below m inputs ≡ true
    → validate_node n
        (record { id = id; op_type = op; name = name; inputs = inputs; outputs = m ∷ [] })
      ≡ make_ok
unfolding validate_node
new_node m n id op name inputs lt plain known =
    rw (all_below_mono m n inputs (omega arith) known, plain, le→leb-false n m lt)

pub emit-Keeps :
    (op : OpType) (name : String) (inputs : List ℕ) (like : Value) (g : Graph) (shape : Shape)
    → is_output op ≡ false
    → all_below (length g.values) inputs ≡ true
    → IsShape shape
    → IsValid g
    → Keeps g (some (emit op name inputs like g shape))
unfolding emit add_value add_node validate
emit-Keeps op name inputs like g shape plain known ok_shape valid = (
  (
    validate_nodes-append (length g.values) (length (g.values ++ _ ∷ [])) g.nodes _
        (omega (arith, grows g.values _)) valid.0
        (new_node (length g.values) (length (g.values ++ _ ∷ [])) (length g.nodes) op name inputs
          (omega (arith, grows g.values _)) plain known),
    AllShapes-append g.values _ valid.1 ok_shape,
  ),
  omega (arith, grows g.values _),
)

module _ (g : Graph) (valid : IsValid g) where
  pub load-Keeps :
      (i : ℕ) (next : Value → Built)
      → ((v : Value) → i < length g.values → IsShape v.shape → Keeps g (next v))
      → Keeps g (load i g next)
  unfolding load value
  load-Keeps i next keeps = elim (Option-cases (get_elem? g.values i)) [
    | inl e ↦ subst (Keeps g) (sym (missing e)) refl
    | inr (v, e) ↦
        subst (Keeps g) (sym (present v e))
          (keeps v (get_elem?-lt g.values i v e) (AllShapes-get g.values i v valid.1 e))
  ]
    where
      missing : get_elem? g.values i ≡ none → load i g next ≡ some (err out_of_range, g)
      missing e = rw (e, load, value)

      present : (v : Value) → get_elem? g.values i ≡ some v → load i g next ≡ next v
      present v e = rw (e, load, value)

  pub with_shape-Keeps :
      (inferred : Inferred) (next : Shape → Result ℕ × Graph)
      → GivesShape inferred
      → ((s : Shape) → IsShape s → Keeps g (some (next s)))
      → Keeps g (with_shape inferred g next)
  unfolding with_shape
  with_shape-Keeps none next gives keeps = gives
  with_shape-Keeps (some (err e)) next gives keeps = refl
  with_shape-Keeps (some (ok s)) next gives keeps = keeps s gives
