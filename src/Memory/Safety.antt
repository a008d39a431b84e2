-- ===== src/Memory/Safety.antt =====
-- The memory plan of src/runtime/memory_planner.cpp against the order of src/graph/graph.cpp: what a
-- node reads is still in its buffer.
use llmengine.Base.{
  List, [], arith, count, false, get_elem?, get_elem?-eq-get_or, get_elem?-lt, get_or, inl, inr,
  length, length-replicate, pos, refl, some, subst, ℕ, ◌+◌, ◌-◌, ◌<◌, ◌∙◌, ◌≡◌, ◌≢◌, ◌≤◌, ◌⊎◌,
}
use llmengine.Core.Status.{ok}
use llmengine.Core.DType.{DType, DeviceType}
use llmengine.Graph.Data.{ValueKind, Value, Node, Graph}
use llmengine.Graph.Sort.{topological_sort}
use llmengine.Memory.{Options, Plan}
use llmengine.Memory.Live.{no_lives, range_of}
use llmengine.Memory.Pool.{}
use llmengine.Memory.Reuse.{range_at}
use llmengine.Memory.Given.{start}
use llmengine.Memory.Ranges.{SameNodes}
use llmengine.Memory.Planner.{
  eligible_indices, range_less, nodes_of, no_plan, Sort, assign_buffers, plan,
}
use llmengine.Memory.Sorting.{Sorts}
use llmengine.Memory.Planned.{assign_all-Kept, plan-Sound}
use llmengine.Memory.Uses.{Sized, last_at}
use llmengine.Memory.Covers.{OnlyWriter, live_loop-Covered}
use llmengine.Memory.Placing.{range_loop-Ranged, range_of-nodes, length-nodes_of, lives, plan-cases}

-- Every value carries its index, as `add_value` gives it.
abbrev pub Numbered : Graph → Type 0
Numbered g = (i : ℕ) (v : Value) → get_elem? g.values i ≡ some v → v.id ≡ i

-- Node `k` of the order writes the value, and no other does.
abbrev pub Writes : List Node → ℕ → ℕ → Type 0
Writes ns k v =
    (nd : Node) × (get_elem? ns k ≡ some nd) × (0 < count v nd.outputs) × OnlyWriter ns k v

abbrev pub Reads : List Node → ℕ → ℕ → Type 0
Reads ns k v = (nd : Node) × (get_elem? ns k ≡ some nd) × (0 < count v nd.inputs)

no_lives-Sized : (n : ℕ) → Sized n (no_lives n)
no_lives-Sized n = record {
  firsts = length-replicate n 0;
  lasts = length-replicate n 0;
  producers = length-replicate n false;
}

-- The range of a value in a plan starts at the node that writes it, and includes the uses of it.
value_range :
    (sort : Sort) (o : Options) (g : Graph) (p : Plan) (order : List ℕ) (ns : List Node) (u w k : ℕ)
    → Numbered g
    → topological_sort g ≡ ok order
    → nodes_of order g ≡ ok ns
    → plan sort o g ≡ ok p
    → u < length g.values
    → Writes ns w u
    → k < length ns
    → k ≤ last_at (lives g ns) u
    → ((range_at p.ranges u).first_node ≡ w) × (k ≤ (range_at p.ranges u).last_node)
unfolding assign_buffers
value_range sort o g p order ns u w k numbered e2 e3 e h (nd, at, writes, only) inside used_here =
    let (q, loop, made) = plan-cases sort o g p order ns e2 e3 e in
    let l = lives g ns in
    let v = get_or g.values u no_value in
    let there : get_elem? g.values u ≡ some v = get_elem?-eq-get_or g.values u no_value h in
    let id : v.id ≡ u = numbered u v there in
    let c =
      live_loop-Covered (length g.values) 0 ns (no_lives (length g.values))
        (no_lives-Sized (length g.values)) in
    let s = c.start w u nd at h writes only in
    let nodes =
      range_of-nodes l (length order - 1) k w v (rw id s.1) (rw id (omega (arith, s.0)))
        (rw id used_here) (omega (arith, inside, length-nodes_of order g ns e3)) in
    let zero_add : 0 + u ≡ u = omega arith in
    let same =
      subst (λ x. SameNodes (range_at q.ranges x) (range_of l (length order - 1) v)) zero_add
        ((range_loop-Ranged o l (length order - 1) g.values (no_plan o.alignment) q loop).added u v
          there) in
    let list = sort (range_less q.ranges) (eligible_indices 0 q.ranges) in
    let first = assign_all-Kept (λ r. r.first_node) list (start q.ranges) u (λ r b. refl) in
    let last = assign_all-Kept (λ r. r.last_node) list (start q.ranges) u (λ r b. refl) in
    subst
      (λ (x : Plan). ((range_at x.ranges u).first_node ≡ w) × (k ≤ (range_at x.ranges u).last_node))
      made (first ∙ same.1 ∙ nodes.0, omega (arith, last, same.2, nodes.1))
  where
    no_value : Value
    no_value = record {
      id = 0;
      name = "";
      shape = [];
      dtype = DType.unknown;
      device = record { type = DeviceType.cpu; index = pos 0 };
      kind = ValueKind.intermediate;
    }

-- In a plan for a graph whose values carry their indices, with a `std::sort` that sorts: if two values
-- share a buffer, each has one node that writes it, and some node reads the first, then the second
-- is written before the first or after that read. What a node reads was not overwritten.
pub plan_keeps_until_read :
    (sort : Sort) (o : Options) (g : Graph) (p : Plan) (order : List ℕ) (ns : List Node)
    (u v b w k x : ℕ)
    → Sorts sort
    → Numbered g
    → topological_sort g ≡ ok order
    → nodes_of order g ≡ ok ns
    → plan sort o g ≡ ok p
    → u ≢ v
    → u < length g.values
    → v < length g.values
    → (range_at p.ranges u).buffer_id ≡ some b
    → (range_at p.ranges v).buffer_id ≡ some b
    → Writes ns w u
    → Reads ns k u
    → Writes ns x v
    → (x < w) ⊎ (k < x)
plan_keeps_until_read sort o g p order ns u v b w k x sorts numbered e2 e3 e ne hu hv bu bv wu
      (nd, at, reads) wv =
    let c =
      live_loop-Covered (length g.values) 0 ns (no_lives (length g.values))
        (no_lives-Sized (length g.values)) in
    let ru =
      value_range sort o g p order ns u w k numbered e2 e3 e hu wu (get_elem?-lt ns k nd at)
        (omega (arith, c.reads k u nd at hu reads)) in
    let rv =
      value_range sort o g p order ns v x x numbered e2 e3 e hv wv (get_elem?-lt ns x wv.0 wv.1)
        (omega (arith, c.writes x v wv.0 wv.1 hv wv.2)) in
    elim ((plan-Sound sort o g p sorts e).0.apart u v b ne bu bv) [
      | inl h ↦ inr (omega (arith, h, ru.1, rv.0))
      | inr h ↦ inl (omega (arith, h, rv.1, ru.0))
    ]
