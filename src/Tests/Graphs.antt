-- ===== src/Tests/Graphs.antt =====
-- A graph of three nodes in a chain, and the theorems on the sort and the memory plan at it.
use llmengine.Base.{
  List, Option, [], ap, arith, count, false, none, pos, refl, some, subst, suc, sym, zero, ℕ, ◌%◌,
  ◌+◌, ◌<◌, ◌∷◌, ◌≡◌, ◌≤◌, ◌⊎◌,
}
use llmengine.Core.Status.{Result, ok, err}
use llmengine.Core.DType.{DType, DeviceType}
use llmengine.Graph.Data.{
  OpType, ValueKind, Value, Node, Graph, validate_node, validate_nodes, validate,
}
use llmengine.Graph.Sort.{
  produce, producers, add_edge, consume, consumers, ready, relax, visit, producer, edges,
  topological_sort,
}
use llmengine.Graph.Sort.Returned.{visit_ends}
use llmengine.Graph.Sort.Acyclic.{Ranked, topological_sort_succeeds}
use llmengine.Memory.{align_up, Options, Buffer, Plan}
use llmengine.Memory.Live.{live_loop, range_of, sized, range_loop}
use llmengine.Memory.Covers.{OnlyWriter}
use llmengine.Memory.Safety.{Numbered, plan_keeps_until_read}
use llmengine.Memory.Pool.{emplace, no_buffer, drain, take_fit, assign, assign_all}
use llmengine.Memory.Lists.{buffer_at}
use llmengine.Memory.Layout.{find_arena, grow_arena, place_buffer, place_buffers}
use llmengine.Memory.Arenas.{place_buffers_lem}
use llmengine.Memory.Planner.{
  eligible_indices, range_less, planned, nodes_of, no_plan, assign_buffers, plan,
}
use llmengine.Tests.InsertionSort.{insert, insertion_sort, insertion_sort-Sorts}

abbrev tensor : ℕ → ValueKind → Value
tensor i kind = record {
  id = i;
  name = "x";
  shape = pos 2 ∷ pos 3 ∷ [];
  dtype = DType.float32;
  device = record { type = DeviceType.cpu; index = pos 0 };
  kind = kind;
}

abbrev relu : ℕ → ℕ → ℕ → Node
relu i from to = record {
  id = i;
  op_type = OpType.silu;
  name = "f";
  inputs = from ∷ [];
  outputs = to ∷ [];
}

-- The last node stands first.
abbrev pub chain : Graph
chain = record {
  values =
      tensor 0 ValueKind.input
      ∷ tensor 1 ValueKind.intermediate
      ∷ tensor 2 ValueKind.intermediate
      ∷ tensor 3 ValueKind.intermediate
      ∷ [];
  nodes = relu 0 2 3 ∷ relu 1 0 1 ∷ relu 2 1 2 ∷ [];
}

topological_sort-chain : topological_sort chain ≡ ok (1 ∷ 2 ∷ 0 ∷ [])
unfolding topological_sort validate validate_nodes validate_node edges producer producers produce
    consumers consume add_edge ready visit relax
topological_sort-chain = refl

visit_ends_example :
    (visit 3 (edges chain).adj (ready 0 (edges chain).in_degree) (edges chain).in_degree []).0 ≡ []
visit_ends_example = visit_ends chain

abbrev depth : ℕ → ℕ
depth zero = 2
depth (suc i) = i

only :
    (i from to v : ℕ) (nd : Node)
    → some (relu i from to) ≡ some nd
    → 0 < count v nd.inputs
    → v ≡ from
only i from to v nd h u =
    let same : relu i from to ≡ nd = cc in
    let at : 0 < count v (from ∷ []) = subst (λ (x : Node). 0 < count v x.inputs) (sym same) u in
    ground (arith, at)

chain-Ranked : Ranked chain depth
unfolding producer producers produce
chain-Ranked zero v p nd h u f =
    let g : some 2 ≡ some p = subst (λ x. producer chain x ≡ some p) (only 0 2 3 v nd h u) f in
    let q : 2 ≡ p = cc in rw⁻¹ q (omega arith)
chain-Ranked (suc zero) v p nd h u f =
    let g : none ≡ some p = subst (λ x. producer chain x ≡ some p) (only 1 0 1 v nd h u) f in
    absurd (cc)
chain-Ranked (suc (suc zero)) v p nd h u f =
    let g : some 1 ≡ some p = subst (λ x. producer chain x ≡ some p) (only 2 1 2 v nd h u) f in
    let q : 1 ≡ p = cc in rw⁻¹ q (omega arith)
chain-Ranked (suc (suc (suc i))) v p nd h u f = absurd (cc)

topological_sort_succeeds_example : (order : List ℕ) × (topological_sort chain ≡ ok order)
unfolding validate validate_nodes validate_node
topological_sort_succeeds_example = topological_sort_succeeds chain depth refl chain-Ranked

abbrev options : Options
options = record { alignment = 16; include_outputs = false }

abbrev from_result : Result Plan → Plan
from_result (ok p) = p
from_result (err e) = no_plan 16

-- Two buffers of one arena.
abbrev two_buffers : List Buffer
two_buffers =
    record no_buffer { id = 0; bytes = 24; last_use = 0 }
    ∷ record no_buffer { id = 1; bytes = 16; last_use = 1 }
    ∷ []

place_buffers_lem_example :
    ((buffer_at (place_buffers 16 two_buffers []) 0).offset % 16 ≡ 0)
    × ((buffer_at (place_buffers 16 two_buffers []) 1).offset % 16 ≡ 0)
    × ((buffer_at (place_buffers 16 two_buffers []) 0).offset + (buffer_at two_buffers 0).bytes
        ≤ (buffer_at (place_buffers 16 two_buffers []) 1).offset)
unfolding place_buffers place_buffer find_arena grow_arena align_up
place_buffers_lem_example =
    place_buffers_lem 16 two_buffers 0 1 0 (omega arith) (omega arith) (omega arith) refl refl

abbrev in_order : List Node
in_order = relu 1 0 1 ∷ relu 2 1 2 ∷ relu 0 2 3 ∷ []

writes_only :
    (i from to v : ℕ) (nd : Node)
    → some (relu i from to) ≡ some nd
    → 0 < count v nd.outputs
    → v ≡ to
writes_only i from to v nd h u =
    let same : relu i from to ≡ nd = cc in
    let at : 0 < count v (to ∷ []) = subst (λ (x : Node). 0 < count v x.outputs) (sym same) u in
    ground (arith, at)

in_order-OnlyWriter : (k : ℕ) → OnlyWriter in_order k (suc k)
in_order-OnlyWriter k zero nd e u = omega (arith, writes_only 1 0 1 (suc k) nd e u)
in_order-OnlyWriter k (suc zero) nd e u = omega (arith, writes_only 2 1 2 (suc k) nd e u)
in_order-OnlyWriter k (suc (suc zero)) nd e u = omega (arith, writes_only 0 2 3 (suc k) nd e u)
in_order-OnlyWriter k (suc (suc (suc j))) nd e u = absurd (cc)

chain-Numbered : Numbered chain
chain-Numbered zero v e = sym (ap (λ (x : Option Value). elim x [ none ↦ 0 | some a ↦ a.id ]) e)
chain-Numbered (suc zero) v e =
    sym (ap (λ (x : Option Value). elim x [ none ↦ 0 | some a ↦ a.id ]) e)
chain-Numbered (suc (suc zero)) v e =
    sym (ap (λ (x : Option Value). elim x [ none ↦ 0 | some a ↦ a.id ]) e)
chain-Numbered (suc (suc (suc zero))) v e =
    sym (ap (λ (x : Option Value). elim x [ none ↦ 0 | some a ↦ a.id ]) e)
chain-Numbered (suc (suc (suc (suc i)))) v e = absurd (cc)

-- The values 1 and 3 share the first buffer.
plan_keeps_until_read_example : (2 < 0) ⊎ (1 < 2)
unfolding plan insertion_sort insert validate validate_nodes validate_node topological_sort edges
    producer producers produce consumers consume add_edge ready visit relax nodes_of live_loop
    range_loop range_of sized assign_buffers eligible_indices range_less assign_all assign drain
    take_fit emplace planned place_buffers
plan_keeps_until_read_example =
    plan_keeps_until_read insertion_sort options chain
      (from_result (plan insertion_sort options chain)) (1 ∷ 2 ∷ 0 ∷ []) in_order 1 3 0 0 1 2
      insertion_sort-Sorts chain-Numbered topological_sort-chain refl refl
      (λ e. absurd (omega (arith, e))) (omega arith) (omega arith) refl refl
      (relu 1 0 1, refl, omega arith, in_order-OnlyWriter 0) (relu 2 1 2, refl, omega arith)
      (relu 0 2 3, refl, omega arith, in_order-OnlyWriter 2)
