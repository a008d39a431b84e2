-- ===== src/Memory/Planner.antt =====
-- `MemoryPlanner::plan` of src/runtime/memory_planner.cpp. `std::sort` is a parameter.
use llmengine.Base.{
  Bool, List, [], if◌then◌else◌, length, ltb, not, suc, ℕ, ◌%◌, ◌+◌, ◌-◌, ◌==◌, ◌∷◌,
}
use llmengine.Core.Status.{invalid_argument, Result, ok, err, ◌>>=◌}
use llmengine.Graph.Data.{Node, Graph, node, validate}
use llmengine.Graph.Sort.{topological_sort}
use llmengine.Memory.{size_mod, Options, LiveRange, Buffer, Plan}
use llmengine.Memory.Live.{no_lives, live_loop, range_loop}
use llmengine.Memory.Pool.{assign_all}
use llmengine.Memory.Reuse.{range_at}
use llmengine.Memory.Given.{start}
use llmengine.Memory.Layout.{place_buffers}

-- The indices of the eligible ranges, from `i` on.
unfoldable pub eligible_indices : ℕ → List LiveRange → List ℕ
eligible_indices i [] = []
eligible_indices i (r ∷ rs) =
    let rest = eligible_indices (suc i) rs in if r.eligible then i ∷ rest else rest

-- The comparison that the indices are sorted by.
unfoldable pub range_less : List LiveRange → ℕ → ℕ → Bool
range_less rs x y =
    let a = range_at rs x in
    let b = range_at rs y in
    if not (a.first_node == b.first_node)
    then ltb a.first_node b.first_node
    else if not (a.last_node == b.last_node)
    then ltb a.last_node b.last_node
    else ltb b.aligned_bytes a.aligned_bytes

unfoldable pub planned : List Buffer → ℕ → ℕ
planned [] n = n
planned (b ∷ bs) n = planned bs ((n + b.bytes) % size_mod)

-- The nodes of the order.
unfoldable pub nodes_of : List ℕ → Graph → Result (List Node)
unfolding node
nodes_of [] g = ok []
nodes_of (i ∷ is) g = do n ← node i g; ns ← nodes_of is g; ok (n ∷ ns)

abbrev pub no_plan : ℕ → Plan
no_plan alignment = record {
  ranges = [];
  buffers = [];
  alignment = alignment;
  eligible_value_count = 0;
  skipped_value_count = 0;
  naive_bytes = 0;
  planned_bytes = 0;
}

-- What `std::sort` does with a comparison.
abbrev pub Sort : Type 0
Sort = (ℕ → ℕ → Bool) → List ℕ → List ℕ

-- The part of `plan` behind the ranges.
unfoldable pub assign_buffers : Sort → Options → Plan → Plan
unfolding eligible_indices range_less assign_all planned place_buffers
assign_buffers sort o p =
    let order = sort (range_less p.ranges) (eligible_indices 0 p.ranges) in
    let r = assign_all order (start p.ranges) in
    record p {
      ranges = r.ranges;
      buffers = place_buffers o.alignment r.buffers [];
      planned_bytes = planned r.buffers 0;
    }

unfoldable pub plan : Sort → Options → Graph → Result Plan
unfolding validate topological_sort nodes_of live_loop range_loop assign_buffers
plan sort o g = if o.alignment == 0 then err invalid_argument else (do
  _ ← validate g
  order ← topological_sort g
  ns ← nodes_of order g
  p ←
      range_loop o (live_loop 0 ns (no_lives (length g.values))) (length order - 1) g.values
        (no_plan o.alignment)
  ok (assign_buffers sort o p))
