-- ===== src/Graph/Sort.antt =====
-- `Graph::topological_sort` of src/graph/graph.cpp. `value_producer` is a function from its keys. An
-- `int` of `in_degree` that is zero stays zero where the code makes it negative: it then never
-- becomes zero again, and here it is not tested again.
pub mod Visit
pub mod Building
pub mod Order
pub mod Returned
pub mod Acyclic
use llmengine.Base.{
  List, Option, [], get_or, if◌then◌else◌, length, none, replicate, set, some, suc, zero, ℕ, ◌++◌,
  ◌+◌, ◌-◌, ◌==◌, ◌∷◌,
}
use llmengine.Core.Status.{runtime_error, Result, ok, err}
use llmengine.Graph.Data.{Node, Graph, validate}

-- The loop over the outputs of node `i`; a later producer replaces an earlier one.
unfoldable pub produce : ℕ → List ℕ → (ℕ → Option ℕ) → ℕ → Option ℕ
produce i [] m = m
produce i (v ∷ vs) m = produce i vs (λ x. if v == x then some i else m x)

-- The first loop over the nodes, from node `i` on.
unfoldable pub producers : ℕ → List Node → (ℕ → Option ℕ) → ℕ → Option ℕ
unfolding produce
producers i [] m = m
producers i (n ∷ ns) m = producers (suc i) ns (produce i n.outputs m)

-- `adj` and `in_degree`.
pub record Edges : Type 0 where
  pub adj : List (List ℕ)
  pub in_degree : List ℕ

unfoldable pub add_edge : ℕ → ℕ → Edges → Edges
add_edge p i e = record {
  adj = set e.adj p (get_or e.adj p [] ++ i ∷ []);
  in_degree = set e.in_degree i (get_or e.in_degree i 0 + 1);
}

-- The loop over the inputs of node `i`.
unfoldable pub consume : (ℕ → Option ℕ) → ℕ → List ℕ → Edges → Edges
unfolding add_edge
consume m i [] e = e
consume m i (v ∷ vs) e = elim (m v) [
  | none ↦ consume m i vs e
  | some p ↦ consume m i vs (add_edge p i e)
]

-- The second loop over the nodes.
unfoldable pub consumers : (ℕ → Option ℕ) → ℕ → List Node → Edges → Edges
unfolding consume
consumers m i [] e = e
consumers m i (n ∷ ns) e = consumers m (suc i) ns (consume m i n.inputs e)

-- The nodes that wait for none, from node `i` on.
unfoldable pub ready : ℕ → List ℕ → List ℕ
ready i [] = []
ready i (d ∷ ds) = let rest = ready (suc i) ds in if d == 0 then i ∷ rest else rest

-- The loop over `adj[cur]`: the queue and the degrees after it.
unfoldable pub relax : List ℕ → List ℕ → List ℕ → List ℕ × List ℕ
relax [] q deg = (q, deg)
relax (x ∷ xs) q deg =
    let d = get_or deg x 0 in relax xs (if d == 1 then q ++ x ∷ [] else q) (set deg x (d - 1))

-- The `while` loop, with `fuel` rounds at most: the queue and the order at its end.
unfoldable pub visit : ℕ → List (List ℕ) → List ℕ → List ℕ → List ℕ → List ℕ × List ℕ
unfolding relax
visit zero adj q deg order = (q, order)
visit (suc fuel) adj [] deg order = ([], order)
visit (suc fuel) adj (cur ∷ q) deg order =
    let (q', deg') = relax (get_or adj cur []) q deg in visit fuel adj q' deg' (order ++ cur ∷ [])

abbrev pub no_edges : ℕ → Edges
no_edges n = record { adj = replicate n []; in_degree = replicate n 0 }

unfoldable pub producer : Graph → ℕ → Option ℕ
unfolding producers
producer g = producers 0 g.nodes (λ v. none)

unfoldable pub edges : Graph → Edges
unfolding producer consumers
edges g = consumers (producer g) 0 g.nodes (no_edges (length g.nodes))

unfoldable pub topological_sort : Graph → Result (List ℕ)
unfolding validate edges ready visit
topological_sort g = elim (validate g) [
  | err e ↦ err e
  | ok _ ↦
      let e = edges g in
      let n = length g.nodes in
      let (q, order) = visit n e.adj (ready 0 e.in_degree) e.in_degree [] in
      if length order == n then ok order else err runtime_error
]
