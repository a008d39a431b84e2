-- ===== src/Graph/Sort/Returned.antt =====
-- What `Graph::topological_sort` of src/graph/graph.cpp returns.
use llmengine.Base.{
  List, [], arith, count, get_elem?, if◌then◌else◌, length, ltb, some, ℕ, ◌++◌, ◌-◌, ◌<◌, ◌∷◌, ◌≡◌,
}
use llmengine.Graph.Data.{Node, Graph}
use llmengine.Graph.Sort.{ready, visit, producer, edges}
use llmengine.Graph.Sort.Visit.{Loop, visit-Loop}
use llmengine.Graph.Sort.Order.{edges-Built, count-ready, length-ready}

-- The inputs of each node of the list are produced by nodes before it; `pre` comes before the list.
abbrev pub Follows : Graph → List ℕ → List ℕ → Type 0
Follows g pre [] = Unit {0}
Follows g pre (i ∷ rest) =
    ((v p : ℕ) (nd : Node)
      → get_elem? g.nodes i ≡ some nd
      → 0 < count v nd.inputs
      → producer g v ≡ some p
      → 0 < count p pre)
    × Follows g (pre ++ i ∷ []) rest

-- The state before the `while` loop.
pub first_state :
    (g : Graph) → Loop (edges g).adj (ready 0 (edges g).in_degree) (edges g).in_degree [] []
first_state g = record {
  degrees = λ i. omega (arith, (edges-Built g).0.sums i);
  once = λ i. ground (arith, count-ready i 0 (edges g).in_degree, start i);
  sizes = omega (arith, length-ready 0 (edges g).in_degree);
  ordered = tt;
}
  where
    start : (i : ℕ) → i - 0 ≡ i
    start i = omega arith

-- The loop over the queue ends: after as many rounds as there are nodes the queue is empty.
pub visit_ends :
    (g : Graph)
    → (visit (length g.nodes) (edges g).adj (ready 0 (edges g).in_degree) (edges g).in_degree []).0
      ≡ []
visit_ends g =
    (visit-Loop (length g.nodes) (edges g).adj (ready 0 (edges g).in_degree) (edges g).in_degree []
      (omega (arith, (edges-Built g).0.degrees)) (first_state g)).0

-- Every node below `n` stands in the list once, and no other number.
abbrev pub AllOnce : ℕ → List ℕ → Type 0
AllOnce n xs = (i : ℕ) → count i xs ≡ (if ltb i n then 1 else 0)
