-- ===== src/Graph/Sort/Acyclic.antt =====
-- `Graph::topological_sort` of src/graph/graph.cpp finds an order for every graph without a cycle.
use llmengine.Base.{
  Bool-cases, List, Option, Option-cases, [], ap, arith, count, count-append, get_elem?, get_or,
  get_or-replicate, get_or-set_ne, get_or-set_self, inl, inr, length, length-replicate, none, refl,
  some, subst, suc, sym, true, zero, ℕ, ℕ_discrete, ◌++◌, ◌+◌, ◌<◌, ◌==◌, ◌∙◌, ◌∷◌, ◌≡◌, ◌≤◌,
}
use llmengine.Core.Status.{ok, make_ok}
use llmengine.Graph.Data.{Node, Graph, validate}
use llmengine.Graph.Sort.{
  Edges, add_edge, consume, consumers, ready, visit, no_edges, producer, edges, topological_sort,
}
use llmengine.Graph.Sort.Visit.{waiting, zeros, Loop, visit-Loop}
use llmengine.Graph.Sort.Building.{producers-lt, Built, add_edge-Built, Below, consume-Built}
use llmengine.Graph.Sort.Order.{waiting-none, edges-Built}
use llmengine.Graph.Sort.Returned.{first_state}

-- Every edge goes from a lower to a higher rank.
abbrev Climbs : (ℕ → ℕ) → Edges → Type 0
Climbs rank e = (j p : ℕ) → 0 < count j (get_or e.adj p []) → rank p < rank j

add_edge-Climbs :
    (rank : ℕ → ℕ) (n p i : ℕ) (e : Edges)
    → p < n
    → Built n e
    → rank p < rank i
    → Climbs rank e
    → Climbs rank (add_edge p i e)
unfolding add_edge
add_edge-Climbs rank n p i e hp b lt c j x = elim (ℕ_discrete p x) [
  | no q ↦ rw (get_or-set_ne e.adj p x (get_or e.adj p [] ++ i ∷ []) [] q) (c j x)
  | yes q ↦ rw⁻¹ q (
      rw (get_or-set_self e.adj p (get_or e.adj p [] ++ i ∷ []) [] (omega (arith, hp, b.nodes)))
        (λ h. elim (ℕ_discrete j i) [
          | yes s ↦ rw s lt
          | no s ↦ c j p (ground (arith, h, s, count-append j (get_or e.adj p []) (i ∷ [])))
        ]))
]

consume-Climbs :
    (rank : ℕ → ℕ) (n i : ℕ) (m : ℕ → Option ℕ) (vs : List ℕ) (e : Edges)
    → Below n m
    → i < n
    → ((v p : ℕ) → 0 < count v vs → m v ≡ some p → rank p < rank i)
    → Built n e
    → Climbs rank e
    → Climbs rank (consume m i vs e)
unfolding consume
consume-Climbs rank n i m [] e low hi r b c = c
consume-Climbs rank n i m (x ∷ xs) e low hi r b c =
    let later =
      λ (v : ℕ) (p : ℕ) (h : 0 < count v xs) (f : m v ≡ some p). r v p (ground (arith, h)) f in
    elim (Option-cases (m x)) [
      | inl q ↦ rw (q, consume) (consume-Climbs rank n i m xs e low hi later b c)
      | inr (w, q) ↦
          rw (q, consume)
            (consume-Climbs rank n i m xs (add_edge w i e) low hi later
              (add_edge-Built n w i e (low x w q) hi b)
              (add_edge-Climbs rank n w i e (low x w q) b (r x w (ground arith) q) c))
    ]

-- A rank that grows along every edge of the graph.
abbrev pub Ranked : Graph → (ℕ → ℕ) → Type 0
Ranked g rank =
    (i v p : ℕ) (nd : Node)
    → get_elem? g.nodes i ≡ some nd
    → 0 < count v nd.inputs
    → producer g v ≡ some p
    → rank p < rank i

consumers-Climbs :
    (rank : ℕ → ℕ) (n i : ℕ) (m : ℕ → Option ℕ) (ns : List Node) (e : Edges)
    → Below n m
    → i + length ns ≤ n
    → ((j v p : ℕ) (nd : Node)
        → get_elem? ns j ≡ some nd
        → 0 < count v nd.inputs
        → m v ≡ some p
        → rank p < rank (i + j))
    → Built n e
    → Climbs rank e
    → Climbs rank (consumers m i ns e)
unfolding consumers
consumers-Climbs rank n i m [] e low h r b c = c
consumers-Climbs rank n i m (x ∷ xs) e low h r b c =
    let at : i + 0 ≡ i = omega arith in
    let here = λ (v : ℕ) (p : ℕ) (u : 0 < count v x.inputs) (f : m v ≡ some p).
      subst (λ y. rank p < rank y) at (r 0 v p x refl u f) in
    let shift : (j : ℕ) → i + suc j ≡ suc i + j = λ j. omega arith in
    consumers-Climbs rank n (suc i) m xs (consume m i x.inputs e) low (omega (arith, h))
      (λ j v p nd g u f. subst (λ y. rank p < rank y) (shift j) (r (suc j) v p nd g u f))
      (consume-Built n i m x.inputs e low (omega (arith, h)) b).0
      (consume-Climbs rank n i m x.inputs e low (omega (arith, h)) here b c)

producer-Below : (g : Graph) → Below (length g.nodes) (producer g)
unfolding producer
producer-Below g v p e = elim (producers-lt 0 g.nodes (λ v. none) v p e) [
  | inl h ↦ omega (arith, h)
  | inr h ↦ absurd (cc)
]

edges-Climbs : (g : Graph) (rank : ℕ → ℕ) → Ranked g rank → Climbs rank (edges g)
unfolding edges
edges-Climbs g rank r =
    let at : (j : ℕ) → j ≡ 0 + j = λ j. omega arith in
    consumers-Climbs rank (length g.nodes) 0 (producer g) g.nodes (no_edges (length g.nodes))
      (producer-Below g) (omega arith)
      (λ j v p nd h u f. subst (λ y. rank p < rank y) (at j) (r j v p nd h u f))
      (record {
        nodes = length-replicate (length g.nodes) [];
        degrees = length-replicate (length g.nodes) 0;
        sums = λ j. get_or-replicate (length g.nodes) j 0 ∙ sym (waiting-none j 0 (length g.nodes));
      })
      (λ j p h.
        absurd (
          omega
            (arith, ap (λ (l : List ℕ). count j l) (get_or-replicate (length g.nodes) p []), h)))

waiting_all :
    (i k : ℕ) (rows : List (List ℕ)) (done : List ℕ)
    → ((p : ℕ) → p < length rows → 0 < count i (get_or rows p []) → 0 < count (k + p) done)
    → waiting i k rows done ≡ 0
waiting_all i k [] done h = refl
waiting_all i k (a ∷ rows) done h =
    let at : k + 0 ≡ k = omega arith in
    let shift : (p : ℕ) → k + suc p ≡ suc k + p = λ p. omega arith in
    let rest =
      waiting_all i (suc k) rows done
        (λ p lt u. subst (λ y. 0 < count y done) (shift p) (h (suc p) (omega (arith, lt)) u)) in
    elim (Bool-cases (count i a == 0)) [
      | inl e ↦ ground (arith, e, rest)
      | inr e ↦
          let here : 0 < count k done =
            subst (λ y. 0 < count y done) at (h 0 (omega arith) (ground (arith, e))) in
          ground (arith, here, rest)
    ]

zeros_full :
    (n : ℕ) (ds : List ℕ) → length ds ≡ n → ((i : ℕ) → i < n → get_or ds i 0 ≡ 0) → zeros ds ≡ n
zeros_full n [] e h = e
zeros_full zero (d ∷ ds) e h = absurd (omega (arith, e))
zeros_full (suc n) (d ∷ ds) e h = ground (
  arith,
  h 0 (omega arith),
  zeros_full n ds (omega (arith, e)) (λ i lt. h (suc i) (omega (arith, lt))),
)

-- At the end of the loop no node waits, by induction on a bound of its rank.
none_waits :
    (adj : List (List ℕ)) (rank : ℕ → ℕ) (deg done : List ℕ)
    → length adj ≡ length deg
    → ((j p : ℕ) → 0 < count j (get_or adj p []) → rank p < rank j)
    → Loop adj [] deg done []
    → (r i : ℕ) → rank i < r
    → get_or deg i 0 ≡ 0
none_waits adj rank deg done same climbs l zero i h = absurd (omega (arith, h))
none_waits adj rank deg done same climbs l (suc r) i h =
    let below = λ (p : ℕ) (lt : p < length adj) (u : 0 < count i (get_or adj p [])).
      let before =
        none_waits adj rank deg done same climbs l r p (omega (arith, h, climbs i p u)) in
      let at : 0 + p ≡ p = omega arith in
      let here : 0 < count p done = ground (arith, l.once p, before, lt, same) in
      subst (λ y. 0 < count y done) (sym at) here in
    omega (arith, l.degrees i, waiting_all i 0 adj done below)

-- For a valid graph in which some rank grows along every edge, so that no node depends on itself,
-- `topological_sort` returns an order.
pub topological_sort_succeeds :
    (g : Graph) (rank : ℕ → ℕ)
    → validate g ≡ make_ok
    → Ranked g rank
    → (order : List ℕ) × (topological_sort g ≡ ok order)
unfolding topological_sort
topological_sort_succeeds g rank valid r =
    let b = (edges-Built g).0 in
    let n = length g.nodes in
    let deg = (edges g).in_degree in
    let done =
      visit-Loop n (edges g).adj (ready 0 deg) deg [] (omega (arith, b.degrees)) (first_state g) in
    let found = (visit n (edges g).adj (ready 0 deg) deg []).1 in
    let waits = λ (i : ℕ) (h : i < n).
      none_waits (edges g).adj rank done.1 found (b.nodes ∙ sym (done.2 ∙ b.degrees))
        (edges-Climbs g rank r) done.3 (suc (rank i)) i (omega arith) in
    let full : length found ≡ n =
      omega (arith, done.3.sizes, zeros_full n done.1 (done.2 ∙ b.degrees) waits) in
    let test : (length found == n) ≡ true = ground (arith, full) in
    rw (valid, topological_sort, test) (found, refl)
