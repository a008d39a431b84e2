-- ===== src/Graph/Sort/Order.antt =====
-- `Graph::topological_sort` of src/graph/graph.cpp as a whole.
use llmengine.Base.{
  Bool-cases, List, Option, [], arith, count, get_elem?, get_or, get_or-replicate, if◌then◌else◌,
  inl, inr, leb, length, length-replicate, ltb, none, refl, replicate, some, subst, suc, sym, zero,
  ℕ, ◌&&◌, ◌+◌, ◌-◌, ◌<◌, ◌==◌, ◌∙◌, ◌∷◌, ◌≡◌, ◌≤◌,
}
use llmengine.Graph.Data.{Node, Graph}
use llmengine.Graph.Sort.{producers, Edges, consume, consumers, ready, no_edges, producer, edges}
use llmengine.Graph.Sort.Visit.{waiting, zeros}
use llmengine.Graph.Sort.Building.{producers-lt, Built, Grows, Below, consume-Built}

consumers-Built :
    (n i : ℕ) (m : ℕ → Option ℕ) (ns : List Node) (e : Edges)
    → Below n m
    → i + length ns ≤ n
    → Built n e
    → Built n (consumers m i ns e)
      × Grows e (consumers m i ns e)
      × ((j v p : ℕ) (nd : Node)
          → get_elem? ns j ≡ some nd
          → 0 < count v nd.inputs
          → m v ≡ some p
          → 0 < count (i + j) (get_or (consumers m i ns e).adj p []))
unfolding consumers
consumers-Built n i m [] e low h b = (b, λ j p. omega arith, λ j v p nd g. absurd (cc))
consumers-Built n i m (x ∷ xs) e low h b =
    let one = consume-Built n i m x.inputs e low (omega (arith, h)) b in
    let rest =
      consumers-Built n (suc i) m xs (consume m i x.inputs e) low (omega (arith, h)) one.0 in
    (
      rest.0,
      λ j p. omega (arith, one.1 j p, rest.1 j p),
      λ j.
          elim j
            as (λ j.
              (v p : ℕ) (nd : Node)
              → get_elem? (x ∷ xs) j ≡ some nd
              → 0 < count v nd.inputs
              → m v ≡ some p
              → 0 < count (i + j) (get_or (consumers m i (x ∷ xs) e).adj p [])) [
                | zero ↦ λ v p nd g u f.
                    let same : x ≡ nd = cc in
                    let here : 0 < count i (get_or (consume m i x.inputs e).adj p []) =
                      one.2 v p (rw same u) f in
                    let at : i + 0 ≡ i = omega arith in rw at (omega (arith, here, rest.1 i p))
                | suc j' ↦ λ v p nd g u f.
                    let at : i + suc j' ≡ suc i + j' = omega arith in rw at (rest.2 j' v p nd g u f)
              ],
    )

pub waiting-none : (j k n : ℕ) → waiting j k (replicate n []) [] ≡ 0
waiting-none j k zero = refl
waiting-none j k (suc n) = omega (arith, waiting-none j (suc k) n)

-- The edges of a graph.
pub edges-Built :
    (g : Graph)
    → Built (length g.nodes) (edges g)
      × ((j v p : ℕ) (nd : Node)
          → get_elem? g.nodes j ≡ some nd
          → 0 < count v nd.inputs
          → producer g v ≡ some p
          → 0 < count j (get_or (edges g).adj p []))
unfolding edges producer
edges-Built g =
    let all =
      consumers-Built n 0 (producers 0 g.nodes (λ v. none)) g.nodes (no_edges n) low (omega arith)
        (record {
          nodes = length-replicate n [];
          degrees = length-replicate n 0;
          sums = λ j. get_or-replicate n j 0 ∙ sym (waiting-none j 0 n);
        }) in
    (
      all.0,
      λ j v p nd h u f.
          let at : 0 + j ≡ j = omega arith in
          subst
            (λ x.
              0
              < count x (
                  get_or (consumers (producers 0 g.nodes (λ v. none)) 0 g.nodes (no_edges n)).adj p
                    []))
            at (all.2 j v p nd h u f),
    )
  where
    n : ℕ
    n = length g.nodes

    low : Below n (producers 0 g.nodes (λ v. none))
    low v p e = elim (producers-lt 0 g.nodes (λ v. none) v p e) [
      | inl h ↦ omega (arith, h)
      | inr h ↦ absurd (cc)
    ]

pub count-ready :
    (i k : ℕ) (ds : List ℕ)
    → count i (ready k ds)
      ≡ (if leb k i && ltb i (k + length ds) && get_or ds (i - k) 0 == 0 then 1 else 0)
unfolding ready
count-ready i k [] = ground arith
count-ready i k (d ∷ ds) =
    let rest = count-ready i (suc k) ds in
    elim (Bool-cases (i == k)) [
      | inl e ↦
          let same : i ≡ k = ground (arith, e) in
          let gap : i - k ≡ 0 = omega (arith, same) in rw gap (ground (arith, same, rest))
      | inr e ↦ elim (Bool-cases (leb k i)) [
        | inl f ↦
            let gap : i - k ≡ suc (i - suc k) = ground (arith, e, f) in
            rw gap (ground (arith, e, f, rest))
        | inr f ↦ ground (arith, e, f, rest)
      ]
    ]

pub length-ready : (k : ℕ) (ds : List ℕ) → length (ready k ds) ≡ zeros ds
unfolding ready
length-ready k [] = refl
length-ready k (d ∷ ds) = ground (arith, length-ready (suc k) ds)
