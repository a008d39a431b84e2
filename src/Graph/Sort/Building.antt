-- ===== src/Graph/Sort/Building.antt =====
-- The lists of edges that `Graph::topological_sort` of src/graph/graph.cpp builds.
use llmengine.Base.{
  Bool-cases, List, Option, Option-cases, [], ap, arith, count, count-append, get_or, get_or-set_ne,
  get_or-set_self, if◌then◌else◌, inl, inr, length, length-set, none, set, some, suc, zero, ℕ,
  ℕ_discrete, ◌++◌, ◌+◌, ◌<◌, ◌==◌, ◌∙◌, ◌∷◌, ◌≡◌, ◌≤◌, ◌⊎◌,
}
use llmengine.Graph.Data.{Node}
use llmengine.Graph.Sort.{produce, producers, Edges, add_edge, consume}
use llmengine.Graph.Sort.Visit.{waiting}

-- A producer is the node of some output.
produce-cases :
    (i : ℕ) (vs : List ℕ) (m : ℕ → Option ℕ) (v p : ℕ)
    → produce i vs m v ≡ some p
    → (p ≡ i) ⊎ (m v ≡ some p)
unfolding produce
produce-cases i [] m v p e = inr e
produce-cases i (x ∷ xs) m v p e =
    elim (produce-cases i xs (λ y. if x == y then some i else m y) v p e) [
      | inl h ↦ inl h
      | inr h ↦ elim (Bool-cases (x == v)) [
        | inl f ↦ inl (ground (arith, f, h))
        | inr f ↦ inr (ground (arith, f, h))
      ]
    ]

pub producers-lt :
    (i : ℕ) (ns : List Node) (m : ℕ → Option ℕ) (v p : ℕ)
    → producers i ns m v ≡ some p
    → (p < i + length ns) ⊎ (m v ≡ some p)
unfolding producers
producers-lt i [] m v p e = inr e
producers-lt i (n ∷ ns) m v p e = elim (producers-lt (suc i) ns (produce i n.outputs m) v p e) [
  | inl h ↦ inl (omega (arith, h))
  | inr h ↦ elim (produce-cases i n.outputs m v p h) [
    | inl q ↦ inl (omega (arith, q))
    | inr q ↦ inr q
  ]
]

-- One edge more.
waiting-set :
    (j k p i : ℕ) (adj : List (List ℕ))
    → p < length adj
    → waiting j k (set adj p (get_or adj p [] ++ i ∷ [])) []
      ≡ waiting j k adj [] + (if j == i then 1 else 0)
waiting-set j k p i [] h = absurd (omega (arith, h))
waiting-set j k zero i (a ∷ rows) h = omega (arith, count-append j a (i ∷ []))
waiting-set j k (suc p) i (a ∷ rows) h =
    omega (arith, waiting-set j (suc k) p i rows (omega (arith, h)))

-- The edges built so far.
pub record Built (n : ℕ) (e : Edges) : Type 0 where
  pub nodes : length e.adj ≡ n
  pub degrees : length e.in_degree ≡ n
  pub sums : (j : ℕ) → get_or e.in_degree j 0 ≡ waiting j 0 e.adj []

pub add_edge-Built : (n p i : ℕ) (e : Edges) → p < n → i < n → Built n e → Built n (add_edge p i e)
unfolding add_edge
add_edge-Built n p i e hp hi b = record {
  nodes = length-set e.adj p _ ∙ b.nodes;
  degrees = length-set e.in_degree i _ ∙ b.degrees;
  sums = λ j. elim (ℕ_discrete i j) [
    | yes q ↦ rw⁻¹ q (
        rw
          (get_or-set_self e.in_degree i (get_or e.in_degree i 0 + 1) 0
            (omega (arith, hi, b.degrees)))
          (ground (arith, b.sums i, waiting-set i 0 p i e.adj (omega (arith, hp, b.nodes)))))
    | no q ↦
        rw (get_or-set_ne e.in_degree i j (get_or e.in_degree i 0 + 1) 0 q)
          (ground (arith, q, b.sums j, waiting-set j 0 p i e.adj (omega (arith, hp, b.nodes))))
  ];
}

-- `d` has the edges of `e`.
abbrev pub Grows : Edges → Edges → Type 0
Grows e d = (j p : ℕ) → count j (get_or e.adj p []) ≤ count j (get_or d.adj p [])

add_edge-Grows :
    (n p i : ℕ) (e : Edges)
    → p < n
    → Built n e
    → Grows e (add_edge p i e) × (0 < count i (get_or (add_edge p i e).adj p []))
unfolding add_edge
add_edge-Grows n p i e hp b = (
  λ j x. elim (ℕ_discrete p x) [
    | yes q ↦ rw⁻¹ q (rw this (omega (arith, count-append j (get_or e.adj p []) (i ∷ []))))
    | no q ↦ rw (get_or-set_ne e.adj p x (get_or e.adj p [] ++ i ∷ []) [] q) (omega arith)
  ],
  rw this (ground (arith, count-append i (get_or e.adj p []) (i ∷ []))),
)
  where
    this : get_or (set e.adj p (get_or e.adj p [] ++ i ∷ [])) p [] ≡ get_or e.adj p [] ++ i ∷ []
    this = get_or-set_self e.adj p (get_or e.adj p [] ++ i ∷ []) [] (omega (arith, hp, b.nodes))

-- Every producer is a node.
abbrev pub Below : ℕ → (ℕ → Option ℕ) → Type 0
Below n m = (v p : ℕ) → m v ≡ some p → p < n

pub consume-Built :
    (n i : ℕ) (m : ℕ → Option ℕ) (vs : List ℕ) (e : Edges)
    → Below n m
    → i < n
    → Built n e
    → Built n (consume m i vs e)
      × Grows e (consume m i vs e)
      × ((v p : ℕ)
          → 0 < count v vs
          → m v ≡ some p
          → 0 < count i (get_or (consume m i vs e).adj p []))
unfolding consume
consume-Built n i m [] e low hi b = (b, λ j p. omega arith, λ v p h. absurd (omega (arith, h)))
consume-Built n i m (x ∷ xs) e low hi b = elim (Option-cases (m x)) [
  | inl q ↦
      let rest = consume-Built n i m xs e low hi b in
      rw (q, consume)
        (
          rest.0,
          rest.1,
          λ v p h f. (elim (ℕ_discrete v x) [
            | yes s ↦ absurd (let gone : m v ≡ none = ap m s ∙ q in cc)
            | no s ↦ rest.2 v p (ground (arith, h, s)) f
          ]),
        )
  | inr (w, q) ↦
      let more = add_edge-Grows n w i e (low x w q) b in
      let rest =
        consume-Built n i m xs (add_edge w i e) low hi (add_edge-Built n w i e (low x w q) hi b) in
      rw (q, consume)
        (
          rest.0,
          λ j p. omega (arith, more.0 j p, rest.1 j p),
          λ v p h f. elim (ℕ_discrete v x) [
            | yes s ↦ let same : w ≡ p = cc in rw⁻¹ same (omega (arith, more.1, rest.1 i w))
            | no s ↦ rest.2 v p (ground (arith, h, s)) f
          ],
        )
]
