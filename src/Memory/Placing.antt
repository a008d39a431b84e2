-- ===== src/Memory/Placing.antt =====
-- The live range of a value in a plan of src/runtime/memory_planner.cpp, for the nodes in their order.
use llmengine.Base.{
  Bool-cases, List, [], ap, arith, get_elem?, get_or-append_last, get_or-append_left, inl, inr,
  length, length-append, none, refl, some, subst, suc, sym, true, zero, ℕ, ◌++◌, ◌+◌, ◌-◌, ◌<◌,
  ◌==◌, ◌∙◌, ◌∷◌, ◌≡◌, ◌≤◌,
}
use llmengine.Core.Status.{Result, ok, err, Status-cases, Result-cases}
use llmengine.Graph.Data.{Value, Node, Graph, node, validate}
use llmengine.Graph.Sort.{topological_sort}
use llmengine.Memory.{Options, LiveRange, Plan}
use llmengine.Memory.Live.{Lives, no_lives, live_loop, range_of, sized, range_loop}
use llmengine.Memory.Pool.{}
use llmengine.Memory.Reuse.{no_range, range_at}
use llmengine.Memory.Ranges.{SameNodes, sized-SameNodes, plan_of}
use llmengine.Memory.Planner.{nodes_of, no_plan, Sort, assign_buffers, plan}
use llmengine.Memory.Uses.{first_at, last_at, produced}

-- The ranges that are there stay, and value `j` of the list has the nodes of its range.
pub record Ranged (l : Lives) (graph_end : ℕ) (vs : List Value) (p q : Plan) : Type 0 where
  pub kept : (k : ℕ) → k < length p.ranges → range_at q.ranges k ≡ range_at p.ranges k
  pub added :
      (j : ℕ) (v : Value)
      → get_elem? vs j ≡ some v
      → SameNodes (range_at q.ranges (length p.ranges + j)) (range_of l graph_end v)

-- One range more, and the rest.
cons-Ranged :
    (l : Lives) (graph_end : ℕ) (v : Value) (vs : List Value) (r : LiveRange) (p p' q : Plan)
    → p'.ranges ≡ p.ranges ++ r ∷ []
    → SameNodes r (range_of l graph_end v)
    → Ranged l graph_end vs p' q
    → Ranged l graph_end (v ∷ vs) p q
cons-Ranged l graph_end v vs r p p' q e s t = record {
  kept = λ k h.
      t.kept k (omega (arith, h, longer))
      ∙ ap (λ rs. range_at rs k) e
      ∙ get_or-append_left p.ranges (r ∷ []) k no_range h;
  added = λ j.
      elim j
        as (λ j.
          (x : Value)
          → get_elem? (v ∷ vs) j ≡ some x
          → SameNodes (range_at q.ranges (length p.ranges + j)) (range_of l graph_end x)) [
            | zero ↦ λ x g.
                let same : v ≡ x = cc in
                let at : length p.ranges + 0 ≡ length p.ranges = omega arith in
                let this : range_at q.ranges (length p.ranges) ≡ r =
                  t.kept (length p.ranges) (omega (arith, longer))
                  ∙ ap (λ rs. range_at rs (length p.ranges)) e
                  ∙ get_or-append_last p.ranges r no_range in
                rw (at, this) (rw⁻¹ same s)
            | suc j' ↦ λ x g.
                let at : length p'.ranges + j' ≡ length p.ranges + suc j' = omega (arith, longer) in
                subst (λ y. SameNodes (range_at q.ranges y) (range_of l graph_end x)) at
                  (t.added j' x g)
          ];
}
  where
    longer : length p'.ranges ≡ length p.ranges + 1
    longer = ap length e ∙ length-append p.ranges (r ∷ [])

pub range_loop-Ranged :
    (o : Options) (l : Lives) (graph_end : ℕ) (vs : List Value) (p q : Plan)
    → range_loop o l graph_end vs p ≡ ok q
    → Ranged l graph_end vs p q
unfolding range_loop
range_loop-Ranged o l graph_end [] p q = λ e. record {
  kept = λ k h. ap (λ (x : Plan). range_at x.ranges k) (sym (ap (plan_of p) e));
  added = λ j v g. absurd (cc);
}
range_loop-Ranged o l graph_end (v ∷ vs) p q =
    let r = range_of l graph_end v in
    elim (Result-cases (sized o v r)) [
      | inr (x, e) ↦ rw (e, range_loop) (λ g. absurd (cc))
      | inl (none, e) ↦
          rw (e, range_loop)
            (λ g.
              cons-Ranged l graph_end v vs r p _ q refl (refl, refl, refl)
                (range_loop-Ranged o l graph_end vs _ q g))
      | inl (some r', e) ↦
          rw (e, range_loop)
            (λ g.
              cons-Ranged l graph_end v vs r' p _ q refl (sized-SameNodes o v r r' e)
                (range_loop-Ranged o l graph_end vs _ q g))
    ]

-- The nodes of a range.
pub range_of-nodes :
    (l : Lives) (graph_end k w : ℕ) (v : Value)
    → produced l v.id ≡ true
    → first_at l v.id ≡ w
    → k ≤ last_at l v.id
    → k ≤ graph_end
    → ((range_of l graph_end v).first_node ≡ w) × (k ≤ (range_of l graph_end v).last_node)
unfolding range_of
range_of-nodes l graph_end k w v p f h g = (ground (arith, p, f), ground (arith, h, g))

abbrev nodes_in : Result (List Node) → List Node
nodes_in (ok ns) = ns
nodes_in (err e) = []

pub length-nodes_of :
    (is : List ℕ) (g : Graph) (ns : List Node) → nodes_of is g ≡ ok ns → length ns ≡ length is
unfolding nodes_of
length-nodes_of [] g ns = λ e. ap (λ x. length (nodes_in x)) (sym e)
length-nodes_of (i ∷ is) g ns = elim (Result-cases (node i g)) [
  | inr (x, e) ↦ rw (e, nodes_of) (λ h. absurd (cc))
  | inl (n, e) ↦
      rw (e, nodes_of)
        (elim (Result-cases (nodes_of is g)) [
          | inr (x, f) ↦ rw (f, nodes_of) (λ h. absurd (cc))
          | inl (rest, f) ↦
              rw (f, nodes_of)
                (λ h. ap (λ x. length (nodes_in x)) (sym h) ∙ ap suc (length-nodes_of is g rest f))
        ])
]

-- The live ranges of a graph, for the nodes in their order.
abbrev pub lives : Graph → List Node → Lives
lives g ns = live_loop 0 ns (no_lives (length g.values))

pub plan-cases :
    (sort : Sort) (o : Options) (g : Graph) (p : Plan) (order : List ℕ) (ns : List Node)
    → topological_sort g ≡ ok order
    → nodes_of order g ≡ ok ns
    → plan sort o g ≡ ok p
    → (q : Plan) × (range_loop o (lives g ns) (length order - 1) g.values (no_plan o.alignment)
        ≡ ok q)
      × (assign_buffers sort o q ≡ p)
unfolding plan
plan-cases sort o g p order ns e2 e3 = elim (Bool-cases (o.alignment == 0)) [
  | inl z ↦ rw z (λ h. absurd (cc))
  | inr z ↦ rw z (elim (Status-cases (validate g)) [
    | inr (x, e) ↦ rw (e, plan) (λ h. absurd (cc))
    | inl e ↦
        rw (e, plan, e2, e3)
          (elim (Result-cases
            (range_loop o (lives g ns) (length order - 1) g.values (no_plan o.alignment))) [
              | inr (x, e4) ↦ rw (e4, plan) (λ h. absurd (cc))
              | inl (q, e4) ↦ rw (e4, plan) (λ h. (q, refl, ap (plan_of p) h))
            ])
  ])
]
