-- ===== src/Memory/Planned.antt =====
-- The plan that `MemoryPlanner::plan` of src/runtime/memory_planner.cpp returns.
use llmengine.Base.{
  Bool-cases, List, Option-cases, [], ap, arith, count, dec_lt, get_or-set_ne, get_or-set_self,
  get_or_beyond, inl, inr, length, length-set, refl, set, some, subst, suc, sym, true, zero, ℕ,
  ℕ_discrete, ◌+◌, ◌-◌, ◌<◌, ◌==◌, ◌∙◌, ◌∷◌, ◌≡◌, ◌≤◌,
}
use llmengine.Core.Status.{ok, Status-cases, Result-cases}
use llmengine.Graph.Data.{Graph, validate}
use llmengine.Graph.Sort.{topological_sort}
use llmengine.Memory.{size_mod, Options, LiveRange, Buffer, Plan}
use llmengine.Memory.Live.{no_lives, live_loop, range_loop}
use llmengine.Memory.Pool.{same_key, range_key, Pools, drain, take_fit, assign, assign_all}
use llmengine.Memory.Lists.{buffer_at}
use llmengine.Memory.Reuse.{no_range, range_at, Sound, placed_range}
use llmengine.Memory.Given.{has_buffer, get_elem?-range, start, assign_all-Sound}
use llmengine.Memory.Layout.{place_buffers, place_buffers-Same}
use llmengine.Memory.Ranges.{Fresh, plan_of, range_loop-Fresh, Rounded, range_loop-Rounded}
use llmengine.Memory.Planner.{
  eligible_indices, range_less, nodes_of, no_plan, Sort, assign_buffers, plan,
}
use llmengine.Memory.Sorting.{
  Sorts, range_less-StrictWeak, IsSorted-Sorted, count-eligible, count-listed,
}

-- The layout of the arenas keeps what the ranges need of their buffers.
layout-Sound :
    (al : ℕ) (bs : List Buffer) (rs : List LiveRange)
    → Sound bs rs
    → Sound (place_buffers al bs []) rs
layout-Sound al bs rs s = record {
  ids = λ b h. (let t = place_buffers-Same al bs [] b in t.1.0 ∙ s.ids b (omega (arith, h, t.0)));
  placed = λ i b e.
      let t = place_buffers-Same al bs [] b in
      let p = s.placed i b e in
      record {
        known = omega (arith, t.0, p.known);
        used = omega (arith, t.1.3, p.used);
        room = omega (arith, t.1.1, p.room);
        pool = subst (λ k. same_key k (range_key (range_at rs i)) ≡ true) (sym t.1.2) p.pool;
      };
  apart = s.apart;
}

-- What a range keeps when it gets a buffer.
abbrev pub Kept : {X : Type 0} → (LiveRange → X) → Type 0
Kept f = (r : LiveRange) (b : ℕ) → f (placed_range r b) ≡ f r

set-Kept :
    {X : Type 0} (f : LiveRange → X) (rs : List LiveRange) (i b j : ℕ)
    → Kept f
    → f (range_at (set rs i (placed_range (range_at rs i) b)) j) ≡ f (range_at rs j)
set-Kept f rs i b j k = elim (ℕ_discrete i j) [
  | no n ↦ ap f (get_or-set_ne rs i j (placed_range (range_at rs i) b) no_range n)
  | yes q ↦ rw⁻¹ q (elim (dec_lt i (length rs)) [
    | yes h ↦
        ap f (get_or-set_self rs i (placed_range (range_at rs i) b) no_range h)
        ∙ k (range_at rs i) b
    | no h ↦ ap f (
        get_or_beyond (set rs i (placed_range (range_at rs i) b)) i no_range
          (omega (arith, h, length-set rs i (placed_range (range_at rs i) b)))
        ∙ sym (get_or_beyond rs i no_range (omega (arith, h))))
  ])
]

assign-Kept :
    {X : Type 0} (f : LiveRange → X) (i : ℕ) (p : Pools) (j : ℕ)
    → Kept f
    → f (range_at (assign i (range_at p.ranges i) p).ranges j) ≡ f (range_at p.ranges j)
unfolding assign
assign-Kept f i p j k =
    let r = range_at p.ranges i in
    elim (Option-cases
      (take_fit r.aligned_bytes ((drain p.buffers r.first_node p.live p.free).1 (range_key r)))) [
        | inl t ↦ rw (t, assign) (set-Kept f p.ranges i (length p.buffers) j k)
        | inr ((b, others), t) ↦
            rw (t, assign) (set-Kept f p.ranges i (buffer_at p.buffers b).id j k)
      ]

pub assign_all-Kept :
    {X : Type 0} (f : LiveRange → X) (is : List ℕ) (p : Pools) (j : ℕ)
    → Kept f
    → f (range_at (assign_all is p).ranges j) ≡ f (range_at p.ranges j)
unfolding assign_all
assign_all-Kept f [] p j k = refl
assign_all-Kept f (i ∷ is) p j k = elim (get_elem?-range p.ranges i) [
  | inl (e, h) ↦ rw (e, assign_all) (assign_all-Kept f is p j k)
  | inr (e, h) ↦
      rw (e, assign_all)
        (assign_all-Kept f is (assign i (range_at p.ranges i) p) j k ∙ assign-Kept f i p j k)
]

-- Every range that is eligible has a buffer.
abbrev pub AllPlaced : List LiveRange → Type 0
AllPlaced rs = (i : ℕ) → (range_at rs i).eligible ≡ true → has_buffer rs i ≡ true

-- The buffer of a range holds the bytes of its value, unless rounding them up wraps around.
abbrev pub HoldsAll : ℕ → List Buffer → List LiveRange → Type 0
HoldsAll al bs rs =
    (i b : ℕ)
    → (range_at rs i).buffer_id ≡ some b
    → (range_at rs i).bytes + al ≤ size_mod
    → (range_at rs i).bytes ≤ (buffer_at bs b).bytes

-- The rounded sizes stay, so that the room of a buffer is room for the bytes.
assign_buffers-HoldsAll :
    (sort : Sort) (o : Options) (p : Plan)
    → ((i : ℕ) → Rounded o.alignment (range_at p.ranges i))
    → Sound (assign_buffers sort o p).buffers (assign_buffers sort o p).ranges
    → HoldsAll o.alignment (assign_buffers sort o p).buffers (assign_buffers sort o p).ranges
unfolding assign_buffers
assign_buffers-HoldsAll sort o p rounded s i b e small =
    let order = sort (range_less p.ranges) (eligible_indices 0 p.ranges) in
    let same = assign_all-Kept (λ r. r.bytes) order (start p.ranges) i (λ r b. refl) in
    let same' = assign_all-Kept (λ r. r.aligned_bytes) order (start p.ranges) i (λ r b. refl) in
    omega (arith, same, same', (s.placed i b e).room, rounded i (omega (arith, same, small)))

assign_buffers-Sound :
    (sort : Sort) (o : Options) (p : Plan)
    → Sorts sort
    → ((i : ℕ) → Fresh (range_at p.ranges i))
    → Sound (assign_buffers sort o p).buffers (assign_buffers sort o p).ranges
      × AllPlaced (assign_buffers sort o p).ranges
unfolding assign_buffers
assign_buffers-Sound sort o p sorts fresh =
    let less = range_less p.ranges in
    let weak = range_less-StrictWeak p.ranges in
    let order = sort less (eligible_indices 0 p.ranges) in
    let all =
      assign_all-Sound p.ranges order (λ i. (fresh i).0) (λ i. (fresh i).1)
        (IsSorted-Sorted p.ranges order (sorts.sorted less (eligible_indices 0 p.ranges) weak)) in
    let r = assign_all order (start p.ranges) in
    (
      layout-Sound o.alignment r.buffers r.ranges all.0,
      λ i h.
          let was : (range_at p.ranges i).eligible ≡ true =
            sym (assign_all-Kept (λ r. r.eligible) order (start p.ranges) i (λ r b. refl)) ∙ h in
          let at : 0 + i ≡ i = omega arith in
          let found : 0 < count i (eligible_indices 0 p.ranges) =
            subst (λ x. 0 < count x (eligible_indices 0 p.ranges)) at
              (count-eligible i 0 p.ranges was) in
          let kept = sorts.same less (eligible_indices 0 p.ranges) weak i in
          all.1 i (in_range p.ranges i was) (count-listed i order (omega (arith, found, kept))),
    )
  where
    in_range : (rs : List LiveRange) (i : ℕ) → (range_at rs i).eligible ≡ true → i < length rs
    in_range [] i h = absurd (cc)
    in_range (x ∷ xs) zero h = omega arith
    in_range (x ∷ xs) (suc i) h = omega (arith, in_range xs i h)

pub plan-Sound :
    (sort : Sort) (o : Options) (g : Graph) (p : Plan)
    → Sorts sort
    → plan sort o g ≡ ok p
    → Sound p.buffers p.ranges × AllPlaced p.ranges × HoldsAll o.alignment p.buffers p.ranges
unfolding plan
plan-Sound sort o g p sorts = elim (Bool-cases (o.alignment == 0)) [
  | inl z ↦ rw z (λ h. absurd (cc))
  | inr z ↦ rw z (elim (Status-cases (validate g)) [
    | inr (x, e) ↦ rw (e, plan) (λ h. absurd (cc))
    | inl e ↦
        rw (e, plan)
          (elim (Result-cases (topological_sort g)) [
            | inr (x, e2) ↦ rw (e2, plan) (λ h. absurd (cc))
            | inl (order, e2) ↦
                rw (e2, plan)
                  (elim (Result-cases (nodes_of order g)) [
                    | inr (x, e3) ↦ rw (e3, plan) (λ h. absurd (cc))
                    | inl (ns, e3) ↦
                        rw (e3, plan)
                          (elim (Result-cases (
                            range_loop o (live_loop 0 ns (no_lives (length g.values)))
                              (length order - 1) g.values (no_plan o.alignment))) [
                                | inr (x, e4) ↦ rw (e4, plan) (λ h. absurd (cc))
                                | inl (q, e4) ↦
                                    rw (e4, plan)
                                      (λ h.
                                        let sound = assign_buffers-Sound sort o q sorts (
                                          range_loop-Fresh o
                                            (live_loop 0 ns (no_lives (length g.values)))
                                            (length order - 1) g.values (no_plan o.alignment) q
                                            (λ i. (refl, omega arith)) e4) in
                                        let holds =
                                          assign_buffers-HoldsAll sort o q
                                            (range_loop-Rounded o
                                              (live_loop 0 ns (no_lives (length g.values)))
                                              (length order - 1) g.values (no_plan o.alignment) q
                                              (λ i h. omega arith) e4)
                                            sound.0 in
                                        subst
                                          (λ x.
                                            Sound x.buffers x.ranges
                                            × AllPlaced x.ranges
                                            × HoldsAll o.alignment x.buffers x.ranges)
                                          (ap (plan_of p) h) (sound.0, sound.1, holds))
                              ])
                  ])
          ])
  ])
]
