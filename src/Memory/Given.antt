-- ===== src/Memory/Given.antt =====
-- The assignment loop of `MemoryPlanner::plan` in src/runtime/memory_planner.cpp as a whole.
use llmengine.Base.{
  Bool, Bool-cases, List, Option, Option-cases, [], arith, false, get_elem?, get_or-set_ne,
  get_or-set_self, inl, inr, length, length-set, none, refl, set, some, subst, suc, true, zero, ℕ,
  ℕ_discrete, ◌<◌, ◌==◌, ◌||◌, ◌∙◌, ◌∷◌, ◌≡◌, ◌≤◌, ◌⊎◌,
}
use llmengine.Memory.{LiveRange}
use llmengine.Memory.Pool.{range_key, Pools, drain, take_fit, assign, assign_all}
use llmengine.Memory.Lists.{buffer_at, Lists-later}
use llmengine.Memory.Reuse.{no_range, range_at, Sound, placed_range}
use llmengine.Memory.Rounds.{Good, Sorted}
use llmengine.Memory.Sharing.{assign-Good}

abbrev pub has_buffer : List LiveRange → ℕ → Bool
has_buffer rs i = elim (range_at rs i).buffer_id [ none ↦ false | some b ↦ true ]

set-gives :
    (rs : List LiveRange) (i b : ℕ) (r : LiveRange) (j : ℕ)
    → i < length rs
    → (length (set rs i (placed_range r b)) ≡ length rs)
      × (has_buffer (set rs i (placed_range r b)) i ≡ true)
      × (has_buffer rs j ≡ true → has_buffer (set rs i (placed_range r b)) j ≡ true)
set-gives rs i b r j h = (
  length-set rs i (placed_range r b),
  rw (has_buffer, this) refl,
  elim (ℕ_discrete i j) [
    | yes q ↦ rw⁻¹ q (λ g. rw (has_buffer, this) refl)
    | no n ↦ rw (has_buffer, get_or-set_ne rs i j (placed_range r b) no_range n) (λ g. g)
  ],
)
  where
    this : range_at (set rs i (placed_range r b)) i ≡ placed_range r b
    this = get_or-set_self rs i (placed_range r b) no_range h

-- One round keeps the number of ranges, gives range `i` a buffer, and takes none away.
assign-gives :
    (i : ℕ) (r : LiveRange) (p : Pools) (j : ℕ)
    → i < length p.ranges
    → (length (assign i r p).ranges ≡ length p.ranges)
      × (has_buffer (assign i r p).ranges i ≡ true)
      × (has_buffer p.ranges j ≡ true → has_buffer (assign i r p).ranges j ≡ true)
unfolding assign
assign-gives i r p j h =
    elim (Option-cases
      (take_fit r.aligned_bytes ((drain p.buffers r.first_node p.live p.free).1 (range_key r)))) [
        | inl t ↦ rw (t, assign) (set-gives p.ranges i (length p.buffers) r j h)
        | inr ((b, others), t) ↦
            rw (t, assign) (set-gives p.ranges i (buffer_at p.buffers b).id r j h)
      ]

-- The index is one of the order.
abbrev pub listed : ℕ → List ℕ → Bool
listed i [] = false
listed i (x ∷ xs) = i == x || listed i xs

-- After the loop.
record Done (first : ℕ → ℕ) (is : List ℕ) (p r : Pools) : Type 0 where
  later : ℕ
  good : Good first later r
  same_length : length r.ranges ≡ length p.ranges
  given :
      (i : ℕ)
      → i < length p.ranges
      → listed i is || has_buffer p.ranges i ≡ true
      → has_buffer r.ranges i ≡ true

pub get_elem?-range :
    (rs : List LiveRange) (i : ℕ)
    → (get_elem? rs i ≡ none) × (length rs ≤ i)
      ⊎ (get_elem? rs i ≡ some (range_at rs i)) × (i < length rs)
get_elem?-range [] i = inl (refl, omega arith)
get_elem?-range (x ∷ xs) zero = inr (refl, omega arith)
get_elem?-range (x ∷ xs) (suc i) = elim (get_elem?-range xs i) [
  | inl h ↦ inl (h.0, omega (arith, h.1))
  | inr h ↦ inr (h.0, omega (arith, h.1))
]

assign_all-Done :
    (first : ℕ → ℕ) (now : ℕ) (is : List ℕ) (p : Pools)
    → Good first now p
    → Sorted first now is
    → Done first is p (assign_all is p)
unfolding assign_all
assign_all-Done first now [] p g s = record {
  later = now;
  good = g;
  same_length = refl;
  given = λ i h t. t;
}
assign_all-Done first now (x ∷ xs) p g s = elim (get_elem?-range p.ranges x) [
  | inl (none_there, beyond) ↦
      let g' : Good first (first x) p = record {
        lists = Lists-later p.buffers now (first x) p.live p.free s.0 g.lists;
        sound = g.sound;
        ordered = g.ordered;
        firsts = g.firsts;
      } in
      let d = assign_all-Done first (first x) xs p g' s.1 in
      rw (none_there, assign_all)
        (record {
          later = d.later;
          good = d.good;
          same_length = d.same_length;
          given = λ i h t. d.given i h (ground (arith, t));
        })
  | inr (there, inside) ↦
      let r = range_at p.ranges x in
      let le : now ≤ r.first_node = omega (arith, s.0, g.firsts x) in
      let g' = assign-Good first now x r p inside refl le g in
      let d = assign_all-Done first r.first_node xs (assign x r p) g' (rw (g.firsts x) s.1) in
      rw (there, assign_all)
        (record {
          later = d.later;
          good = d.good;
          same_length = d.same_length ∙ (assign-gives x r p 0 inside).0;
          given = λ i h t.
              d.given i (omega (arith, h, (assign-gives x r p i inside).0))
                (elim (Bool-cases (i == x)) [
                  | inl e ↦
                      let same : x ≡ i = ground (arith, e) in
                      let now_has =
                        subst (λ y. has_buffer (assign x r p).ranges y ≡ true) same
                          (assign-gives x r p i inside).1 in
                      ground (arith, now_has)
                  | inr e ↦ elim (Bool-cases (listed i xs)) [
                    | inl f ↦ ground (arith, f)
                    | inr f ↦
                        ground (arith, (assign-gives x r p i inside).2 (ground (arith, e, f, t)))
                  ]
                ]);
        })
]

-- The state before the loop.
abbrev pub start : List LiveRange → Pools
start rs = record { ranges = rs; buffers = []; free = λ _. []; live = [] }

start-Good :
    (rs : List LiveRange)
    → ((i : ℕ) → (range_at rs i).buffer_id ≡ none)
    → ((i : ℕ) → (range_at rs i).first_node ≤ (range_at rs i).last_node)
    → Good (λ i. (range_at rs i).first_node) 0 (start rs)
start-Good rs free ordered = record {
  lists = record {
    once = λ k b. omega arith;
    live_ok = tt;
    free_ok = λ k. tt;
    respects = λ j k h. refl;
  };
  sound = record {
    ids = λ b h. absurd (omega (arith, h));
    placed = λ i b e. absurd (none-some (free i) e);
    apart = λ i j b n e f. absurd (none-some (free i) e);
  };
  ordered = ordered;
  firsts = λ i. refl;
}
  where
    none-some : {o : Option ℕ} {b : ℕ} → o ≡ none → o ≡ some b → ⊥
    none-some e f = cc

-- The assignment for ranges that have no buffer yet and end where they start or later, in an order
-- by their first nodes: every range of the order gets a buffer; a range's buffer is large enough for
-- it and of its element type and device; and two ranges that get one buffer do not overlap.
pub assign_all-Sound :
    (rs : List LiveRange) (order : List ℕ)
    → ((i : ℕ) → (range_at rs i).buffer_id ≡ none)
    → ((i : ℕ) → (range_at rs i).first_node ≤ (range_at rs i).last_node)
    → Sorted (λ i. (range_at rs i).first_node) 0 order
    → let r = assign_all order (start rs) in
      Sound r.buffers r.ranges
      × ((i : ℕ) → i < length rs → listed i order ≡ true → has_buffer r.ranges i ≡ true)
assign_all-Sound rs order free ordered sorted =
    let d =
      assign_all-Done (λ i. (range_at rs i).first_node) 0 order (start rs)
        (start-Good rs free ordered) sorted in
    (d.good.sound, λ i h t. d.given i h (ground (arith, t)))
