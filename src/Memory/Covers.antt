-- ===== src/Memory/Covers.antt =====
-- The live ranges of `MemoryPlanner::plan` in src/runtime/memory_planner.cpp cover every use of a
-- value: what the loop over the order leaves.
use llmengine.Base.{
  Bool, List, [], ap, arith, count, false, get_elem?, get_or, refl, some, subst, suc, sym, true,
  zero, ℕ, ◌+◌, ◌<◌, ◌∙◌, ◌∷◌, ◌≡◌, ◌≤◌,
}
use llmengine.Graph.Data.{Node}
use llmengine.Memory.Live.{Lives, read_at, written_at, each, live_loop}
use llmengine.Memory.Uses.{
  Sized, first_at, last_at, produced, Read, reads-Read, Written, writes-Written,
}

-- Node `j` of the list is the only one that writes `v`.
abbrev pub OnlyWriter : List Node → ℕ → ℕ → Type 0
OnlyWriter ns j v =
    (j' : ℕ) (nd : Node) → get_elem? ns j' ≡ some nd → 0 < count v nd.outputs → j' ≡ j

-- What the loop leaves for the nodes of the list, the first of which has the index `i`.
pub record Covered (n i : ℕ) (ns : List Node) (l r : Lives) : Type 0 where
  pub sized : Sized n r
  pub grows : (v : ℕ) → last_at l v ≤ last_at r v
  pub reads :
      (j v : ℕ) (nd : Node)
      → get_elem? ns j ≡ some nd
      → v < n
      → 0 < count v nd.inputs
      → i + j ≤ last_at r v
  pub writes :
      (j v : ℕ) (nd : Node)
      → get_elem? ns j ≡ some nd
      → v < n
      → 0 < count v nd.outputs
      → i + j ≤ last_at r v
  pub unwritten :
      (v : ℕ)
      → ((j : ℕ) (nd : Node) → get_elem? ns j ≡ some nd → count v nd.outputs ≡ 0)
      → (first_at r v ≡ first_at l v) × (produced r v ≡ produced l v)
  pub start :
      (j v : ℕ) (nd : Node)
      → get_elem? ns j ≡ some nd
      → v < n
      → 0 < count v nd.outputs
      → OnlyWriter ns j v
      → (first_at r v ≡ i + j) × (produced r v ≡ true)

module _ (n i : ℕ) (x : Node) (ns : List Node) (l : Lives) (s : Sized n l) where
  -- What the node leaves.
  abbrev after : Lives
  after = each (written_at i) x.outputs (each (read_at i) x.inputs l)

  read : Read n i x.inputs l (each (read_at i) x.inputs l)
  read = reads-Read n i x.inputs l s

  wrote : Written n i x.outputs (each (read_at i) x.inputs l) after
  wrote = writes-Written n i x.outputs (each (read_at i) x.inputs l) read.touched.sized

  cons-Covered : (r : Lives) → Covered n (suc i) ns after r → Covered n i (x ∷ ns) l r
  cons-Covered r c = record {
    sized = c.sized;
    grows = λ v. omega (arith, read.touched.grows v, wrote.touched.grows v, c.grows v);
    reads = λ j.
        elim j
          as (λ j.
            (v : ℕ) (nd : Node)
            → get_elem? (x ∷ ns) j ≡ some nd
            → v < n
            → 0 < count v nd.inputs
            → i + j ≤ last_at r v) [
              | zero ↦ λ v nd e h u.
                  let same : x ≡ nd = cc in
                  let at : 0 < count v x.inputs =
                    subst (λ (y : Node). 0 < count v y.inputs) (sym same) u in
                  omega (arith, read.touched.used v h at, wrote.touched.grows v, c.grows v)
              | suc k ↦ λ v nd e h u. omega (arith, c.reads k v nd e h u)
            ];
    writes = λ j.
        elim j
          as (λ j.
            (v : ℕ) (nd : Node)
            → get_elem? (x ∷ ns) j ≡ some nd
            → v < n
            → 0 < count v nd.outputs
            → i + j ≤ last_at r v) [
              | zero ↦ λ v nd e h u.
                  let same : x ≡ nd = cc in
                  let at : 0 < count v x.outputs =
                    subst (λ (y : Node). 0 < count v y.outputs) (sym same) u in
                  omega (arith, wrote.touched.used v h at, c.grows v)
              | suc k ↦ λ v nd e h u. omega (arith, c.writes k v nd e h u)
            ];
    unwritten = λ v none_writes.
        let later = c.unwritten v (λ j nd e. none_writes (suc j) nd e) in
        let here = wrote.others v (none_writes 0 x refl) in
        (
          later.0 ∙ here.0 ∙ ap (λ (xs : List ℕ). get_or xs v 0) read.first,
          later.1 ∙ here.1 ∙ ap (λ (xs : List Bool). get_or xs v false) read.has_producer,
        );
    start = λ j.
        elim j
          as (λ j.
            (v : ℕ) (nd : Node)
            → get_elem? (x ∷ ns) j ≡ some nd
            → v < n
            → 0 < count v nd.outputs
            → OnlyWriter (x ∷ ns) j v
            → (first_at r v ≡ i + j) × (produced r v ≡ true)) [
              | zero ↦ λ v nd e h u only.
                  let same : x ≡ nd = cc in
                  let at : 0 < count v x.outputs =
                    subst (λ (y : Node). 0 < count v y.outputs) (sym same) u in
                  let no_other = λ (j : ℕ) (y : Node) (f : get_elem? ns j ≡ some y).
                    not_later v j y (λ g. absurd (omega (arith, only (suc j) y f g))) in
                  let later = c.unwritten v no_other in
                  let here = wrote.start v h at in
                  (omega (arith, later.0, here.0), later.1 ∙ here.1)
              | suc k ↦ λ v nd e h u only.
                  let later = c.start k v nd e h u (λ j y f g. omega (arith, only (suc j) y f g)) in
                  (omega (arith, later.0), later.1)
            ];
  }
    where
      not_later : (v j : ℕ) (y : Node) → (0 < count v y.outputs → ⊥) → count v y.outputs ≡ 0
      not_later v j y h = omega (arith, h)

-- The loop over the order covers the uses of every value.
pub live_loop-Covered :
    (n i : ℕ) (ns : List Node) (l : Lives) → Sized n l → Covered n i ns l (live_loop i ns l)
unfolding live_loop
live_loop-Covered n i [] l s = record {
  sized = s;
  grows = λ v. omega arith;
  reads = λ j v nd e. absurd (cc);
  writes = λ j v nd e. absurd (cc);
  unwritten = λ v h. (refl, refl);
  start = λ j v nd e. absurd (cc);
}
live_loop-Covered n i (x ∷ xs) l s =
    cons-Covered n i x xs l s (live_loop (suc i) xs (after n i x xs l s))
      (live_loop-Covered n (suc i) xs (after n i x xs l s) (wrote n i x xs l s).touched.sized)
