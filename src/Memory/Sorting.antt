-- ===== src/Memory/Sorting.antt =====
-- What `MemoryPlanner::plan` of src/runtime/memory_planner.cpp relies on of `std::sort`, and what
-- it gives for the order of the ranges.
use llmengine.Base.{
  Bool, Bool-cases, List, [], arith, count, false, inl, inr, suc, true, zero, ℕ, ◌+◌, ◌<◌, ◌==◌,
  ◌∷◌, ◌≡◌,
}
use llmengine.Memory.{LiveRange}
use llmengine.Memory.Reuse.{range_at}
use llmengine.Memory.Rounds.{Sorted}
use llmengine.Memory.Given.{listed}
use llmengine.Memory.Planner.{eligible_indices, range_less, Sort}

-- What `std::sort` asks of a comparison.
pub record StrictWeak (less : ℕ → ℕ → Bool) : Type 0 where
  pub asymmetric : (x y : ℕ) → less x y ≡ true → less y x ≡ false
  pub transitive : (x y z : ℕ) → less x y ≡ true → less y z ≡ true → less x z ≡ true
  pub incomparable : (x y z : ℕ) → less x y ≡ false → less y z ≡ false → less x z ≡ false

-- No entry of the list is less than the one before it; `x` comes before the list.
abbrev pub Chain : (ℕ → ℕ → Bool) → ℕ → List ℕ → Type 0
Chain less x [] = Unit {0}
Chain less x (y ∷ ys) = (less y x ≡ false) × Chain less y ys

abbrev pub IsSorted : (ℕ → ℕ → Bool) → List ℕ → Type 0
IsSorted less [] = Unit {0}
IsSorted less (x ∷ xs) = Chain less x xs

-- `std::sort` sorts, by a comparison that it allows, and keeps the entries.
pub record Sorts (sort : Sort) : Type 0 where
  pub sorted : (less : ℕ → ℕ → Bool) (xs : List ℕ) → StrictWeak less → IsSorted less (sort less xs)
  pub same :
      (less : ℕ → ℕ → Bool) (xs : List ℕ)
      → StrictWeak less
      → (i : ℕ) → count i (sort less xs) ≡ count i xs

pub range_less-StrictWeak : (rs : List LiveRange) → StrictWeak (range_less rs)
unfolding range_less
range_less-StrictWeak rs = record {
  asymmetric = λ x y h. ground (arith, h);
  transitive = λ x y z h k. ground (arith, h, k);
  incomparable = λ x y z h k. ground (arith, h, k);
}

-- The order goes through the ranges by their first nodes.
Chain-Sorted :
    (rs : List LiveRange) (x : ℕ) (xs : List ℕ)
    → Chain (range_less rs) x xs
    → Sorted (λ i. (range_at rs i).first_node) (range_at rs x).first_node xs
unfolding range_less
Chain-Sorted rs x [] c = tt
Chain-Sorted rs x (y ∷ ys) c = (ground (arith, c.0), Chain-Sorted rs y ys c.1)

pub IsSorted-Sorted :
    (rs : List LiveRange) (xs : List ℕ)
    → IsSorted (range_less rs) xs
    → Sorted (λ i. (range_at rs i).first_node) 0 xs
IsSorted-Sorted rs [] c = tt
IsSorted-Sorted rs (x ∷ xs) c = (omega arith, Chain-Sorted rs x xs c)

-- The eligible indices.
pub count-eligible :
    (i k : ℕ) (rs : List LiveRange)
    → (range_at rs i).eligible ≡ true
    → 0 < count (k + i) (eligible_indices k rs)
unfolding eligible_indices
count-eligible i k [] h = absurd (cc)
count-eligible zero k (r ∷ rs) h = let at : k + 0 ≡ k = omega arith in rw (at, h) (ground arith)
count-eligible (suc i) k (r ∷ rs) h =
    let at : k + suc i ≡ suc k + i = omega arith in
    rw at (ground (arith, count-eligible i (suc k) rs h))

pub count-listed : (i : ℕ) (xs : List ℕ) → 0 < count i xs → listed i xs ≡ true
count-listed i [] h = absurd (omega (arith, h))
count-listed i (x ∷ xs) h = elim (Bool-cases (i == x)) [
  | inl e ↦ ground (arith, e)
  | inr e ↦ ground (arith, e, count-listed i xs (ground (arith, h, e)))
]
