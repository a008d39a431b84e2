-- ===== src/Cache/Paged/Counts.antt =====
-- How often a block stands in the block tables of all sequences, and how the operations on
-- `sequences_` change that.
use llmengine.Base.{
  List, [], ap, arith, count, get_or, length, refl, resize, set, suc, zero, ℕ, ◌+◌, ◌<◌, ◌∷◌, ◌≡◌,
  ◌≢◌, ◌≤◌,
}
use llmengine.Cache.Paged.{Sequence, no_sequence}

abbrev pub total : ℕ → List Sequence → ℕ
total b [] = 0
total b (s ∷ ss) = count b s.blocks + total b ss

pub total-set :
    (b : ℕ) (ss : List Sequence) (i : ℕ) (s : Sequence)
    → i < length ss
    → total b (set ss i s) + count b (get_or ss i no_sequence).blocks
      ≡ total b ss + count b s.blocks
total-set b [] i s h = absurd (omega arith)
total-set b (x ∷ ss) zero s h = omega arith
total-set b (x ∷ ss) (suc i) s h = omega (arith, total-set b ss i s (omega arith))

pub count-get_or-le :
    (b : ℕ) (ss : List Sequence) (i : ℕ) → count b (get_or ss i no_sequence).blocks ≤ total b ss
count-get_or-le b [] i = omega arith
count-get_or-le b (x ∷ ss) zero = omega arith
count-get_or-le b (x ∷ ss) (suc i) = omega (arith, count-get_or-le b ss i)

-- Two sequences together hold a block no more often than all do.
pub count_two-le :
    (b : ℕ) (ss : List Sequence) (i j : ℕ)
    → i ≢ j
    → count b (get_or ss i no_sequence).blocks + count b (get_or ss j no_sequence).blocks
      ≤ total b ss
count_two-le b [] i j h = omega arith
count_two-le b (x ∷ ss) zero zero h = absurd (h refl)
count_two-le b (x ∷ ss) zero (suc j) h = omega (arith, count-get_or-le b ss j)
count_two-le b (x ∷ ss) (suc i) zero h = omega (arith, count-get_or-le b ss i)
count_two-le b (x ∷ ss) (suc i) (suc j) h = omega (arith, count_two-le b ss i j (λ e. h (ap suc e)))

pub total-resize :
    (b n : ℕ) (ss : List Sequence) → length ss ≤ n → total b (resize n no_sequence ss) ≡ total b ss
total-resize b zero [] h = refl
total-resize b zero (x ∷ ss) h = absurd (omega arith)
total-resize b (suc n) [] h = omega (arith, total-resize b n [] (omega arith))
total-resize b (suc n) (x ∷ ss) h = omega (arith, total-resize b n ss (omega arith))

-- A block that stands at an index of a list is counted there.
pub count-get_elem : (xs : List ℕ) (i : ℕ) → i < length xs → 1 ≤ count (get_or xs i 0) xs
count-get_elem [] i h = absurd (omega arith)
count-get_elem (x ∷ xs) zero h = ground arith
count-get_elem (x ∷ xs) (suc i) h = omega (arith, count-get_elem xs i (omega arith))

-- A block that stands at two indices of a list is counted twice.
pub count_twice :
    (xs : List ℕ) (i j b : ℕ)
    → i < length xs
    → j < length xs
    → i ≢ j
    → get_or xs i 0 ≡ b
    → get_or xs j 0 ≡ b
    → 2 ≤ count b xs
count_twice [] i j b hi hj n e f = absurd (omega arith)
count_twice (x ∷ xs) zero zero b hi hj n e f = absurd (n refl)
count_twice (x ∷ xs) zero (suc j) b hi hj n e f = ground (arith, count-get_elem xs j)
count_twice (x ∷ xs) (suc i) zero b hi hj n e f = ground (arith, count-get_elem xs i)
count_twice (x ∷ xs) (suc i) (suc j) b hi hj n e f =
    omega
      (arith, count_twice xs i j b (omega arith) (omega arith) (λ (q : i ≡ j). n (ap suc q)) e f)
