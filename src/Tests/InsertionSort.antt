-- ===== src/Tests/InsertionSort.antt =====
-- Insertion sort, which satisfies what the memory planner relies on of `std::sort`.
use llmengine.Base.{
  Bool, Bool-cases, List, [], arith, count, false, if◌then◌else◌, inl, inr, refl, ℕ, ◌∷◌, ◌≡◌,
}
use llmengine.Memory.Planner.{Sort}
use llmengine.Memory.Sorting.{StrictWeak, Chain, IsSorted, Sorts}

unfoldable pub insert : (ℕ → ℕ → Bool) → ℕ → List ℕ → List ℕ
insert less x [] = x ∷ []
insert less x (y ∷ ys) = let rest = insert less x ys in if less y x then y ∷ rest else x ∷ y ∷ ys

unfoldable pub insertion_sort : Sort
unfolding insert
insertion_sort less [] = []
insertion_sort less (x ∷ xs) = insert less x (insertion_sort less xs)

insert-Chain :
    (less : ℕ → ℕ → Bool) (z x : ℕ) (ys : List ℕ)
    → StrictWeak less
    → less x z ≡ false
    → Chain less z ys
    → Chain less z (insert less x ys)
unfolding insert
insert-Chain less z x [] w h c = (h, tt)
insert-Chain less z x (y ∷ ys) w h c = elim (Bool-cases (less y x)) [
  | inl e ↦ rw e (c.0, insert-Chain less y x ys w (w.asymmetric y x e) c.1)
  | inr e ↦ rw e (h, (e, c.1))
]

insert-IsSorted :
    (less : ℕ → ℕ → Bool) (x : ℕ) (ys : List ℕ)
    → StrictWeak less
    → IsSorted less ys
    → IsSorted less (insert less x ys)
unfolding insert
insert-IsSorted less x [] w c = tt
insert-IsSorted less x (y ∷ ys) w c = elim (Bool-cases (less y x)) [
  | inl e ↦ rw e (insert-Chain less y x ys w (w.asymmetric y x e) c)
  | inr e ↦ rw e (e, c)
]

count-insert :
    (less : ℕ → ℕ → Bool) (x : ℕ) (ys : List ℕ) (i : ℕ)
    → count i (insert less x ys) ≡ count i (x ∷ ys)
unfolding insert
count-insert less x [] i = refl
count-insert less x (y ∷ ys) i = elim (Bool-cases (less y x)) [
  | inl e ↦ rw e (omega (arith, count-insert less x ys i))
  | inr e ↦ rw e refl
]

pub insertion_sort-Sorts : Sorts insertion_sort
unfolding insertion_sort
insertion_sort-Sorts = record { sorted = sorted; same = same }
  where
    sorted :
        (less : ℕ → ℕ → Bool) (xs : List ℕ)
        → StrictWeak less
        → IsSorted less (insertion_sort less xs)
    sorted less [] w = tt
    sorted less (x ∷ xs) w = insert-IsSorted less x (insertion_sort less xs) w (sorted less xs w)

    same :
        (less : ℕ → ℕ → Bool) (xs : List ℕ)
        → StrictWeak less
        → (i : ℕ) → count i (insertion_sort less xs) ≡ count i xs
    same less [] w i = refl
    same less (x ∷ xs) w i =
        omega (arith, count-insert less x (insertion_sort less xs) i, same less xs w i)
