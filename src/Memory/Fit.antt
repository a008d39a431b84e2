-- ===== src/Memory/Fit.antt =====
-- The best fit of a free buffer in src/runtime/memory_planner.cpp.
use llmengine.Base.{
  Bool-cases, List, Option, [], ap, arith, inl, inr, leb, none, refl, some, ℕ, ◌++◌, ◌<◌, ◌∷◌, ◌≡◌,
  ◌≤◌,
}
use llmengine.Memory.Pool.{Entry, take_fit}

-- Every entry has fewer bytes than `need`.
abbrev pub Short : ℕ → List Entry → Type 0
Short need [] = Unit {0}
Short need (e ∷ es) = (e.rank < need) × Short need es

-- What a search for `need` bytes in the free list `es` gives: nothing when every entry is too short;
-- else the first entry that is large enough, and the other entries in order.
abbrev pub BestFit : ℕ → List Entry → Option (ℕ × List Entry) → Type 0
BestFit need es none = Short need es
BestFit need es (some (b, others)) =
    (pre : List Entry) × (post : List Entry) × (bytes : ℕ) × (es
      ≡ pre ++ record { rank = bytes; buffer = b } ∷ post)
    × (others ≡ pre ++ post)
    × (need ≤ bytes)
    × Short need pre

-- A buffer is taken exactly when one is large enough; it is the first such entry of the free list,
-- and the others stay, in order.
pub take_fit-BestFit : (need : ℕ) (es : List Entry) → BestFit need es (take_fit need es)
unfolding take_fit
take_fit-BestFit need [] = tt
take_fit-BestFit need (e ∷ es) = elim (Bool-cases (leb need e.rank)) [
  | inl t ↦ rw t ([], es, e.rank, refl, refl, ground arith, tt)
  | inr f ↦ rw f (go (take_fit need es) (ground arith) (take_fit-BestFit need es))
]
  where
    go :
        (r : Option (ℕ × List Entry))
        → e.rank < need
        → BestFit need es r
        → BestFit need (e ∷ es) (elim r [ none ↦ none | some (b, others) ↦ some (b, e ∷ others) ])
    go none lt s = (lt, s)
    go (some (b, others)) lt (pre, post, bytes, split, rest, enough, short) =
        (e ∷ pre, post, bytes, ap (λ l. e ∷ l) split, ap (λ l. e ∷ l) rest, enough, (lt, short))
