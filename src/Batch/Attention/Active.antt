-- ===== src/Batch/Attention/Active.antt =====
-- The list of active sequences of src/runtime/cache/paged_attention_scheduler.cpp.
use llmengine.Base.{
  List, [], arith, contains, count, count-append, false, if◌then◌else◌, length, length-append, ltb,
  negsuc, pos, pos_part, true, ℕ, ℤ, ◌++◌, ◌-◌, ◌<◌, ◌==◌, ◌∷◌, ◌≡◌, ◌≤◌,
}
use llmengine.Core.Status.{make_ok, is_ok}
use llmengine.Cache.Paged.{PagedKvCache}
use llmengine.Cache.Paged.Blocks.{sequence_length}
use llmengine.Batch.Attention.{
  Attention, is_active, erase_first, remove_sequence, clear, add_sequence,
}

-- The active list names no sequence twice and is within the limit.
pub record IsBatch (s : Attention) : Type 0 where
  pub once : (i : ℕ) → count i s.active_sequence_ids ≤ 1
  pub bounded : length s.active_sequence_ids ≤ pos_part s.max_batch_size

contains-count : (i : ℕ) (xs : List ℕ) → contains i xs ≡ ltb 0 (count i xs)
contains-count i [] = ground arith
contains-count i (x ∷ xs) = ground (arith, contains-count i xs)

count-erase_first :
    (j i : ℕ) (xs : List ℕ) → count j (erase_first i xs) ≡ count j xs - (if j == i then 1 else 0)
unfolding erase_first
count-erase_first j i [] = ground arith
count-erase_first j i (x ∷ xs) = ground (arith, count-erase_first j i xs)

length-erase_first-le : (i : ℕ) (xs : List ℕ) → length (erase_first i xs) ≤ length xs
unfolding erase_first
length-erase_first-le i [] = omega arith
length-erase_first-le i (x ∷ xs) = ground (arith, length-erase_first-le i xs)

remove_sequence-IsBatch : (id : ℤ) (s : Attention) → IsBatch s → IsBatch (remove_sequence id s).1
unfolding remove_sequence
remove_sequence-IsBatch (pos i) s b = record {
  once = λ j. omega (arith, b.once j, count-erase_first j i s.active_sequence_ids);
  bounded = omega (arith, b.bounded, length-erase_first-le i s.active_sequence_ids);
}
remove_sequence-IsBatch (negsuc i) s b = b

-- `remove_sequence` leaves the sequence inactive, and the others as they were.
pub is_active-remove_sequence :
    (i j : ℕ) (s : Attention)
    → IsBatch s
    → is_active (pos j) (remove_sequence (pos i) s).1
      ≡ (if i == j then false else is_active (pos j) s)
unfolding is_active remove_sequence
is_active-remove_sequence i j s b = ground (
  arith,
  b.once j,
  contains-count j s.active_sequence_ids,
  contains-count j (erase_first i s.active_sequence_ids),
  count-erase_first j i s.active_sequence_ids,
)

module _ {F : Type 0} (c : PagedKvCache F) where
  add_sequence-IsBatch : (id : ℤ) (s : Attention) → IsBatch s → IsBatch (add_sequence c id s).1
  unfolding add_sequence is_active
  add_sequence-IsBatch (negsuc i) s b = record {
    once = λ j. ground (arith, b.once j);
    bounded = ground (arith, b.bounded);
  }
  add_sequence-IsBatch (pos i) s b = record {
    once = λ j. ground (
      arith,
      b.once j,
      count-append j s.active_sequence_ids (i ∷ []),
      contains-count i s.active_sequence_ids,
    );
    bounded = ground (arith, b.bounded, length-append s.active_sequence_ids (i ∷ []));
  }

  -- After a successful `add_sequence` the sequence is active and has tokens in the cache.
  pub add_sequence_succeeds :
      (id : ℤ) (s : Attention)
      → (add_sequence c id s).0 ≡ make_ok
      → (is_active id (add_sequence c id s).1 ≡ true) × (0 < sequence_length id c)
  unfolding add_sequence is_active
  add_sequence_succeeds (negsuc i) s h = ground arith
  add_sequence_succeeds (pos i) s h = ground (
    arith,
    contains-count i (s.active_sequence_ids ++ i ∷ []),
    count-append i s.active_sequence_ids (i ∷ []),
  )

  -- A failure of `add_sequence` leaves the list alone.
  pub add_sequence_fails :
      (id : ℤ) (s : Attention) → is_ok (add_sequence c id s).0 ≡ false → (add_sequence c id s).1 ≡ s
  unfolding add_sequence is_active
  add_sequence_fails (negsuc i) s h = ground arith
  add_sequence_fails (pos i) s h = ground arith

-- The calls on a scheduler of batches, each with the cache as it is at the time.
pub data Call (F : Type 0) : Type 0 where
  adds : PagedKvCache F → ℤ → Call F
  removes : ℤ → Call F
  clears : Call F

module _ {F : Type 0} where
  unfoldable pub run : Attention → List (Call F) → Attention
  run s [] = s
  run s (adds c id ∷ xs) = run (add_sequence c id s).1 xs
  run s (removes id ∷ xs) = run (remove_sequence id s).1 xs
  run s (clears ∷ xs) = run (clear s) xs

  -- Whatever the calls, and whatever happens to the cache between them, the active list names no
  -- sequence twice and stays within the limit of the batch.
  pub run-IsBatch : (s : Attention) (xs : List (Call F)) → IsBatch s → IsBatch (run s xs)
  unfolding run clear
  run-IsBatch s [] b = b
  run-IsBatch s (adds c id ∷ xs) b =
      run-IsBatch (add_sequence c id s).1 xs (add_sequence-IsBatch c id s b)
  run-IsBatch s (removes id ∷ xs) b =
      run-IsBatch (remove_sequence id s).1 xs (remove_sequence-IsBatch id s b)
  run-IsBatch s (clears ∷ xs) b =
      run-IsBatch (clear s) xs (record { once = λ i. omega arith; bounded = omega arith })
