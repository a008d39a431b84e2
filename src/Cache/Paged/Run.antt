-- ===== src/Cache/Paged/Run.antt =====
-- Every history of calls on one paged cache keeps the invariant of its allocator.
use llmengine.Base.{
  Bool-cases, List, Option, [], arith, count, false, get_or, get_or-replicate, if◌then◌else◌, inl,
  inr, length-replicate, ltb, nonpositive, pos, refl, replicate, suc, zero, ℕ, ℤ, ◌+◌, ◌||◌, ◌∷◌,
  ◌≡◌,
}
use llmengine.Cache.Paged.{PagedKvCache, push_free_blocks, default, release, init, reset}
use llmengine.Cache.Paged.Blocks.{
  ensure_sequence, free_sequence, sequence_length, reserve_sequence, set_sequence_length,
}
use llmengine.Cache.Paged.Tokens.{write_tokens, append_tokens}
use llmengine.Cache.Paged.Counts.{total}
use llmengine.Cache.Paged.Invariant.{Inv}
use llmengine.Cache.Paged.Reserve.{
  ensure_sequence-Inv, reserve_sequence-Inv, set_sequence_length-Inv,
}
use llmengine.Cache.Paged.Writing.{write_tokens-Inv}
use llmengine.Cache.Paged.Freeing.{free_sequence-Inv}

-- The calls that change a cache.
pub data Call (F : Type 0) : Type 0 where
  inits : ℤ → ℤ → ℤ → ℤ → ℤ → Call F
  resets releases : Call F
  ensures frees : ℤ → Call F
  reserves sets_length : ℤ → ℤ → Call F
  writes : ℤ → ℤ → ℤ → Option (List F) → Option (List F) → ℤ → Call F
  appends : ℤ → ℤ → Option (List F) → Option (List F) → ℤ → Call F

module _ {F : Type 0} (zero_f : F) where
  unfoldable pub step : PagedKvCache F → Call F → PagedKvCache F
  step c (inits layers heads dim size blocks) = (init zero_f layers heads dim size blocks c).1
  step c resets = reset zero_f c
  step c releases = (release c).1
  step c (ensures id) = (ensure_sequence id c).1
  step c (frees id) = (free_sequence id c).1
  step c (reserves id n) = (reserve_sequence id n c).1
  step c (sets_length id n) = (set_sequence_length id n c).1
  step c (writes id layer start k v n) = (write_tokens id layer start k v n c).1
  step c (appends id layer k v n) = (append_tokens id layer k v n c).1

  unfoldable pub run : PagedKvCache F → List (Call F) → PagedKvCache F
  run c [] = c
  run c (x ∷ xs) = run (step c x) xs

-- The free list of a new pool holds every block once.
count-push_free_blocks :
    (a n : ℕ) (free : List ℕ)
    → count a (push_free_blocks n free) ≡ (if ltb a n then 1 else 0) + count a free
unfolding push_free_blocks
count-push_free_blocks a zero free = ground arith
count-push_free_blocks a (suc n) free = ground (arith, count-push_free_blocks a n (n ∷ free))

module _ {F : Type 0} where
  empty-Inv :
      (c : PagedKvCache F)
      → c.sequences ≡ []
      → c.free_blocks ≡ push_free_blocks c.max_blocks []
      → c.block_used ≡ replicate c.max_blocks false
      → Inv c
  empty-Inv c s f u = record {
    owned = λ b. rw (s, f) (omega (arith, count-push_free_blocks b c.max_blocks []));
    used = λ b. rw (s, u) (get_or-replicate c.max_blocks b false);
    marks = rw u (length-replicate c.max_blocks false);
    fits = λ i. rw s (λ range. omega arith);
  }

  pub init-Inv :
      (z : F) (layers heads dim size blocks : ℤ) (c : PagedKvCache F)
      → Inv (init z layers heads dim size blocks c).1
  unfolding init
  init-Inv z layers heads dim size blocks c =
      elim (Bool-cases (
        nonpositive layers
        || nonpositive heads
        || nonpositive dim
        || nonpositive size
        || nonpositive blocks)) [
          | inl e ↦ rw e (empty-Inv _ refl refl refl)
          | inr e ↦ rw e (empty-Inv _ refl refl refl)
        ]

  pub reset-Inv : (z : F) (c : PagedKvCache F) → Inv (reset z c)
  unfolding reset
  reset-Inv z c = empty-Inv _ refl refl refl

  pub release-Inv : (c : PagedKvCache F) → Inv (release c).1
  unfolding release push_free_blocks
  release-Inv c = empty-Inv _ refl refl refl

  step-Inv : (z : F) (c : PagedKvCache F) (x : Call F) → Inv c → Inv (step z c x)
  unfolding step append_tokens
  step-Inv z c (inits layers heads dim size blocks) v = init-Inv z layers heads dim size blocks c
  step-Inv z c resets v = reset-Inv z c
  step-Inv z c releases v = release-Inv c
  step-Inv z c (ensures id) v = ensure_sequence-Inv id c v
  step-Inv z c (frees id) v = free_sequence-Inv id c v
  step-Inv z c (reserves id n) v = reserve_sequence-Inv id n c v
  step-Inv z c (sets_length id n) v = set_sequence_length-Inv id n c v
  step-Inv z c (writes id layer start k w n) v = write_tokens-Inv id layer start k w n c v
  step-Inv z c (appends id layer k w n) v =
      write_tokens-Inv id layer (pos (sequence_length id c)) k w n c v

  -- From any cache that satisfies the invariant, every history of calls, failing ones included,
  -- ends in a cache that does.
  pub run-Inv : (z : F) (c : PagedKvCache F) (xs : List (Call F)) → Inv c → Inv (run z c xs)
  unfolding run
  run-Inv z c [] v = v
  run-Inv z c (x ∷ xs) v = run-Inv z (step z c x) xs (step-Inv z c x v)

  pub default-Inv : Inv (default {F = F})
  unfolding push_free_blocks
  default-Inv = empty-Inv default refl refl refl

  -- After any history on a new cache, the free blocks and the blocks of all tables are the blocks
  -- of the pool, each once: none is lost, and none is in two tables or both free and in a table.
  pub run_partition :
      (z : F) (xs : List (Call F)) (b : ℕ)
      → let c = run z default xs in
        (count b c.free_blocks + total b c.sequences ≡ (if ltb b c.max_blocks then 1 else 0))
        × (get_or c.block_used b false ≡ ltb 0 (total b c.sequences))
  run_partition z xs b = let v = run-Inv z default xs default-Inv in (v.owned b, v.used b)
