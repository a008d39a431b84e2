-- ===== src/Tests/Batches.antt =====
-- A continuous batch of two sequences over a small cache, and the theorems on it.
use llmengine.Base.{
  List, Returns, [], arith, contains, false, filter_by, get_elem?, get_or, length, map, pos, refl,
  replicate, some, subst, true, ℕ, ◌*◌, ◌+◌, ◌<◌, ◌∷◌, ◌≡◌,
}
use llmengine.Core.Status.{ok}
use llmengine.Cache.Paged.{PagedKvCache, ceil_div_int, as_size, push_free_blocks, default, init}
use llmengine.Cache.Paged.Blocks.{
  ensure_sequence, has_sequence, sequence_length, take_block, take_blocks, reserve_blocks,
  reserve_sequence, set_sequence_length,
}
use llmengine.Cache.Paged.Invariant.{Inv}
use llmengine.Batch.Attention.Active.{IsBatch, adds, removes, run, run-IsBatch}
use llmengine.Cache.Paged.Run.{inits, reserves, sets_length, step, run-Inv, default-Inv}
use llmengine.Cache.Paged.Run
use llmengine.Batch.Continuous.{SeqPhase, Scheduler, queued, admit_waiting}
use llmengine.Batch.Continuous.Progress.{to_output, collectable, collect_loop, evict_finished}
use llmengine.Batch.Continuous.Fifo.{Admitted, admit_waiting-Admitted}
use llmengine.Batch.Continuous.Evict.{
  unfinished, free_finished, evict_finished_lem, evict_finished-frees, collect_loop_lem,
}
use llmengine.Batch.Continuous.Tracking
use llmengine.Batch.Continuous.Tracking.{generates, Tracked, step-Tracked}
use llmengine.Batch.Attention.{Batch, Attention, build_batch}
use llmengine.Batch.Attention
use llmengine.Cache.Paged.{as_size, ceil_div_int}
use llmengine.Batch.Attention.Rows.{AllCovered, IsWidest, entry}
use llmengine.Batch.Attention.Table.{build_batch_total}

abbrev calls : List (Run.Call ℕ)
calls =
    Run.Call.inits (pos 1) (pos 1) (pos 2) (pos 2) (pos 4)
    ∷ Run.Call.reserves (pos 0) (pos 3)
    ∷ Run.Call.sets_length (pos 0) (pos 3)
    ∷ []

abbrev cache : PagedKvCache ℕ
cache = record {
  layers = record { k = replicate 16 0; v = replicate 16 0 } ∷ [];
  free_blocks = 2 ∷ 3 ∷ [];
  block_used = true ∷ true ∷ false ∷ false ∷ [];
  sequences = record { length = 3; blocks = 0 ∷ 1 ∷ [] } ∷ [];
  num_kv_heads = 1;
  head_dim = 2;
  block_size = 2;
  max_blocks = 4;
}

run-cache : Run.run 0 default calls ≡ cache
unfolding Run.run Run.step init reserve_sequence set_sequence_length ensure_sequence reserve_blocks
    take_blocks take_block push_free_blocks as_size ceil_div_int
run-cache = refl

cache-Inv : Inv cache
cache-Inv = subst (λ c. Inv c) run-cache (run-Inv 0 default calls default-Inv)

-- One sequence has finished, the next one waits.
abbrev half_done : Scheduler ℕ
half_done = record {
  cache = cache;
  max_batch_size = pos 1;
  states =
      record (queued 0
        (record { sequence_id = pos 0; prompt_tokens = pos 7 ∷ []; max_tokens = pos 1 })) {
          phase = SeqPhase.finished;
        }
      ∷ queued 1 (record { sequence_id = pos 1; prompt_tokens = pos 8 ∷ []; max_tokens = pos 2 })
      ∷ [];
  waiting_queue = 1 ∷ [];
  active_ids = 0 ∷ [];
  next_sequence_id = 2;
}

admit_waiting-Admitted_example :
    Returns (λ r. Admitted half_done (1 ∷ []) r.1) (admit_waiting half_done)
admit_waiting-Admitted_example = admit_waiting-Admitted half_done (omega arith, tt) cache-Inv

half_done-Tracked : Tracked half_done
half_done-Tracked = record {
  waiting = (omega arith, tt);
  active = (omega arith, tt);
  inv = cache-Inv;
}

step-Tracked_example : Returns Tracked (Tracking.step half_done (Tracking.Call.generates 1 (pos 5)))
step-Tracked_example =
    step-Tracked half_done (Tracking.Call.generates 1 (pos 5)) (omega arith) half_done-Tracked

evict_finished_lem_example :
    evict_finished half_done
    ≡ some (record half_done {
      active_ids = unfinished half_done.states half_done.active_ids;
      cache = free_finished half_done.states half_done.active_ids half_done.cache;
    })
evict_finished_lem_example = evict_finished_lem half_done (omega arith, tt)

evict_finished-frees_example :
    (s' : Scheduler ℕ) × (evict_finished half_done ≡ some s')
    × (contains 0 s'.active_ids ≡ false)
    × (has_sequence (pos 0) s'.cache ≡ false)
evict_finished-frees_example =
    evict_finished-frees half_done 0 cache-Inv (omega arith, tt) refl refl

collect_loop_lem_example :
    ((collect_loop half_done.states).0 ≡ map to_output (filter_by collectable half_done.states))
    × ((collect_loop (collect_loop half_done.states).1).0 ≡ [])
    × (length (collect_loop half_done.states).1 ≡ length half_done.states)
collect_loop_lem_example = collect_loop_lem half_done.states

abbrev one_active : Attention
one_active = record { max_batch_size = pos 2; active_sequence_ids = 0 ∷ [] }

one_active-IsBatch : IsBatch one_active
one_active-IsBatch = record { once = λ i. ground arith; bounded = omega arith }

build_batch_total_example :
    (b : Batch) × (Attention.build_batch cache one_active ≡ ok b)
    × (b.sequence_ids ≡ 0 ∷ [])
    × (b.sequence_lengths ≡ map (λ i. sequence_length (pos i) cache) (0 ∷ []))
    × (0 < b.max_blocks_per_sequence)
    × AllCovered cache b.max_blocks_per_sequence (0 ∷ [])
    × IsWidest cache b.max_blocks_per_sequence (0 ∷ [])
    × ((k i j : ℕ)
        → get_elem? (0 ∷ []) k ≡ some i
        → j < b.max_blocks_per_sequence
        → get_or b.block_tables (k * b.max_blocks_per_sequence + j) (pos 0) ≡ entry cache i j)
unfolding sequence_length
build_batch_total_example =
    build_batch_total cache cache-Inv (omega arith) one_active ((omega arith, omega arith), tt) refl
      refl

run-IsBatch_example : IsBatch (run one_active (adds cache (pos 1) ∷ removes (pos 0) ∷ []))
run-IsBatch_example =
    run-IsBatch one_active (adds cache (pos 1) ∷ removes (pos 0) ∷ []) one_active-IsBatch

abbrev none_active : Attention
none_active = record { max_batch_size = pos 2; active_sequence_ids = [] }
