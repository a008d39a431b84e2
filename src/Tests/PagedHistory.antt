-- ===== src/Tests/PagedHistory.antt =====
-- A history of calls with a write, and the theorems on the paged cache as a map at it.
use llmengine.Base.{List, [], arith, false, pos, refl, some, ℕ, ◌∷◌, ◌≡◌}
use llmengine.Core.Status.{ok}
use llmengine.Cache.Paged.{
  PagedKvCache, ceil_div_int, int_sum, as_size, push_free_blocks, default, init,
}
use llmengine.Cache.Paged.Blocks.{
  ensure_sequence, free_block, free_each, free_sequence, sequence_length, take_block, take_blocks,
  reserve_blocks, reserve_sequence, physical_block_for_position,
}
use llmengine.Cache.Paged.Tokens.{
  Ptr, row_index, mutable_token_ptr, token_ptr, write_at, memcpy, load, write_token, write_loop,
  write_rows, write_tokens,
}
use llmengine.Cache.Paged.{as_size, ceil_div_int, int_sum}
use llmengine.Cache.Paged.Tokens.{row_index}
use llmengine.Cache.Paged.Keeping.{pool_fits}
use llmengine.Cache.Paged.Contents.{nothing, put, forget, Refines}
use llmengine.Cache.Paged.Store.{after_write, write_tokens-Refines}
use llmengine.Cache.Paged.Run.{Call, inits, resets, frees, reserves, writes, step, run}
use llmengine.Cache.Paged.History.{
  supplied, spec_step, all_supplied, spec_run, run-Refines, default-Refines, token_ptr_reads,
}

-- Two sequences, of which one gets two tokens in two blocks, and the other is freed.
abbrev calls : List (Call ℕ)
calls =
    inits (pos 1) (pos 1) (pos 2) (pos 2) (pos 4)
    ∷ reserves (pos 1) (pos 1)
    ∷ writes (pos 0) (pos 0) (pos 1) (some (1 ∷ 2 ∷ 3 ∷ 4 ∷ [])) (some (5 ∷ 6 ∷ 7 ∷ 8 ∷ [])) (pos 2)
    ∷ frees (pos 1)
    ∷ []

abbrev rest : PagedKvCache ℕ
rest = run 0 default calls

rest-Refines : Refines 0 rest (spec_run 0 0 default nothing calls)
unfolding all_supplied supplied step init reserve_sequence ensure_sequence reserve_blocks
    take_blocks take_block push_free_blocks write_tokens write_rows write_loop write_token as_size
    ceil_div_int int_sum pool_fits sequence_length row_index mutable_token_ptr
    physical_block_for_position memcpy write_at
rest-Refines = run-Refines 0 0 default nothing calls (default-Refines 0) refl

run-Refines_example :
    Refines 0
      (run 0 rest (frees (pos 0) ∷ resets ∷ []))
      (spec_run 0 0 rest (spec_run 0 0 default nothing calls) (frees (pos 0) ∷ resets ∷ []))
unfolding all_supplied supplied step free_sequence
run-Refines_example =
    run-Refines 0 0 rest (spec_run 0 0 default nothing calls) (frees (pos 0) ∷ resets ∷ [])
      rest-Refines refl

-- The second value of the token at position 2, which is in the second block.
token_ptr_reads_example :
    (q : Ptr) × (token_ptr false (pos 0) (pos 0) (pos 2) (pos 0) rest ≡ ok q)
    × (load 0 q 1 rest ≡ 8)
unfolding all_supplied supplied step run spec_run spec_step put forget nothing init reserve_sequence
    ensure_sequence reserve_blocks take_blocks take_block push_free_blocks write_tokens write_rows
    write_loop write_token mutable_token_ptr physical_block_for_position memcpy write_at
    free_sequence free_each free_block sequence_length as_size ceil_div_int int_sum row_index
token_ptr_reads_example =
    token_ptr_reads 0 rest (spec_run 0 0 default nothing calls) false 0 0 2 0 1 8 rest-Refines
      (omega arith) (omega arith) (omega arith) refl

write_tokens-Refines_example :
    Refines 0
      (write_tokens (pos 1) (pos 0) (pos 0) (some (1 ∷ 2 ∷ [])) (some (3 ∷ 4 ∷ [])) (pos 1) rest).1
      (after_write 0 2 1 0 0 1
        (1 ∷ 2 ∷ [])
        (3 ∷ 4 ∷ [])
        (spec_run 0 0 default nothing calls)
        (write_tokens
          (pos 1)
          (pos 0)
          (pos 0)
          (some (1 ∷ 2 ∷ []))
          (some (3 ∷ 4 ∷ []))
          (pos 1)
          rest).0)
unfolding run step init reserve_sequence ensure_sequence reserve_blocks take_blocks take_block
    push_free_blocks write_tokens write_rows write_loop write_token mutable_token_ptr
    physical_block_for_position memcpy write_at free_sequence free_each free_block as_size
    ceil_div_int int_sum row_index
write_tokens-Refines_example =
    write_tokens-Refines 0 rest (spec_run 0 0 default nothing calls) (pos 1) (pos 0) (pos 0) (pos 1)
      (1 ∷ 2 ∷ []) (3 ∷ 4 ∷ []) rest-Refines (omega arith) (omega arith) (omega arith)
