-- ===== src/Tests/Paged.antt =====
-- A small paged cache of four blocks of two tokens, with two sequences, and the theorems on it.
use llmengine.Base.{
  Bool, List, [], arith, count, false, get_or, if◌then◌else◌, leb, length, ltb, pos, pos_part, refl,
  replicate, subst, suc, true, zero, ℕ, ◌*◌, ◌+◌, ◌<◌, ◌∷◌, ◌≡◌, ◌≤◌,
}
use llmengine.Core.Status.{ok, is_ok}
use llmengine.Cache.Paged.{
  PagedKvCache, ceil_div_int, as_size, push_free_blocks, seq_at, free_block_count, no_such_sequence,
  default, init,
}
use llmengine.Cache.Paged.Blocks.{
  ensure_sequence, free_sequence, has_sequence, sequence_length, take_block, take_blocks,
  reserve_blocks, reserve_sequence, set_sequence_length, physical_block_for_position,
}
use llmengine.Cache.Paged.Tokens.{
  row_index, mutable_token_ptr, write_at, no_layer, storage, memcpy, load, write_token,
}
use llmengine.Cache.Paged.Invariant.{Inv}
use llmengine.Cache.Paged.Room.{Reserved, reserve_sequence-Reserved}
use llmengine.Cache.Paged.Cells.{IsStored}
use llmengine.Cache.Paged.Tokens.{storage, no_layer}
use llmengine.Cache.Paged.{as_size, ceil_div_int}
use llmengine.Cache.Paged.ReadBack.{row_index_in_bounds}
use llmengine.Cache.Paged.Freeing.{free_sequence_returns}
use llmengine.Cache.Paged.Addresses.{row_index_injective, physical_block_total}
use llmengine.Cache.Paged.Counts.{total}
use llmengine.Cache.Paged.Outcome.{reserve_sequence_outcome, reserve_sequence_fails}
use llmengine.Cache.Paged.Isolation.{write_token-keeps}
use llmengine.Cache.Paged.Run.{
  Call, inits, reserves, sets_length, step, run, run-Inv, default-Inv, run_partition,
}

abbrev calls : List (Call ℕ)
calls =
    inits (pos 1) (pos 1) (pos 2) (pos 2) (pos 4)
    ∷ reserves (pos 0) (pos 3)
    ∷ reserves (pos 1) (pos 1)
    ∷ sets_length (pos 0) (pos 3)
    ∷ sets_length (pos 1) (pos 1)
    ∷ []

-- The cache after these calls.
abbrev two_seqs : PagedKvCache ℕ
two_seqs = record {
  layers = record { k = replicate 16 0; v = replicate 16 0 } ∷ [];
  free_blocks = 3 ∷ [];
  block_used = true ∷ true ∷ true ∷ false ∷ [];
  sequences =
      record { length = 3; blocks = 0 ∷ 1 ∷ [] } ∷ record { length = 1; blocks = 2 ∷ [] } ∷ [];
  num_kv_heads = 1;
  head_dim = 2;
  block_size = 2;
  max_blocks = 4;
}

run-two_seqs : run 0 default calls ≡ two_seqs
unfolding run step init as_size ceil_div_int reserve_sequence set_sequence_length ensure_sequence
    reserve_blocks take_blocks take_block push_free_blocks
run-two_seqs = refl

two_seqs-Inv : Inv two_seqs
two_seqs-Inv = subst (λ c. Inv c) run-two_seqs (run-Inv 0 default calls default-Inv)

two_seqs-IsStored : IsStored two_seqs
unfolding as_size
two_seqs-IsStored = record {
  width = omega arith;
  addressed = omega arith;
  sized = λ h. omega arith;
  lengths = λ key l h. stored key l (omega (arith, h));
}
  where
    stored :
        (key : Bool) (l : ℕ) → l < 1 → length (storage key (get_or two_seqs.layers l no_layer)) ≡ 16
    stored true zero h = refl
    stored false zero h = refl
    stored key (suc l) h = absurd (omega (arith, h))

run_partition_example :
    let c = run 0 default calls in
    (count 2 c.free_blocks + total 2 c.sequences ≡ (if ltb 2 c.max_blocks then 1 else 0))
    × (get_or c.block_used 2 false ≡ ltb 0 (total 2 c.sequences))
run_partition_example = run_partition 0 calls 2

run-Inv_example : Inv (run 0 two_seqs calls)
run-Inv_example = run-Inv 0 two_seqs calls two_seqs-Inv

row_index_injective_example :
    (pos_part (pos 0) ≡ pos_part (pos 0)) × (pos_part (pos 2) ≡ pos_part (pos 2))
unfolding physical_block_for_position as_size
row_index_injective_example =
    row_index_injective two_seqs (pos 0) (pos 0) (pos 2) (pos 2) two_seqs-Inv (omega arith)
      (omega arith) (omega arith) refl refl refl

row_index_in_bounds_example : row_index two_seqs 1 2 + 2 ≤ 16
unfolding physical_block_for_position as_size
row_index_in_bounds_example =
    row_index_in_bounds two_seqs (pos 0) (pos 2) 0 true two_seqs-Inv two_seqs-IsStored (omega arith)
      refl

physical_block_total_example :
    (b : ℕ) × (physical_block_for_position (pos 0) (pos 2) two_seqs ≡ ok b) × (b < 4)
unfolding sequence_length
physical_block_total_example =
    physical_block_total (pos 0) (pos 2) two_seqs two_seqs-Inv (omega arith) refl (omega arith)
      (omega arith)

reserve_sequence-Reserved_example : Reserved 1 4 (reserve_sequence (pos 1) (pos 4) two_seqs).1
unfolding reserve_sequence ensure_sequence reserve_blocks ceil_div_int take_blocks take_block
reserve_sequence-Reserved_example =
    reserve_sequence-Reserved (pos 1) (pos 4) two_seqs two_seqs-Inv (omega arith) refl

free_sequence_returns_example :
    (free_block_count (free_sequence (pos 0) two_seqs).1
      ≡ free_block_count two_seqs
        + (if no_such_sequence two_seqs (pos 0) then 0 else length (seq_at two_seqs 0).blocks))
    × (has_sequence (pos 0) (free_sequence (pos 0) two_seqs).1 ≡ false)
free_sequence_returns_example = free_sequence_returns (pos 0) two_seqs two_seqs-Inv

reserve_sequence_outcome_example :
    is_ok (reserve_sequence (pos 1) (pos 9) two_seqs).0
    ≡ leb 9 ((length (seq_at two_seqs 1).blocks + free_block_count two_seqs) * 2)
reserve_sequence_outcome_example = reserve_sequence_outcome 1 9 two_seqs refl (omega arith)

reserve_sequence_fails_example :
    (seq_at (reserve_sequence (pos 1) (pos 9) two_seqs).1 0 ≡ seq_at two_seqs 0)
    × ((reserve_sequence (pos 1) (pos 9) two_seqs).1.free_blocks ≡ two_seqs.free_blocks)
unfolding reserve_sequence ensure_sequence reserve_blocks ceil_div_int
reserve_sequence_fails_example = reserve_sequence_fails (pos 1) (pos 9) 0 two_seqs refl

-- The cache after a write of the first token of sequence 0.
abbrev written : PagedKvCache ℕ
written = record two_seqs {
  layers = record { k = 5 ∷ 6 ∷ replicate 14 0; v = 7 ∷ 8 ∷ replicate 14 0 } ∷ [];
}

write_token-keeps_example :
    load 0 (record { key = true; layer = 0; index = row_index two_seqs 2 0 }) 1 written
    ≡ load 0 (record { key = true; layer = 0; index = row_index two_seqs 2 0 }) 1 two_seqs
unfolding write_token mutable_token_ptr physical_block_for_position memcpy write_at row_index
    as_size
write_token-keeps_example =
    write_token-keeps (pos 0) (pos 1) (pos 0) (pos 0) 0 0 1 0 (5 ∷ 6 ∷ []) (7 ∷ 8 ∷ []) two_seqs
      written true 0 two_seqs-Inv (omega arith) (omega arith) refl refl
      (λ e f. absurd (omega (arith, e))) (omega arith)
