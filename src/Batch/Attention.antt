-- ===== src/Batch/Attention.antt =====
-- The batches of paged attention: include/minillm/runtime/cache/paged_attention_scheduler.h and
-- src/runtime/cache/paged_attention_scheduler.cpp. The cache that the scheduler refers to is an
-- argument. Active identifiers are non-negative (`add_sequence` checks it) and are kept as ℕ; the
-- padding -1 of a block table is an integer. The head of `block_tables` is its first element.
pub mod Active
pub mod Rows
pub mod Table
use llmengine.Base.{
  Bool, List, [], contains, false, if◌then◌else◌, is_empty, is_neg, leb, length, ltb, ltb_ℤ, map,
  max, negsuc, none, nonpositive, not, pos, pos_part, replicate, some, take, ℕ, ℤ, ◌++◌, ◌+◌, ◌-◌,
  ◌/◌, ◌==◌, ◌||◌, ◌∷◌,
}
use llmengine.Core.Status.{
  invalid_argument, out_of_range, runtime_error, internal_error, not_found, Result, ok, err, Status,
  make_ok, ◌>>=◌, ◌>>◌,
}
use llmengine.Cache.Paged.{PagedKvCache}
use llmengine.Cache.Paged.Blocks.{has_sequence, sequence_length, block_table}

-- `PagedAttentionBatch`
pub record Batch : Type 0 where
  pub sequence_ids : List ℕ
  pub sequence_lengths : List ℕ
  pub block_tables : List ℤ
  pub batch_size : ℕ
  pub max_blocks_per_sequence : ℕ
  pub block_size : ℕ
  pub num_kv_heads : ℕ
  pub head_dim : ℕ

pub record Attention : Type 0 where
  pub max_batch_size : ℤ
  pub active_sequence_ids : List ℕ

-- `PagedAttentionScheduler(cache, max_batch_size)`
abbrev pub start : ℤ → Attention
start n = record { max_batch_size = n; active_sequence_ids = [] }

abbrev pub blocks_for_length : ℕ → ℕ → ℕ
blocks_for_length length block_size = (length + block_size - 1) / block_size

unfoldable pub is_active : ℤ → Attention → Bool
is_active (pos i) s = contains i s.active_sequence_ids
is_active (negsuc i) s = false

-- `erase` of the first occurrence.
unfoldable pub erase_first : ℕ → List ℕ → List ℕ
erase_first i [] = []
erase_first i (x ∷ xs) = if i == x then xs else x ∷ erase_first i xs

unfoldable pub remove_sequence : ℤ → Attention → Status × Attention
unfolding erase_first
remove_sequence (pos i) s =
    (make_ok, record s { active_sequence_ids = erase_first i s.active_sequence_ids })
remove_sequence (negsuc i) s = (make_ok, s)

unfoldable pub clear : Attention → Attention
clear s = record s { active_sequence_ids = [] }

module _ {F : Type 0} where
  unfoldable pub add_sequence : PagedKvCache F → ℤ → Attention → Status × Attention
  unfolding is_active
  add_sequence c id s =
      if nonpositive s.max_batch_size
      then (err invalid_argument, s)
      else if is_neg id
      then (err invalid_argument, s)
      else if not (has_sequence id c) || leb (sequence_length id c) 0
      then (err not_found, s)
      else if is_active id s
      then (make_ok, s)
      else if leb (pos_part s.max_batch_size) (length s.active_sequence_ids)
      then (err out_of_range, s)
      else (make_ok, record s { active_sequence_ids = s.active_sequence_ids ++ pos_part id ∷ [] })

  -- One round of the first loop of `build_batch`: the length and the blocks of one sequence.
  unfoldable pub measure : PagedKvCache F → ℕ → Result (ℕ × ℕ)
  unfolding sequence_length block_table
  measure c i =
      let n = sequence_length (pos i) c in
      elim (block_table (pos i) c) [
        | none ↦ err not_found
        | some table ↦
            if leb n 0
            then err not_found
            else if ltb (length table) (blocks_for_length n c.block_size)
            then err internal_error
            else ok (n, blocks_for_length n c.block_size)
      ]

  -- The loop: the lengths, and the maximum of `widest` and of the blocks needed.
  unfoldable pub measure_all : PagedKvCache F → List ℕ → ℕ → Result (List ℕ × ℕ)
  unfolding measure
  measure_all c [] widest = ok ([], widest)
  measure_all c (i ∷ rest) widest = do
    (n, needed) ← measure c i
    (lengths, widest') ← measure_all c rest (max widest needed)
    ok (n ∷ lengths, widest')

  -- One row of `block_tables`: the first `needed` blocks, then -1.
  unfoldable pub table_row : PagedKvCache F → ℕ → ℕ → ℕ → List ℤ
  unfolding block_table
  table_row c i needed width = elim (block_table (pos i) c) [
    | none ↦ replicate width (negsuc 0)
    | some table ↦ map pos (take needed table) ++ replicate (width - needed) (negsuc 0)
  ]

  -- The second loop, a row for each sequence and its length.
  unfoldable pub table_rows : PagedKvCache F → ℕ → List ℕ → List ℕ → List ℤ
  unfolding table_row
  table_rows c width [] lengths = []
  table_rows c width (i ∷ ids) [] = []
  table_rows c width (i ∷ ids) (n ∷ lengths) =
      table_row c i (blocks_for_length n c.block_size) width ++ table_rows c width ids lengths

  -- The part of `build_batch` behind its first loop.
  unfoldable pub finish_batch : PagedKvCache F → List ℕ → List ℕ → ℕ → Result Batch
  unfolding table_rows
  finish_batch c ids lengths widest =
      if leb widest 0
      then err runtime_error
      else ok (record {
        sequence_ids = ids;
        sequence_lengths = lengths;
        block_tables = table_rows c widest ids lengths;
        batch_size = length ids;
        max_blocks_per_sequence = widest;
        block_size = c.block_size;
        num_kv_heads = c.num_kv_heads;
        head_dim = c.head_dim;
      })

  unfoldable pub build_batch : PagedKvCache F → Attention → Result Batch
  unfolding measure_all finish_batch
  build_batch c s =
      if is_empty s.active_sequence_ids
      then err invalid_argument
      else if ltb_ℤ s.max_batch_size (pos (length s.active_sequence_ids))
      then err internal_error
      else (do
        (lengths, widest) ← measure_all c s.active_sequence_ids 0
        finish_batch c s.active_sequence_ids lengths widest)
