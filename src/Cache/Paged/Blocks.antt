-- ===== src/Cache/Paged/Blocks.antt =====
-- The sequences and their block tables: `ensure_sequence` to `physical_block_for_position` of
-- src/runtime/cache/paged_kv_cache.cpp.
use llmengine.Base.{
  Bool, List, Option, [], false, get_or, if◌then◌else◌, is_empty, is_neg, leb, length, ltb, none,
  not, pos_part, resize, set, some, suc, true, zero, ℕ, ℤ, ◌&&◌, ◌*◌, ◌++◌, ◌-◌, ◌/◌, ◌==◌, ◌||◌,
  ◌∷◌,
}
use llmengine.Core.Status.{
  invalid_argument, out_of_range, runtime_error, not_found, Result, ok, err, Status, make_ok,
}
use llmengine.Cache.Paged.{
  PagedKvCache, ceil_div_int, no_sequence, seq_at, initialized, free_block_count, no_such_sequence,
}

module _ {F : Type 0} where
  unfoldable pub ensure_sequence : ℤ → PagedKvCache F → Status × PagedKvCache F
  ensure_sequence id c =
      if not (initialized c)
      then (err runtime_error, c)
      else if is_neg id
      then (err invalid_argument, c)
      else if leb (length c.sequences) (pos_part id)
      then (make_ok, record c { sequences = resize (suc (pos_part id)) no_sequence c.sequences })
      else (make_ok, c)

  -- The body of the loop of `free_sequence`.
  unfoldable pub free_block : PagedKvCache F → ℕ → PagedKvCache F
  free_block c b =
      if ltb b c.max_blocks && get_or c.block_used b false
      then record c { block_used = set c.block_used b false; free_blocks = b ∷ c.free_blocks }
      else c

  unfoldable pub free_each : PagedKvCache F → List ℕ → PagedKvCache F
  unfolding free_block
  free_each c [] = c
  free_each c (b ∷ bs) = free_each (free_block c b) bs

  unfoldable pub free_sequence : ℤ → PagedKvCache F → Status × PagedKvCache F
  unfolding free_each
  free_sequence id c =
      let i = pos_part id in
      if no_such_sequence c id
      then (make_ok, c)
      else let c' = free_each c (seq_at c i).blocks in
        (make_ok, record c' { sequences = set c'.sequences i no_sequence })

  unfoldable pub has_sequence : ℤ → PagedKvCache F → Bool
  has_sequence id c =
      not (no_such_sequence c id)
      && (not (is_empty (seq_at c (pos_part id)).blocks) || ltb 0 (seq_at c (pos_part id)).length)

  unfoldable pub sequence_length : ℤ → PagedKvCache F → ℕ
  sequence_length id c = if no_such_sequence c id then 0 else (seq_at c (pos_part id)).length

  unfoldable pub sequence_capacity : ℤ → PagedKvCache F → ℕ
  sequence_capacity id c =
      if no_such_sequence c id then 0 else length (seq_at c (pos_part id)).blocks * c.block_size

  -- A null pointer is `none`.
  unfoldable pub block_table : ℤ → PagedKvCache F → Option (List ℕ)
  block_table id c = if no_such_sequence c id then none else some (seq_at c (pos_part id)).blocks

  -- The body of the loop of `reserve_sequence`. `back` of an empty vector, which the caller's test
  -- rules out, is written as no change.
  unfoldable pub take_block : ℕ → PagedKvCache F → PagedKvCache F
  take_block i c = elim c.free_blocks [
    | [] ↦ c
    | b ∷ rest ↦
        let s = seq_at c i in
        record c {
          free_blocks = rest;
          block_used = set c.block_used b true;
          sequences = set c.sequences i (record s { blocks = s.blocks ++ b ∷ [] });
        }
  ]

  unfoldable pub take_blocks : ℕ → ℕ → PagedKvCache F → PagedKvCache F
  unfolding take_block
  take_blocks zero i c = c
  take_blocks (suc n) i c = take_blocks n i (take_block i c)

  -- The part of `reserve_sequence` behind the two argument checks.
  unfoldable pub reserve_blocks : ℕ → ℕ → PagedKvCache F → Status × PagedKvCache F
  unfolding take_blocks ceil_div_int
  reserve_blocks i total c =
      let needed = if total == 0 then 0 else ceil_div_int total c.block_size in
      let current = length (seq_at c i).blocks in
      if leb needed current
      then (make_ok, c)
      else if ltb (free_block_count c) (needed - current)
      then (err out_of_range, c)
      else (make_ok, take_blocks (needed - current) i c)

  unfoldable pub reserve_sequence : ℤ → ℤ → PagedKvCache F → Status × PagedKvCache F
  unfolding ensure_sequence reserve_blocks
  reserve_sequence id total c =
      let (st, c') = ensure_sequence id c in
      elim st [
        | err e ↦ (err e, c')
        | ok _ ↦
            if is_neg total
            then (err invalid_argument, c')
            else reserve_blocks (pos_part id) (pos_part total) c'
      ]

  -- `sequences_[i].length = n`
  abbrev pub with_length : ℕ → ℕ → PagedKvCache F → PagedKvCache F
  with_length i n c = record c {
    sequences = set c.sequences i (record (seq_at c i) { length = n });
  }

  unfoldable pub set_sequence_length : ℤ → ℤ → PagedKvCache F → Status × PagedKvCache F
  unfolding reserve_sequence
  set_sequence_length id n c =
      if is_neg n
      then (err invalid_argument, c)
      else let (st, c') = reserve_sequence id n c in
        elim st [
          | err e ↦ (err e, c')
          | ok _ ↦ (make_ok, with_length (pos_part id) (pos_part n) c')
        ]

  unfoldable pub physical_block_for_position : ℤ → ℤ → PagedKvCache F → Result ℕ
  physical_block_for_position id token_pos c =
      let blocks = (seq_at c (pos_part id)).blocks in
      let logical_block = pos_part token_pos / c.block_size in
      if no_such_sequence c id
      then err not_found
      else if is_neg token_pos
      then err out_of_range
      else if leb (length blocks) logical_block
      then err out_of_range
      else ok (get_or blocks logical_block 0)
