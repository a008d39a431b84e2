-- ===== src/Cache/Paged/Taking.antt =====
-- The blocks that `reserve_sequence` of src/runtime/cache/paged_kv_cache.cpp takes from the pool.
use llmengine.Base.{
  List-cases, [], ap, arith, get_or-set_self, inl, inr, length, length-append, length-set, refl,
  suc, zero, ℕ, ◌+◌, ◌<◌, ◌∙◌, ◌∷◌, ◌≡◌, ◌≤◌,
}
use llmengine.Cache.Paged.{Sequence, PagedKvCache, no_sequence, seq_at, free_block_count}
use llmengine.Cache.Paged.Blocks.{take_block, take_blocks}
use llmengine.Cache.Paged.Invariant.{Inv, pushed, take_block-Inv}

module _ {F : Type 0} where
  pub length-take_block :
      (i : ℕ) (c : PagedKvCache F) → length (take_block i c).sequences ≡ length c.sequences
  unfolding take_block
  length-take_block i c = elim (List-cases c.free_blocks) [
    | inl e ↦ rw (e, take_block)
    | inr (b, rest, e) ↦ rw (e, take_block) (length-set c.sequences i (pushed i b c))
  ]

  take_block-shape :
      (i : ℕ) (c : PagedKvCache F)
      → ((take_block i c).block_size ≡ c.block_size)
        × ((take_block i c).max_blocks ≡ c.max_blocks)
        × ((take_block i c).layers ≡ c.layers)
  unfolding take_block
  take_block-shape i c = ground arith

  -- A block that is at hand moves from the free list to the table of sequence `i`.
  take_block_moves :
      (i : ℕ) (c : PagedKvCache F)
      → i < length c.sequences
      → 0 < free_block_count c
      → (free_block_count (take_block i c) + 1 ≡ free_block_count c)
        × (length (seq_at (take_block i c) i).blocks ≡ length (seq_at c i).blocks + 1)
  unfolding take_block
  take_block_moves i c h p = elim (List-cases c.free_blocks) [
    | inl e ↦ absurd (omega (arith, ap length e))
    | inr (b, rest, e) ↦
        rw (e, take_block)
          (
            omega arith,
            ap (λ (s : Sequence). length s.blocks)
                  (get_or-set_self c.sequences i (pushed i b c) no_sequence h)
                ∙ length-append (seq_at c i).blocks (b ∷ []),
          )
  ]

  pub take_blocks-Inv :
      (n i : ℕ) (c : PagedKvCache F) → i < length c.sequences → Inv c → Inv (take_blocks n i c)
  unfolding take_blocks
  take_blocks-Inv zero i c h v = v
  take_blocks-Inv (suc n) i c h v =
      take_blocks-Inv n i (take_block i c) (omega (arith, length-take_block i c))
        (take_block-Inv i c h v)

  pub take_blocks_move :
      (n i : ℕ) (c : PagedKvCache F)
      → i < length c.sequences
      → n ≤ free_block_count c
      → (free_block_count (take_blocks n i c) + n ≡ free_block_count c)
        × (length (seq_at (take_blocks n i c) i).blocks ≡ length (seq_at c i).blocks + n)
        × (length (take_blocks n i c).sequences ≡ length c.sequences)
        × ((take_blocks n i c).block_size ≡ c.block_size)
  unfolding take_blocks
  take_blocks_move zero i c h p = (omega arith, omega arith, refl, refl)
  take_blocks_move (suc n) i c h p =
      let step = take_block_moves i c h (omega arith) in
      let size = length-take_block i c in
      let rest = take_blocks_move n i (take_block i c) (omega arith) (omega arith) in
      (omega arith, omega arith, omega arith, rest.3 ∙ (take_block-shape i c).0)
